-- ===== src/Archive/Confidence.antt =====
-- src/archive.rs: `Confidence(u8)` and its constants.
use newtua_core.Base.{ℕ}

abbrev pub Confidence : Type 0
Confidence = ℕ

abbrev pub none : Confidence
none = 0

abbrev pub extension : Confidence
extension = 50

abbrev pub magic : Confidence
magic = 100
