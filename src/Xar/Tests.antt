-- ===== src/Xar/Tests.antt =====
-- Runs of the guard of src/format/xar.rs.
use newtua_core.Base.{◌≡◌, refl, true, false, [], ◌∷◌, ◌++◌}
use newtua_core.Base.Bytes.{Bytes}
use newtua_core.Base.Text.{strip_prefix}
use newtua_core.Error.{ok}
use newtua_core.Xar.{after_byte, tag_end, at_angle, nesting_loop, exceeds_nesting_depth}

-- "<a>"
abbrev tag : Bytes
tag = b'<' ∷ b'a' ∷ b'>' ∷ []

-- "<?p ></a>?>", a processing instruction.
abbrev instruction : Bytes
instruction = b'<' ∷ b'?' ∷ b'p' ∷ b' ' ∷ b'>' ∷ b'<' ∷ b'/' ∷ b'a' ∷ b'>' ∷ b'?' ∷ b'>' ∷ []

three_deep : exceeds_nesting_depth (tag ++ (tag ++ tag)) 2 ≡ ok true
unfolding exceeds_nesting_depth nesting_loop at_angle strip_prefix tag_end
three_deep = refl

-- The closing tag inside an instruction is no tag of the document, yet it counts as one.
nesting_hidden :
    exceeds_nesting_depth (tag ++ (instruction ++ (tag ++ (instruction ++ tag)))) 2 ≡ ok false
unfolding exceeds_nesting_depth nesting_loop at_angle strip_prefix tag_end after_byte
nesting_hidden = refl
