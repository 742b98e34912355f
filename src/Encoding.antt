-- ===== src/Encoding.antt =====
-- src/encoding.rs: one encoding for all the names of an archive. The crates encoding_rs and
-- chardetng are a parameter.
use newtua_core.Base.{
  if◌then◌else◌, Bool, true, false, ◌&&◌, Option, none, some, List, [], ◌∷◌, map,
}
use newtua_core.Base.Bytes.{Bytes}
use newtua_core.Base.Utf8.{is_utf8}

-- What the code calls of `encoding_rs::Encoding` and `chardetng::EncodingDetector`.
pub record Codecs : Type 1 where
  pub Encoding : Type 0
  pub Detector : Type 0
  pub for_label : Bytes → Option Encoding
  pub utf_8 : Encoding
  pub name : Encoding → Bytes
  pub decode : Encoding → Bytes → Bytes
  pub new : Detector
  pub feed : Detector → Bytes → Bool → Detector
  pub guess : Detector → Encoding

unfoldable pub all_utf8 : List Bytes → Bool
all_utf8 [] = true
all_utf8 (b ∷ bs) = is_utf8 b && all_utf8 bs

module _ (c : Codecs) where
  open c use {Encoding, Detector, for_label, utf_8, name, decode, new, feed, guess}

  unfoldable pub feed_all : Detector → List Bytes → Detector
  feed_all det [] = det
  feed_all det (b ∷ bs) = feed_all (feed det b false) bs

  -- The part behind the override.
  unfoldable pub detected : List Bytes → Encoding
  detected raw = if all_utf8 raw then utf_8 else guess (feed (feed_all new raw) [] true)

  unfoldable pub resolve_label : List Bytes → Option Encoding → Encoding
  resolve_label raw (some enc) = enc
  resolve_label raw none = detected raw

  abbrev label_encoding : Option Bytes → Option Encoding
  label_encoding none = none
  label_encoding (some label) = for_label label

  unfoldable pub resolve_encoding : List Bytes → Option Bytes → Encoding
  unfolding resolve_label
  resolve_encoding raw override_label = resolve_label raw (label_encoding override_label)

  unfoldable pub decode_names : List Bytes → Option Bytes → List Bytes
  decode_names raw override_label = map (decode (resolve_encoding raw override_label)) raw

  unfoldable pub detect_encoding : List Bytes → Option Bytes → Bytes
  detect_encoding raw override_label = name (resolve_encoding raw override_label)
