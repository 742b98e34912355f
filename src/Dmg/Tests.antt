-- ===== src/Dmg/Tests.antt =====
-- Runs of src/format/dmg.rs on small blocks and images.
use newtua_core.Base.{
  equal, length, replicate, ◌≤◌, ◌≡◌, refl, none, some, List, [], ◌∷◌, ◌++◌, arith,
}
use newtua_core.Base.Bytes.{Bytes, slice?}
use newtua_core.Error.{corrupt, ok, err, guard, Ensures}
use newtua_core.Dmg.Adc.{adc_decode}
use newtua_core.Dmg.Adc.Bounds.{adc_decode-Fits}
use newtua_core.Dmg.Adc.RoundTrip.{
  Token, literal, short, encode, copied, copy_more, Replays, finished, literally, by_short,
  adc_decode-encode,
}
use newtua_core.Dmg.Fields.{Mish}
use newtua_core.Dmg.Plist.{
  element, other_node, nil, cons, key_tag, dict_tag, data_key, first_element, value_in, dict_value,
}
use newtua_core.Dmg.Image.{entry_raw, decode_by_type, decode_chunk}
use newtua_core.Dmg.Volumes.{sweep_loop, sweep_for_volume}
use newtua_core.Dmg.Volumes.Sweep.{FirstVolume, sweep_for_volume-FirstVolume}

-- "ab", then four bytes from two bytes back, two of which the match makes itself.
abbrev tokens : List Token
tokens = literal (b'a' ∷ b'b' ∷ []) ∷ short 2 4 ∷ []

abbrev ababab : Bytes
ababab = b'a' ∷ b'b' ∷ b'a' ∷ b'b' ∷ b'a' ∷ b'b' ∷ []

tokens-Replays : Replays tokens [] ababab
tokens-Replays = literally (omega arith) (omega arith) (
    by_short
      (record {
        counted = refl;
        least = omega arith;
        most = omega arith;
        some_way = omega arith;
        within = omega arith;
        near = omega arith;
        copies = copy_more refl (copy_more refl (copy_more refl (copy_more refl copied)));
      })
      finished)

adc_decode-encode_example : adc_decode (encode tokens) 6 ≡ ok ababab
adc_decode-encode_example = adc_decode-encode tokens ababab tokens-Replays

adc_decode-Fits_example : Ensures (λ out. length out ≤ 3) (adc_decode (129 ∷ 1 ∷ 2 ∷ 5 ∷ []) 3)
adc_decode-Fits_example = adc_decode-Fits (129 ∷ 1 ∷ 2 ∷ 5 ∷ []) 3

abbrev small_mish : Mish
small_mish = record {
  sector_number = 3;
  sector_count = 1;
  data_offset = 0;
  chunks =
      record {
        entry_type = 0x8000_0004;
        sector_number = 0;
        sector_count = 1;
        compressed_offset = 7;
        compressed_length = 300;
      }
      ∷ [];
}

-- The second sector has the magic at byte 1, and opens.
abbrev two_sectors : Bytes
two_sectors = replicate 513 0 ++ 9 ∷ []

sweep_for_volume-FirstVolume_example :
    Ensures
      (FirstVolume (λ sig. equal sig (9 ∷ [])) 1 1 (λ _ s. ok s) two_sectors)
      (sweep_for_volume (λ sig. equal sig (9 ∷ [])) 1 1 (λ _ s. ok s) two_sectors)
sweep_for_volume-FirstVolume_example =
    sweep_for_volume-FirstVolume (λ sig. equal sig (9 ∷ [])) 1 1 (λ _ s. ok s) two_sectors
      (omega arith)

second_found :
    sweep_for_volume (λ sig. equal sig (9 ∷ [])) 1 1 (λ _ s. ok s) two_sectors ≡ ok (some 512)
unfolding sweep_for_volume sweep_loop slice? equal
second_found = refl

-- "<dict><key>Data</key><data>QQ==</data></dict>"
data_found :
    dict_value
      (element dict_tag none (
        cons
          (element key_tag (some data_key) nil)
          (cons other_node (cons (element data_key (some (b'Q' ∷ [])) nil) nil))))
      data_key
    ≡ some (element data_key (some (b'Q' ∷ [])) nil)
unfolding dict_value value_in first_element equal
data_found = refl

-- A chunk of two sectors' bytes is refused where one is promised.
length_checked :
    decode_chunk
      (record { zlib = λ b. ok b; bzip2 = λ b. ok b; lzma = λ b. ok b; lzfse = λ b. ok b })
      entry_raw
      (1 ∷ 2 ∷ [])
      1
    ≡ err (corrupt "dmg: chunk decoded to a wrong number of bytes")
unfolding decode_chunk decode_by_type guard
length_checked = refl
