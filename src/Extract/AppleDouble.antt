-- ===== src/Extract/AppleDouble.antt =====
-- src/extract.rs: the AppleDouble sidecar of a resource fork.
pub mod RoundTrip
use newtua_core.Base.{
  ◌==◌, if◌then◌else◌, length, take, drop, replicate, ℕ, zero, suc, ◌+◌, ◌%◌, ◌^◌, ◌&&◌, Option,
  none, some, ◌++◌,
}
use newtua_core.Base.Bytes.{Bytes, slice?, to_be, from_be}

abbrev pub appledouble_magic : ℕ
appledouble_magic = 0x0005_1607

abbrev pub appledouble_version : ℕ
appledouble_version = 0x0002_0000

abbrev pub appledouble_resource_fork_id : ℕ
appledouble_resource_fork_id = 2

abbrev pub appledouble_header_len : ℕ
appledouble_header_len = 38

-- `buf`
unfoldable pub sidecar_bytes : Bytes → Bytes
sidecar_bytes fork =
    to_be 4 appledouble_magic
    ++ (to_be 4 appledouble_version
        ++ (replicate 16 0
            ++ (to_be 2 1
                ++ (to_be 4 appledouble_resource_fork_id
                    ++ (to_be 4 appledouble_header_len
                        ++ (to_be 4 (length fork % 2 ^ 32) ++ fork))))))

-- A reader of the format, as Apple's documentation has it: 26 bytes of header, then the descriptors
-- of the entries, of 12 bytes each; the descriptor of an id gives the place of its data.
abbrev pub number_at : Bytes → ℕ → ℕ → ℕ
number_at file off n = from_be (take n (drop off file))

unfoldable pub find_descriptor : ℕ → Bytes → ℕ → ℕ → Option (ℕ × ℕ)
find_descriptor zero file off id = none
find_descriptor (suc left) file off id =
    let rest = find_descriptor left file (off + 12) id in
    if number_at file off 4 == id
    then some (number_at file (off + 4) 4, number_at file (off + 8) 4)
    else rest

abbrev pub data_at : Bytes → Option (ℕ × ℕ) → Option Bytes
data_at file none = none
data_at file (some (off, len)) = slice? file off len

unfoldable pub fork_in : Bytes → ℕ → Option Bytes
fork_in file id =
    if number_at file 0 4 == 0x0005_1607 && number_at file 4 4 == 0x0002_0000
    then data_at file (find_descriptor (number_at file 24 2) file 26 id)
    else none
