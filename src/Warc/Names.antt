-- ===== src/Warc/Names.antt =====
-- src/format/warc.rs: the names of the entries, and the bodies without HTTP headers.
use newtua_core.Base.{
  ◌==◌, if◌then◌else◌, equal, ℕ, ◌+◌, ◌||◌, Option, none, some, List, [], ◌∷◌, ◌++◌,
}
use newtua_core.Base.Bytes.{Bytes}
use newtua_core.Base.Text.{split_once, join_with, decimal}
use newtua_core.PathSafety.Paths.{dot, dot_dot, is_slash, segments}

abbrev after_scheme : Bytes → Option (Bytes × Bytes) → Bytes
after_scheme uri none = uri
after_scheme uri (some (_, rest)) = rest

abbrev before : Bytes → Option (Bytes × Bytes) → Bytes
before s none = s
before s (some (left, _)) = left

-- "://"
abbrev scheme_end : Bytes
scheme_end = b':' ∷ b'/' ∷ b'/' ∷ []

-- The part of an URI that names the file.
unfoldable pub without_qs : Bytes → Bytes
without_qs uri =
    let without_scheme : Bytes = after_scheme uri (split_once scheme_end uri) in
    let without_query : Bytes = before without_scheme (split_once (b'?' ∷ []) without_scheme) in
    before without_query (split_once (b'#' ∷ []) without_query)

-- The segments that are neither empty nor `.`, with `_` for `..`.
unfoldable pub kept_segments : List Bytes → List Bytes
kept_segments [] = []
kept_segments (s ∷ ss) =
    if equal s [] || equal s dot
    then kept_segments ss
    else (if equal s dot_dot then b'_' ∷ [] else s) ∷ kept_segments ss

-- "index"
abbrev index_name : Bytes
index_name = b'i' ∷ b'n' ∷ b'd' ∷ b'e' ∷ b'x' ∷ []

abbrev pub join_or_index : List Bytes → Bytes
join_or_index [] = index_name
join_or_index (s ∷ ss) = join_with b'/' (s ∷ ss)

unfoldable pub uri_to_path : Bytes → Bytes
uri_to_path uri = join_or_index (kept_segments (segments is_slash (without_qs uri)))

-- The map `seen`: how often a name came up.
abbrev pub Seen : Type 0
Seen = List (Bytes × ℕ)

unfoldable pub seen_count : Bytes → Seen → ℕ
seen_count base [] = 0
seen_count base ((name, n) ∷ seen) =
    let later = seen_count base seen in if equal name base then n else later

unfoldable pub seen_again : Bytes → Seen → Seen
seen_again base [] = (base, 1) ∷ []
seen_again base ((name, n) ∷ seen) =
    let later = seen_again base seen in
    if equal name base then (name, n + 1) ∷ seen else (name, n) ∷ later

unfoldable pub dedup_path : Bytes → Seen → Bytes × Seen
dedup_path base seen =
    let n : ℕ = seen_count base seen in
    (if n == 0 then base else base ++ b'-' ∷ decimal n, seen_again base seen)

-- "\r\n\r\n"
abbrev pub separator : Bytes
separator = 13 ∷ 10 ∷ 13 ∷ 10 ∷ []

abbrev pub payload_or : Bytes → Option (Bytes × Bytes) → Bytes
payload_or body none = body
payload_or body (some (_, payload)) = payload

unfoldable pub strip_http_headers : Bytes → Bytes
strip_http_headers body = payload_or body (split_once separator body)
