-- ===== src/Web/Paths.antt =====
-- Paths of requests in internal/web/server.go, and the language prefixes of internal/web/seo.go.
use sender_report.Base.{
  Bool, true, false, not, ◌&&◌, ◌||◌, Option, none, some, List, [], ◌∷◌, ◌++◌, ltb, if◌then◌else◌,
  length, drop,
}
use sender_report.Text.{Bytes, codes, bytes_eq, has_prefix, has_suffix, cut, split}

abbrev pub is_dots : Bytes → Bool
is_dots seg = bytes_eq seg (codes ".") || bytes_eq seg (codes "..")

-- Only the last segment may be empty.
abbrev pub clean_segments : List Bytes → Bool
clean_segments [] = true
clean_segments (seg ∷ []) = not (is_dots seg)
clean_segments (seg ∷ next ∷ segs) =
    not (is_dots seg) && (not (bytes_eq seg []) && clean_segments (next ∷ segs))

unfoldable pub clean_request_path : Bytes → Bool
clean_request_path p = has_prefix (codes "/") p && clean_segments (split 47 (drop 1 p))

abbrev pub exempt_by : Bytes → List Bytes → Bool
exempt_by path [] = false
exempt_by path (p ∷ ps) =
    bytes_eq path p || (has_suffix (codes "/") p && has_prefix p path) || exempt_by path ps

unfoldable pub https_exempt : List Bytes → Bytes → Bool
https_exempt exempt path = clean_request_path path && exempt_by path exempt

-- `url.Parse` gives the escaped path and the raw query of an address, or an error.
abbrev pub local_path : Bytes → Bytes → Bytes
local_path path query =
    if not (has_prefix (codes "/") path)
      || has_prefix (codes "//") path
      || has_prefix (codes "/\\") path
    then codes "/"
    else if bytes_eq query []
    then path
    else path ++ (codes "?" ++ query)

abbrev pub parsed_path : Option (Bytes × Bytes) → Bytes
parsed_path none = codes "/"
parsed_path (some (path, query)) = local_path path query

unfoldable pub local_return_path : (Bytes → Option (Bytes × Bytes)) → Bytes → Bytes
local_return_path parse referer = parsed_path (parse referer)

pub data Lang : Type 0 where
  de en : Lang

abbrev pub lang_text : Lang → Bytes
lang_text de = codes "de"
lang_text en = codes "en"

unfoldable pub lang_prefixed_page : Bytes → Bool
lang_prefixed_page rest =
    bytes_eq rest (codes "/")
    || bytes_eq rest (codes "/about")
    || bytes_eq rest (codes "/privacy")
    || bytes_eq rest (codes "/simulate")
    || bytes_eq rest (codes "/guides")
    || (has_prefix (codes "/guides/") rest && ltb (length (codes "/guides/")) (length rest))

-- One language is tried, then what comes next.
abbrev pub try_lang : Lang → Bytes → Option (Lang × Bytes) → Option (Lang × Bytes)
try_lang l path next =
    let p = codes "/" ++ lang_text l in
    let rest = drop (length p) path in
    if bytes_eq path p
    then some (l, codes "/")
    else if has_prefix (p ++ codes "/") path && lang_prefixed_page rest
    then some (l, rest)
    else next

unfoldable pub split_lang_prefix : Bytes → Option (Lang × Bytes)
split_lang_prefix path = try_lang de path (try_lang en path none)

abbrev pub known_lang : Bytes → Bytes
known_lang lang =
    if bytes_eq lang (codes "de") || bytes_eq lang (codes "en") then lang else codes "en"

unfoldable pub lang_path : Bytes → Bytes → Bytes
lang_path lang path =
    let root = codes "/" ++ (known_lang lang ++ codes "/") in
    let plain = codes "/" ++ (known_lang lang ++ path) in
    let rooted = codes "/" ++ (known_lang lang ++ (codes "/" ++ path)) in
    if bytes_eq path [] || bytes_eq path (codes "/")
    then root
    else if has_prefix (codes "/") path
    then plain
    else rooted

abbrev pub path_in : Bytes → Lang → Option (Lang × Bytes) → Bytes
path_in path lang none = path
path_in path lang (some (l, rest)) = lang_path (lang_text lang) rest

abbrev pub swap_path : Bytes → Lang → Bytes
swap_path path lang = path_in path lang (split_lang_prefix path)

abbrev pub swap_parts : Bytes → Lang → Option (Bytes × Bytes) → Bytes
swap_parts target lang none = swap_path target lang
swap_parts target lang (some (path, query)) = swap_path path lang ++ (codes "?" ++ query)

unfoldable pub swap_lang_prefix : Bytes → Lang → Bytes
swap_lang_prefix target lang = swap_parts target lang (cut (codes "?") target)

abbrev pub form_lang : Bytes → Lang
form_lang value = if bytes_eq value (codes "de") then de else en

-- Where the language switch sends the browser, for its form value.
unfoldable pub set_lang : (Bytes → Option (Bytes × Bytes)) → Bytes → Bytes → Bytes
set_lang parse value referer = swap_lang_prefix (local_return_path parse referer) (form_lang value)
