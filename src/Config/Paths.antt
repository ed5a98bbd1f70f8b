-- ===== src/Config/Paths.antt =====
-- FORCE_HTTPS_EXEMPT_PATHS: `splitPathList` and `checkHTTPSExemptPaths`. The pattern for a path is written as
-- a function.
use sender_report.Base.{
  ℕ, Bool, true, false, not, ◌&&◌, ◌||◌, Option, none, some, List, [], ◌∷◌, leb, ◌==◌,
  if◌then◌else◌,
}
use sender_report.Text.{Bytes, codes, bytes_eq, split, trim_space, to_lower}

abbrev pub trimmed_parts : List Bytes → List Bytes
trimmed_parts [] = []
trimmed_parts (part ∷ parts) =
    let rest = trimmed_parts parts in
    if bytes_eq (trim_space part) [] then rest else trim_space part ∷ rest

unfoldable pub split_csv : Bytes → List Bytes
split_csv s = if bytes_eq (trim_space s) [] then [] else trimmed_parts (split 44 s)

-- The word none is no path.
unfoldable pub split_path_list : Bytes → List Bytes
split_path_list s = if bytes_eq (to_lower (trim_space s)) (codes "none") then [] else split_csv s

abbrev pub is_between : ℕ → ℕ → ℕ → Bool
is_between low high c = leb low c && leb c high

-- A letter, a digit or one of ._~!$&'()*+,;=:@-
abbrev pub is_path_byte : ℕ → Bool
is_path_byte c =
    is_between 65 90 c
    || is_between 97 122 c
    || is_between 48 57 c
    || c == 46
    || c == 95
    || c == 126
    || c == 33
    || c == 36
    || is_between 38 44 c
    || c == 59
    || c == 61
    || c == 58
    || c == 64
    || c == 45

-- Behind the first slash, behind a later one, or within a segment.
pub data PathState : Type 0 where
  at_first at_slash in_text : PathState

-- `^(/[…]+)+/?$`, behind the first byte.
unfoldable pub path_rest : PathState → Bytes → Bool
path_rest at_first [] = false
path_rest at_slash [] = true
path_rest in_text [] = true
path_rest at_first (c ∷ s) = is_path_byte c && path_rest in_text s
path_rest at_slash (c ∷ s) = is_path_byte c && path_rest in_text s
path_rest in_text (c ∷ s) =
    let ended = path_rest at_slash s in
    let rest = path_rest in_text s in if c == 47 then ended else is_path_byte c && rest

unfoldable pub exempt_path_pattern : Bytes → Bool
exempt_path_pattern [] = false
exempt_path_pattern (c ∷ s) = c == 47 && path_rest at_first s

abbrev pub any_dots : List Bytes → Bool
any_dots [] = false
any_dots (seg ∷ segs) = bytes_eq seg (codes ".") || bytes_eq seg (codes "..") || any_dots segs

unfoldable pub has_dot_segment : Bytes → Bool
has_dot_segment p = any_dots (split 47 p)

-- The first entry that is refused: the whole site, or no usable path.
pub data PathError : Type 0 where
  covers_all : PathError
  not_usable : Bytes → PathError

unfoldable pub check_https_exempt_paths : List Bytes → Option PathError
check_https_exempt_paths [] = none
check_https_exempt_paths (p ∷ ps) =
    let rest = check_https_exempt_paths ps in
    if bytes_eq p (codes "/")
    then some covers_all
    else if not (exempt_path_pattern p) || has_dot_segment p
    then some (not_usable p)
    else rest
