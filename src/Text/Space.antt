-- ===== src/Text/Space.antt =====
-- TrimSpace, Trim with a set of bytes, TrimSuffix, TrimPrefix, Fields, and Split at a byte.
use sender_report.Base.{
  ℕ, Bool, ◌||◌, List, [], ◌∷◌, ◌++◌, ◌==◌, leb, ◌&&◌, if◌then◌else◌, length, drop,
}
use sender_report.Text.Search.{Bytes, bytes_eq, has_prefix}

-- Tab, line feed, vertical tab, form feed, carriage return and blank.
abbrev pub is_space : ℕ → Bool
is_space c = c == 32 || (leb 9 c && leb c 13)

abbrev pub trim_left : (ℕ → Bool) → Bytes → Bytes
trim_left p [] = []
trim_left p (c ∷ s) = let rest = trim_left p s in if p c then rest else c ∷ s

-- Keeps a byte if it is not in the set or if something is kept behind it.
abbrev pub trim_right : (ℕ → Bool) → Bytes → Bytes
trim_right p [] = []
trim_right p (c ∷ s) = elim (trim_right p s) [ [] ↦ if p c then [] else c ∷ [] | d ∷ t ↦ c ∷ d ∷ t ]

unfoldable pub trim : (ℕ → Bool) → Bytes → Bytes
trim p s = trim_right p (trim_left p s)

unfoldable pub trim_space : Bytes → Bytes
unfolding trim
trim_space s = trim is_space s

-- The text without one trailing `p`, if it ends in it.
unfoldable pub trim_suffix : Bytes → Bytes → Bytes
trim_suffix p [] = []
trim_suffix p (c ∷ s) = if bytes_eq (c ∷ s) p then [] else c ∷ trim_suffix p s

-- The text without a leading `p`, if it begins with it.
abbrev pub trim_prefix : Bytes → Bytes → Bytes
trim_prefix p s = if has_prefix p s then drop (length p) s else s

-- The runs of bytes that are no white space; `cur` is the run that is being read.
fields_from : Bytes → Bytes → List Bytes
fields_from cur [] = if bytes_eq cur [] then [] else cur ∷ []
fields_from cur (c ∷ s) =
    let ended = fields_from [] s in
    let longer = fields_from (cur ++ c ∷ []) s in
    if is_space c then (if bytes_eq cur [] then ended else cur ∷ ended) else longer

unfoldable pub fields : Bytes → List Bytes
unfolding fields_from
fields s = fields_from [] s

-- The parts between the separators; `cur` is the part that is being read.
unfoldable pub split_from : ℕ → Bytes → Bytes → List Bytes
split_from sep cur [] = cur ∷ []
split_from sep cur (c ∷ s) =
    let ended = split_from sep [] s in
    let longer = split_from sep (cur ++ c ∷ []) s in if c == sep then cur ∷ ended else longer

unfoldable pub split : ℕ → Bytes → List Bytes
unfolding split_from
split sep s = split_from sep [] s
