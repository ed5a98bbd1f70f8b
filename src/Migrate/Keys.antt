-- ===== src/Migrate/Keys.antt =====
-- Which lines set which variables.
use sender_report.Base.{
  ◌≡◌, refl, ap, ◌∙◌, inl, inr, Bool, true, false, ◌||◌, none, some, List, [], ◌∷◌, ◌++◌, arith,
  if◌then◌else◌, Bool-cases, All, if_cases,
}
use sender_report.Text.{
  Bytes, codes, bytes_eq, bytes_eq_refl, bytes_eq_sound, has_prefix, trim, trim_space, trim_right,
  is_space,
}
use sender_report.Migrate.{
  VarDef, key_of, same_key, sets, is_set, entry, comment_lines, begins_group, group_lines,
  entry_lines, new_lines,
}

-- The line of a variable is read as one that sets it.
abbrev pub IsPlain : VarDef → Type 0
IsPlain v = key_of (entry v) ≡ some v.key

-- A line that sets nothing.
abbrev pub IsNote : Bytes → Type 0
IsNote line = key_of line ≡ none

trim_right-note : (s : Bytes) → has_prefix (codes "#") (trim_right is_space (35 ∷ s)) ≡ true
trim_right-note s =
    elim (trim_right is_space s)
      as (λ t.
        has_prefix (codes "#") (elim t as (λ x. Bytes) [ [] ↦ 35 ∷ [] | d ∷ r ↦ 35 ∷ d ∷ r ])
        ≡ true) [ [] ↦ refl | d ∷ t ↦ refl ]

bytes_eq_head : (s : Bytes) → has_prefix (codes "#") s ≡ true → bytes_eq s [] ≡ false
bytes_eq_head [] h = absurd (ground (arith, h))
bytes_eq_head (c ∷ s) h = refl

pub key_of-note : (text : Bytes) → key_of (codes "#" ++ text) ≡ none
unfolding key_of trim_space trim
key_of-note text = let e = trim_right-note text in rw (bytes_eq_head _ e, e)

pub is_set-append :
    (xs ys : List Bytes) (key : Bytes) → is_set (xs ++ ys) key ≡ (is_set xs key || is_set ys key)
is_set-append [] ys key = refl
is_set-append (x ∷ xs) ys key = ground (arith, is_set-append xs ys key)

pub is_set-notes : (xs : List Bytes) (key : Bytes) → All IsNote xs → is_set xs key ≡ false
is_set-notes [] key h = refl
is_set-notes (x ∷ xs) key h =
    ap (λ o. same_key key o || is_set xs key) h.0 ∙ is_set-notes xs key h.1

-- An entry sets its key.
pub entry-sets : (v : VarDef) → IsPlain v → sets v.key (entry v) ≡ true
entry-sets v h = ap (same_key v.key) h ∙ bytes_eq_refl v.key

pub no_key : IsNote []
unfolding key_of trim_space trim
no_key = refl

pub entry_lines-sets :
    (v : VarDef) (current key : Bytes)
    → IsPlain v
    → is_set (entry_lines v current) key ≡ bytes_eq v.key key
entry_lines-sets v current key h =
    let last : is_set (entry v ∷ []) key ≡ bytes_eq v.key key =
      ap (λ o. same_key key o || false) h ∙ ground arith in
    let groups : All IsNote (group_lines v current) =
      if_cases (All IsNote) (begins_group v current) (λ e. (no_key, (key_of-note _, tt)))
        (λ e. tt) in
    let comments : All IsNote (comment_lines v) =
      if_cases (All IsNote) (bytes_eq v.comment []) (λ e. tt) (λ e. (key_of-note _, tt)) in
    is_set-append (group_lines v current) (comment_lines v ++ entry v ∷ []) key
    ∙ rw (is_set-notes _ key groups)
        (is_set-append (comment_lines v) (entry v ∷ []) key ∙ rw (is_set-notes _ key comments) last)

other_key :
    (existing : Bytes → Bool) (a b : Bytes)
    → existing a ≡ false
    → existing b ≡ true
    → (bytes_eq a b || false) ≡ false
other_key existing a b e f = elim (Bool-cases (bytes_eq a b)) [
  | inr other ↦ rw other
  | inl same ↦
      let both : existing a ≡ true = ap existing (bytes_eq_sound a b same) ∙ f in
      absurd (ground (arith, e, both))
]

-- The new lines set no variable that is there.
pub new_lines-old :
    (existing : Bytes → Bool) (key : Bytes)
    → existing key ≡ true
    → (current : Bytes) (vs : List VarDef) → All IsPlain vs
    → is_set (new_lines existing current vs) key ≡ false
unfolding new_lines
new_lines-old existing key old current [] h = refl
new_lines-old existing key old current (v ∷ vs) h = elim (Bool-cases (existing v.key)) [
  | inl e ↦ rw e (new_lines-old existing key old current vs h.1)
  | inr e ↦
      let next = if begins_group v current then v.group else current in
      let rest = new_lines-old existing key old next vs h.1 in
      rw e (
        is_set-append (entry_lines v current) (new_lines existing next vs) key
        ∙ rw (entry_lines-sets v current key h.0, rest) (other_key existing v.key key e old))
]
