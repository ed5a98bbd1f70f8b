-- ===== src/Web/Local.antt =====
-- The language switch stays on this host.
use mathlib.Core.Path.{subst}
use sender_report.Base.{
  ℕ, ◌≡◌, refl, sym, ap, ◌∙◌, inl, inr, true, false, not, ◌||◌, Option, none, some, [], ◌∷◌, ◌++◌,
  arith, Bool-cases, Option-cases,
}
use sender_report.Text.{Bytes, codes, bytes_eq, has_prefix, cut}
use sender_report.Web.Paths.{
  Lang, de, en, lang_text, lang_path, known_lang, local_path, local_return_path, parsed_path,
  path_in, swap_path, swap_parts, swap_lang_prefix, split_lang_prefix, set_lang, form_lang,
}

-- An address that browsers read as a path of the same host: one slash, and neither a second one
-- nor a backslash behind it.
abbrev pub IsLocal : Bytes → Type 0
IsLocal s =
    (has_prefix (codes "/") s ≡ true)
    × (has_prefix (codes "//") s ≡ false)
    × (has_prefix (codes "/\\") s ≡ false)

some_pair :
    (a a' b b' : Bytes)
    → ◌≡◌ {A = Option (Bytes × Bytes)} (some (a, b)) (some (a', b'))
    → (a ≡ a') × (b ≡ b')
some_pair a a' b b' e =
    let same : ◌≡◌ {A = Bytes × Bytes} (a, b) (a', b') = cc in
    (ap (λ q. q.0) same, ap (λ q. q.1) same)

-- What is left when the separator is not at the start.
later_of : ℕ → Option (Bytes × Bytes) → Option (Bytes × Bytes)
later_of c none = none
later_of c (some (a, b)) = some (c ∷ a, b)

cut_here :
    (c : ℕ) (s : Bytes)
    → has_prefix (codes "?") (c ∷ s) ≡ true
    → cut (codes "?") (c ∷ s) ≡ some ([], s)
cut_here c s h = rw h

cut_later :
    (c : ℕ) (s : Bytes)
    → has_prefix (codes "?") (c ∷ s) ≡ false
    → cut (codes "?") (c ∷ s) ≡ later_of c (cut (codes "?") s)
unfolding later_of
cut_later c s h = elim (Option-cases (cut (codes "?") s)) [
  | inl e ↦ rw (h, e)
  | inr (q, e) ↦ rw (h, e)
]

later_of-some :
    (c : ℕ) (o : Option (Bytes × Bytes)) (a b : Bytes)
    → later_of c o ≡ some (a, b)
    → (a' : Bytes) × (o ≡ some (a', b)) × (c ∷ a' ≡ a)
unfolding later_of
later_of-some c none a b e = absurd (cc)
later_of-some c (some (x, y)) a b e =
    let (first, second) = some_pair (c ∷ x) a y b e in (x, ap (λ t. some (x, t)) second, first)

-- The text is its two parts with the question mark between them.
cut_sound : (s a b : Bytes) → cut (codes "?") s ≡ some (a, b) → s ≡ a ++ (codes "?" ++ b)
cut_sound [] a b e = absurd (cc)
cut_sound (c ∷ s) a b e = elim (Bool-cases (has_prefix (codes "?") (c ∷ s))) [
  | inl h ↦
      let (first, second) = some_pair [] a s b (sym (cut_here c s h) ∙ e) in
      let mark : c ≡ 63 = ground (arith, h) in rw (sym first, sym second, mark)
  | inr h ↦
      let (a', rest, first) = later_of-some c _ a b (sym (cut_later c s h) ∙ e) in
      rw (sym first) (ap (◌∷◌ c) (cut_sound s a' b rest))
]

lang_start : (l : Lang) (rest : Bytes) → IsLocal (codes "/" ++ (known_lang (lang_text l) ++ rest))
lang_start de rest = (refl, refl, refl)
lang_start en rest = (refl, refl, refl)

lang_path-IsLocal : (l : Lang) (path : Bytes) → IsLocal (lang_path (lang_text l) path)
unfolding lang_path
lang_path-IsLocal l path = elim (Bool-cases (bytes_eq path [] || bytes_eq path (codes "/"))) [
  | inl root ↦ rw root (lang_start l (codes "/"))
  | inr page ↦ elim (Bool-cases (has_prefix (codes "/") path)) [
    | inl slash ↦ rw (page, slash) (lang_start l path)
    | inr other ↦ rw (page, other) (lang_start l (codes "/" ++ path))
  ]
]

-- What follows a local address' path keeps it local.
IsLocal-with_query : (path query : Bytes) → IsLocal path → IsLocal (path ++ (codes "?" ++ query))
IsLocal-with_query [] query h = absurd (ground (arith, h))
IsLocal-with_query (c ∷ []) query h = ground (arith, h)
IsLocal-with_query (c ∷ d ∷ path) query h = h

IsLocal-without_query : (path query : Bytes) → IsLocal (path ++ (codes "?" ++ query)) → IsLocal path
IsLocal-without_query [] query h = absurd (ground (arith, h))
IsLocal-without_query (c ∷ []) query h = ground (arith, h)
IsLocal-without_query (c ∷ d ∷ path) query h = h

path_in-IsLocal :
    (path : Bytes) (lang : Lang) (o : Option (Lang × Bytes))
    → IsLocal path
    → IsLocal (path_in path lang o)
path_in-IsLocal path lang none h = h
path_in-IsLocal path lang (some (l, rest)) h = lang_path-IsLocal lang rest

swap_parts-IsLocal :
    (target : Bytes) (lang : Lang) (o : Option (Bytes × Bytes))
    → cut (codes "?") target ≡ o
    → IsLocal target
    → IsLocal (swap_parts target lang o)
swap_parts-IsLocal target lang none e h = path_in-IsLocal target lang (split_lang_prefix target) h
swap_parts-IsLocal target lang (some (path, query)) e h =
    let whole = cut_sound target path query e in
    IsLocal-with_query (swap_path path lang) query (
      path_in-IsLocal path lang (split_lang_prefix path)
        (IsLocal-without_query path query (subst IsLocal whole h)))

local_path-IsLocal : (path query : Bytes) → IsLocal (local_path path query)
local_path-IsLocal path query =
    let slash = has_prefix (codes "/") path in
    let slashes = has_prefix (codes "//") path in
    let backslash = has_prefix (codes "/\\") path in
    elim (Bool-cases (not slash || slashes || backslash)) [
      | inl bad ↦ rw bad (refl, refl, refl)
      | inr good ↦
          let here : IsLocal path =
            (ground (arith, good), ground (arith, good), ground (arith, good)) in
          elim (Bool-cases (bytes_eq query [])) [
            | inl bare ↦ rw (good, bare) here
            | inr asked ↦ rw (good, asked) (IsLocal-with_query path query here)
          ]
    ]

parsed_path-IsLocal : (o : Option (Bytes × Bytes)) → IsLocal (parsed_path o)
parsed_path-IsLocal none = (refl, refl, refl)
parsed_path-IsLocal (some (path, query)) = local_path-IsLocal path query

-- Whatever a browser sends as its referrer and as the language, and however the referrer is read as a path
-- and a query, the switch redirects to a path on this host: one slash, and neither a slash nor a
-- backslash behind it.
pub set_lang-IsLocal :
    (parse : Bytes → Option (Bytes × Bytes)) (value referer : Bytes)
    → IsLocal (set_lang parse value referer)
unfolding set_lang swap_lang_prefix local_return_path
set_lang-IsLocal parse value referer =
    swap_parts-IsLocal (parsed_path (parse referer)) (form_lang value) _ refl
      (parsed_path-IsLocal (parse referer))
