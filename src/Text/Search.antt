-- ===== src/Text/Search.antt =====
-- Byte strings, equality of them, and Go's tests and searches: HasPrefix, HasSuffix, Contains,
-- Index and Cut. `strings.Index(s, sep)` and the slices on both sides of it are one `cut`.
use Prim.Native.Char.{code}
use Prim.Native.String.{String}
use sender_report.Base.{
  ℕ, Bool, true, false, ◌&&◌, ◌||◌, List, [], ◌∷◌, ◌++◌, Option, none, some, ◌≡◌, refl, ap, inl,
  inr, Bool-cases, arith, ◌==◌, if◌then◌else◌, length, drop,
}

abbrev pub Bytes : Type 0
Bytes = List ℕ

-- The bytes of a literal, which is ASCII wherever the program compares with it.
abbrev pub codes : String → Bytes
codes String.[] = []
codes (String.◌∷◌ c s) = code c ∷ codes s

abbrev pub bytes_eq : Bytes → Bytes → Bool
bytes_eq [] [] = true
bytes_eq [] (d ∷ t) = false
bytes_eq (c ∷ s) [] = false
bytes_eq (c ∷ s) (d ∷ t) = c == d && bytes_eq s t

pub bytes_eq_sound : (s t : Bytes) → bytes_eq s t ≡ true → s ≡ t
bytes_eq_sound [] [] h = refl
bytes_eq_sound [] (d ∷ t) h = ground arith
bytes_eq_sound (c ∷ s) [] h = ground arith
bytes_eq_sound (c ∷ s) (d ∷ t) h = ground (arith, bytes_eq_sound s t)

pub bytes_eq_refl : (s : Bytes) → bytes_eq s s ≡ true
bytes_eq_refl [] = refl
bytes_eq_refl (c ∷ s) = ground (arith, bytes_eq_refl s)

pub bytes_eq_complete : (s t : Bytes) → s ≡ t → bytes_eq s t ≡ true
bytes_eq_complete s t e = rw e (bytes_eq_refl t)

abbrev pub has_prefix : Bytes → Bytes → Bool
has_prefix [] s = true
has_prefix (p ∷ ps) [] = false
has_prefix (p ∷ ps) (c ∷ s) = p == c && has_prefix ps s

-- Some tail of the text is the given one.
abbrev pub has_suffix : Bytes → Bytes → Bool
has_suffix p [] = bytes_eq [] p
has_suffix p (c ∷ s) = bytes_eq (c ∷ s) p || has_suffix p s

abbrev pub contains : Bytes → Bytes → Bool
contains p [] = has_prefix p []
contains p (c ∷ s) = has_prefix p (c ∷ s) || contains p s

-- The text before the first `p` and the text behind it.
abbrev pub cut : Bytes → Bytes → Option (Bytes × Bytes)
cut p [] = if bytes_eq p [] then some ([], []) else none
cut p (c ∷ s) =
    let later : Option (Bytes × Bytes) = elim (cut p s) [
      | none ↦ none
      | some (a, b) ↦ some (c ∷ a, b)
    ] in
    if has_prefix p (c ∷ s) then some ([], drop (length p) (c ∷ s)) else later

pub has_suffix_sound : (p s : Bytes) → has_suffix p s ≡ true → (t : Bytes) × (s ≡ t ++ p)
has_suffix_sound p [] h = ([], bytes_eq_sound [] p h)
has_suffix_sound p (c ∷ s) h = elim (Bool-cases (bytes_eq (c ∷ s) p)) [
  | inl e ↦ ([], bytes_eq_sound (c ∷ s) p e)
  | inr e ↦ let (t, q) = has_suffix_sound p s (ground (arith, e, h)) in (c ∷ t, ap (◌∷◌ c) q)
]

has_suffix_self : (p : Bytes) → has_suffix p p ≡ true
has_suffix_self [] = refl
has_suffix_self (c ∷ p) = rw (bytes_eq_refl (c ∷ p))

pub has_suffix-append : (p t : Bytes) → has_suffix p (t ++ p) ≡ true
has_suffix-append p [] = has_suffix_self p
has_suffix-append p (c ∷ t) = ground (arith, has_suffix-append p t)
