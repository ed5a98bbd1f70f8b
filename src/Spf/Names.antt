-- ===== src/Spf/Names.antt =====
-- `ptrNameUnderDomain`: which reverse names belong to a domain.
use sender_report.Base.{
  ◌≡◌, ◌≢◌, refl, ◌↔◌, ◌⊎◌, inl, inr, true, false, ◌||◌, [], ◌∷◌, ◌++◌, arith, Bool-cases,
  if◌then◌else◌,
}
use sender_report.Text.{
  Bytes, codes, bytes_eq, bytes_eq_sound, bytes_eq_complete, has_suffix, has_suffix_sound,
  has_suffix-append, to_lower, trim_space, trim_suffix,
}
use sender_report.Spf.Parse.{ptr_name_under_domain, is_empty_text}

-- A name as it is compared: in lower case, without white space around it and without the root dot.
abbrev pub plain_name : Bytes → Bytes
plain_name s = trim_suffix (codes ".") (to_lower (trim_space s))

-- The domain itself, or labels and a dot before it.
abbrev pub IsUnder : Bytes → Bytes → Type 0
IsUnder host domain =
    (host ≡ domain) ⊎ ((labels : Bytes) × (host ≡ labels ++ (codes "." ++ domain)))

pub IsUnder-sound :
    (h d : Bytes) → (bytes_eq h d || has_suffix (codes "." ++ d) h) ≡ true → IsUnder h d
IsUnder-sound h d e = elim (Bool-cases (bytes_eq h d)) [
  | inl same ↦ inl (bytes_eq_sound h d same)
  | inr other ↦ inr (has_suffix_sound (codes "." ++ d) h (ground (arith, other, e)))
]

pub IsUnder-complete :
    (h d : Bytes) → IsUnder h d → (bytes_eq h d || has_suffix (codes "." ++ d) h) ≡ true
IsUnder-complete h d (inl e) = rw (bytes_eq_complete h d e)
IsUnder-complete h d (inr (labels, e)) =
    rw e (ground (arith, has_suffix-append (codes "." ++ d) labels))

-- A reverse name counts for a domain exactly when neither is empty, as they are compared, and the
-- name is the domain or ends in a dot and the domain: no domain is under the empty one, and
-- `notexample.org` is not under `example.org`.
ptr_name_under_domain_iff :
    (host domain : Bytes)
    → (ptr_name_under_domain host domain ≡ true) ↔ (
        (plain_name host ≢ [])
        × (plain_name domain ≢ [])
        × IsUnder (plain_name host) (plain_name domain))
unfolding ptr_name_under_domain
ptr_name_under_domain_iff host domain = both (plain_name host) (plain_name domain)
  where
    both :
        (h d : Bytes)
        → ((if is_empty_text h || is_empty_text d
              then false
              else bytes_eq h d || has_suffix (codes "." ++ d) h)
            ≡ true)
          ↔ ((h ≢ []) × (d ≢ []) × IsUnder h d)
    both [] d = ((λ e. cc), (λ e. absurd (e.0 refl)))
    both (c ∷ h) [] = ((λ e. cc), (λ e. absurd (e.1 refl)))
    both (c ∷ h) (b ∷ d) = (
      (λ e. ((λ x. cc), (λ x. cc), IsUnder-sound (c ∷ h) (b ∷ d) e)),
      (λ e. IsUnder-complete (c ∷ h) (b ∷ d) e.2),
    )
