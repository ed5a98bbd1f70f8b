-- ===== src/Config/Exempt.antt =====
-- The paths that the configuration accepts are paths that the server exempts.
use sender_report.Base.{
  ℕ, ◌≡◌, refl, ◌∙◌, inl, inr, Bool, true, false, not, ◌&&◌, none, List, [], ◌∷◌, ◌++◌, arith, ◌==◌,
  Bool-cases, All-both, All, All-mono,
}
use sender_report.Text.{Bytes, codes, bytes_eq, bytes_eq_refl, split, split_from}
use sender_report.Web.Paths.{is_dots, clean_segments, clean_request_path, exempt_by, https_exempt}
use sender_report.Config.Paths.{
  is_path_byte, in_text, path_rest, exempt_path_pattern, any_dots, has_dot_segment,
  check_https_exempt_paths,
}

-- A segment that is not the last one.
clean_segments-cons :
    (seg cur s : Bytes)
    → clean_segments (seg ∷ split_from 47 cur s)
      ≡ (not (is_dots seg) && (not (bytes_eq seg []) && clean_segments (split_from 47 cur s)))
unfolding split_from
clean_segments-cons seg cur [] = refl
clean_segments-cons seg cur (c ∷ s) = elim (Bool-cases (c == 47)) [
  | inl e ↦ rw e refl
  | inr e ↦ rw e (clean_segments-cons seg (cur ++ c ∷ []) s)
]

and_both : (a b : Bool) → (a && b) ≡ true → (a ≡ true) × (b ≡ true)
and_both a b h = (ground (arith, h), ground (arith, h))

not_slash : (c : ℕ) → is_path_byte c ≡ true → (c == 47) ≡ false
not_slash c h = ground (arith, h)

snoc_full : (cur : Bytes) (c : ℕ) → bytes_eq (cur ++ c ∷ []) [] ≡ false
snoc_full [] c = refl
snoc_full (x ∷ cur) c = refl

any_dots_tail :
    (cur : Bytes) (segs : List Bytes) → any_dots (cur ∷ segs) ≡ false → any_dots segs ≡ false
any_dots_tail cur segs h = ground (arith, h)

clean_head :
    (cur : Bytes) (segs : List Bytes)
    → bytes_eq cur [] ≡ false
    → any_dots (cur ∷ segs) ≡ false
    → clean_segments segs ≡ true
    → (not (is_dots cur) && (not (bytes_eq cur []) && clean_segments segs)) ≡ true
clean_head cur segs full dots clean = ground (arith, full, dots, clean)

-- From within a segment on, a text of the pattern without dot segments is clean.
in_text-clean :
    (cur s : Bytes)
    → bytes_eq cur [] ≡ false
    → path_rest in_text s ≡ true
    → any_dots (split_from 47 cur s) ≡ false
    → clean_segments (split_from 47 cur s) ≡ true
unfolding path_rest split_from
in_text-clean cur [] full h dots = ground (arith, dots)
in_text-clean cur (c ∷ []) full h dots = elim (Bool-cases (c == 47)) [
  | inr e ↦
      rw e
        (in_text-clean (cur ++ c ∷ []) [] (snoc_full cur c) (ground (arith, h, e)) (rw e at dots))
  | inl e ↦
      let now_dots : any_dots (cur ∷ [] ∷ []) ≡ false = rw e at dots in
      rw e (ground (arith, full, now_dots))
]
in_text-clean cur (c ∷ d ∷ s) full h dots = elim (Bool-cases (c == 47)) [
  | inr e ↦ rw e (
      in_text-clean (cur ++ c ∷ []) (d ∷ s) (snoc_full cur c) (ground (arith, h, e)) (rw e at dots))
  | inl e ↦
      let rest : (is_path_byte d && path_rest in_text s) ≡ true = rw e at h in
      let (d_fits, s_fits) = and_both (is_path_byte d) (path_rest in_text s) rest in
      let d_is : (d == 47) ≡ false = not_slash d d_fits in
      let now_dots : any_dots (cur ∷ split_from 47 (d ∷ []) s) ≡ false = rw (e, d_is) at dots in
      let clean =
        in_text-clean (d ∷ []) s refl s_fits
          (any_dots_tail cur (split_from 47 (d ∷ []) s) now_dots) in
      let cons = clean_segments-cons cur (d ∷ []) s in
      rw (e, d_is) (cons ∙ clean_head cur (split_from 47 (d ∷ []) s) full now_dots clean)
]

-- An entry that is accepted is a clean path.
accepted-clean :
    (p : Bytes)
    → exempt_path_pattern p ≡ true
    → has_dot_segment p ≡ false
    → clean_request_path p ≡ true
unfolding exempt_path_pattern has_dot_segment clean_request_path split path_rest split_from
accepted-clean [] h dots = absurd (cc)
accepted-clean (c ∷ []) h dots = absurd (ground (arith, h))
accepted-clean (c ∷ d ∷ s) h dots =
    let (e, rest) = and_both (c == 47) (is_path_byte d && path_rest in_text s) h in
    let (d_fits, s_fits) = and_both (is_path_byte d) (path_rest in_text s) rest in
    let c_is : c ≡ 47 = ground (arith, e) in
    let d_is : (d == 47) ≡ false = not_slash d d_fits in
    let now_dots : any_dots ([] ∷ split_from 47 (d ∷ []) s) ≡ false = rw (e, d_is) at dots in
    rw (c_is, d_is)
      (in_text-clean (d ∷ []) s refl s_fits (any_dots_tail [] (split_from 47 (d ∷ []) s) now_dots))

exempt_by-here :
    (p path : Bytes) (ps : List Bytes) → exempt_by path ps ≡ true → exempt_by path (p ∷ ps) ≡ true
exempt_by-here p path ps h = ground (arith, h)

-- What the check says of each entry.
unfoldable IsUsable : Bytes → Type 0
IsUsable p = (bytes_eq p (codes "/") ≡ false) × (clean_request_path p ≡ true)

checked-IsUsable : (ps : List Bytes) → check_https_exempt_paths ps ≡ none → All IsUsable ps
unfolding check_https_exempt_paths IsUsable
checked-IsUsable [] h = tt
checked-IsUsable (p ∷ ps) h =
    let one : bytes_eq p (codes "/") ≡ false = ground (arith, h) in
    let pattern_ok : exempt_path_pattern p ≡ true = ground (arith, h, one) in
    let dots : has_dot_segment p ≡ false = ground (arith, h, one) in
    let rest : check_https_exempt_paths ps ≡ none = ground (arith, h, one, pattern_ok, dots) in
    ((one, accepted-clean p pattern_ok dots), checked-IsUsable ps rest)

exempt_by_own : (ps : List Bytes) → All (λ p. exempt_by p ps ≡ true) ps
exempt_by_own [] = tt
exempt_by_own (p ∷ ps) = (
  ground (arith, bytes_eq_refl p),
  All-mono (λ q. exempt_by q ps ≡ true) (λ q. exempt_by q (p ∷ ps) ≡ true)
      (λ q h. exempt_by-here p q ps h) ps (exempt_by_own ps),
)

-- No entry reaches the home page.
home_kept : (ps : List Bytes) → All IsUsable ps → exempt_by (codes "/") ps ≡ false
unfolding IsUsable clean_request_path
home_kept [] h = refl
home_kept ([] ∷ ps) h = absurd (ground (arith, h.0.1))
home_kept ((c ∷ []) ∷ ps) h = let rest = home_kept ps h.1 in ground (arith, h.0.0, rest)
home_kept ((c ∷ d ∷ p) ∷ ps) h = let rest = home_kept ps h.1 in ground (arith, rest)

-- Where the list of exempt paths is accepted, every entry is a path that the server answers over plain
-- HTTP, and the home page is not one.
pub check_https_exempt_paths-exempt :
    (ps : List Bytes)
    → check_https_exempt_paths ps ≡ none
    → All (λ p. https_exempt ps p ≡ true) ps × (https_exempt ps (codes "/") ≡ false)
unfolding https_exempt IsUsable
check_https_exempt_paths-exempt ps h =
    let usable = checked-IsUsable ps h in
    let home = home_kept ps usable in
    (
      All-mono (λ p. IsUsable p × (exempt_by p ps ≡ true)) (λ p. https_exempt ps p ≡ true)
          (λ p both. ground (arith, both.0.1, both.1)) ps
          (All-both IsUsable (λ p. exempt_by p ps ≡ true) ps usable (exempt_by_own ps)),
      rw home (ground arith),
    )
