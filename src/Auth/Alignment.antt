-- ===== src/Auth/Alignment.antt =====
-- When DMARC passes: what `domainAligned` and `evaluateDMARC` decide.
use sender_report.Base.{
  ℕ, ◌≡◌, ◌≢◌, refl, sym, ap, ◌∙◌, ◌↔◌, ◌⊎◌, inl, inr, Bool, true, false, ◌||◌, [], ◌∷◌, ◌++◌,
  arith, Bool-cases, if◌then◌else◌,
}
use sender_report.Text.{
  Bytes, codes, bytes_eq, bytes_eq_sound, bytes_eq_complete, has_suffix, has_suffix-append,
  trim_space,
}
use sender_report.Spf.Parse.{SpfResult, pass, fail, is_empty_text}
use sender_report.Spf.Names.{IsUnder, IsUnder-sound, IsUnder-complete}
use sender_report.Auth.Dmarc.{
  plain_domain, domain_aligned, is_pass, DmarcLibrary, mechanism_aligned, evaluate_dmarc,
}

-- In strict mode the domains are equal; in relaxed mode one is the other or a name under it.
abbrev pub IsRelated : Bool → Bytes → Bytes → Type 0
IsRelated true a f = a ≡ f
IsRelated false a f = IsUnder a f ⊎ IsUnder f a

abbrev pub IsAligned : Bool → Bytes → Bytes → Type 0
IsAligned strict a f = (a ≢ []) × (f ≢ []) × IsRelated strict a f

related : Bool → Bytes → Bytes → Bool
related strict a f =
    if strict
    then bytes_eq a f
    else bytes_eq a f || (has_suffix (codes "." ++ f) a || has_suffix (codes "." ++ a) f)

related_sound : (strict : Bool) (a f : Bytes) → related strict a f ≡ true → IsRelated strict a f
unfolding related
related_sound true a f e = bytes_eq_sound a f e
related_sound false a f e = elim (Bool-cases (bytes_eq a f || has_suffix (codes "." ++ f) a)) [
  | inl h ↦ inl (IsUnder-sound a f h)
  | inr h ↦ inr (IsUnder-sound f a (ground (arith, e, h)))
]

related_complete : (strict : Bool) (a f : Bytes) → IsRelated strict a f → related strict a f ≡ true
unfolding related
related_complete true a f e = bytes_eq_complete a f e
related_complete false a f (inl h) = ground (arith, IsUnder-complete a f h)
related_complete false a f (inr (inl e)) = rw (bytes_eq_complete a f (sym e))
related_complete false a f (inr (inr (labels, e))) =
    let last : has_suffix (codes "." ++ a) f ≡ true =
      ap (has_suffix (codes "." ++ a)) e ∙ has_suffix-append (codes "." ++ a) labels in
    ground (arith, last)

domain_aligned_iff :
    (auth_domain from_domain : Bytes) (strict : Bool)
    → (domain_aligned auth_domain from_domain strict ≡ true)
      ↔ IsAligned strict (plain_domain auth_domain) (plain_domain from_domain)
unfolding domain_aligned related
domain_aligned_iff auth_domain from_domain strict =
    both (plain_domain auth_domain) (plain_domain from_domain)
  where
    both :
        (a f : Bytes)
        → ((if is_empty_text a || is_empty_text f then false else related strict a f) ≡ true)
          ↔ IsAligned strict a f
    both [] f = ((λ e. cc), (λ e. absurd (e.0 refl)))
    both (c ∷ a) [] = ((λ e. cc), (λ e. absurd (e.1 refl)))
    both (c ∷ a) (b ∷ f) = (
      (λ e. ((λ x. cc), (λ x. cc), related_sound strict (c ∷ a) (b ∷ f) e)),
      (λ e. related_complete strict (c ∷ a) (b ∷ f) e.2),
    )

is_pass_sound : (r : SpfResult) → is_pass r ≡ true → r ≡ pass
is_pass_sound pass e = refl
is_pass_sound other e = ground arith

-- A check that passed, for a domain that is aligned in the given mode.
abbrev pub IsPassing : Bool → SpfResult → Bytes → Bytes → Type 0
IsPassing strict result domain from_domain =
    (result ≡ pass) × IsAligned strict (plain_domain domain) (plain_domain from_domain)

module _ (lib : DmarcLibrary) where
  -- The check for a record: SPF or DKIM passed, and for an aligned domain.
  abbrev pub IsSupported : lib.Rec → Bytes → SpfResult → Bytes → SpfResult → Bytes → Type 0
  IsSupported rec from_domain spf_result spf_domain dkim_result dkim_domain =
      IsPassing (bytes_eq (lib.spf_alignment rec) lib.alignment_strict) spf_result spf_domain
        from_domain
      ⊎ IsPassing (bytes_eq (lib.dkim_alignment rec) lib.alignment_strict) dkim_result dkim_domain
          from_domain

  mechanism_aligned_iff :
      (r : SpfResult) (d f mode : Bytes)
      → (mechanism_aligned lib r d f mode ≡ true)
        ↔ IsPassing (bytes_eq mode lib.alignment_strict) r d f
  mechanism_aligned_iff r d f mode =
      let aligned = domain_aligned_iff d f (bytes_eq mode lib.alignment_strict) in
      (
        (λ e. (is_pass_sound r (ground (arith, e)), aligned.0 (ground (arith, e)))),
        (λ e. rw (e.0, aligned.1 e.1) refl),
      )

  either_iff : (p q : Bool) → ((if p || q then pass else fail) ≡ pass) ↔ ((p ≡ true) ⊎ (q ≡ true))
  either_iff true q = ((λ e. inl refl), (λ e. refl))
  either_iff false true = ((λ e. inr refl), (λ e. refl))
  either_iff false false = ((λ e. ground arith), (λ e. ground arith))

  IsSupported-iff :
      (rec : lib.Rec) (f : Bytes) (sr : SpfResult) (sd : Bytes) (kr : SpfResult) (kd : Bytes)
      → ((if mechanism_aligned lib sr sd f (lib.spf_alignment rec)
              || mechanism_aligned lib kr kd f (lib.dkim_alignment rec)
            then pass
            else fail)
          ≡ pass)
        ↔ IsSupported rec f sr sd kr kd
  IsSupported-iff rec f sr sd kr kd =
      let s = mechanism_aligned_iff sr sd f (lib.spf_alignment rec) in
      let k = mechanism_aligned_iff kr kd f (lib.dkim_alignment rec) in
      let either =
        either_iff (mechanism_aligned lib sr sd f (lib.spf_alignment rec))
          (mechanism_aligned lib kr kd f (lib.dkim_alignment rec)) in
      (
        (λ e. elim (either.0 e) [ inl h ↦ inl (s.0 h) | inr h ↦ inr (k.0 h) ]),
        (λ h. either.1 (elim h [ inl x ↦ inl (s.1 x) | inr x ↦ inr (k.1 x) ])),
      )

  result_found :
      (f : Bytes) (sr : SpfResult) (sd : Bytes) (kr : SpfResult) (kd : Bytes) (c : ℕ) (t : Bytes)
      (rec : lib.Rec)
      → trim_space f ≡ c ∷ t
      → lib.lookup f ≡ inl rec
      → (evaluate_dmarc lib f sr sd kr kd).result ≡ (
          if mechanism_aligned lib sr sd f (lib.spf_alignment rec)
            || mechanism_aligned lib kr kd f (lib.dkim_alignment rec)
          then pass
          else fail)
  unfolding evaluate_dmarc
  result_found f sr sd kr kd c t rec ht q = rw (ht, q)

  result_error :
      (f : Bytes) (sr : SpfResult) (sd : Bytes) (kr : SpfResult) (kd : Bytes) (err : lib.Err)
      → lib.lookup f ≡ inr err
      → (evaluate_dmarc lib f sr sd kr kd).result ≢ pass
  unfolding evaluate_dmarc
  result_error f sr sd kr kd err q = rw q (λ e. ground arith)

  result_missing :
      (f : Bytes) (sr : SpfResult) (sd : Bytes) (kr : SpfResult) (kd : Bytes)
      → trim_space f ≡ []
      → (evaluate_dmarc lib f sr sd kr kd).result ≢ pass
  unfolding evaluate_dmarc
  result_missing f sr sd kr kd ht = rw ht (λ e. ground arith)

  -- The result by what From and the lookup give.
  by_lookup :
      (f : Bytes) (sr : SpfResult) (sd : Bytes) (kr : SpfResult) (kd t : Bytes)
      (reply : lib.Rec ⊎ lib.Err)
      → trim_space f ≡ t
      → lib.lookup f ≡ reply
      → ((evaluate_dmarc lib f sr sd kr kd).result ≡ pass)
        ↔ ((t ≢ []) × (rec : lib.Rec) × (reply ≡ inl rec) × IsSupported rec f sr sd kr kd)
  by_lookup f sr sd kr kd [] reply ht q =
      ((λ e. absurd (result_missing f sr sd kr kd ht e)), (λ x. absurd (x.0 refl)))
  by_lookup f sr sd kr kd (c ∷ t) (inr err) ht q =
      ((λ e. absurd (result_error f sr sd kr kd err q e)), (λ x. absurd (no (x.2))))
    where
      no : {r : lib.Rec} → ◌≢◌ {A = lib.Rec ⊎ lib.Err} (inr err) (inl r)
      no e = cc
  by_lookup f sr sd kr kd (c ∷ t) (inl rec) ht q =
      let found = result_found f sr sd kr kd c t rec ht q in
      let supported = IsSupported-iff rec f sr sd kr kd in
      (
        (λ e. ((λ x. cc), rec, refl, supported.0 (sym found ∙ e))),
        (λ x. found ∙ supported.1 (at (x.1) (x.2) (x.3))),
      )
    where
      at :
          (r : lib.Rec)
          → ◌≡◌ {A = lib.Rec ⊎ lib.Err} (inl rec) (inl r)
          → IsSupported r f sr sd kr kd
          → IsSupported rec f sr sd kr kd
      at r e h = let same : rec ≡ r = cc in rw same h

  -- DMARC passes exactly when there is a domain in From, the lookup finds a record, and SPF or DKIM
  -- passed for an aligned domain: both names are not empty, and in the mode that the record asks
  -- for that check they are equal (strict), or one is the other or a name under it (relaxed).
  pub evaluate_dmarc-pass_iff :
      (from_domain : Bytes) (spf_result : SpfResult) (spf_domain : Bytes) (dkim_result : SpfResult)
      (dkim_domain : Bytes)
      → ((evaluate_dmarc lib from_domain spf_result spf_domain dkim_result dkim_domain).result
          ≡ pass)
        ↔ ((trim_space from_domain ≢ [])
            × (rec : lib.Rec) × (lib.lookup from_domain ≡ inl rec)
            × IsSupported rec from_domain spf_result spf_domain dkim_result dkim_domain)
  unfolding evaluate_dmarc
  evaluate_dmarc-pass_iff f sr sd kr kd =
      by_lookup f sr sd kr kd (trim_space f) (lib.lookup f) refl refl
