-- ===== src/Policy/Absent.antt =====
-- What the DMARC lookup claims of a domain is what DNS answered.
use sender_report.Base.{
  ◌≡◌, refl, ◌≢◌, ◌⊎◌, inl, inr, Bool, true, false, ◌||◌, none, some, List, [], ◌∷◌, arith,
  Bool-cases, Option-cases, if_cases,
}
use sender_report.Text.{Bytes, codes, bytes_eq, bytes_eq_sound, to_lower}
use sender_report.Dns.{DnsStatus, dns_ok, dns_absent, dns_unavailable}
use sender_report.Policy.Lookup.{
  Names, DmarcLookupResult, nothing_at, norm_domain, registrable_domain, after_first, ask_org,
  via_organisation, lookup_dmarc_record, extract_tag_value, org_policy,
}
use sender_report.Policy.Answers.{
  IsSilent, IsBare, IsPublished, Seen, bare, silent, published, seen,
}

-- The domain's organisation: what the list of public suffixes registers, and the domain itself where that
-- registers nothing.
abbrev pub IsOrg : Names → Bytes → Bytes → Type 0
IsOrg names d org =
    ((norm_domain d ≡ []) × (org ≡ []))
    ⊎ ((names.registered (norm_domain d) ≡ some org)
        ⊎ ((names.registered (norm_domain d) ≡ none) × (org ≡ norm_domain d)))

-- The policy for the organisation's subdomains: the tag sp, or the tag p where there is no sp.
abbrev pub IsForSubdomains : Bytes → Bytes → Type 0
IsForSubdomains r policy =
    ((extract_tag_value (to_lower r) (codes "sp") ≡ [])
      × (policy ≡ extract_tag_value (to_lower r) (codes "p")))
    ⊎ ((extract_tag_value (to_lower r) (codes "sp") ≢ [])
        × (policy ≡ extract_tag_value (to_lower r) (codes "sp")))

-- The records at a domain, with a policy for it or for what is below it.
abbrev pub FoundAt : Names → Bytes → (Bytes → Bytes → Type 0) → DmarcLookupResult → Type 0
FoundAt names d IsPolicy res =
    (r : Bytes) × (rs : List Bytes) × IsPublished names d r rs
    × (res.records ≡ r ∷ rs)
    × IsPolicy r res.policy

abbrev pub IsOwn : Bytes → Bytes → Type 0
IsOwn r policy = policy ≡ extract_tag_value (to_lower r) (codes "p")

-- What each status needs.
abbrev pub HasReason : Names → Bytes → DmarcLookupResult → DnsStatus → Type 0
HasReason names d res dns_unavailable =
    IsSilent names d ⊎ (IsBare names d × (org : Bytes) × IsOrg names d org × IsSilent names org)
HasReason names d res dns_absent =
    (d ≡ [])
    ⊎ (IsBare names d
        × (org : Bytes) × IsOrg names d org
        × ((org ≡ []) ⊎ ((org ≡ d) ⊎ IsBare names org)))
HasReason names d res dns_ok =
    (FoundAt names d IsOwn res × (res.via_org ≡ false))
    ⊎ (IsBare names d
        × (org : Bytes) × IsOrg names d org
        × FoundAt names org IsForSubdomains res
        × (res.via_org ≡ true))

module _ (names : Names) where
  registrable_domain-IsOrg : (d : Bytes) → IsOrg names d (registrable_domain names d)
  unfolding registrable_domain
  registrable_domain-IsOrg d = elim (Bool-cases (bytes_eq (norm_domain d) [])) [
    | inl e ↦ inl (bytes_eq_sound (norm_domain d) [] e, rw e refl)
    | inr e ↦ elim (Option-cases (names.registered (norm_domain d))) [
      | inl q ↦ inr (inr (q, rw (e, q) refl))
      | inr (org, q) ↦ inr (inl (rw (e, q) refl))
    ]
  ]

  org_policy-IsForSubdomains : (r : Bytes) → IsForSubdomains r (org_policy names (to_lower r))
  org_policy-IsForSubdomains r =
      let sp = extract_tag_value (to_lower r) (codes "sp") in
      elim (Bool-cases (bytes_eq sp [])) [
        | inl e ↦ inl (bytes_eq_sound sp [] e, rw e refl)
        | inr e ↦ inr (λ none_there. absurd (cc (none_there, e)), rw e refl)
      ]

  -- The organisation's answer, where the domain itself has no record.
  org_reason :
      (d org : Bytes) {q : DmarcLookupResult × Bool}
      → IsBare names d
      → IsOrg names d org
      → Seen names org q
      → HasReason names d (via_organisation names q) ((via_organisation names q).status)
  org_reason d org without is_org (bare h) = inr (without, org, is_org, inr (inr h))
  org_reason d org without is_org (silent h) = inr (without, org, is_org, h)
  org_reason d org without is_org (published r rs h) =
      inr (without, org, is_org, (r, rs, h, refl, org_policy-IsForSubdomains r), refl)

  same_or_none :
      (org d : Bytes) → (bytes_eq org [] || bytes_eq org d) ≡ true → (org ≡ []) ⊎ (org ≡ d)
  same_or_none org d h = elim (Bool-cases (bytes_eq org [])) [
    | inl e ↦ inl (bytes_eq_sound org [] e)
    | inr e ↦ inr (bytes_eq_sound org d (ground (arith, h, e)))
  ]

  asked_in_vain :
      (d org : Bytes)
      → IsBare names d
      → IsOrg names d org
      → (org ≡ []) ⊎ (org ≡ d)
      → HasReason names d (nothing_at names d dns_absent) dns_absent
  asked_in_vain d org without is_org (inl e) = inr (without, org, is_org, inl e)
  asked_in_vain d org without is_org (inr e) = inr (without, org, is_org, inr (inl e))

  ask_reason :
      (d : Bytes)
      → IsBare names d
      → HasReason names d
          (ask_org names d (registrable_domain names d))
          (ask_org names d (registrable_domain names d)).status
  ask_reason d without =
      let org = registrable_domain names d in
      let is_org = registrable_domain-IsOrg d in
      if_cases (λ res. HasReason names d res res.status) (bytes_eq org [] || bytes_eq org d)
        (λ e. asked_in_vain d org without is_org (same_or_none org d e))
        (λ e. org_reason d org without is_org (seen names org))

  first_reason :
      (d : Bytes) {q : DmarcLookupResult × Bool}
      → Seen names d q
      → HasReason names d (after_first names d q) (after_first names d q).status
  first_reason d (bare h) = ask_reason d h
  first_reason d (silent h) = inl h
  first_reason d (published r rs h) = inl ((r, rs, h, refl, refl), refl)

  -- The lookup says that there is no policy only for an empty name, or where neither the domain nor its
  -- organisation, if that is another one, has one: where its name cannot be converted and is not asked for, or
  -- where DNS answered that it does not exist or without a record of a policy. It says that DNS did not answer
  -- only where DNS failed to. The records are those at the domain, with its tag p, or, where that has none, those
  -- of its organisation, with the tag sp, or p where there is no sp.
  pub lookup_dmarc_record-HasReason :
      (from_domain : Bytes)
      → let res = lookup_dmarc_record names from_domain in
        HasReason names (norm_domain from_domain) res res.status
  unfolding lookup_dmarc_record
  lookup_dmarc_record-HasReason from_domain =
      let d = norm_domain from_domain in
      if_cases (λ res. HasReason names d res res.status) (bytes_eq d [])
        (λ e. inl (bytes_eq_sound d [] e)) (λ e. first_reason d (seen names d))
