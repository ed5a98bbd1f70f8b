-- ===== src/Spf/Mechanism.antt =====
-- `matchSPFMechanism` and the lookups that it makes. The evaluation of an included domain is an
-- argument, which Spf/Check fills in.
use sender_report.Base.{
  ℕ, ◌+◌, Bool, false, ◌||◌, List, [], ◌∷◌, Option, none, some, ltb, if◌then◌else◌, if_cases,
}
use sender_report.Text.{Bytes, codes, bytes_eq, to_lower, trim_space, trim_suffix}
use sender_report.Dns.{Dns, DnsError, dns_lookup_failed}
use sender_report.Spf.Address.{ip_matches_with_optional_cidr, normalize_cidr}
use sender_report.Spf.Parse.{
  SpfResult, pass, permerror, temperror, Mechanism, parse_spf_mechanism, is_empty_text,
  ptr_name_under_domain,
}

-- The two results of `matchSPFMechanism`: (true, ""), (false, "") and (false, res).
pub data Match : Type 0 where
  matched unmatched : Match
  broken : SpfResult → Match

-- What one evaluation shares: the domains that are being evaluated and the counted lookups.
pub record Evaluation : Type 0 where
  pub seen : List Bytes
  pub lookups : ℕ

pub record Verdict : Type 0 where
  pub result : SpfResult
  pub mechanism : Bytes
  pub after : Evaluation

abbrev pub spf_lookup_budget : ℕ
spf_lookup_budget = 10

-- A lookup that failed is a temporary error, one that found nothing is no match.
abbrev pub on_error : DnsError → Match
on_error e = if dns_lookup_failed (some e) then broken temperror else unmatched

abbrev pub any_address : Bytes → Option ℕ → List Bytes → Bool
any_address remote cidr [] = false
any_address remote cidr (ip ∷ ips) =
    ip_matches_with_optional_cidr remote ip cidr || any_address remote cidr ips

abbrev match_of : Bool → Match
match_of b = if b then matched else unmatched

module _ (dns : Dns) (remote : Bytes) where
  unfoldable pub host_resolves_to_ip : Bytes → Option ℕ → Match
  host_resolves_to_ip host cidr =
      let reply = dns.lookup_ip_addr host in
      elim reply.err [ some e ↦ on_error e | none ↦ match_of (any_address remote cidr reply.recs) ]

  -- `deferred` is the failure that is remembered.
  pub mx_hosts : Option ℕ → Match → List (ℕ × Bytes) → Match
  mx_hosts cidr deferred [] = deferred
  mx_hosts cidr deferred ((pref, mx) ∷ mxs) =
      elim (host_resolves_to_ip (trim_suffix (codes ".") mx) cidr) [
        | matched ↦ matched
        | unmatched ↦ mx_hosts cidr deferred mxs
        | broken e ↦ mx_hosts cidr (broken e) mxs
      ]

-- `sort.SliceStable` by preference.
abbrev insert_mx : ℕ × Bytes → List (ℕ × Bytes) → List (ℕ × Bytes)
insert_mx m [] = m ∷ []
insert_mx m (n ∷ ns) = let rest = n ∷ insert_mx m ns in if ltb n.0 m.0 then rest else m ∷ n ∷ ns

abbrev pub sort_mx : List (ℕ × Bytes) → List (ℕ × Bytes)
sort_mx [] = []
sort_mx (m ∷ ms) = insert_mx m (sort_mx ms)

module _ (dns : Dns) (remote : Bytes) where
  unfoldable pub mx_resolves_to_ip : Bytes → Option ℕ → Match
  unfolding mx_hosts
  mx_resolves_to_ip domain cidr =
      let reply = dns.lookup_mx domain in
      elim reply.err [
        | some e ↦ on_error e
        | none ↦ mx_hosts dns remote cidr unmatched (sort_mx reply.recs)
      ]

  unfoldable pub exists_host : Bytes → Match
  exists_host target =
      let reply = dns.lookup_host target in
      elim reply.err [
        | some e ↦ on_error e
        | none ↦ elim reply.recs [ [] ↦ unmatched | a ∷ as_ ↦ matched ]
      ]

  -- The names of the address that lie under the domain have to resolve back to it.
  pub ptr_hosts : Bytes → List Bytes → Match
  ptr_hosts target [] = unmatched
  ptr_hosts target (name ∷ names) =
      let host = trim_suffix (codes ".") (to_lower name) in
      let here = host_resolves_to_ip dns remote host none in
      let rest = ptr_hosts target names in
      if ptr_name_under_domain host target
      then elim here [ matched ↦ matched | broken e ↦ broken e | unmatched ↦ rest ]
      else rest

  unfoldable pub ptr_matches : Bytes → Match
  unfolding ptr_hosts
  ptr_matches target =
      if is_empty_text target
      then unmatched
      else (let reply = dns.lookup_addr remote in
          elim reply.err [ some e ↦ on_error e | none ↦ ptr_hosts target reply.recs ])

abbrev pub or_current : Bytes → Bytes → Bytes
or_current value current = if is_empty_text value then current else value

-- The mechanisms that cost a lookup.
abbrev pub costs_lookup : Bytes → Bool
costs_lookup name =
    bytes_eq name (codes "include")
    || bytes_eq name (codes "a")
    || bytes_eq name (codes "mx")
    || bytes_eq name (codes "ptr")
    || bytes_eq name (codes "exists")

-- What the evaluation of an included domain means for the mechanism.
abbrev pub included : Verdict → Match × Evaluation
included v = (
  elim v.result [
    | pass ↦ matched
    | temperror ↦ broken temperror
    | permerror ↦ broken permerror
    | _ ↦ unmatched
  ],
  v.after,
)

module _ (dns : Dns) (parse_ip : Bytes → Bytes) (remote : Bytes) where
  -- The second `switch`; `check` evaluates an included domain one level deeper.
  unfoldable pub dispatch :
      (Bytes → Evaluation → Verdict) → Bytes → Mechanism → Evaluation → Match × Evaluation
  dispatch check current m ev =
      if bytes_eq m.name (codes "all")
      then (matched, ev)
      else if bytes_eq m.name (codes "include")
      then (if is_empty_text m.value then (broken permerror, ev) else included (check m.value ev))
      else if bytes_eq m.name (codes "ip4")
      then (
        match_of
            (ip_matches_with_optional_cidr remote (parse_ip m.value) (normalize_cidr m.cidr 32)),
        ev,
      )
      else if bytes_eq m.name (codes "ip6")
      then (
        match_of
            (ip_matches_with_optional_cidr remote (parse_ip m.value) (normalize_cidr m.cidr 128)),
        ev,
      )
      else if bytes_eq m.name (codes "a")
      then (host_resolves_to_ip dns remote (or_current m.value current) m.cidr, ev)
      else if bytes_eq m.name (codes "mx")
      then (mx_resolves_to_ip dns remote (or_current m.value current) m.cidr, ev)
      else if bytes_eq m.name (codes "exists")
      then (exists_host dns remote (or_current m.value current), ev)
      else if bytes_eq m.name (codes "ptr")
      then (
        ptr_matches dns remote
            (or_current (to_lower (trim_space m.value)) (to_lower (trim_space current))),
        ev,
      )
      else (unmatched, ev)

  -- A mechanism with a lookup is counted first, and over the budget it is an error.
  unfoldable pub match_spf_mechanism :
      (Bytes → Evaluation → Verdict) → Bytes → Bytes → Evaluation → Match × Evaluation
  match_spf_mechanism check current mech ev =
      let m = parse_spf_mechanism mech in
      let counted = record ev { lookups = ev.lookups + 1 } in
      if costs_lookup m.name
      then (if ltb spf_lookup_budget counted.lookups
          then (broken permerror, counted)
          else dispatch check current m counted)
      else dispatch check current m ev

  -- A mechanism other than `include` makes no counted lookup of its own.
  pub dispatch_cases {ℓ} :
      (P : Match × Evaluation → Type ℓ) (check : Bytes → Evaluation → Verdict) (current : Bytes)
      (m : Mechanism) (ev : Evaluation)
      → ((r : Match) → P (r, ev))
      → P (included (check m.value ev))
      → P (dispatch check current m ev)
  unfolding dispatch
  dispatch_cases P check current m ev plain inner =
      if_cases P (bytes_eq m.name (codes "all")) (λ _. plain _)
        λ _.
          if_cases P (bytes_eq m.name (codes "include"))
            (λ _. if_cases P (is_empty_text m.value) (λ _. plain _) (λ _. inner))
            λ _.
              if_cases P (bytes_eq m.name (codes "ip4")) (λ _. plain _)
                λ _.
                  if_cases P (bytes_eq m.name (codes "ip6")) (λ _. plain _)
                    λ _.
                      if_cases P (bytes_eq m.name (codes "a")) (λ _. plain _)
                        λ _.
                          if_cases P (bytes_eq m.name (codes "mx")) (λ _. plain _)
                            λ _.
                              if_cases P (bytes_eq m.name (codes "exists")) (λ _. plain _)
                                λ _.
                                  if_cases P (bytes_eq m.name (codes "ptr")) (λ _. plain _)
                                    (λ _. plain _)
