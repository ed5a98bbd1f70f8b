-- ===== src/Spf/Seen.antt =====
-- The set of domains that are being evaluated: each evaluation leaves it as it found it.
use sender_report.Base.{
  ℕ, zero, suc, ◌+◌, ◌≡◌, refl, ◌∙◌, ap, false, not, List, [], ◌∷◌, arith, ltb, filter, if_cases,
}
use sender_report.Text.{Bytes, bytes_eq, bytes_eq_refl, to_lower, trim_space, fields}
use sender_report.Dns.{Dns}
use sender_report.Spf.Parse.{
  permerror, temperror, parse_spf_mechanism, Token, skip, redirect_to, mechanism, read_token,
  is_empty_text,
}
use sender_report.Spf.Mechanism.{
  Match, matched, unmatched, broken, Evaluation, Verdict, dispatch_cases, match_spf_mechanism,
  costs_lookup,
}
use sender_report.Spf.Check.{
  SpfRecord, record_text, status, enter, finish, settle, on_token, scan_tokens, on_tokens,
  on_record, check_domain, check_spf_domain, is_member, lookup_spf_record,
}

-- Deleting a domain that is not in the set changes nothing.
delete_absent :
    (d : Bytes) (xs : List Bytes)
    → is_member d xs ≡ false
    → filter (λ x. not (bytes_eq d x)) xs ≡ xs
delete_absent d [] h = refl
delete_absent d (x ∷ xs) h = ground (arith, delete_absent d xs)

delete_entered :
    (d : Bytes) (xs : List Bytes)
    → is_member d xs ≡ false
    → filter (λ x. not (bytes_eq d x)) (d ∷ xs) ≡ xs
delete_entered d xs h = ground (arith, bytes_eq_refl d, delete_absent d xs h)

abbrev Restores : (Bytes → Evaluation → Verdict) → Type 0
Restores check = (d : Bytes) (ev : Evaluation) → (check d ev).after.seen ≡ ev.seen

module _ (dns : Dns) (parse_ip : Bytes → Bytes) (remote : Bytes)
    (check : Bytes → Evaluation → Verdict) (restores : Restores check) where
  match-seen :
      (current mech : Bytes) (ev : Evaluation)
      → (match_spf_mechanism dns parse_ip remote check current mech ev).1.seen ≡ ev.seen
  unfolding match_spf_mechanism
  match-seen current mech ev =
      let m = parse_spf_mechanism mech in
      let counted : Evaluation = record ev { lookups = ev.lookups + 1 } in
      let P = λ (r : Match × Evaluation). r.1.seen ≡ ev.seen in
      let go = λ (e : Evaluation) (same : e.seen ≡ ev.seen).
        dispatch_cases dns parse_ip remote P check current m e (λ r. same)
          (restores m.value e ∙ same) in
      if_cases P (costs_lookup m.name)
        (λ _. if_cases P (ltb 10 counted.lookups) (λ _. refl) (λ _. go counted refl))
        (λ _. go ev refl)

  finish-seen :
      (redirect : Bytes) (ev : Evaluation)
      → (finish dns parse_ip remote check redirect ev).after.seen ≡ ev.seen
  unfolding finish
  finish-seen redirect ev =
      ground (arith, restores redirect (record ev { lookups = ev.lookups + 1 }))

  settle-seen :
      (rest : Evaluation → Verdict) (q : ℕ) (tok : Bytes) (seen : List Bytes)
      (r : Match × Evaluation)
      → r.1.seen ≡ seen
      → ((ev' : Evaluation) → (rest ev').after.seen ≡ ev'.seen)
      → (settle rest q tok r).after.seen ≡ seen
  settle-seen rest q tok seen (matched, ev') h go = h
  settle-seen rest q tok seen (broken e, ev') h go = h
  settle-seen rest q tok seen (unmatched, ev') h go = go ev' ∙ h

  token-seen :
      (rest : Bytes → Evaluation → Verdict) (domain redirect : Bytes) (ev : Evaluation) (t : Token)
      → ((to : Bytes) (ev' : Evaluation) → (rest to ev').after.seen ≡ ev'.seen)
      → (on_token dns parse_ip remote check rest domain redirect ev t).after.seen ≡ ev.seen
  token-seen rest domain redirect ev skip go = go redirect ev
  token-seen rest domain redirect ev (redirect_to d) go = go d ev
  token-seen rest domain redirect ev (mechanism q tok) go =
      settle-seen (rest redirect) q tok ev.seen _ (match-seen domain tok ev) (go redirect)

  scan-seen :
      (domain : Bytes) (ts : List Bytes) (redirect : Bytes) (ev : Evaluation)
      → (scan_tokens dns parse_ip remote check domain ts redirect ev).after.seen ≡ ev.seen
  unfolding scan_tokens
  scan-seen domain [] redirect ev = finish-seen redirect ev
  scan-seen domain (t ∷ ts) redirect ev =
      token-seen (scan_tokens dns parse_ip remote check domain ts) domain redirect ev (read_token t)
        (scan-seen domain ts)

  record-seen :
      (domain : Bytes) (ev : Evaluation) (r : SpfRecord)
      → (on_record dns parse_ip remote check domain ev r).after.seen ≡ ev.seen
  record-seen domain ev (status permerror) = refl
  record-seen domain ev (status temperror) = refl
  record-seen domain ev (status other) = refl
  record-seen domain ev (record_text r) = tokens (fields r)
    where
      tokens :
          (ts : List Bytes)
          → (on_tokens dns parse_ip remote check domain ev ts).after.seen ≡ ev.seen
      tokens [] = refl
      tokens (t ∷ ts) = scan-seen domain ts [] ev

  check-seen : Restores (check_domain dns parse_ip remote check)
  unfolding check_domain
  check-seen raw ev =
      let domain = to_lower (trim_space raw) in
      let P = λ (v : Verdict). v.after.seen ≡ ev.seen in
      if_cases P (is_empty_text domain) (λ _. refl)
        λ _.
          if_cases P (is_member domain ev.seen) (λ _. refl)
            λ new.
              ap (filter (λ x. not (bytes_eq domain x)))
                (record-seen domain (enter domain ev) (lookup_spf_record dns domain))
              ∙ delete_entered domain ev.seen new

-- Whatever an evaluation comes to, the set of domains that are being evaluated is afterwards what
-- it was before, so two mechanisms of one record may name the same domain.
pub check_spf_domain-seen :
    (dns : Dns) (parse_ip : Bytes → Bytes) (remote : Bytes) (levels : ℕ) (domain : Bytes)
    (ev : Evaluation)
    → (check_spf_domain dns parse_ip remote levels domain ev).after.seen ≡ ev.seen
unfolding check_spf_domain
check_spf_domain-seen dns parse_ip remote zero domain ev = refl
check_spf_domain-seen dns parse_ip remote (suc levels) domain ev =
    check-seen dns parse_ip remote (check_spf_domain dns parse_ip remote levels)
      (check_spf_domain-seen dns parse_ip remote levels) domain ev
