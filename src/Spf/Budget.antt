-- ===== src/Spf/Budget.antt =====
-- The budget of RFC 7208 section 4.6.4: ten counted lookups in a whole evaluation.
use sender_report.Base.{
  ℕ, zero, suc, ◌+◌, ◌≤◌, ◌≡◌, refl, ◌⊎◌, inl, inr, List, [], ◌∷◌, arith, ltb, if_cases,
}
use sender_report.Text.{Bytes, to_lower, trim_space, fields}
use sender_report.Dns.{Dns}
use sender_report.Spf.Parse.{
  permerror, temperror, Mechanism, parse_spf_mechanism, Token, skip, redirect_to, mechanism,
  read_token, is_empty_text,
}
use sender_report.Spf.Mechanism.{
  Match, matched, unmatched, broken, Evaluation, Verdict, included, dispatch, dispatch_cases,
  match_spf_mechanism, costs_lookup,
}
use sender_report.Spf.Check.{
  SpfRecord, record_text, status, enter, finish, settle, on_token, scan_tokens, on_tokens,
  on_record, check_domain, check_spf_domain, is_member, lookup_spf_record,
}

-- From `ev` on: no counted lookup is taken back, and at most ten are counted, or the eleventh has
-- ended the evaluation with a permanent error.
abbrev pub Spent : Evaluation → Evaluation → Type 0 → Type 0
Spent ev after Over =
    (ev.lookups ≤ after.lookups) × ((after.lookups ≤ 10) ⊎ ((after.lookups ≡ 11) × Over))

abbrev pub InBudget : Evaluation → Verdict → Type 0
InBudget ev v = Spent ev v.after (v.result ≡ permerror)

abbrev pub MatchInBudget : Evaluation → Match × Evaluation → Type 0
MatchInBudget ev r = Spent ev r.1 (r.0 ≡ broken permerror)

-- What is asked of the evaluation one level deeper.
abbrev pub Keeps : (Bytes → Evaluation → Verdict) → Type 0
Keeps check = (d : Bytes) (ev : Evaluation) → ev.lookups ≤ 10 → InBudget ev (check d ev)

included-InBudget : (ev : Evaluation) (v : Verdict) → InBudget ev v → MatchInBudget ev (included v)
included-InBudget ev v h = ground arith

module _ (dns : Dns) (parse_ip : Bytes → Bytes) (remote : Bytes)
    (check : Bytes → Evaluation → Verdict) (keeps : Keeps check) where
  dispatch-InBudget :
      (current : Bytes) (m : Mechanism) (ev : Evaluation)
      → ev.lookups ≤ 10
      → MatchInBudget ev (dispatch dns parse_ip remote check current m ev)
  dispatch-InBudget current m ev h =
      dispatch_cases dns parse_ip remote (MatchInBudget ev) check current m ev
        (λ r. (omega arith, inl h)) (included-InBudget ev (check m.value ev) (keeps m.value ev h))

  pub match-InBudget :
      (current mech : Bytes) (ev : Evaluation)
      → ev.lookups ≤ 10
      → MatchInBudget ev (match_spf_mechanism dns parse_ip remote check current mech ev)
  unfolding match_spf_mechanism
  match-InBudget current mech ev h =
      let m = parse_spf_mechanism mech in
      let counted : Evaluation = record ev { lookups = ev.lookups + 1 } in
      if_cases (MatchInBudget ev) (costs_lookup m.name)
        (λ _.
          if_cases (MatchInBudget ev) (ltb 10 counted.lookups)
            (λ e. (omega arith, inr (ground arith, refl)))
            (λ e. ground (arith, dispatch-InBudget current m counted)))
        (λ _. dispatch-InBudget current m ev h)

  finish-InBudget :
      (redirect : Bytes) (ev : Evaluation)
      → ev.lookups ≤ 10
      → InBudget ev (finish dns parse_ip remote check redirect ev)
  unfolding finish
  finish-InBudget redirect ev h =
      ground (arith, keeps redirect (record ev { lookups = ev.lookups + 1 }))

  settle-InBudget :
      (rest : Evaluation → Verdict) (ev : Evaluation) (q : ℕ) (tok : Bytes) (r : Match × Evaluation)
      → MatchInBudget ev r
      → ((ev' : Evaluation) → ev'.lookups ≤ 10 → InBudget ev' (rest ev'))
      → InBudget ev (settle rest q tok r)
  settle-InBudget rest ev q tok (matched, ev') h go = ground arith
  settle-InBudget rest ev q tok (broken e, ev') h go = ground arith
  settle-InBudget rest ev q tok (unmatched, ev') h go = ground (arith, go ev')

  token-InBudget :
      (rest : Bytes → Evaluation → Verdict) (domain redirect : Bytes) (ev : Evaluation) (t : Token)
      → ev.lookups ≤ 10
      → ((to : Bytes) (ev' : Evaluation) → ev'.lookups ≤ 10 → InBudget ev' (rest to ev'))
      → InBudget ev (on_token dns parse_ip remote check rest domain redirect ev t)
  token-InBudget rest domain redirect ev skip h go = go redirect ev h
  token-InBudget rest domain redirect ev (redirect_to d) h go = go d ev h
  token-InBudget rest domain redirect ev (mechanism q tok) h go =
      settle-InBudget (rest redirect) ev q tok _ (match-InBudget domain tok ev h) (go redirect)

  scan-InBudget :
      (domain : Bytes) (ts : List Bytes) (redirect : Bytes) (ev : Evaluation)
      → ev.lookups ≤ 10
      → InBudget ev (scan_tokens dns parse_ip remote check domain ts redirect ev)
  unfolding scan_tokens
  scan-InBudget domain [] redirect ev h = finish-InBudget redirect ev h
  scan-InBudget domain (t ∷ ts) redirect ev h =
      token-InBudget (scan_tokens dns parse_ip remote check domain ts) domain redirect ev
        (read_token t) h (scan-InBudget domain ts)

  record-InBudget :
      (domain : Bytes) (ev : Evaluation) (r : SpfRecord)
      → ev.lookups ≤ 10
      → InBudget ev (on_record dns parse_ip remote check domain ev r)
  record-InBudget domain ev (status permerror) h = (omega arith, inl h)
  record-InBudget domain ev (status temperror) h = (omega arith, inl h)
  record-InBudget domain ev (status other) h = (omega arith, inl h)
  record-InBudget domain ev (record_text r) h = tokens (fields r)
    where
      tokens : (ts : List Bytes) → InBudget ev (on_tokens dns parse_ip remote check domain ev ts)
      tokens [] = (omega arith, inl h)
      tokens (t ∷ ts) = scan-InBudget domain ts [] ev h

  pub check-InBudget : Keeps (check_domain dns parse_ip remote check)
  unfolding check_domain
  check-InBudget raw ev h =
      let domain = to_lower (trim_space raw) in
      if_cases (InBudget ev) (is_empty_text domain) (λ _. (omega arith, inl h))
        λ _.
          if_cases (InBudget ev) (is_member domain ev.seen) (λ _. (omega arith, inl h))
            λ _. record-InBudget domain (enter domain ev) (lookup_spf_record dns domain) h

-- An evaluation that starts within the budget counts at most eleven lookups, and eleven only if
-- it ends in a permanent error, whatever the records and the depth; none is taken back.
pub check_spf_domain-InBudget :
    (dns : Dns) (parse_ip : Bytes → Bytes) (remote : Bytes) (levels : ℕ) (domain : Bytes)
    (ev : Evaluation)
    → ev.lookups ≤ 10
    → InBudget ev (check_spf_domain dns parse_ip remote levels domain ev)
unfolding check_spf_domain
check_spf_domain-InBudget dns parse_ip remote zero domain ev h = (omega arith, inl h)
check_spf_domain-InBudget dns parse_ip remote (suc levels) domain ev h =
    check-InBudget dns parse_ip remote (check_spf_domain dns parse_ip remote levels)
      (check_spf_domain-InBudget dns parse_ip remote levels) domain ev h
