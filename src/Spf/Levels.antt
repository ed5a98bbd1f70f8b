-- ===== src/Spf/Levels.antt =====
-- The bound on the depth: the lookup budget ends an evaluation before it does.
use sender_report.Base.{
  ℕ, zero, suc, ◌+◌, ◌≤◌, ◌<◌, ◌≡◌, refl, inl, inr, false, List, [], ◌∷◌, arith, ltb, Bool-cases,
}
use sender_report.Text.{Bytes, codes, bytes_eq, to_lower, trim_space, fields}
use sender_report.Dns.{Dns}
use sender_report.Spf.Parse.{
  permerror, temperror, Mechanism, parse_spf_mechanism, Token, skip, redirect_to, mechanism,
  read_token,
}
use sender_report.Spf.Mechanism.{
  Match, matched, unmatched, broken, Evaluation, Verdict, dispatch, match_spf_mechanism,
}
use sender_report.Spf.Check.{
  SpfRecord, record_text, status, enter, finish, settle, on_token, scan_tokens, on_tokens,
  on_record, check_domain, check_spf_domain, lookup_spf_record, start,
}
use sender_report.Spf.Budget.{Keeps, MatchInBudget, match-InBudget, check_spf_domain-InBudget}

-- Two evaluations of the level below agree once `low` lookups are counted.
abbrev Agree : ℕ → (f g : Bytes → Evaluation → Verdict) → Type 0
Agree low f g = (d : Bytes) (ev : Evaluation) → low ≤ ev.lookups → ev.lookups ≤ 10 → f d ev ≡ g d ev

module _ (dns : Dns) (parse_ip : Bytes → Bytes) (remote : Bytes)
    (f g : Bytes → Evaluation → Verdict) (keeps : Keeps f) (low : ℕ)
    (agree : Agree (low + 1) f g) where
  dispatch-other :
      (current : Bytes) (m : Mechanism) (ev : Evaluation)
      → bytes_eq m.name (codes "include") ≡ false
      → dispatch dns parse_ip remote f current m ev ≡ dispatch dns parse_ip remote g current m ev
  unfolding dispatch
  dispatch-other current m ev e = rw e

  dispatch-agree :
      (current : Bytes) (m : Mechanism) (ev : Evaluation)
      → f m.value ev ≡ g m.value ev
      → dispatch dns parse_ip remote f current m ev ≡ dispatch dns parse_ip remote g current m ev
  unfolding dispatch
  dispatch-agree current m ev e = rw e

  -- Only an `include` asks the level below, and it has been counted.
  match-same :
      (current mech : Bytes) (ev : Evaluation)
      → low ≤ ev.lookups
      → ev.lookups ≤ 10
      → match_spf_mechanism dns parse_ip remote f current mech ev
        ≡ match_spf_mechanism dns parse_ip remote g current mech ev
  unfolding match_spf_mechanism
  match-same current mech ev h k =
      let m = parse_spf_mechanism mech in
      let counted : Evaluation = record ev { lookups = ev.lookups + 1 } in
      elim (Bool-cases (bytes_eq m.name (codes "include"))) [
        | inl e ↦ elim (Bool-cases (ltb 10 counted.lookups)) [
          | inl over ↦ rw (e, over)
          | inr under ↦
              rw (e, under)
                (dispatch-agree current m counted
                  (agree m.value counted (omega arith) (ground arith)))
        ]
        | inr e ↦ rw (dispatch-other current m counted e, dispatch-other current m ev e)
      ]

  finish-same :
      (redirect : Bytes) (ev : Evaluation)
      → low ≤ ev.lookups
      → ev.lookups ≤ 10
      → finish dns parse_ip remote f redirect ev ≡ finish dns parse_ip remote g redirect ev
  unfolding finish
  finish-same redirect ev h k =
      ground (arith, agree redirect (record ev { lookups = ev.lookups + 1 }))

  settle-same :
      (rest rest' : Evaluation → Verdict) (ev : Evaluation) (q : ℕ) (tok : Bytes)
      (r : Match × Evaluation)
      → MatchInBudget ev r
      → ((ev' : Evaluation) → ev.lookups ≤ ev'.lookups → ev'.lookups ≤ 10 → rest ev' ≡ rest' ev')
      → settle rest q tok r ≡ settle rest' q tok r
  settle-same rest rest' ev q tok (matched, ev') h go = refl
  settle-same rest rest' ev q tok (broken e, ev') h go = refl
  settle-same rest rest' ev q tok (unmatched, ev') h go = go ev' h.0 (ground arith)

  token-same :
      (rest rest' : Bytes → Evaluation → Verdict) (domain redirect : Bytes) (ev : Evaluation)
      (t : Token)
      → low ≤ ev.lookups
      → ev.lookups ≤ 10
      → ((to : Bytes) (ev' : Evaluation)
          → low ≤ ev'.lookups
          → ev'.lookups ≤ 10
          → rest to ev' ≡ rest' to ev')
      → on_token dns parse_ip remote f rest domain redirect ev t
        ≡ on_token dns parse_ip remote g rest' domain redirect ev t
  token-same rest rest' domain redirect ev skip h k go = go redirect ev h k
  token-same rest rest' domain redirect ev (redirect_to d) h k go = go d ev h k
  token-same rest rest' domain redirect ev (mechanism q tok) h k go =
      rw (← match-same domain tok ev h k) (
        settle-same (rest redirect) (rest' redirect) ev q tok _
          (match-InBudget dns parse_ip remote f keeps domain tok ev k)
          (λ ev' le b. go redirect ev' (omega arith) b))

  scan-same :
      (domain : Bytes) (ts : List Bytes) (redirect : Bytes) (ev : Evaluation)
      → low ≤ ev.lookups
      → ev.lookups ≤ 10
      → scan_tokens dns parse_ip remote f domain ts redirect ev
        ≡ scan_tokens dns parse_ip remote g domain ts redirect ev
  unfolding scan_tokens
  scan-same domain [] redirect ev h k = finish-same redirect ev h k
  scan-same domain (t ∷ ts) redirect ev h k =
      token-same (scan_tokens dns parse_ip remote f domain ts)
        (scan_tokens dns parse_ip remote g domain ts) domain redirect ev (read_token t) h k
        (scan-same domain ts)

  tokens-same :
      (domain : Bytes) (ev : Evaluation) (ts : List Bytes)
      → low ≤ ev.lookups
      → ev.lookups ≤ 10
      → on_tokens dns parse_ip remote f domain ev ts ≡ on_tokens dns parse_ip remote g domain ev ts
  tokens-same domain ev [] h k = refl
  tokens-same domain ev (t ∷ ts) h k = scan-same domain ts [] ev h k

  record-same :
      (domain : Bytes) (ev : Evaluation) (r : SpfRecord)
      → low ≤ ev.lookups
      → ev.lookups ≤ 10
      → on_record dns parse_ip remote f domain ev r ≡ on_record dns parse_ip remote g domain ev r
  record-same domain ev (status permerror) h k = refl
  record-same domain ev (status temperror) h k = refl
  record-same domain ev (status other) h k = refl
  record-same domain ev (record_text r) h k = tokens-same domain ev (fields r) h k

  check-same :
      (raw : Bytes) (ev : Evaluation)
      → low ≤ ev.lookups
      → ev.lookups ≤ 10
      → check_domain dns parse_ip remote f raw ev ≡ check_domain dns parse_ip remote g raw ev
  unfolding check_domain
  check-same raw ev h k = rw (
      record-same (to_lower (trim_space raw)) (enter (to_lower (trim_space raw)) ev)
        (lookup_spf_record dns (to_lower (trim_space raw))) h k)

-- More levels than lookups are left change nothing.
check_spf_domain_more :
    (dns : Dns) (parse_ip : Bytes → Bytes) (remote : Bytes) (n m : ℕ) (domain : Bytes)
    (ev : Evaluation)
    → 10 < n + ev.lookups
    → 10 < m + ev.lookups
    → ev.lookups ≤ 10
    → check_spf_domain dns parse_ip remote n domain ev
      ≡ check_spf_domain dns parse_ip remote m domain ev
unfolding check_spf_domain
check_spf_domain_more dns parse_ip remote zero m domain ev h k b = absurd (omega arith)
check_spf_domain_more dns parse_ip remote (suc n) zero domain ev h k b = absurd (omega arith)
check_spf_domain_more dns parse_ip remote (suc n) (suc m) domain ev h k b =
    check-same dns parse_ip remote (check_spf_domain dns parse_ip remote n)
      (check_spf_domain dns parse_ip remote m) (check_spf_domain-InBudget dns parse_ip remote n)
      ev.lookups
      (λ d ev' low b'.
        check_spf_domain_more dns parse_ip remote n m d ev' (omega arith) (omega arith) b')
      domain ev (omega arith) b

-- Eleven levels are enough: with as many or more the evaluation comes to the same verdict, from the
-- start of an evaluation. So the refusal of a depth over ten never decides one: the lookup budget
-- ends it before.
pub check_spf_domain-levels :
    (dns : Dns) (parse_ip : Bytes → Bytes) (remote : Bytes) (more : ℕ) (domain : Bytes)
    → check_spf_domain dns parse_ip remote 11 domain start
      ≡ check_spf_domain dns parse_ip remote (11 + more) domain start
check_spf_domain-levels dns parse_ip remote more domain =
    check_spf_domain_more dns parse_ip remote 11 (11 + more) domain start (omega arith)
      (omega arith) (omega arith)
