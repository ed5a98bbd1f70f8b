-- ===== src/Placement/Start.antt =====
-- `iptStartAPI`, without its texts. What the JSON decoder reads of the body, the random numbers, the clock
-- and the cached health of the accounts are parameters.
use sender_report.Base.{
  ℕ, ◌+◌, Bool, true, false, not, ◌||◌, Option, none, some, List, [], ◌∷◌, ◌++◌, map, if◌then◌else◌,
  filter,
}
use sender_report.Text.{Bytes, codes}
use sender_report.RateLimit.{Limiter, allow, retry_after}
use sender_report.Seeds.{Account, Provider, SeedInfo, filter_providers, pick}
use sender_report.Store.Tables.{Mailbox, Db, Answer, ok, not_found, constraint}
use sender_report.Store.Mailboxes.{get_mailbox_by_token}
use sender_report.Store.Placements.{create_placement_test}
use sender_report.Web.Checks.{wait_seconds}
use sender_report.Placement.Access.{new_placement_token}

-- `health` is what the last check found of an account, by its key. The decoded body is none on an error of
-- the decoder.
pub record StartInputs : Type 0 where
  pub seeds : Option (List Provider)
  pub body : Option (List Bytes)
  pub health : Bytes → Option Bool
  pub random : ℕ → Option Bytes
  pub rand : ℕ → ℕ → ℕ
  pub encode_hex : Bytes → Bytes
  pub marshal_seeds : List SeedInfo → Bytes
  pub ipt_token_length : ℕ
  pub ipt_test_duration : ℕ

-- The answers. `panicked` is what Pick does with a provider without an account.
pub data Started : Type 0 where
  not_configured mailbox_gone invalid_body no_providers token_error db_error panicked : Started
  rate_limited : ℕ → Started
  all_unavailable : List Bytes → Started
  started : Bytes → Bytes → List (SeedInfo × Account) → ℕ → List Bytes → Started

-- Without a check of an account its provider is let through.
abbrev pub any_healthy : (Bytes → Option Bool) → Bytes → List Account → Bool
any_healthy health name [] = false
any_healthy health name (acc ∷ accounts) =
    let rest = any_healthy health name accounts in
    elim (health (name ++ (codes ":" ++ acc.user))) [ none ↦ true | some fine ↦ fine || rest ]

abbrev pub is_healthy : (Bytes → Option Bool) → Provider → Bool
is_healthy health p = any_healthy health p.name p.accounts

abbrev pub limiter_key : Bytes → Bytes
limiter_key ip = codes "ipt:" ++ ip

abbrev pub subject_tag : Bytes → Bytes
subject_tag token = codes "[SR-" ++ (token ++ codes "]")

abbrev pub after_insert :
    Bytes → List (SeedInfo × Account) → ℕ → List Bytes → Answer (Unit {0}) × Db → Started × Db
after_insert token picked expires unavailable (ok u, d) =
    (started token (subject_tag token) picked expires unavailable, d)
after_insert token picked expires unavailable (not_found, d) = (db_error, d)
after_insert token picked expires unavailable (constraint, d) = (db_error, d)

module _ (inputs : StartInputs) (now : ℕ) where
  -- The times of the test and of its row are one here.
  abbrev pub with_accounts :
      Mailbox → Bytes → List Bytes → Db → Option (List (SeedInfo × Account)) → Started × Db
  with_accounts mb token unavailable d none = (panicked, d)
  with_accounts mb token unavailable d (some picked) =
      let expires = now + inputs.ipt_test_duration in
      after_insert token picked expires unavailable (
        create_placement_test now mb.id token (inputs.marshal_seeds (map (λ s. s.0) picked)) expires
          d)

  abbrev pub with_token : Mailbox → List Provider → List Bytes → Db → Option Bytes → Started × Db
  with_token mb providers unavailable d none = (token_error, d)
  with_token mb providers unavailable d (some token) =
      with_accounts mb token unavailable d (pick inputs.rand providers)

  abbrev pub with_healthy : Mailbox → List Bytes → Db → List Provider → Started × Db
  with_healthy mb unavailable d [] = (all_unavailable unavailable, d)
  with_healthy mb unavailable d (p ∷ ps) =
      with_token mb (p ∷ ps) unavailable d
        (new_placement_token inputs.encode_hex inputs.random inputs.ipt_token_length)

  abbrev pub with_providers : Mailbox → Db → List Provider → Started × Db
  with_providers mb d [] = (no_providers, d)
  with_providers mb d (p ∷ ps) =
      with_healthy mb (map (λ q. q.name) (filter (λ q. not (is_healthy inputs.health q)) (p ∷ ps)))
        d (filter (is_healthy inputs.health) (p ∷ ps))

  abbrev pub with_body : List Provider → Mailbox → Db → Option (List Bytes) → Started × Db
  with_body seeds mb d none = (invalid_body, d)
  with_body seeds mb d (some selected) = with_providers mb d (filter_providers seeds selected)

  abbrev pub with_mailbox : List Provider → Db → Answer Mailbox → Started × Db
  with_mailbox seeds d (ok mb) = with_body seeds mb d inputs.body
  with_mailbox seeds d not_found = (mailbox_gone, d)
  with_mailbox seeds d constraint = (mailbox_gone, d)

  -- With 429 goes the Retry-After header.
  abbrev pub with_seeds :
      Option (List Provider) → Bytes → Bytes → Limiter → Db → Started × Limiter × Db
  with_seeds none ip mailbox_token limiter d = (not_configured, limiter, d)
  with_seeds (some seeds) ip mailbox_token limiter d =
      let asked = allow limiter (limiter_key ip) now in
      let answer = with_mailbox seeds d (get_mailbox_by_token mailbox_token d) in
      if asked.1
      then (answer.0, asked.0, answer.1)
      else (rate_limited (wait_seconds (retry_after asked.0 (limiter_key ip) now)), asked.0, d)

  unfoldable pub ipt_start : Bytes → Bytes → Limiter → Db → Started × Limiter × Db
  ipt_start ip mailbox_token limiter d = with_seeds inputs.seeds ip mailbox_token limiter d
