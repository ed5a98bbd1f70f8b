-- ===== src/Create/Traffic.antt =====
-- Requests for mailboxes that are handled at the same time: their calls of the store come in any
-- order, with those of the other operations between them.
use sender_report.Base.{ℕ, ◌≤◌, ◌≡◌, Bool, true, false, List, [], ◌∷◌, ◌++◌, length}
use sender_report.Text.{Bytes}
use sender_report.Store.Tables.{Db}
use sender_report.Store.Sound.{IsSound}
use sender_report.Store.Mailboxes.{count_active_mailboxes_by_ip, count_active_mailboxes}
use sender_report.Store.Operations.{
  Request, create, set_checks, touch, delete, clean, receive, report, set_payload, set_score,
  start_test, set_result, run,
}
use sender_report.Create.Program.{Program, exec}
use sender_report.Create.Handler.{CreateConfig}

abbrev pub is_create : Request → Bool
is_create (create now n) = true
is_create (set_checks token age blocklist broken) = false
is_create (touch now k) = false
is_create (delete token) = false
is_create (clean now retention) = false
is_create (receive now m) = false
is_create (report now r) = false
is_create (set_payload k payload) = false
is_create (set_score k score label checks) = false
is_create (start_test now k token seeds expires) = false
is_create (set_result token results status) = false

-- The mailboxes that are active at a time are at most so many, for one address and in all.
pub record IsWithin (per_ip all now : ℕ) (d : Db) : Type 0 where
  pub by_ip : (ip : Bytes) → count_active_mailboxes_by_ip now ip d ≤ per_ip
  pub in_all : count_active_mailboxes now d ≤ all

-- The handler of each request is a program of `Handler`. At most `extra + 1` run at a time; each goes on by
-- one call, or ends, also before it has answered. The clock does not go back.
pub data Traffic (Handler : Program → Type 0) (cfg : CreateConfig) (extra : ℕ)
    : ℕ → List Program → Db → Type 0 where
  begin :
      (now : ℕ) (d : Db)
      → IsSound d
      → IsWithin cfg.max_active_per_ip cfg.max_active_global now d
      → Traffic Handler cfg extra now [] d
  arrives :
      {now : ℕ} {ps : List Program} {d : Db} (p : Program)
      → Handler p
      → length ps ≤ extra
      → Traffic Handler cfg extra now ps d
      → Traffic Handler cfg extra now (p ∷ ps) d
  goes_on :
      {now : ℕ} {d : Db} (later : ℕ) (pre : List Program) (p : Program) (post : List Program)
      → now ≤ later
      → Traffic Handler cfg extra now (pre ++ p ∷ post) d
      → Traffic Handler cfg extra later (pre ++ (exec later p d).0 ∷ post) (exec later p d).1
  ends :
      {now : ℕ} {d : Db} (pre : List Program) (p : Program) (post : List Program)
      → Traffic Handler cfg extra now (pre ++ p ∷ post) d
      → Traffic Handler cfg extra now (pre ++ post) d
  other :
      {now : ℕ} {ps : List Program} {d : Db} (later : ℕ) (q : Request)
      → is_create q ≡ false
      → now ≤ later
      → Traffic Handler cfg extra now ps d
      → Traffic Handler cfg extra later ps (run q d)
