-- ===== src/Store/Operations.antt =====
-- Every operation that changes the database, as a request, and runs of them.
use sender_report.Base.{ℕ, Bool, List, [], ◌∷◌}
use sender_report.Text.{Bytes}
use sender_report.Store.Tables.{Message, Report, TestStatus, Db}
use sender_report.Store.Mailboxes.{
  NewMailbox, create_mailbox, update_mailbox_checks, touch_mailbox, delete_mailbox_by_token,
  cleanup,
}
use sender_report.Store.Messages.{
  save_message, save_report, update_message_payload_enc, update_report_score_checks,
}
use sender_report.Store.Placements.{create_placement_test, update_placement_test_result}

-- A time comes first where the code asks the clock.
pub data Request : Type 0 where
  create : ℕ → NewMailbox → Request
  set_checks : Bytes → Bool → Bool → Bool → Request
  touch : ℕ → ℕ → Request
  delete : Bytes → Request
  clean : ℕ → ℕ → Request
  receive : ℕ → Message → Request
  report : ℕ → Report → Request
  set_payload : ℕ → Bytes → Request
  set_score : ℕ → ℕ → Bytes → Bytes → Request
  start_test : ℕ → ℕ → Bytes → Bytes → ℕ → Request
  set_result : Bytes → Bytes → TestStatus → Request

unfoldable pub run : Request → Db → Db
run (create now n) d = (create_mailbox now n d).1
run (set_checks token age blocklist broken) d =
    (update_mailbox_checks token age blocklist broken d).1
run (touch now k) d = touch_mailbox now k d
run (delete token) d = (delete_mailbox_by_token token d).1
run (clean now retention) d = (cleanup now retention d).1
run (receive now m) d = (save_message now m d).1
run (report now r) d = (save_report now r d).1
run (set_payload k payload) d = (update_message_payload_enc k payload d).1
run (set_score k score label checks) d = (update_report_score_checks k score label checks d).1
run (start_test now k token seeds expires) d = (create_placement_test now k token seeds expires d).1
run (set_result token results status) d = update_placement_test_result token results status d

unfoldable pub run_all : List Request → Db → Db
run_all [] d = d
run_all (q ∷ qs) d = run_all qs (run q d)
