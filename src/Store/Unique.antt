-- ===== src/Store/Unique.antt =====
-- The keys stay unique under every operation.
use sender_report.Base.{ℕ, refl, inl, inr, List, Bool-cases}
use sender_report.Text.{Bytes, bytes_eq}
use sender_report.Store.Tables.{
  Mailbox, Message, Report, PlacementTest, Db, any_row, has_mailbox, has_message,
}
use sender_report.Store.Rows.{affected_rule, Distinct, Distinct-append, Distinct-update}
use sender_report.Store.Sound.{same_test, MailboxesKeyed, MessagesKeyed, ReportsKeyed, IsKeyed}
use sender_report.Store.Mailboxes.{
  NewMailbox, same_names, create_mailbox, update_mailbox_checks, touch_mailbox,
  delete_mailbox_by_token, old_message, cutoff, cleanup,
}
use sender_report.Store.Messages.{
  received_now, save_message, created_now, save_report, of_message, update_message_payload_enc,
  update_report_score_checks,
}
use sender_report.Store.Placements.{create_placement_test, update_placement_test_result}
use sender_report.Store.Operations.{
  Request, create, set_checks, touch, delete, clean, receive, report, set_payload, set_score,
  start_test, set_result, run,
}
use sender_report.Store.Keys.{
  MailboxesKeyed-insert, MailboxesKeyed-update, MessagesKeyed-update, delete_messages-IsKeyed,
  delete_mailboxes-IsKeyed, ReportsKeyed-update, ReportsKeyed-replace, ReportsKeyed-insert,
  MessagesKeyed-insert,
}

create_mailbox-IsKeyed :
    (now : ℕ) (n : NewMailbox) (d : Db) → IsKeyed d → IsKeyed (create_mailbox now n d).1
unfolding create_mailbox
create_mailbox-IsKeyed now n d h = elim (Bool-cases (any_row (same_names n) d.mailboxes)) [
  | inl e ↦ rw e h
  | inr e ↦ rw e (record {
    mailbox_keys = MailboxesKeyed-insert now n d e h.mailbox_keys;
    message_keys = h.message_keys;
    report_keys = h.report_keys;
    test_keys = h.test_keys;
  })
]

save_message-IsKeyed :
    (now : ℕ) (m : Message) (d : Db) → IsKeyed d → IsKeyed (save_message now m d).1
unfolding save_message
save_message-IsKeyed now m d h = elim (Bool-cases (has_mailbox m.mailbox_id d.mailboxes)) [
  | inr e ↦ rw e h
  | inl e ↦ rw e (record {
    mailbox_keys = h.mailbox_keys;
    message_keys = MessagesKeyed-insert (received_now now m) d h.message_keys;
    report_keys = h.report_keys;
    test_keys = h.test_keys;
  })
]

with_reports :
    (d : Db) (rows : List Report)
    → IsKeyed d
    → ReportsKeyed d.next_report rows
    → IsKeyed (record d { reports = rows })
with_reports d rows h k = record {
  mailbox_keys = h.mailbox_keys;
  message_keys = h.message_keys;
  report_keys = k;
  test_keys = h.test_keys;
}

save_report-IsKeyed : (now : ℕ) (r : Report) (d : Db) → IsKeyed d → IsKeyed (save_report now r d).1
unfolding save_report
save_report-IsKeyed now r d h =
    let r' = created_now now r in
    elim (Bool-cases (any_row (of_message r'.message_id) d.reports)) [
      | inl e ↦
          rw e (with_reports d _ h (ReportsKeyed-replace d.next_report r' d.reports h.report_keys))
      | inr e ↦ elim (Bool-cases (has_message r'.message_id d.messages)) [
        | inr f ↦ rw (e, f) h
        | inl t ↦
            rw (e, t)
              (record {
                mailbox_keys = h.mailbox_keys;
                message_keys = h.message_keys;
                report_keys = ReportsKeyed-insert r' d e h.report_keys;
                test_keys = h.test_keys;
              })
      ]
    ]

with_tests :
    (d : Db) (rows : List PlacementTest)
    → IsKeyed d
    → Distinct same_test rows
    → IsKeyed (record d { tests = rows })
with_tests d rows h k = record {
  mailbox_keys = h.mailbox_keys;
  message_keys = h.message_keys;
  report_keys = h.report_keys;
  test_keys = k;
}

start_test-IsKeyed :
    (now k : ℕ) (token seeds : Bytes) (expires : ℕ) (d : Db)
    → IsKeyed d
    → IsKeyed (create_placement_test now k token seeds expires d).1
unfolding create_placement_test
start_test-IsKeyed now k token seeds expires d h =
    elim (Bool-cases (any_row (λ t. bytes_eq t.placement_token token) d.tests)) [
      | inl e ↦ rw e h
      | inr e ↦ elim (Bool-cases (has_mailbox k d.mailboxes)) [
        | inl t ↦
            rw (e, t)
              (record {
                mailbox_keys = h.mailbox_keys;
                message_keys = h.message_keys;
                report_keys = h.report_keys;
                test_keys = Distinct-append same_test d.tests _ h.test_keys e;
              })
        | inr f ↦ rw (e, f) h
      ]
    ]

with_mailboxes :
    (d : Db) (rows : List Mailbox)
    → IsKeyed d
    → MailboxesKeyed d.next_mailbox rows
    → IsKeyed (record d { mailboxes = rows })
with_mailboxes d rows h k = record {
  mailbox_keys = k;
  message_keys = h.message_keys;
  report_keys = h.report_keys;
  test_keys = h.test_keys;
}

with_messages :
    (d : Db) (rows : List Message)
    → IsKeyed d
    → MessagesKeyed d.next_message rows
    → IsKeyed (record d { messages = rows })
with_messages d rows h k = record {
  mailbox_keys = h.mailbox_keys;
  message_keys = k;
  report_keys = h.report_keys;
  test_keys = h.test_keys;
}

-- Every operation keeps the keys.
pub run-IsKeyed : (q : Request) (d : Db) → IsKeyed d → IsKeyed (run q d)
unfolding run update_mailbox_checks touch_mailbox delete_mailbox_by_token cleanup
    update_message_payload_enc update_report_score_checks update_placement_test_result
run-IsKeyed (create now n) d h = create_mailbox-IsKeyed now n d h
run-IsKeyed (set_checks token age blocklist broken) d h =
    affected_rule IsKeyed _ _ d
      (with_mailboxes d _ h (
        MailboxesKeyed-update _ _ _ (λ m. refl) (λ m. refl) (λ m. refl) d.mailboxes h.mailbox_keys))
      h
run-IsKeyed (touch now k) d h =
    with_mailboxes d _ h
      (MailboxesKeyed-update _ _ _ (λ m. refl) (λ m. refl) (λ m. refl) d.mailboxes h.mailbox_keys)
run-IsKeyed (delete token) d h = affected_rule IsKeyed _ _ d (delete_mailboxes-IsKeyed _ d h) h
run-IsKeyed (clean now retention) d h =
    delete_mailboxes-IsKeyed _ _ (delete_messages-IsKeyed (old_message (cutoff now retention)) d h)
run-IsKeyed (receive now m) d h = save_message-IsKeyed now m d h
run-IsKeyed (report now r) d h = save_report-IsKeyed now r d h
run-IsKeyed (set_payload k payload) d h =
    affected_rule IsKeyed _ _ d
      (with_messages d _ h (MessagesKeyed-update _ _ _ (λ m. refl) d.messages h.message_keys)) h
run-IsKeyed (set_score k score label checks) d h =
    affected_rule IsKeyed _ _ d
      (with_reports d _ h
        (ReportsKeyed-update _ _ _ (λ r. refl) (λ r. refl) d.reports h.report_keys))
      h
run-IsKeyed (start_test now k token seeds expires) d h =
    start_test-IsKeyed now k token seeds expires d h
run-IsKeyed (set_result token results status) d h =
    with_tests d _ h (Distinct-update same_test _ _ (λ x y. refl) (λ x y. refl) d.tests h.test_keys)
