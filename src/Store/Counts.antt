-- ===== src/Store/Counts.antt =====
-- The counters are never behind the tables, and every state that is reached is sound.
use sender_report.Base.{
  ℕ, Bool, not, inl, inr, List, [], ◌∷◌, arith, Bool-cases, filter, length-append, length-filter-le,
}
use sender_report.Text.{Bytes, bytes_eq}
use sender_report.Store.Tables.{
  Mailbox, Message, Report, PlacementTest, Db, any_row, update_rows, has_mailbox, has_message,
  delete_messages, delete_mailboxes,
}
use sender_report.Store.Rows.{affected_rule, length-update}
use sender_report.Store.Sound.{IsCounted, IsSound}
use sender_report.Store.Mailboxes.{
  NewMailbox, mailbox_row, same_names, create_mailbox, update_mailbox_checks, touch_mailbox,
  delete_mailbox_by_token, old_message, cutoff, cleanup,
}
use sender_report.Store.Messages.{
  save_message, created_now, save_report, of_message, update_message_payload_enc,
  update_report_score_checks,
}
use sender_report.Store.Placements.{create_placement_test, update_placement_test_result}
use sender_report.Store.References.{run-RefersTo}
use sender_report.Store.Unique.{run-IsKeyed}
use sender_report.Store.Operations.{
  Request, create, set_checks, touch, delete, clean, receive, report, set_payload, set_score,
  start_test, set_result, run, run_all,
}

delete_messages-IsCounted :
    (p : Message → Bool) (d : Db) → IsCounted d → IsCounted (delete_messages p d)
unfolding delete_messages
delete_messages-IsCounted p d h = record {
  mailboxes_counted = h.mailboxes_counted;
  messages_counted =
      omega (arith, h.messages_counted, length-filter-le (λ m. not (p m)) d.messages);
  reports_counted = omega (
    arith,
    h.reports_counted,
    length-filter-le (λ (r : Report). not (has_message r.message_id (filter p d.messages)))
        d.reports,
  );
}

delete_mailboxes-IsCounted :
    (p : Mailbox → Bool) (d : Db) → IsCounted d → IsCounted (delete_mailboxes p d)
unfolding delete_mailboxes
delete_mailboxes-IsCounted p d h =
    let h' = delete_messages-IsCounted (λ m. has_mailbox m.mailbox_id (filter p d.mailboxes)) d h in
    record {
      mailboxes_counted =
          omega (arith, h.mailboxes_counted, length-filter-le (λ m. not (p m)) d.mailboxes);
      messages_counted = h'.messages_counted;
      reports_counted = h'.reports_counted;
    }

create_mailbox-IsCounted :
    (now : ℕ) (n : NewMailbox) (d : Db) → IsCounted d → IsCounted (create_mailbox now n d).1
unfolding create_mailbox
create_mailbox-IsCounted now n d h = elim (Bool-cases (any_row (same_names n) d.mailboxes)) [
  | inl e ↦ rw e h
  | inr e ↦ rw e (record {
    mailboxes_counted =
        omega (arith, h.mailboxes_counted, length-append d.mailboxes (mailbox_row d now n ∷ []));
    messages_counted = h.messages_counted;
    reports_counted = h.reports_counted;
  })
]

save_message-IsCounted :
    (now : ℕ) (m : Message) (d : Db) → IsCounted d → IsCounted (save_message now m d).1
unfolding save_message
save_message-IsCounted now m d h = elim (Bool-cases (has_mailbox m.mailbox_id d.mailboxes)) [
  | inr e ↦ rw e h
  | inl e ↦ rw e (record {
    mailboxes_counted = h.mailboxes_counted;
    messages_counted = omega (arith, h.messages_counted, length-append {0} d.messages);
    reports_counted = h.reports_counted;
  })
]

save_report-IsCounted :
    (now : ℕ) (r : Report) (d : Db) → IsCounted d → IsCounted (save_report now r d).1
unfolding save_report
save_report-IsCounted now r d h =
    let r' = created_now now r in
    elim (Bool-cases (any_row (of_message r'.message_id) d.reports)) [
      | inl e ↦ rw e (record {
        mailboxes_counted = h.mailboxes_counted;
        messages_counted = h.messages_counted;
        reports_counted = omega (
          arith,
          h.reports_counted,
          length-update (of_message r'.message_id) (λ old. record r' { id = old.id }) d.reports,
        );
      })
      | inr e ↦ elim (Bool-cases (has_message r'.message_id d.messages)) [
        | inr f ↦ rw (e, f) h
        | inl t ↦
            rw (e, t)
              (record {
                mailboxes_counted = h.mailboxes_counted;
                messages_counted = h.messages_counted;
                reports_counted = omega (arith, h.reports_counted, length-append {0} d.reports);
              })
      ]
    ]

other_tests :
    (d : Db) (rows : List PlacementTest) (n r : ℕ)
    → IsCounted d
    → IsCounted (record d { tests = rows; next_test = n; last_rowid = r })
other_tests d rows n r h = record {
  mailboxes_counted = h.mailboxes_counted;
  messages_counted = h.messages_counted;
  reports_counted = h.reports_counted;
}

start_test-IsCounted :
    (now k : ℕ) (token seeds : Bytes) (expires : ℕ) (d : Db)
    → IsCounted d
    → IsCounted (create_placement_test now k token seeds expires d).1
unfolding create_placement_test
start_test-IsCounted now k token seeds expires d h =
    elim (Bool-cases (any_row (λ t. bytes_eq t.placement_token token) d.tests)) [
      | inl e ↦ rw e h
      | inr e ↦ elim (Bool-cases (has_mailbox k d.mailboxes)) [
        | inl t ↦ rw (e, t) (other_tests d _ _ _ h)
        | inr f ↦ rw (e, f) h
      ]
    ]

same_mailboxes :
    (p : Mailbox → Bool) (f : Mailbox → Mailbox) (d : Db)
    → IsCounted d
    → IsCounted (record d { mailboxes = update_rows p f d.mailboxes })
same_mailboxes p f d h = record {
  mailboxes_counted = omega (arith, h.mailboxes_counted, length-update p f d.mailboxes);
  messages_counted = h.messages_counted;
  reports_counted = h.reports_counted;
}

same_messages :
    (p : Message → Bool) (f : Message → Message) (d : Db)
    → IsCounted d
    → IsCounted (record d { messages = update_rows p f d.messages })
same_messages p f d h = record {
  mailboxes_counted = h.mailboxes_counted;
  messages_counted = omega (arith, h.messages_counted, length-update p f d.messages);
  reports_counted = h.reports_counted;
}

same_reports :
    (p : Report → Bool) (f : Report → Report) (d : Db)
    → IsCounted d
    → IsCounted (record d { reports = update_rows p f d.reports })
same_reports p f d h = record {
  mailboxes_counted = h.mailboxes_counted;
  messages_counted = h.messages_counted;
  reports_counted = omega (arith, h.reports_counted, length-update p f d.reports);
}

run-IsCounted : (q : Request) (d : Db) → IsCounted d → IsCounted (run q d)
unfolding run update_mailbox_checks touch_mailbox delete_mailbox_by_token cleanup
    update_message_payload_enc update_report_score_checks update_placement_test_result
run-IsCounted (create now n) d h = create_mailbox-IsCounted now n d h
run-IsCounted (set_checks token age blocklist broken) d h =
    affected_rule IsCounted _ _ d (same_mailboxes _ _ d h) h
run-IsCounted (touch now k) d h = same_mailboxes _ _ d h
run-IsCounted (delete token) d h =
    affected_rule IsCounted _ _ d (delete_mailboxes-IsCounted _ d h) h
run-IsCounted (clean now retention) d h =
    delete_mailboxes-IsCounted _ _
      (delete_messages-IsCounted (old_message (cutoff now retention)) d h)
run-IsCounted (receive now m) d h = save_message-IsCounted now m d h
run-IsCounted (report now r) d h = save_report-IsCounted now r d h
run-IsCounted (set_payload k payload) d h = affected_rule IsCounted _ _ d (same_messages _ _ d h) h
run-IsCounted (set_score k score label checks) d h =
    affected_rule IsCounted _ _ d (same_reports _ _ d h) h
run-IsCounted (start_test now k token seeds expires) d h =
    start_test-IsCounted now k token seeds expires d h
run-IsCounted (set_result token results status) d h = other_tests d _ _ _ h

-- A sound database stays sound under any sequence of operations: every message, report and
-- placement test refers to a row that is there, ids, tokens, addresses and the reports' messages
-- are unique and ids below the next one, and no counter is behind its table.
pub run_all-IsSound : (qs : List Request) (d : Db) → IsSound d → IsSound (run_all qs d)
unfolding run_all
run_all-IsSound [] d h = h
run_all-IsSound (q ∷ qs) d h =
    run_all-IsSound qs (run q d) (run-RefersTo q d h.0, run-IsKeyed q d h.1, run-IsCounted q d h.2)
