-- ===== src/Store/References.antt =====
-- The foreign keys hold after every operation.
use sender_report.Base.{
  ℕ, ◌≡◌, refl, sym, Bool, true, inl, inr, List, [], ◌∷◌, arith, Bool-cases, All, All-append,
  filter,
}
use sender_report.Text.{Bytes, bytes_eq}
use sender_report.Store.Tables.{
  Mailbox, Message, Report, Db, any_row, update_rows, has_mailbox, has_message, delete_messages,
  delete_mailboxes,
}
use sender_report.Store.Rows.{
  All-update, All-filter, affected_rule, Referring-delete, Referring-append, Referring-update,
}
use sender_report.Store.Sound.{message_of, test_of, report_of, RefersTo}
use sender_report.Store.Mailboxes.{
  NewMailbox, mailbox_row, same_names, insert_mailbox, create_mailbox, update_mailbox_checks,
  touch_mailbox, delete_mailbox_by_token, old_message, cutoff, cleanup,
}
use sender_report.Store.Messages.{
  received_now, insert_message, save_message, created_now, insert_report, save_report, of_message,
  update_message_payload_enc, update_report_score_checks,
}
use sender_report.Store.Placements.{test_row, create_placement_test, update_placement_test_result}
use sender_report.Store.Operations.{
  Request, create, set_checks, touch, delete, clean, receive, report, set_payload, set_score,
  start_test, set_result, run,
}

pub delete_messages-RefersTo :
    (p : Message → Bool) (d : Db) → RefersTo d → RefersTo (delete_messages p d)
unfolding delete_messages
delete_messages-RefersTo p d h = record {
  messages_in = All-filter _ _ d.messages h.messages_in;
  reports_in = Referring-delete report_of p d.messages d.reports h.reports_in;
  tests_in = h.tests_in;
}

pub delete_mailboxes-RefersTo :
    (p : Mailbox → Bool) (d : Db) → RefersTo d → RefersTo (delete_mailboxes p d)
unfolding delete_mailboxes
delete_mailboxes-RefersTo p d h = record {
  messages_in = Referring-delete message_of p d.mailboxes d.messages h.messages_in;
  reports_in =
      Referring-delete report_of (λ m. has_mailbox m.mailbox_id (filter p d.mailboxes)) d.messages
        d.reports h.reports_in;
  tests_in = Referring-delete test_of p d.mailboxes d.tests h.tests_in;
}

-- An update of mailboxes that keeps their ids.
update_mailboxes-RefersTo :
    (p : Mailbox → Bool) (f : Mailbox → Mailbox)
    → ((m : Mailbox) → (f m).id ≡ m.id)
    → (d : Db) → RefersTo d
    → RefersTo (record d { mailboxes = update_rows p f d.mailboxes })
update_mailboxes-RefersTo p f e d h = record {
  messages_in =
      Referring-update message_of p f (λ m b. rw (e b)) d.mailboxes d.messages h.messages_in;
  reports_in = h.reports_in;
  tests_in = Referring-update test_of p f (λ t b. rw (e b)) d.mailboxes d.tests h.tests_in;
}

insert_mailbox-RefersTo : (m : Mailbox) (d : Db) → RefersTo d → RefersTo (insert_mailbox m d)
insert_mailbox-RefersTo m d h = record {
  messages_in = Referring-append message_of d.mailboxes (m ∷ []) d.messages h.messages_in;
  reports_in = h.reports_in;
  tests_in = Referring-append test_of d.mailboxes (m ∷ []) d.tests h.tests_in;
}

insert_message-RefersTo :
    (m : Message) (d : Db)
    → has_mailbox m.mailbox_id d.mailboxes ≡ true
    → RefersTo d
    → RefersTo (insert_message m d)
insert_message-RefersTo m d e h = record {
  messages_in = All-append _ d.messages (m ∷ []) h.messages_in (e, tt);
  reports_in = Referring-append report_of d.messages (m ∷ []) d.reports h.reports_in;
  tests_in = h.tests_in;
}

insert_report-RefersTo :
    (r : Report) (d : Db)
    → has_message r.message_id d.messages ≡ true
    → RefersTo d
    → RefersTo (insert_report r d)
insert_report-RefersTo r d e h = record {
  messages_in = h.messages_in;
  reports_in = All-append _ d.reports (r ∷ []) h.reports_in (e, tt);
  tests_in = h.tests_in;
}

-- What holds for each row that passes a test holds if there is one.
from_row :
    {A : Type 0} (P : A → Type 0) (Q : Type 0) (p : A → Bool)
    → ((x : A) → p x ≡ true → P x → Q)
    → (xs : List A) → any_row p xs ≡ true
    → All P xs
    → Q
from_row P Q p k [] e h = absurd (cc)
from_row P Q p k (x ∷ xs) e h = elim (Bool-cases (p x)) [
  | inl t ↦ k x t h.0
  | inr f ↦ from_row P Q p k xs (ground (arith, e, f)) h.1
]

-- The message of a report that is there is there.
has_message-of_message :
    (k : ℕ) (d : Db)
    → RefersTo d
    → any_row (of_message k) d.reports ≡ true
    → has_message k d.messages ≡ true
has_message-of_message k d h e =
    from_row _ (has_message k d.messages ≡ true) (of_message k)
      (λ r t there. let same : r.message_id ≡ k = ground (arith, t) in rw (sym same) there)
      d.reports e h.reports_in

update_reports-RefersTo :
    (p : Report → Bool) (f : Report → Report) (d : Db)
    → ((r : Report)
        → has_message r.message_id d.messages ≡ true
        → has_message (f r).message_id d.messages ≡ true)
    → RefersTo d
    → RefersTo (record d { reports = update_rows p f d.reports })
update_reports-RefersTo p f d k h = record {
  messages_in = h.messages_in;
  reports_in = All-update _ p f k d.reports h.reports_in;
  tests_in = h.tests_in;
}

save_report-RefersTo :
    (now : ℕ) (r : Report) (d : Db) → RefersTo d → RefersTo (save_report now r d).1
unfolding save_report
save_report-RefersTo now r d h =
    let r' = created_now now r in
    elim (Bool-cases (any_row (of_message r'.message_id) d.reports)) [
      | inl e ↦
          rw e
            (update_reports-RefersTo _ _ d (λ old t. has_message-of_message r'.message_id d h e) h)
      | inr e ↦ elim (Bool-cases (has_message r'.message_id d.messages)) [
        | inl t ↦ rw (e, t) (insert_report-RefersTo (record r' { id = d.next_report }) d t h)
        | inr f ↦ rw (e, f) h
      ]
    ]

save_message-RefersTo :
    (now : ℕ) (m : Message) (d : Db) → RefersTo d → RefersTo (save_message now m d).1
unfolding save_message
save_message-RefersTo now m d h = elim (Bool-cases (has_mailbox m.mailbox_id d.mailboxes)) [
  | inl e ↦
      rw e (insert_message-RefersTo (record (received_now now m) { id = d.next_message }) d e h)
  | inr e ↦ rw e h
]

start_test-RefersTo :
    (now k : ℕ) (token seeds : Bytes) (expires : ℕ) (d : Db)
    → RefersTo d
    → RefersTo (create_placement_test now k token seeds expires d).1
unfolding create_placement_test
start_test-RefersTo now k token seeds expires d h =
    elim (Bool-cases (any_row (λ t. bytes_eq t.placement_token token) d.tests)) [
      | inl e ↦ rw e h
      | inr e ↦ elim (Bool-cases (has_mailbox k d.mailboxes)) [
        | inl t ↦
            rw (e, t)
              (record {
                messages_in = h.messages_in;
                reports_in = h.reports_in;
                tests_in =
                    All-append _ d.tests (test_row d now k token seeds expires ∷ []) h.tests_in
                      (t, tt);
              })
        | inr f ↦ rw (e, f) h
      ]
    ]

update_messages-RefersTo :
    (p : Message → Bool) (f : Message → Message) (d : Db)
    → ((m : Message) → (f m).id ≡ m.id)
    → ((m : Message) → (f m).mailbox_id ≡ m.mailbox_id)
    → RefersTo d
    → RefersTo (record d { messages = update_rows p f d.messages })
update_messages-RefersTo p f d e k h = record {
  messages_in = All-update _ p f (λ m t. rw (k m) t) d.messages h.messages_in;
  reports_in = Referring-update report_of p f (λ r m. rw (e m)) d.messages d.reports h.reports_in;
  tests_in = h.tests_in;
}

create_mailbox-RefersTo :
    (now : ℕ) (n : NewMailbox) (d : Db) → RefersTo d → RefersTo (create_mailbox now n d).1
unfolding create_mailbox
create_mailbox-RefersTo now n d h = elim (Bool-cases (any_row (same_names n) d.mailboxes)) [
  | inl e ↦ rw e h
  | inr e ↦ rw e (insert_mailbox-RefersTo (mailbox_row d now n) d h)
]

-- Every operation keeps the foreign keys.
pub run-RefersTo : (q : Request) (d : Db) → RefersTo d → RefersTo (run q d)
unfolding run update_mailbox_checks touch_mailbox delete_mailbox_by_token cleanup
    update_message_payload_enc update_report_score_checks update_placement_test_result
run-RefersTo (create now n) d h = create_mailbox-RefersTo now n d h
run-RefersTo (set_checks token age blocklist broken) d h =
    affected_rule RefersTo _ _ d (update_mailboxes-RefersTo _ _ (λ m. refl) d h) h
run-RefersTo (touch now k) d h = update_mailboxes-RefersTo _ _ (λ m. refl) d h
run-RefersTo (delete token) d h = affected_rule RefersTo _ _ d (delete_mailboxes-RefersTo _ d h) h
run-RefersTo (clean now retention) d h =
    delete_mailboxes-RefersTo _ _
      (delete_messages-RefersTo (old_message (cutoff now retention)) d h)
run-RefersTo (receive now m) d h = save_message-RefersTo now m d h
run-RefersTo (report now r) d h = save_report-RefersTo now r d h
run-RefersTo (set_payload k payload) d h =
    affected_rule RefersTo _ _ d (update_messages-RefersTo _ _ d (λ m. refl) (λ m. refl) h) h
run-RefersTo (set_score k score label checks) d h =
    affected_rule RefersTo _ _ d (update_reports-RefersTo _ _ d (λ r t. t) h) h
run-RefersTo (start_test now k token seeds expires) d h =
    start_test-RefersTo now k token seeds expires d h
run-RefersTo (set_result token results status) d h = record {
  messages_in = h.messages_in;
  reports_in = h.reports_in;
  tests_in = All-update _ _ _ (λ t e. e) d.tests h.tests_in;
}
