-- ===== src/Store/Sound.antt =====
-- What every state of the database has: rows refer to rows that are there, keys are unique, and the
-- counters are not behind the tables.
use sender_report.Base.{ℕ, ◌≤◌, ◌<◌, Bool, List, ◌==◌, length, All}
use sender_report.Text.{bytes_eq}
use sender_report.Store.Tables.{Mailbox, Message, Report, PlacementTest, Db}
use sender_report.Store.Rows.{Distinct, Referring}

abbrev pub message_of : Message → Mailbox → Bool
message_of m b = b.id == m.mailbox_id

abbrev pub test_of : PlacementTest → Mailbox → Bool
test_of t b = b.id == t.mailbox_id

abbrev pub report_of : Report → Message → Bool
report_of r m = m.id == r.message_id

abbrev pub same_mailbox : Mailbox → Mailbox → Bool
same_mailbox a b = a.id == b.id

abbrev pub same_token : Mailbox → Mailbox → Bool
same_token a b = bytes_eq a.token b.token

abbrev pub same_address : Mailbox → Mailbox → Bool
same_address a b = bytes_eq a.address b.address

abbrev pub same_message : Message → Message → Bool
same_message a b = a.id == b.id

abbrev pub same_subject : Report → Report → Bool
same_subject a b = a.message_id == b.message_id

abbrev pub same_report : Report → Report → Bool
same_report a b = a.id == b.id

abbrev pub same_test : PlacementTest → PlacementTest → Bool
same_test a b = bytes_eq a.placement_token b.placement_token

-- The foreign keys.
pub record RefersTo (d : Db) : Type 0 where
  pub messages_in : Referring message_of d.mailboxes d.messages
  pub reports_in : Referring report_of d.messages d.reports
  pub tests_in : Referring test_of d.mailboxes d.tests

-- The primary keys, which are below the next one, and the unique columns of each table.
abbrev pub MailboxesKeyed : ℕ → List Mailbox → Type 0
MailboxesKeyed n rows =
    All (λ m. m.id < n) rows
    × Distinct same_mailbox rows
    × Distinct same_token rows
    × Distinct same_address rows

abbrev pub MessagesKeyed : ℕ → List Message → Type 0
MessagesKeyed n rows = All (λ m. m.id < n) rows × Distinct same_message rows

abbrev pub ReportsKeyed : ℕ → List Report → Type 0
ReportsKeyed n rows =
    All (λ r. r.id < n) rows × Distinct same_report rows × Distinct same_subject rows

pub record IsKeyed (d : Db) : Type 0 where
  pub mailbox_keys : MailboxesKeyed d.next_mailbox d.mailboxes
  pub message_keys : MessagesKeyed d.next_message d.messages
  pub report_keys : ReportsKeyed d.next_report d.reports
  pub test_keys : Distinct same_test d.tests

pub record IsCounted (d : Db) : Type 0 where
  pub mailboxes_counted : length d.mailboxes ≤ d.counters.mailboxes_created
  pub messages_counted : length d.messages ≤ d.counters.messages_received
  pub reports_counted : length d.reports ≤ d.counters.reports_generated

abbrev pub IsSound : Db → Type 0
IsSound d = RefersTo d × IsKeyed d × IsCounted d
