-- ===== src/Store/Tests.antt =====
-- The store at concrete rows.
use sender_report.Base.{
  ℕ, ◌+◌, ◌-◌, ◌≡◌, refl, ◌⊎◌, not, List, [], ◌∷◌, ◌++◌, ltb, map, filter, arith,
}
use sender_report.Text.{codes, to_lower}
use sender_report.Store.Tables.{
  Mailbox, Message, Report, Db, ok, not_found, waiting, delete_messages, delete_mailboxes,
}
use sender_report.Store.Sound.{IsSound}
use sender_report.Store.Empty.{empty, empty-IsSound}
use sender_report.Store.Mailboxes.{
  NewMailbox, mailbox_row, create_mailbox, get_mailbox_by_address, delete_mailbox_by_token, cleanup,
}
use sender_report.Store.Messages.{
  save_message, save_report, list_messages_by_mailbox, get_report_by_message_id, created_now,
}
use sender_report.Store.Placements.{create_placement_test}
use sender_report.Store.Operations.{
  Request, create, receive, report, delete, start_test, run, run_all,
}
use sender_report.Store.Counts.{run_all-IsSound}
use sender_report.Store.Retention.{cleanup_exact}
use sender_report.Store.Reports.{IsSaved, save_report-IsSaved, save_report_rowid}

abbrev box : NewMailbox
box = record {
  token = codes "t";
  address = codes "t@host.test";
  public_key = [];
  ip = codes "192.0.2.1";
  ttl = 10;
}

-- The ids are not read.
abbrev mail : ℕ → Message
mail at = record {
  id = 0;
  mailbox_id = 1;
  smtp_from = codes "a";
  rcpt_to = codes "t@host.test";
  remote_ip = [];
  helo = [];
  received_at = at;
  raw_source = [];
  header_block = [];
  subject = [];
  size_bytes = 0;
  payload_enc = [];
}

abbrev result : ℕ → ℕ → Report
result message score = record {
  id = 0;
  message_id = message;
  created_at = 0;
  score = score;
  score_label = [];
  checks = [];
  warnings = [];
  suggestions = [];
  raw_headers = [];
  links = [];
  spam_signals = [];
}

-- A mailbox with two messages, a report that is made twice, and a placement test.
abbrev day : List Request
day =
    create 100 box
    ∷ create 100 box
    ∷ receive 105 (mail 0)
    ∷ report 105 (result 1 800)
    ∷ receive 109 (mail 109)
    ∷ report 110 (result 1 900)
    ∷ report 110 (result 7 100)
    ∷ start_test 110 1 (codes "p") [] 200
    ∷ []

abbrev at_night : Db
at_night = record {
  mailboxes = mailbox_row empty 100 box ∷ [];
  messages = record (mail 105) { id = 1 } ∷ record (mail 109) { id = 2 } ∷ [];
  reports = record (result 1 900) { id = 1; created_at = 110 } ∷ [];
  tests =
      record {
        id = 1;
        mailbox_id = 1;
        placement_token = codes "p";
        test_status = waiting;
        created_at = 110;
        expires_at = 200;
        seeds = [];
        results = codes "[]";
      }
      ∷ [];
  counters = record {
    mailboxes_created = 1;
    messages_received = 2;
    reports_generated = 1;
    score_sum = 800;
  };
  next_mailbox = 2;
  next_message = 3;
  next_report = 2;
  next_test = 2;
  last_rowid = 1;
}

one_day : run_all day empty ≡ at_night
unfolding run_all run create_mailbox save_message save_report create_placement_test
    get_report_by_message_id
one_day = refl

run_all-IsSound_example : IsSound (run_all day empty)
run_all-IsSound_example = run_all-IsSound day empty empty-IsSound

-- The first message is old at 207 with a retention of 100, the mailbox only at 211.
after_days :
    map (λ (m : Message). m.id) (cleanup 207 100 at_night).1.messages
      ++ map (λ (m : Mailbox). m.id) (cleanup 207 100 at_night).1.mailboxes
      ++ map (λ (r : Report). r.id) (cleanup 207 100 at_night).1.reports
    ≡ 2 ∷ 1 ∷ []
unfolding cleanup delete_mailboxes delete_messages
after_days = refl

all_gone :
    run_all (delete (codes "t") ∷ []) at_night
    ≡ record at_night { mailboxes = []; messages = []; reports = []; tests = [] }
unfolding run_all run delete_mailbox_by_token delete_mailboxes delete_messages
all_gone = refl

found_in_any_case :
    get_mailbox_by_address (codes "T@Host.Test") at_night ≡ ok (mailbox_row empty 100 box)
unfolding get_mailbox_by_address to_lower
found_in_any_case = refl

newest : list_messages_by_mailbox 1 1 at_night ≡ record (mail 109) { id = 2 } ∷ []
unfolding list_messages_by_mailbox
newest = refl

cleanup_exact_example :
    ((cleanup 207 100 at_night).1.messages
      ≡ filter (λ m. not (ltb m.received_at (207 - 100))) at_night.messages)
    × ((cleanup 207 100 at_night).1.mailboxes
        ≡ filter (λ b. not (ltb b.expires_at (207 - 100))) at_night.mailboxes)
cleanup_exact_example =
    cleanup_exact 207 100 at_night (((λ e. omega arith), tt), (((λ e. omega arith), tt), tt))

save_report-IsSaved_example :
    let r : Report = created_now 120 (result 1 700) in
    let d' : Db = (save_report 120 (result 1 700) at_night).1 in
    ((old : Report) × (get_report_by_message_id r.message_id at_night ≡ ok old)
      × IsSaved old.id r at_night d'
      × (d'.counters ≡ at_night.counters))
    ⊎ ((get_report_by_message_id r.message_id at_night ≡ not_found)
        × IsSaved 2 r at_night d'
        × (d'.counters.reports_generated ≡ at_night.counters.reports_generated + 1)
        × (d'.counters.score_sum ≡ at_night.counters.score_sum + r.score))
save_report-IsSaved_example = save_report-IsSaved 120 (result 1 700) at_night refl

wrong_report_id :
    (save_report 130 (result 1 700) (save_message 120 (mail 0) at_night).1).0
    ≡ ok (record (created_now 130 (result 1 700)) { id = 3 })
wrong_report_id = save_report_rowid 120 130 (mail 0) (result 1 700) at_night refl refl (omega arith)
