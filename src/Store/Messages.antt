-- ===== src/Store/Messages.antt =====
-- The operations on messages and reports.
use sender_report.Base.{
  ℕ, ◌+◌, Bool, List, [], ◌∷◌, ◌++◌, Option, none, some, ltb, ◌==◌, map, filter, take,
  if◌then◌else◌,
}
use sender_report.Text.{Bytes}
use sender_report.Store.Tables.{
  Message, Report, Counters, Db, Answer, ok, not_found, constraint, find_row, any_row, update_rows,
  has_mailbox, has_message,
}
use sender_report.Store.Mailboxes.{affected}

abbrev pub insert_message : Message → Db → Db
insert_message m d = record d {
  messages = d.messages ++ m ∷ [];
  counters = record (d.counters) { messages_received = d.counters.messages_received + 1 };
  next_message = d.next_message + 1;
  last_rowid = d.next_message;
}

abbrev pub received_now : ℕ → Message → Message
received_now now m = record m { received_at = if m.received_at == 0 then now else m.received_at }

-- The foreign key wants the mailbox to be there.
unfoldable pub save_message : ℕ → Message → Db → Answer Message × Db
save_message now m d =
    let row = record (received_now now m) { id = d.next_message } in
    if has_mailbox m.mailbox_id d.mailboxes then (ok row, insert_message row d) else (constraint, d)

unfoldable pub get_message : ℕ → Db → Answer Message
get_message k d = find_row (λ m. m.id == k) d.messages

-- `ORDER BY received_at DESC`; of messages of one time the one with the lower id comes first.
abbrev pub insert_newest : Message → List Message → List Message
insert_newest m [] = m ∷ []
insert_newest m (x ∷ xs) =
    let later = insert_newest m xs in
    if ltb m.received_at x.received_at then x ∷ later else m ∷ x ∷ xs

abbrev pub newest_first : List Message → List Message
newest_first [] = []
newest_first (m ∷ ms) = insert_newest m (newest_first ms)

-- A limit that is not positive is 0.
abbrev pub page_size : ℕ → ℕ
page_size limit = if limit == 0 then 20 else limit

abbrev pub of_mailbox : ℕ → Message → Bool
of_mailbox k m = m.mailbox_id == k

unfoldable pub list_messages_by_mailbox : ℕ → ℕ → Db → List Message
list_messages_by_mailbox k limit d =
    take (page_size limit) (newest_first (filter (of_mailbox k) d.messages))

abbrev pub of_message : ℕ → Report → Bool
of_message k r = r.message_id == k

abbrev pub optional_report : Answer Report → Option Report
optional_report (ok r) = some r
optional_report other = none

-- The left join; a report is unique for its message.
unfoldable pub list_messages_with_reports : ℕ → ℕ → Db → List (Message × Option Report)
list_messages_with_reports k limit d =
    map (λ m. (m, optional_report (find_row (of_message m.id) d.reports)))
      (take (page_size limit) (newest_first (filter (of_mailbox k) d.messages)))

unfoldable pub get_report : ℕ → Db → Answer Report
get_report k d = find_row (λ r. r.id == k) d.reports

unfoldable pub get_report_by_message_id : ℕ → Db → Answer Report
get_report_by_message_id k d = find_row (of_message k) d.reports

abbrev pub created_now : ℕ → Report → Report
created_now now r = record r { created_at = if r.created_at == 0 then now else r.created_at }

abbrev pub count_report : Report → Counters → Counters
count_report r c = record c {
  reports_generated = c.reports_generated + 1;
  score_sum = c.score_sum + r.score;
}

abbrev pub insert_report : Report → Db → Db
insert_report r d = record d {
  reports = d.reports ++ r ∷ [];
  counters = count_report r d.counters;
  next_report = d.next_report + 1;
  last_rowid = d.next_report;
}

-- `ON CONFLICT(message_id) DO UPDATE`: the row keeps its id.
abbrev pub replace_report : Report → Db → Db
replace_report r d = record d {
  reports = update_rows (of_message r.message_id) (λ old. record r { id = old.id }) d.reports;
}

abbrev pub result_id : ℕ → Answer Report → Report → Report
result_id rowid old r =
    if ltb 0 rowid
    then record r { id = rowid }
    else elim old [ ok o ↦ record r { id = o.id } | not_found ↦ r | constraint ↦ r ]

-- What is returned has the id that `LastInsertId` gives, of the last row that any insert of the
-- connection made: an update makes none.
unfoldable pub save_report : ℕ → Report → Db → Answer Report × Db
save_report now report d =
    let r = created_now now report in
    let d' = replace_report r d in
    let row = record r { id = d.next_report } in
    if any_row (of_message r.message_id) d.reports
    then (ok (result_id d'.last_rowid (get_report_by_message_id r.message_id d') r), d')
    else if has_message r.message_id d.messages
    then (ok row, insert_report row d)
    else (constraint, d)

unfoldable pub update_message_payload_enc : ℕ → Bytes → Db → Answer (Unit {0}) × Db
update_message_payload_enc k payload d =
    affected (any_row (λ m. m.id == k) d.messages)
      (record d {
        messages =
            update_rows (λ m. m.id == k) (λ m. record m { payload_enc = payload }) d.messages;
      })
      d

unfoldable pub update_report_score_checks : ℕ → ℕ → Bytes → Bytes → Db → Answer (Unit {0}) × Db
update_report_score_checks k score label checks d =
    affected (any_row (of_message k) d.reports)
      (record d {
        reports =
            update_rows (of_message k)
              (λ r. record r { score = score; score_label = label; checks = checks }) d.reports;
      })
      d
