-- ===== src/Store/Reports.antt =====
-- What SaveReport leaves in the table, and what it returns.
use sender_report.Base.{
  ℕ, ◌+◌, ◌<◌, ◌≡◌, refl, ◌∙◌, Bool, true, false, ◌⊎◌, inl, inr, List, [], ◌∷◌, ◌++◌, ◌==◌, lt→ltb,
  arith, Bool-cases, if◌then◌else◌,
}
use sender_report.Store.Tables.{
  Message, Report, Db, ok, not_found, any_row, find_row, update_rows, has_mailbox, has_message,
}
use sender_report.Store.Messages.{
  created_now, of_message, insert_report, replace_report, save_report, save_message,
  get_report_by_message_id,
}

abbrev replace_in : Report → List Report → List Report
replace_in r rows = update_rows (of_message r.message_id) (λ x. record r { id = x.id }) rows

find_row-replace_other :
    (r : Report) (j : ℕ) (rows : List Report)
    → (j == r.message_id) ≡ false
    → find_row (of_message j) (replace_in r rows) ≡ find_row (of_message j) rows
find_row-replace_other r j [] h = refl
find_row-replace_other r j (x ∷ rows) h = ground (arith, h, find_row-replace_other r j rows h)

find_row-replace_same :
    (r : Report) (rows : List Report)
    → any_row (of_message r.message_id) rows ≡ true
    → (old : Report) × (find_row (of_message r.message_id) rows ≡ ok old)
      × (find_row (of_message r.message_id) (replace_in r rows) ≡ ok (record r { id = old.id }))
find_row-replace_same r [] h = absurd (cc)
find_row-replace_same r (x ∷ rows) h = elim (Bool-cases (of_message r.message_id x)) [
  | inl e ↦ (x, rw e, ground (arith, e))
  | inr e ↦
      let (old, found, after) = find_row-replace_same r rows (ground (arith, h, e)) in
      (old, rw e found, ground (arith, e, after))
]

find_row-append :
    (j : ℕ) (rows : List Report) (r : Report)
    → any_row (of_message r.message_id) rows ≡ false
    → find_row (of_message j) (rows ++ r ∷ [])
      ≡ (if j == r.message_id then ok r else find_row (of_message j) rows)
find_row-append j [] r h = ground arith
find_row-append j (x ∷ rows) r h = ground (arith, h, find_row-append j rows r)

-- The reports as a map from messages: what is found for a message after a report was saved.
abbrev pub IsSaved : ℕ → Report → Db → Db → Type 0
IsSaved k r d d' =
    (get_report_by_message_id r.message_id d' ≡ ok (record r { id = k }))
    × ((j : ℕ)
        → (j == r.message_id) ≡ false
        → get_report_by_message_id j d' ≡ get_report_by_message_id j d)

same_number : (n : ℕ) → (n == n) ≡ true
same_number n = ground arith

save_again :
    (now : ℕ) (report : Report) (d : Db)
    → any_row (of_message report.message_id) d.reports ≡ true
    → (save_report now report d).1 ≡ replace_report (created_now now report) d
unfolding save_report
save_again now report d e = rw e

save_new :
    (now : ℕ) (report : Report) (d : Db)
    → any_row (of_message report.message_id) d.reports ≡ false
    → has_message report.message_id d.messages ≡ true
    → (save_report now report d).1
      ≡ insert_report (record (created_now now report) { id = d.next_report }) d
unfolding save_report
save_new now report d e here = rw (e, here)

none_found :
    (p : Report → Bool) (rows : List Report) → any_row p rows ≡ false → find_row p rows ≡ not_found
none_found p [] h = refl
none_found p (x ∷ rows) h = ground (arith, h, none_found p rows (ground (arith, h)))

-- A report that is saved for a message that is there is what is found for that message, with a new id or
-- that of the report it replaces; the reports of other messages are as before. It is counted
-- once: a report that replaces another one changes no counter.
pub save_report-IsSaved :
    (now : ℕ) (report : Report) (d : Db)
    → has_message report.message_id d.messages ≡ true
    → let r : Report = created_now now report in
      let d' : Db = (save_report now report d).1 in
      ((old : Report) × (get_report_by_message_id r.message_id d ≡ ok old)
        × IsSaved old.id r d d'
        × (d'.counters ≡ d.counters))
      ⊎ ((get_report_by_message_id r.message_id d ≡ not_found)
          × IsSaved d.next_report r d d'
          × (d'.counters.reports_generated ≡ d.counters.reports_generated + 1)
          × (d'.counters.score_sum ≡ d.counters.score_sum + r.score))
unfolding get_report_by_message_id
save_report-IsSaved now report d here =
    let r = created_now now report in
    elim (Bool-cases (any_row (of_message report.message_id) d.reports)) [
      | inl e ↦
          let (old, found, after) = find_row-replace_same r d.reports e in
          rw (save_again now report d e)
            (inl (old, found, (after, λ j ne. find_row-replace_other r j d.reports ne), refl))
      | inr e ↦
          let row = record r { id = d.next_report } in
          let at = λ (j : ℕ). find_row-append j d.reports row e in
          rw (save_new now report d e here) (
            inr (
              none_found (of_message report.message_id) d.reports e,
              (at report.message_id ∙ rw (same_number report.message_id), λ j ne. at j ∙ rw ne),
              refl,
              refl,
            ))
    ]

-- Once another message has been saved, saving a report again returns that message's id as the
-- report's, whatever id the report has in the table.
pub save_report_rowid :
    (now later : ℕ) (m : Message) (report : Report) (d : Db)
    → has_mailbox m.mailbox_id d.mailboxes ≡ true
    → any_row (of_message report.message_id) d.reports ≡ true
    → 0 < d.next_message
    → (save_report later report (save_message now m d).1).0
      ≡ ok (record (created_now later report) { id = d.next_message })
unfolding save_report save_message
save_report_rowid now later m report d box there pos = rw (box, there, lt→ltb 0 d.next_message pos)
