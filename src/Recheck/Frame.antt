-- ===== src/Recheck/Frame.antt =====
-- What the two updates of recheckPersistAPI change.
use sender_report.Base.{
  ℕ, ◌≡◌, refl, ap, ◌∙◌, ◌⊎◌, inl, inr, Bool, true, false, List, [], ◌∷◌, arith, ◌==◌, Bool-cases,
}
use sender_report.Text.{Bytes}
use sender_report.Store.Tables.{Message, Report, Db, ok, not_found, find_row, any_row, update_rows}
use sender_report.Store.Rows.{find_row-some}
use sender_report.Store.Messages.{
  get_message, of_message, get_report_by_message_id, update_message_payload_enc,
  update_report_score_checks,
}

module _ {A : Type 0} where
  pub any_row-find_row :
      (p : A → Bool) (rows : List A) (x : A) → find_row p rows ≡ ok x → any_row p rows ≡ true
  any_row-find_row p [] x h = absurd (cc)
  any_row-find_row p (y ∷ rows) x h = elim (Bool-cases (p y)) [
    | inl e ↦ ground (arith, e)
    | inr e ↦ ground (arith, e, any_row-find_row p rows x (ground (arith, h, e)))
  ]

  find_row-none :
      (p : A → Bool) (rows : List A) → any_row p rows ≡ false → find_row p rows ≡ not_found
  find_row-none p [] h = refl
  find_row-none p (x ∷ rows) h = ground (arith, h, find_row-none p rows (ground (arith, h)))

  -- An update of the row with a key leaves the rows with other keys, and is found at its key.
  module _ (g : A → ℕ) (f : A → A) (keeps : (x : A) → g (f x) ≡ g x) where
    find_row-update_other :
        (j k : ℕ) (rows : List A)
        → (j == k) ≡ false
        → find_row (λ x. g x == j) (update_rows (λ x. g x == k) f rows)
          ≡ find_row (λ x. g x == j) rows
    find_row-update_other j k [] h = refl
    find_row-update_other j k (x ∷ rows) h =
        ground (arith, h, keeps x, find_row-update_other j k rows h)

    find_row-update_same :
        (k : ℕ) (rows : List A) (m : A)
        → find_row (λ x. g x == k) rows ≡ ok m
        → find_row (λ x. g x == k) (update_rows (λ x. g x == k) f rows) ≡ ok (f m)
    find_row-update_same k [] m h = absurd (cc)
    find_row-update_same k (x ∷ rows) m h = elim (Bool-cases (g x == k)) [
      | inl e ↦
          let same : x ≡ m = ground (arith, h, e) in
          let still : (g (f x) == k) ≡ true = ground (arith, e, keeps x) in
          rw (e, still) (ap (λ y. ok (f y)) same)
      | inr e ↦ rw (e, e) (find_row-update_same k rows m (ground (arith, h, e)))
    ]

-- The rows that no operation of the handler touches.
pub record SameElsewhere (k : ℕ) (d d' : Db) : Type 0 where
  pub other_messages : (j : ℕ) → (j == k) ≡ false → get_message j d' ≡ get_message j d
  pub other_reports :
      (j : ℕ) → (j == k) ≡ false → get_report_by_message_id j d' ≡ get_report_by_message_id j d
  pub same_mailboxes : d'.mailboxes ≡ d.mailboxes
  pub same_tests : d'.tests ≡ d.tests
  pub same_counters : d'.counters ≡ d.counters

pub payload_update :
    (k : ℕ) (payload : Bytes) (d : Db) (m : Message)
    → get_message k d ≡ ok m
    → (d' : Db) × (update_message_payload_enc k payload d ≡ (ok tt, d'))
      × (get_message k d' ≡ ok (record m { payload_enc = payload }))
      × (d'.reports ≡ d.reports)
      × SameElsewhere k d d'
unfolding update_message_payload_enc get_message get_report_by_message_id
payload_update k payload d m h =
    let here = any_row-find_row (λ (x : Message). x.id == k) d.messages m h in
    let f = λ (x : Message). record x { payload_enc = payload } in
    (
      record d { messages = update_rows (λ x. x.id == k) f d.messages },
      rw here refl,
      find_row-update_same (λ (x : Message). x.id) f (λ x. refl) k d.messages m h,
      refl,
      record {
        other_messages =
            λ j e. find_row-update_other (λ (x : Message). x.id) f (λ x. refl) j k d.messages e;
        other_reports = λ j e. refl;
        same_mailboxes = refl;
        same_tests = refl;
        same_counters = refl;
      },
    )

-- The score of a report, or nothing where the message has none.
pub score_update :
    (k score : ℕ) (label checks : Bytes) (d : Db)
    → ((d' : Db) × (old : Report) × (update_report_score_checks k score label checks d
          ≡ (ok tt, d'))
        × (get_report_by_message_id k d ≡ ok old)
        × (get_report_by_message_id k d'
            ≡ ok (record old { score = score; score_label = label; checks = checks }))
        × (d'.messages ≡ d.messages)
        × SameElsewhere k d d')
      ⊎ ((update_report_score_checks k score label checks d ≡ (not_found, d))
          × (get_report_by_message_id k d ≡ not_found))
unfolding update_report_score_checks get_message get_report_by_message_id
score_update k score label checks d = elim (Bool-cases (any_row (of_message k) d.reports)) [
  | inr none_there ↦ inr (rw none_there refl, find_row-none (of_message k) d.reports none_there)
  | inl there ↦
      let f = λ (r : Report). record r { score = score; score_label = label; checks = checks } in
      let (old, found) = find_row-some (of_message k) d.reports there in
      inl (
        record d { reports = update_rows (of_message k) f d.reports },
        old,
        rw there refl,
        found,
        find_row-update_same (λ (r : Report). r.message_id) f (λ r. refl) k d.reports old found,
        refl,
        record {
          other_messages = λ j e. refl;
          other_reports = λ j e.
              find_row-update_other (λ (r : Report). r.message_id) f (λ r. refl) j k d.reports e;
          same_mailboxes = refl;
          same_tests = refl;
          same_counters = refl;
        },
      )
]

pub SameElsewhere-trans :
    (k : ℕ) (d d1 d2 : Db) → SameElsewhere k d d1 → SameElsewhere k d1 d2 → SameElsewhere k d d2
SameElsewhere-trans k d d1 d2 h h' = record {
  other_messages = λ j e. h'.other_messages j e ∙ h.other_messages j e;
  other_reports = λ j e. h'.other_reports j e ∙ h.other_reports j e;
  same_mailboxes = h'.same_mailboxes ∙ h.same_mailboxes;
  same_tests = h'.same_tests ∙ h.same_tests;
  same_counters = h'.same_counters ∙ h.same_counters;
}
