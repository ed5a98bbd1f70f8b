-- ===== src/Placement/Rows.antt =====
-- What the store's operations do to the rows of one test and of one mailbox.
use sender_report.Base.{
  ℕ, ◌<◌, ◌≡◌, refl, sym, ◌≢◌, inl, inr, Bool, true, false, List, [], ◌∷◌, arith, Bool-cases, All,
  All-append,
}
use mathlib.Core.Path.{subst}
use sender_report.Text.{Bytes, bytes_eq, bytes_eq_sound}
use sender_report.Store.Tables.{
  Mailbox, PlacementTest, Db, ok, find_row, any_row, update_rows, has_mailbox, delete_messages,
  delete_mailboxes, TestStatus,
}
use sender_report.Store.Rows.{affected_rule, All-filter, All-update}
use sender_report.Store.Mailboxes.{
  NewMailbox, create_mailbox, update_mailbox_checks, touch_mailbox, delete_mailbox_by_token,
  old_message, cutoff, cleanup, same_names, mailbox_row,
}
use sender_report.Store.Messages.{
  save_message, save_report, update_message_payload_enc, update_report_score_checks,
}
use sender_report.Store.Placements.{create_placement_test, update_placement_test_result, test_row}
use sender_report.Store.Operations.{
  Request, create, set_checks, touch, delete, clean, receive, report, set_payload, set_score,
  start_test, set_result, run,
}
use sender_report.Placement.Life.{is_foreign}

module _ {A : Type 0} where
  -- A row that is found passes the test and has what all rows have.
  pub find_row-All :
      (P : A → Type 0) (q : A → Bool) (rows : List A) (x : A)
      → All P rows
      → find_row q rows ≡ ok x
      → P x × (q x ≡ true)
  find_row-All P q [] x h e = absurd (cc)
  find_row-All P q (y ∷ rows) x h e = elim (Bool-cases (q y)) [
    | inl t ↦
        let same : y ≡ x = ground (arith, t, e) in subst (λ z. P z × (q z ≡ true)) same (h.0, t)
    | inr f ↦ find_row-All P q rows x h.1 (ground (arith, f, e))
  ]

-- An update of the rows that pass a test, which may change what is known of them.
All-update_where :
    {A : Type 0}
    → (P Q : A → Type 0) (p : A → Bool) (f : A → A) → ((x : A) → p x ≡ true → P x → Q (f x))
    → ((x : A) → p x ≡ false → P x → Q x)
    → (rows : List A) → All P rows
    → All Q (update_rows p f rows)
All-update_where P Q p f yes_row no_row [] h = tt
All-update_where P Q p f yes_row no_row (x ∷ rows) h =
    let rest = All-update_where P Q p f yes_row no_row rows h.1 in
    elim (Bool-cases (p x)) [
      | inl e ↦ rw e (yes_row x e h.0, rest)
      | inr e ↦ rw e (no_row x e h.0, rest)
    ]

other_token :
    (s t token : Bytes) → bytes_eq t token ≡ false → bytes_eq s t ≡ true → bytes_eq s token ≢ true
other_token s t token e here same = let s_is : s ≡ t = bytes_eq_sound s t here in cc (e, s_is, same)

-- What holds of a test as long as it is stored, and of its mailbox: `P` of the rows with its token, and
-- the token of the row with the mailbox's id, which is given out.
pub record Rows (token : Bytes) (k : ℕ) (mailbox_token : Bytes) (P : PlacementTest → Type 0)
    (d : Db) : Type 0 where
  pub tests_are : All (λ t. bytes_eq t.placement_token token ≡ true → P t) d.tests
  pub mailbox_is : All (λ (m : Mailbox). m.id ≡ k → m.token ≡ mailbox_token) d.mailboxes
  pub id_given : k < d.next_mailbox

module _ (token : Bytes) (k : ℕ) (mailbox_token : Bytes) (P : PlacementTest → Type 0) where
  abbrev Tests : List PlacementTest → Type 0
  Tests rows = All (λ t. bytes_eq t.placement_token token ≡ true → P t) rows

  abbrev Mailboxes : List Mailbox → Type 0
  Mailboxes rows = All (λ (m : Mailbox). m.id ≡ k → m.token ≡ mailbox_token) rows

  with_mailboxes :
      (d : Db) (rows : List Mailbox)
      → Mailboxes rows
      → Rows token k mailbox_token P d
      → Rows token k mailbox_token P (record d { mailboxes = rows })
  with_mailboxes d rows m h = record {
    tests_are = h.tests_are;
    mailbox_is = m;
    id_given = h.id_given;
  }

  same-Rows :
      (d d' : Db)
      → d'.tests ≡ d.tests
      → d'.mailboxes ≡ d.mailboxes
      → d'.next_mailbox ≡ d.next_mailbox
      → Rows token k mailbox_token P d
      → Rows token k mailbox_token P d'
  same-Rows d d' t m n h = record {
    tests_are = rw t h.tests_are;
    mailbox_is = rw m h.mailbox_is;
    id_given = rw n h.id_given;
  }

  delete-Rows :
      (p : Mailbox → Bool) (d : Db)
      → Rows token k mailbox_token P d
      → Rows token k mailbox_token P (delete_mailboxes p d)
  unfolding delete_mailboxes delete_messages
  delete-Rows p d h = record {
    tests_are = All-filter _ _ d.tests h.tests_are;
    mailbox_is = All-filter _ _ d.mailboxes h.mailbox_is;
    id_given = h.id_given;
  }

  create_mailbox-Rows :
      (now : ℕ) (n : NewMailbox) (d : Db)
      → Rows token k mailbox_token P d
      → Rows token k mailbox_token P (create_mailbox now n d).1
  unfolding create_mailbox
  create_mailbox-Rows now n d h = elim (Bool-cases (any_row (same_names n) d.mailboxes)) [
    | inl e ↦ rw e h
    | inr e ↦
        let other : Mailboxes (mailbox_row d now n ∷ []) =
          ((λ same. absurd (omega (arith, h.id_given))), tt) in
        rw e (record {
          tests_are = h.tests_are;
          mailbox_is = All-append _ d.mailboxes _ h.mailbox_is other;
          id_given = omega (arith, h.id_given);
        })
  ]

  pub start_test-Rows :
      (now j : ℕ) (t seeds : Bytes) (expires : ℕ) (d : Db)
      → (bytes_eq t token ≡ true → P (test_row d now j t seeds expires))
      → Rows token k mailbox_token P d
      → Rows token k mailbox_token P (create_placement_test now j t seeds expires d).1
  unfolding create_placement_test
  start_test-Rows now j t seeds expires d new h =
      elim (Bool-cases (any_row (λ x. bytes_eq x.placement_token t) d.tests)) [
        | inl e ↦ rw e h
        | inr e ↦ elim (Bool-cases (has_mailbox j d.mailboxes)) [
          | inr f ↦ rw (e, f) h
          | inl f ↦
              rw (e, f)
                (record {
                  tests_are = All-append _ d.tests _ h.tests_are (new, tt);
                  mailbox_is = h.mailbox_is;
                  id_given = h.id_given;
                })
        ]
      ]

  set_result-Rows :
      (t results : Bytes) (status : TestStatus) (d : Db)
      → bytes_eq t token ≡ false
      → Rows token k mailbox_token P d
      → Rows token k mailbox_token P (update_placement_test_result t results status d)
  unfolding update_placement_test_result
  set_result-Rows t results status d e h = record {
    tests_are =
        All-update_where _ _ _ _
          (λ x here old same. absurd (other_token x.placement_token t token e here same))
          (λ x there old. old) d.tests h.tests_are;
    mailbox_is = h.mailbox_is;
    id_given = h.id_given;
  }

  -- The operations of others keep both.
  pub run-Rows :
      (q : Request) (d : Db)
      → is_foreign token q ≡ true
      → Rows token k mailbox_token P d
      → Rows token k mailbox_token P (run q d)
  unfolding run update_mailbox_checks touch_mailbox delete_mailbox_by_token cleanup delete_messages
      save_message save_report update_message_payload_enc update_report_score_checks
  run-Rows (create now n) d f h = create_mailbox-Rows now n d h
  run-Rows (set_checks t age blocklist broken) d f h =
      affected_rule (Rows token k mailbox_token P) _ _ d
        (with_mailboxes d _ (All-update _ _ _ (λ m i. i) d.mailboxes h.mailbox_is) h) h
  run-Rows (touch now j) d f h =
      with_mailboxes d _ (All-update _ _ _ (λ m i. i) d.mailboxes h.mailbox_is) h
  run-Rows (delete t) d f h =
      affected_rule (Rows token k mailbox_token P) _ _ d (delete-Rows _ d h) h
  run-Rows (clean now retention) d f h =
      delete-Rows _ (delete_messages (old_message (cutoff now retention)) d)
        (same-Rows d (delete_messages (old_message (cutoff now retention)) d) refl refl refl h)
  run-Rows (receive now m) d f h =
      same-Rows d (run (receive now m) d) (ground arith) (ground arith) (ground arith) h
  run-Rows (report now r) d f h =
      same-Rows d (run (report now r) d) (ground arith) (ground arith) (ground arith) h
  run-Rows (set_payload j payload) d f h =
      same-Rows d (run (set_payload j payload) d) (ground arith) (ground arith) (ground arith) h
  run-Rows (set_score j score label checks) d f h =
      same-Rows d (run (set_score j score label checks) d) (ground arith) (ground arith)
        (ground arith) h
  run-Rows (start_test now j t seeds expires) d f h =
      start_test-Rows now j t seeds expires d (λ e. absurd (ground (arith, e, f))) h
  run-Rows (set_result t results status) d f h =
      set_result-Rows t results status d (ground (arith, f)) h

-- A result that is written changes what is known of the test.
pub own_result-Rows :
    (token : Bytes) (k : ℕ) (mailbox_token : Bytes) (P Q : PlacementTest → Type 0) (results : Bytes)
    (status : TestStatus) (d : Db)
    → ((t : PlacementTest) → P t → Q (record t { results = results; test_status = status }))
    → Rows token k mailbox_token P d
    → Rows token k mailbox_token Q (update_placement_test_result token results status d)
unfolding update_placement_test_result
own_result-Rows token k mailbox_token P Q results status d change h = record {
  tests_are =
      All-update_where _ _ _ _ (λ x here old same. change x (old here))
        (λ x there old same. absurd (cc (sym there, same))) d.tests h.tests_are;
  mailbox_is = h.mailbox_is;
  id_given = h.id_given;
}
