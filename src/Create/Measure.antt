-- ===== src/Create/Measure.antt =====
-- How many mailboxes are active, and what the store's operations do to that number.
use sender_report.Base.{
  ℕ, ◌+◌, ◌≤◌, ◌≡◌, refl, inl, inr, Bool, false, not, ◌&&◌, List, [], ◌∷◌, arith, ltb,
  if◌then◌else◌, Bool-cases, length, filter, length-append, filter-append, length-filter_mono,
}
use sender_report.Text.{Bytes, bytes_eq}
use sender_report.Store.Tables.{
  Mailbox, Db, any_row, update_rows, delete_messages, delete_mailboxes,
}
use sender_report.Store.Rows.{affected_rule}
use sender_report.Store.Mailboxes.{
  NewMailbox, create_mailbox, update_mailbox_checks, touch_mailbox, delete_mailbox_by_token,
  old_message, cutoff, cleanup, count_active_mailboxes_by_ip, count_active_mailboxes, same_names,
  mailbox_row,
}
use sender_report.Store.Messages.{
  save_message, save_report, update_message_payload_enc, update_report_score_checks,
}
use sender_report.Store.Placements.{create_placement_test, update_placement_test_result}
use sender_report.Store.Operations.{
  Request, create, set_checks, touch, delete, clean, receive, report, set_payload, set_score,
  start_test, set_result, run,
}
use sender_report.Create.Traffic.{is_create}

-- The mailboxes whose creator and expiry pass a test.
abbrev pub measure : (Bytes → ℕ → Bool) → Db → ℕ
measure g d = length (filter (λ m. g m.created_ip m.expires_at) d.mailboxes)

abbrev pub active_by : ℕ → Bytes → Bytes → ℕ → Bool
active_by now ip i e = bytes_eq i ip && ltb now e

abbrev pub active_at : ℕ → Bytes → ℕ → Bool
active_at now i e = ltb now e

pub count_active_mailboxes_by_ip-measure :
    (now : ℕ) (ip : Bytes) (d : Db)
    → count_active_mailboxes_by_ip now ip d ≡ measure (active_by now ip) d
unfolding count_active_mailboxes_by_ip
count_active_mailboxes_by_ip-measure now ip d = refl

pub count_active_mailboxes-measure :
    (now : ℕ) (d : Db) → count_active_mailboxes now d ≡ measure (active_at now) d
unfolding count_active_mailboxes
count_active_mailboxes-measure now d = refl

-- What is active later was active before.
pub measure_by_later :
    (now later : ℕ) (ip : Bytes) (d : Db)
    → now ≤ later
    → measure (active_by later ip) d ≤ measure (active_by now ip) d
measure_by_later now later ip d h = length-filter_mono _ _ (λ m e. ground (arith, e, h)) d.mailboxes

pub measure_at_later :
    (now later : ℕ) (d : Db) → now ≤ later → measure (active_at later) d ≤ measure (active_at now) d
measure_at_later now later d h = length-filter_mono _ _ (λ m e. ground (arith, e, h)) d.mailboxes

length-filter-update :
    (q p : Mailbox → Bool) (f : Mailbox → Mailbox)
    → ((m : Mailbox) → q (f m) ≡ q m)
    → (rows : List Mailbox) → length (filter q (update_rows p f rows)) ≡ length (filter q rows)
length-filter-update q p f e [] = refl
length-filter-update q p f e (m ∷ rows) = ground (arith, e m, length-filter-update q p f e rows)

length-filter-filter :
    (q p : Mailbox → Bool) (rows : List Mailbox)
    → length (filter q (filter p rows)) ≤ length (filter q rows)
length-filter-filter q p [] = omega arith
length-filter-filter q p (m ∷ rows) = ground (arith, length-filter-filter q p rows)

module _ (g : Bytes → ℕ → Bool) where
  same_mailboxes : (d d' : Db) → d'.mailboxes ≡ d.mailboxes → measure g d' ≤ measure g d
  same_mailboxes d d' e = rw e (omega arith)

  measure-update :
      (p : Mailbox → Bool) (f : Mailbox → Mailbox)
      → ((m : Mailbox) → g (f m).created_ip (f m).expires_at ≡ g m.created_ip m.expires_at)
      → (d : Db) → measure g (record d { mailboxes = update_rows p f d.mailboxes }) ≤ measure g d
  measure-update p f e d = omega (arith, length-filter-update _ p f e d.mailboxes)

  measure-delete : (p : Mailbox → Bool) (d : Db) → measure g (delete_mailboxes p d) ≤ measure g d
  unfolding delete_mailboxes delete_messages
  measure-delete p d = length-filter-filter _ (λ m. not (p m)) d.mailboxes

  -- No operation but the creation of a mailbox adds to the measure.
  pub run-measure : (q : Request) (d : Db) → is_create q ≡ false → measure g (run q d) ≤ measure g d
  unfolding run update_mailbox_checks touch_mailbox delete_mailbox_by_token cleanup delete_messages
      save_message save_report update_message_payload_enc update_report_score_checks
      create_placement_test update_placement_test_result
  run-measure (create now n) d h = absurd (cc)
  run-measure (set_checks token age blocklist broken) d h =
      affected_rule (λ d'. measure g d' ≤ measure g d) _ _ d (measure-update _ _ (λ m. refl) d)
        (omega arith)
  run-measure (touch now k) d h = measure-update _ _ (λ m. refl) d
  run-measure (delete token) d h =
      affected_rule (λ d'. measure g d' ≤ measure g d) _ _ d (measure-delete _ d) (omega arith)
  run-measure (clean now retention) d h =
      measure-delete _ (delete_messages (old_message (cutoff now retention)) d)
  run-measure (receive now m) d h = same_mailboxes d (run (receive now m) d) (ground arith)
  run-measure (report now r) d h = same_mailboxes d (run (report now r) d) (ground arith)
  run-measure (set_payload k payload) d h =
      same_mailboxes d (run (set_payload k payload) d) (ground arith)
  run-measure (set_score k score label checks) d h =
      same_mailboxes d (run (set_score k score label checks) d) (ground arith)
  run-measure (start_test now k token seeds expires) d h =
      same_mailboxes d (run (start_test now k token seeds expires) d) (ground arith)
  run-measure (set_result token results status) d h =
      same_mailboxes d (run (set_result token results status) d) refl

  -- A creation adds at most the new mailbox, and only if it is of the kind that is measured.
  pub create_mailbox-measure :
      (now : ℕ) (n : NewMailbox) (d : Db)
      → measure g (create_mailbox now n d).1 ≤ measure g d + (if g n.ip (now + n.ttl) then 1 else 0)
  unfolding create_mailbox
  create_mailbox-measure now n d =
      let split =
        filter-append (λ (m : Mailbox). g m.created_ip m.expires_at) d.mailboxes
          (mailbox_row d now n ∷ []) in
      elim (Bool-cases (any_row (same_names n) d.mailboxes)) [
        | inl e ↦ rw e (omega arith)
        | inr e ↦ elim (Bool-cases (g n.ip (now + n.ttl))) [
          | inl t ↦
              rw (e, split, t)
                (omega (
                  arith,
                  length-append (filter (λ (m : Mailbox). g m.created_ip m.expires_at) d.mailboxes)
                      (mailbox_row d now n ∷ []),
                ))
          | inr f ↦
              rw (e, split, f)
                (omega (
                  arith,
                  length-append (filter (λ (m : Mailbox). g m.created_ip m.expires_at) d.mailboxes)
                      [],
                ))
        ]
      ]
