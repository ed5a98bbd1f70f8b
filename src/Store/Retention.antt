-- ===== src/Store/Retention.antt =====
-- What Cleanup deletes, and what SaveReport leaves.
use sender_report.Base.{
  ℕ, ◌-◌, ◌≤◌, ◌≡◌, refl, ap, Bool, true, false, not, inl, inr, List, [], ◌∷◌, ltb, arith,
  Bool-cases, filter, All,
}
use sender_report.Store.Tables.{
  Mailbox, Message, Db, delete_rows, has_mailbox, delete_messages, delete_mailboxes,
}
use sender_report.Store.Mailboxes.{old_message, old_mailbox, cleanup}

-- No message came after its mailbox had stopped receiving.
abbrev pub IsInTime : Db → Type 0
IsInTime d =
    All (λ m. All (λ b. b.id ≡ m.mailbox_id → m.received_at ≤ b.expires_at) d.mailboxes) d.messages

filter-All : {A : Type 0} (p : A → Bool) (xs : List A) → All (λ x. p x ≡ true) xs → filter p xs ≡ xs
filter-All p [] h = refl
filter-All p (x ∷ xs) h = ground (arith, h.0, filter-All p xs h.1)

-- The mailbox of a message that stays is not old.
mailbox_stays :
    (limit : ℕ) (m : Message) (rows : List Mailbox)
    → old_message limit m ≡ false
    → All (λ b. b.id ≡ m.mailbox_id → m.received_at ≤ b.expires_at) rows
    → has_mailbox m.mailbox_id (filter (old_mailbox limit) rows) ≡ false
mailbox_stays limit m [] e h = refl
mailbox_stays limit m (b ∷ rows) e h = ground (arith, e, h.0, mailbox_stays limit m rows e h.1)

every_one_stays :
    (limit : ℕ) (boxes : List Mailbox) (rows : List Message)
    → All (λ m. All (λ b. b.id ≡ m.mailbox_id → m.received_at ≤ b.expires_at) boxes) rows
    → delete_rows
        (λ m. has_mailbox m.mailbox_id (filter (old_mailbox limit) boxes))
        (delete_rows (old_message limit) rows)
      ≡ delete_rows (old_message limit) rows
every_one_stays limit boxes [] h = refl
every_one_stays limit boxes (m ∷ rows) h = elim (Bool-cases (old_message limit m)) [
  | inl e ↦ rw e (every_one_stays limit boxes rows h.1)
  | inr e ↦
      rw (e, mailbox_stays limit m boxes e h.0) (ap (◌∷◌ m) (every_one_stays limit boxes rows h.1))
]

-- Where no message came after its mailbox had stopped receiving, Cleanup deletes exactly the messages that are
-- older than the retention, and the mailboxes that stopped receiving so long ago: deleting a mailbox takes
-- no younger message along.
pub cleanup_exact :
    (now retention : ℕ) (d : Db)
    → IsInTime d
    → ((cleanup now retention d).1.messages
        ≡ filter (λ m. not (ltb m.received_at (now - retention))) d.messages)
      × ((cleanup now retention d).1.mailboxes
          ≡ filter (λ b. not (ltb b.expires_at (now - retention))) d.mailboxes)
unfolding cleanup delete_mailboxes delete_messages
cleanup_exact now retention d h = (every_one_stays (now - retention) d.mailboxes d.messages h, refl)
