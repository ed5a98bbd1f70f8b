-- ===== src/Inbound/Delivery.antt =====
-- A mail for a mailbox that receives is stored with a report.
use sender_report.Base.{
  ℕ, ◌≤◌, ◌≡◌, refl, sym, ◌⊎◌, inl, inr, Bool, true, false, some, List, [], ◌∷◌, arith, ltb, ◌==◌,
  if◌then◌else◌, Bool-cases, Option-cases, length,
}
use sender_report.Text.{Bytes, bytes_eq}
use sender_report.Smtp.Session.{ReceivedMail}
use sender_report.Store.Tables.{
  Mailbox, Message, Db, Answer, ok, not_found, constraint, find_row, has_mailbox,
}
use sender_report.Store.Mailboxes.{get_mailbox_by_address}
use sender_report.Inbound.Recipients.{
  plain_rcpt, matches_configured_domain, is_allowed_recipient, receives_at,
}
use sender_report.Inbound.Payload.{
  Engine, Analysis, Times, build_encrypted_payload, sealed_message, strip_report_for_storage,
  for_storage,
}
use sender_report.Inbound.Handle.{Inbound, received_message, kept_for, receive_for, process_inbound}
use sender_report.Inbound.Rows.{
  AreStored, clear_row, closed_row, analysis, full_report, bare_report, save_received-AreStored,
}

-- A row that is found is there, by its id.
pub has_mailbox-find_row :
    (p : Mailbox → Bool) (rows : List Mailbox) (mb : Mailbox)
    → find_row p rows ≡ ok mb
    → has_mailbox mb.id rows ≡ true
has_mailbox-find_row p [] mb e = absurd (cc)
has_mailbox-find_row p (x ∷ rows) mb e = elim (Bool-cases (p x)) [
  | inl t ↦ let same : x ≡ mb = ground (arith, t, e) in rw (sym same) (ground arith)
  | inr f ↦ ground (arith, has_mailbox-find_row p rows mb (ground (arith, f, e)))
]

pub not_late : (a b : ℕ) → b ≤ a → ltb a b ≡ false
not_late a b h = ground arith

-- The mailbox has a key, and the payload of a message and its analysis can be sealed with it.
abbrev pub IsSealable : Engine → Mailbox → Message → Analysis → Bytes → Type 0
IsSealable engine mb m a payload =
    (key : Bytes) × (bytes_eq mb.public_key [] ≡ false)
    × (engine.decode_hex mb.public_key ≡ some key)
    × ((length key == 32) ≡ true)
    × (build_encrypted_payload engine m a key ≡ some payload)

-- Stored as they are, or sealed.
data Storing (engine : Engine) (mb : Mailbox) (m : Message) (a : Analysis) : Type 0 where
  in_clear : for_storage engine mb m a ≡ (m, a) → Storing engine mb m a
  closed :
      (payload : Bytes)
      → IsSealable engine mb m a payload
      → for_storage engine mb m a ≡ (sealed_message engine m payload, strip_report_for_storage a)
      → Storing engine mb m a

module _ (engine : Engine) (mb : Mailbox) (m : Message) (a : Analysis) where
  for_storage_key-Storing :
      (key : Bytes)
      → bytes_eq mb.public_key [] ≡ false
      → engine.decode_hex mb.public_key ≡ some key
      → Storing engine mb m a
  unfolding for_storage
  for_storage_key-Storing key has_key hex = elim (Bool-cases (length key == 32)) [
    | inr long ↦ in_clear (rw (has_key, hex, long) refl)
    | inl size ↦ elim (Option-cases (build_encrypted_payload engine m a key)) [
      | inl unsealed ↦ in_clear (rw (has_key, hex, size, unsealed) refl)
      | inr (payload, seals) ↦
          closed payload (key, has_key, hex, size, seals) (rw (has_key, hex, size, seals) refl)
    ]
  ]

  for_storage-Storing : Storing engine mb m a
  unfolding for_storage
  for_storage-Storing = elim (Bool-cases (bytes_eq mb.public_key [])) [
    | inl keyless ↦ in_clear (rw keyless refl)
    | inr has_key ↦ elim (Option-cases (engine.decode_hex mb.public_key)) [
      | inl bad ↦ in_clear (rw (has_key, bad) refl)
      | inr (key, hex) ↦ for_storage_key-Storing key has_key hex
    ]
  ]

  for_storage_sealed :
      (payload : Bytes)
      → IsSealable engine mb m a payload
      → for_storage engine mb m a ≡ (sealed_message engine m payload, strip_report_for_storage a)
  unfolding for_storage
  for_storage_sealed payload (key, has_key, hex, size, seals) = rw (has_key, hex, size, seals) refl

module _ (engine : Engine) (times : Times) (smtp_domain : Bytes) (rm : ReceivedMail) where
  abbrev pub time_of_row : ℕ
  time_of_row = if times.at_receipt == 0 then times.at_save else times.at_receipt

  -- Stored in clear with the full report, or, where the mailbox has a key and the payload can be sealed with
  -- it, closed with the bare report.
  abbrev pub IsDelivered : Mailbox → Db → Inbound × Db → Type 0
  IsDelivered mb d res =
      AreStored (clear_row engine times smtp_domain rm mb d.next_message time_of_row)
        (full_report engine times smtp_domain rm mb d.next_message) d res
      ⊎ ((payload : Bytes) × IsSealable engine mb
            (clear_row engine times smtp_domain rm mb 0 times.at_receipt)
            (analysis engine times smtp_domain rm mb) payload
          × AreStored (closed_row engine times smtp_domain rm mb d.next_message payload)
              (bare_report engine times smtp_domain rm mb d.next_message) d res)

  -- Sealed, where that is possible.
  pub receive_for_sealed :
      (mb : Mailbox) (d : Db) (payload : Bytes)
      → has_mailbox mb.id d.mailboxes ≡ true
      → IsSealable engine mb
          (clear_row engine times smtp_domain rm mb 0 times.at_receipt)
          (analysis engine times smtp_domain rm mb)
          payload
      → AreStored
          (closed_row engine times smtp_domain rm mb d.next_message payload)
          (bare_report engine times smtp_domain rm mb d.next_message)
          d
          (receive_for engine times smtp_domain rm mb d)
  unfolding receive_for kept_for received_message strip_report_for_storage
  receive_for_sealed mb d payload here can =
      let m = clear_row engine times smtp_domain rm mb 0 times.at_receipt in
      let a = analysis engine times smtp_domain rm mb in
      rw (for_storage_sealed engine mb m a payload can) (
        save_received-AreStored engine times smtp_domain rm mb (sealed_message engine m payload)
          (strip_report_for_storage a) d here)

  receive_for-IsDelivered :
      (mb : Mailbox) (d : Db)
      → has_mailbox mb.id d.mailboxes ≡ true
      → IsDelivered mb d (receive_for engine times smtp_domain rm mb d)
  receive_for-IsDelivered mb d here =
      let m = clear_row engine times smtp_domain rm mb 0 times.at_receipt in
      let a = analysis engine times smtp_domain rm mb in
      elim (for_storage-Storing engine mb m a) [
        | in_clear e ↦ inl (
            unfold receive_for kept_for received_message in
            rw e (save_received-AreStored engine times smtp_domain rm mb m a d here))
        | closed payload can e ↦ inr (payload, can, receive_for_sealed mb d payload here can)
      ]

  -- The mailbox of an accepted recipient takes the mail until it stops receiving.
  taken_by :
      (asked : ℕ) (d : Db) (r : Answer Mailbox)
      → get_mailbox_by_address (plain_rcpt rm.rcpt_to) d ≡ r
      → matches_configured_domain smtp_domain (plain_rcpt rm.rcpt_to) ≡ true
      → receives_at asked r ≡ true
      → (mb : Mailbox) × (r ≡ ok mb)
        × (times.at_check ≤ mb.expires_at
            → IsDelivered mb d (process_inbound engine times smtp_domain rm d))
  unfolding process_inbound get_mailbox_by_address
  taken_by asked d (ok mb) found domain e = (
    mb,
    refl,
    λ open_until.
        rw (domain, found, not_late _ _ open_until)
          (receive_for-IsDelivered mb d (has_mailbox-find_row _ d.mailboxes mb found)),
  )
  taken_by asked d not_found found domain e = absurd (cc)
  taken_by asked d constraint found domain e = absurd (cc)

  -- A recipient that the validator accepts at one time, whose mailbox has not stopped receiving when its mail
  -- is processed: one message is added, with the fields of the mail, in clear or, where the mailbox has a key
  -- and the payload can be sealed with it, closed; a report is found for it, the whole analysis or, with a
  -- closed message, the part that may be stored; and no other message changes.
  pub accepted-IsDelivered :
      (asked : ℕ) (d : Db)
      → is_allowed_recipient asked smtp_domain rm.rcpt_to d ≡ true
      → (mb : Mailbox) × (get_mailbox_by_address (plain_rcpt rm.rcpt_to) d ≡ ok mb)
        × (times.at_check ≤ mb.expires_at
            → IsDelivered mb d (process_inbound engine times smtp_domain rm d))
  unfolding is_allowed_recipient
  accepted-IsDelivered asked d e =
      elim (Bool-cases (matches_configured_domain smtp_domain (plain_rcpt rm.rcpt_to))) [
        | inl domain ↦ taken_by asked d _ refl domain (ground (arith, domain, e))
        | inr other ↦ absurd (ground (arith, other, e))
      ]
