-- ===== src/Recheck/Listed.antt =====
-- The messages that a list of a mailbox gives are rows of it.
use sender_report.Base.{
  ℕ, zero, suc, ◌≡◌, inl, inr, Bool, true, false, Option, some, List, [], ◌∷◌, map, arith, ltb,
  ◌==◌, Bool-cases, take, filter, All-both, if_cases, All, All-mono,
}
use mathlib.Core.Path.{subst}
use sender_report.Text.{Bytes, bytes_eq, bytes_eq_sound, trim_space}
use sender_report.Store.Tables.{Message, Report, Db, ok, find_row}
use sender_report.Store.Rows.{Distinct, All-filter, any_row-none}
use sender_report.Store.Sound.{IsSound, same_message}
use sender_report.Store.Messages.{
  get_message, insert_newest, newest_first, page_size, of_mailbox, list_messages_by_mailbox,
  list_messages_with_reports,
}
use sender_report.Recheck.Reference.{
  Codecs, select_message, first_with, select_message_with_report, message_reference,
}

module _ (P : Message → Type 0) where
  insert_newest-All :
      (m : Message) (ms : List Message) → P m → All P ms → All P (insert_newest m ms)
  insert_newest-All m [] h hs = (h, tt)
  insert_newest-All m (x ∷ xs) h hs =
      if_cases (All P) (ltb m.received_at x.received_at)
        (λ e. (hs.0, insert_newest-All m xs h hs.1)) (λ e. (h, hs))

  newest_first-All : (ms : List Message) → All P ms → All P (newest_first ms)
  newest_first-All [] h = tt
  newest_first-All (m ∷ ms) h = insert_newest-All m _ h.0 (newest_first-All ms h.1)

  take-All : (n : ℕ) (ms : List Message) → All P ms → All P (take n ms)
  take-All zero ms h = tt
  take-All (suc n) [] h = tt
  take-All (suc n) (m ∷ ms) h = (h.0, take-All n ms h.1)

  select_message-All :
      (codecs : Codecs) (token ref : Bytes) (ms : List Message) (m : Message)
      → All P ms
      → select_message codecs token ref ms ≡ some m
      → P m
  select_message-All codecs token ref [] m h e = absurd (cc)
  select_message-All codecs token ref (x ∷ ms) m h e =
      elim (Bool-cases (bytes_eq (message_reference codecs token x.id) ref)) [
        | inl t ↦ let same : x ≡ m = ground (arith, t, e) in subst P same (h.0)
        | inr f ↦ select_message-All codecs token ref ms m h.1 (ground (arith, f, e))
      ]

  first_with-All :
      (codecs : Codecs) (token ref : Bytes) (g : Message → Option Report) (ms : List Message)
      → (m : Message) (r : Option Report) → All P ms
      → first_with codecs token ref (map (λ x. (x, g x)) ms) ≡ some (m, r)
      → P m × (bytes_eq (message_reference codecs token m.id) ref ≡ true)
  first_with-All codecs token ref g [] m r h e = absurd (cc)
  first_with-All codecs token ref g (x ∷ ms) m r h e =
      elim (Bool-cases (bytes_eq (message_reference codecs token x.id) ref)) [
        | inl t ↦
            let same : x ≡ m = ground (arith, t, e) in
            subst (λ y. P y × (bytes_eq (message_reference codecs token y.id) ref ≡ true)) same
              (h.0, t)
        | inr f ↦ first_with-All codecs token ref g ms m r h.1 (ground (arith, f, e))
      ]

-- A row of the table is found by its id.
unfoldable IsFoundIn : List Message → Message → Type 0
IsFoundIn ms m = find_row (λ (x : Message). x.id == m.id) ms ≡ ok m

found_lem : (ms : List Message) → Distinct same_message ms → All (IsFoundIn ms) ms
unfolding IsFoundIn
found_lem [] h = tt
found_lem (m ∷ ms) h = (
  ground arith,
  All-mono (λ x. (IsFoundIn ms x) × (same_message m x ≡ false)) (IsFoundIn (m ∷ ms))
      (λ x old. rw (old.1) (old.0)) ms (All-both _ _ ms (found_lem ms h.1) (any_row-none _ ms h.0)),
)

filter_passes : (p : Message → Bool) (ms : List Message) → All (λ m. p m ≡ true) (filter p ms)
filter_passes p [] = tt
filter_passes p (m ∷ ms) = elim (Bool-cases (p m)) [
  | inl e ↦ rw e (e, filter_passes p ms)
  | inr e ↦ rw e (filter_passes p ms)
]

-- A message of a mailbox, as it is stored.
abbrev pub IsRow : Db → ℕ → Message → Type 0
IsRow d k m = (m.mailbox_id ≡ k) × (get_message m.id d ≡ ok m)

newest-IsRow :
    (k limit : ℕ) (d : Db)
    → IsSound d
    → All (IsRow d k) (take (page_size limit) (newest_first (filter (of_mailbox k) d.messages)))
unfolding get_message IsFoundIn
newest-IsRow k limit d sound =
    let of_k = filter_passes (of_mailbox k) d.messages in
    let found =
      All-filter (IsFoundIn d.messages) (of_mailbox k) d.messages
        (found_lem d.messages sound.1.message_keys.1) in
    take-All (IsRow d k) (page_size limit) _ (
      newest_first-All (IsRow d k) _ (
        All-mono (λ m. (of_mailbox k m ≡ true) × IsFoundIn d.messages m) (IsRow d k)
          (λ m h. (ground (arith, h.0), h.1)) _ (All-both _ _ _ of_k found)))

module _ (codecs : Codecs) (d : Db) (sound : IsSound d) where
  pub selected-IsRow :
      (k : ℕ) (token ref : Bytes) (m : Message)
      → select_message codecs token ref (list_messages_by_mailbox k 500 d) ≡ some m
      → IsRow d k m
  unfolding list_messages_by_mailbox
  selected-IsRow k token ref m e =
      select_message-All (IsRow d k) codecs token ref _ m (newest-IsRow k 500 d sound) e

  pub selected_with_report-IsRow :
      (k : ℕ) (token ref : Bytes) (m : Message) (r : Option Report)
      → select_message_with_report codecs token (list_messages_with_reports k 100 d) ref
        ≡ some (m, r)
      → IsRow d k m × (message_reference codecs token m.id ≡ trim_space ref)
  unfolding list_messages_with_reports select_message_with_report
  selected_with_report-IsRow k token ref m r e = elim (Bool-cases (bytes_eq (trim_space ref) [])) [
    | inl blank ↦ absurd (cc (rw blank at e))
    | inr named ↦
        let (row, same) =
          first_with-All (IsRow d k) codecs token (trim_space ref) _ _ m r
            (newest-IsRow k 100 d sound) (rw named at e) in
        (row, bytes_eq_sound (message_reference codecs token m.id) (trim_space ref) same)
  ]
