-- ===== src/Store/Keys.antt =====
-- The keys of single tables under an insert, an update and a deletion.
use sender_report.Base.{
  ℕ, ◌+◌, ◌<◌, ◌≡◌, refl, Bool, false, ◌||◌, List, [], ◌∷◌, ◌++◌, ◌==◌, arith, All, All-append,
  All-mono, if◌then◌else◌, filter,
}
use sender_report.Text.{bytes_eq}
use sender_report.Store.Tables.{
  Mailbox, Message, Report, Db, any_row, update_rows, has_mailbox, delete_messages,
  delete_mailboxes,
}
use sender_report.Store.Rows.{
  All-update, All-filter, Distinct-append, Distinct-filter, Distinct-update, update_guarded,
}
use sender_report.Store.Sound.{
  same_mailbox, same_token, same_address, same_message, same_subject, same_report, same_test,
  MailboxesKeyed, MessagesKeyed, ReportsKeyed, IsKeyed,
}
use sender_report.Store.Mailboxes.{NewMailbox, mailbox_row, same_names}
use sender_report.Store.Messages.{of_message}

-- An id that is not given out yet is no row's.
fresh_none :
    {A : Type 0} (key : A → ℕ) (n : ℕ) (xs : List A)
    → All (λ x. key x < n) xs
    → any_row (λ x. key x == n) xs ≡ false
fresh_none key n [] h = refl
fresh_none key n (x ∷ xs) h = ground (arith, h.0, fresh_none key n xs h.1)

below_next :
    {A : Type 0} (key : A → ℕ) (n : ℕ) (xs : List A)
    → All (λ x. key x < n) xs
    → All (λ x. key x < n + 1) xs
below_next key n xs h = All-mono _ _ (λ x lt. omega arith) xs h

either_none :
    {A : Type 0} (p q : A → Bool) (xs : List A)
    → any_row (λ x. p x || q x) xs ≡ false
    → (any_row p xs ≡ false) × (any_row q xs ≡ false)
either_none p q [] h = (refl, refl)
either_none p q (x ∷ xs) h =
    let rest = either_none p q xs (ground (arith, h)) in
    (ground (arith, h, rest.0), ground (arith, h, rest.1))

pub MailboxesKeyed-insert :
    (now : ℕ) (n : NewMailbox) (d : Db)
    → any_row (same_names n) d.mailboxes ≡ false
    → MailboxesKeyed d.next_mailbox d.mailboxes
    → MailboxesKeyed (d.next_mailbox + 1) (d.mailboxes ++ mailbox_row d now n ∷ [])
MailboxesKeyed-insert now n d e h =
    let names =
      either_none (λ m. bytes_eq m.token n.token) (λ m. bytes_eq m.address n.address) d.mailboxes
        e in
    (
      All-append _ d.mailboxes (mailbox_row d now n ∷ []) (below_next (λ m. m.id) _ d.mailboxes h.0)
          (omega arith, tt),
      Distinct-append same_mailbox d.mailboxes _ h.1 (fresh_none (λ m. m.id) _ d.mailboxes h.0),
      Distinct-append same_token d.mailboxes _ h.2 names.0,
      Distinct-append same_address d.mailboxes _ h.3 names.1,
    )

MailboxesKeyed-filter :
    (n : ℕ) (p : Mailbox → Bool) (rows : List Mailbox)
    → MailboxesKeyed n rows
    → MailboxesKeyed n (filter p rows)
MailboxesKeyed-filter n p rows h = (
  All-filter _ p rows h.0,
  Distinct-filter same_mailbox p rows h.1,
  Distinct-filter same_token p rows h.2,
  Distinct-filter same_address p rows h.3,
)

-- An update that keeps id, token and address.
pub MailboxesKeyed-update :
    (n : ℕ) (p : Mailbox → Bool) (f : Mailbox → Mailbox)
    → ((m : Mailbox) → (f m).id ≡ m.id)
    → ((m : Mailbox) → (f m).token ≡ m.token)
    → ((m : Mailbox) → (f m).address ≡ m.address)
    → (rows : List Mailbox) → MailboxesKeyed n rows
    → MailboxesKeyed n (update_rows p f rows)
MailboxesKeyed-update n p f i t a rows h = (
  All-update _ p f (λ m lt. rw (i m) lt) rows h.0,
  Distinct-update same_mailbox p f (λ x y. rw (i x)) (λ x y. rw (i y)) rows h.1,
  Distinct-update same_token p f (λ x y. rw (t x)) (λ x y. rw (t y)) rows h.2,
  Distinct-update same_address p f (λ x y. rw (a x)) (λ x y. rw (a y)) rows h.3,
)

pub MessagesKeyed-update :
    (n : ℕ) (p : Message → Bool) (f : Message → Message)
    → ((m : Message) → (f m).id ≡ m.id)
    → (rows : List Message) → MessagesKeyed n rows
    → MessagesKeyed n (update_rows p f rows)
MessagesKeyed-update n p f i rows h = (
  All-update _ p f (λ m lt. rw (i m) lt) rows h.0,
  Distinct-update same_message p f (λ x y. rw (i x)) (λ x y. rw (i y)) rows h.1,
)

pub delete_messages-IsKeyed :
    (p : Message → Bool) (d : Db) → IsKeyed d → IsKeyed (delete_messages p d)
unfolding delete_messages
delete_messages-IsKeyed p d h = record {
  mailbox_keys = h.mailbox_keys;
  message_keys = (
    All-filter _ _ d.messages h.message_keys.0,
    Distinct-filter same_message _ d.messages h.message_keys.1,
  );
  report_keys = (
    All-filter _ _ d.reports h.report_keys.0,
    Distinct-filter same_report _ d.reports h.report_keys.1,
    Distinct-filter same_subject _ d.reports h.report_keys.2,
  );
  test_keys = h.test_keys;
}

pub delete_mailboxes-IsKeyed :
    (p : Mailbox → Bool) (d : Db) → IsKeyed d → IsKeyed (delete_mailboxes p d)
unfolding delete_mailboxes
delete_mailboxes-IsKeyed p d h =
    let h' = delete_messages-IsKeyed (λ m. has_mailbox m.mailbox_id (filter p d.mailboxes)) d h in
    record {
      mailbox_keys = MailboxesKeyed-filter d.next_mailbox _ d.mailboxes h.mailbox_keys;
      message_keys = h'.message_keys;
      report_keys = h'.report_keys;
      test_keys = Distinct-filter same_test _ d.tests h.test_keys;
    }

-- The row that takes another one's place.
abbrev replaced : Report → Report → Report
replaced r old = if of_message r.message_id old then record r { id = old.id } else old

replaced_id : (r old : Report) → (replaced r old).id ≡ old.id
replaced_id r old = ground arith

replaced_subject : (r old : Report) → (replaced r old).message_id ≡ old.message_id
replaced_subject r old = ground arith

pub ReportsKeyed-update :
    (n : ℕ) (p : Report → Bool) (f : Report → Report)
    → ((r : Report) → (f r).id ≡ r.id)
    → ((r : Report) → (f r).message_id ≡ r.message_id)
    → (rows : List Report) → ReportsKeyed n rows
    → ReportsKeyed n (update_rows p f rows)
ReportsKeyed-update n p f i s rows h = (
  All-update _ p f (λ r lt. rw (i r) lt) rows h.0,
  Distinct-update same_report p f (λ x y. rw (i x)) (λ x y. rw (i y)) rows h.1,
  Distinct-update same_subject p f (λ x y. rw (s x)) (λ x y. rw (s y)) rows h.2,
)

pub ReportsKeyed-replace :
    (n : ℕ) (r : Report) (rows : List Report)
    → ReportsKeyed n rows
    → ReportsKeyed n (update_rows (of_message r.message_id) (λ old. record r { id = old.id }) rows)
ReportsKeyed-replace n r rows h =
    rw (update_guarded (of_message r.message_id) (λ old. record r { id = old.id }) rows) (
      ReportsKeyed-update n (of_message r.message_id) (replaced r) (replaced_id r)
        (replaced_subject r) rows h)

pub ReportsKeyed-insert :
    (r : Report) (d : Db)
    → any_row (of_message r.message_id) d.reports ≡ false
    → ReportsKeyed d.next_report d.reports
    → ReportsKeyed (d.next_report + 1) (d.reports ++ record r { id = d.next_report } ∷ [])
ReportsKeyed-insert r d e h = (
  All-append _ d.reports _ (below_next (λ x. x.id) _ d.reports h.0) (omega arith, tt),
  Distinct-append same_report d.reports _ h.1 (fresh_none (λ x. x.id) _ d.reports h.0),
  Distinct-append same_subject d.reports _ h.2 e,
)

pub MessagesKeyed-insert :
    (m : Message) (d : Db)
    → MessagesKeyed d.next_message d.messages
    → MessagesKeyed (d.next_message + 1) (d.messages ++ record m { id = d.next_message } ∷ [])
MessagesKeyed-insert m d h = (
  All-append _ d.messages _ (below_next (λ x. x.id) _ d.messages h.0) (omega arith, tt),
  Distinct-append same_message d.messages _ h.1 (fresh_none (λ x. x.id) _ d.messages h.0),
)
