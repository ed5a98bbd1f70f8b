-- ===== src/Create/Program.antt =====
-- What a handler asks of the store, one call after the other, and what it answers in the end.
use sender_report.Base.{ℕ, ltb, Bool}
use sender_report.Text.{Bytes}
use sender_report.Store.Tables.{Mailbox, Db, Answer}
use sender_report.Store.Mailboxes.{
  NewMailbox, create_mailbox, count_active_mailboxes_by_ip, count_active_mailboxes,
  get_mailbox_by_token, get_mailbox_by_address, update_mailbox_checks, touch_mailbox,
  delete_mailbox_by_token,
}

-- The answers of the handler: two refusals with 429, two with 400, one with 500, and a mailbox with
-- 200, 201 or, with a cookie, 303.
pub data CreateReply : Type 0 where
  method_not_allowed too_many_for_ip too_many_globally : CreateReply
  invalid_public_key wrong_identifier could_not_create : CreateReply
  reused created redirected : Mailbox → CreateReply

-- `ask_if_valid` reads the clock for `now.Before(expires)`.
pub data Program : Type 0 where
  reply : CreateReply → Program
  ask_active_by_ip : Bytes → (ℕ → Program) → Program
  ask_active : (ℕ → Program) → Program
  ask_token : Bytes → (Answer Mailbox → Program) → Program
  ask_address : Bytes → (Answer Mailbox → Program) → Program
  ask_if_valid : ℕ → (Bool → Program) → Program
  insert : NewMailbox → (Answer Mailbox → Program) → Program
  mark_seen : ℕ → Program → Program
  remove : Bytes → Program → Program
  choose : Bytes → Bool → Bool → Bool → Program → Program

-- One call. Errors of the last three are not looked at.
unfoldable pub exec : ℕ → Program → Db → Program × Db
exec now (reply r) d = (reply r, d)
exec now (ask_active_by_ip ip next) d = (next (count_active_mailboxes_by_ip now ip d), d)
exec now (ask_active next) d = (next (count_active_mailboxes now d), d)
exec now (ask_token token next) d = (next (get_mailbox_by_token token d), d)
exec now (ask_address address next) d = (next (get_mailbox_by_address address d), d)
exec now (ask_if_valid expires next) d = (next (ltb now expires), d)
exec now (insert n next) d = let made = create_mailbox now n d in (next made.0, made.1)
exec now (mark_seen k next) d = (next, touch_mailbox now k d)
exec now (remove token next) d = (next, (delete_mailbox_by_token token d).1)
exec now (choose token age blocklist broken next) d =
    (next, (update_mailbox_checks token age blocklist broken d).1)

-- A request that no other comes between.
unfoldable pub alone : ℕ → Program → Db → CreateReply × Db
alone now (reply r) d = (r, d)
alone now (ask_active_by_ip ip next) d = alone now (next (count_active_mailboxes_by_ip now ip d)) d
alone now (ask_active next) d = alone now (next (count_active_mailboxes now d)) d
alone now (ask_token token next) d = alone now (next (get_mailbox_by_token token d)) d
alone now (ask_address address next) d = alone now (next (get_mailbox_by_address address d)) d
alone now (ask_if_valid expires next) d = alone now (next (ltb now expires)) d
alone now (insert n next) d = let made = create_mailbox now n d in alone now (next made.0) made.1
alone now (mark_seen k next) d = alone now next (touch_mailbox now k d)
alone now (remove token next) d = alone now next (delete_mailbox_by_token token d).1
alone now (choose token age blocklist broken next) d =
    alone now next (update_mailbox_checks token age blocklist broken d).1
