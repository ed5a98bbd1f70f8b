-- ===== src/Store/Mailboxes.antt =====
-- The operations on mailboxes, the statistics, and Cleanup.
use sender_report.Base.{
  ℕ, ◌+◌, ◌-◌, Bool, false, ◌&&◌, ◌||◌, [], ◌∷◌, ◌++◌, ltb, ◌==◌, filter, length, if◌then◌else◌,
}
use sender_report.Text.{Bytes, bytes_eq, to_lower}
use sender_report.Store.Tables.{
  Mailbox, Message, Db, Answer, ok, not_found, constraint, find_row, any_row, update_rows,
  delete_messages, delete_mailboxes,
}

-- What `CreateMailbox` is called with, the time among it.
pub record NewMailbox : Type 0 where
  pub token : Bytes
  pub address : Bytes
  pub public_key : Bytes
  pub ip : Bytes
  pub ttl : ℕ

abbrev pub mailbox_row : Db → ℕ → NewMailbox → Mailbox
mailbox_row d now n = record {
  id = d.next_mailbox;
  token = n.token;
  address = n.address;
  public_key = n.public_key;
  created_ip = n.ip;
  created_at = now;
  expires_at = now + n.ttl;
  last_seen_at = now;
  check_domain_age = false;
  check_domain_blocklist = false;
  check_broken_links = false;
}

abbrev pub same_names : NewMailbox → Mailbox → Bool
same_names n m = bytes_eq m.token n.token || bytes_eq m.address n.address

-- The insert of a row, with the counter behind it.
abbrev pub insert_mailbox : Mailbox → Db → Db
insert_mailbox m d = record d {
  mailboxes = d.mailboxes ++ m ∷ [];
  counters = record (d.counters) { mailboxes_created = d.counters.mailboxes_created + 1 };
  next_mailbox = d.next_mailbox + 1;
  last_rowid = d.next_mailbox;
}

unfoldable pub create_mailbox : ℕ → NewMailbox → Db → Answer Mailbox × Db
create_mailbox now n d =
    if any_row (same_names n) d.mailboxes
    then (constraint, d)
    else (ok (mailbox_row d now n), insert_mailbox (mailbox_row d now n) d)

unfoldable pub count_active_mailboxes_by_ip : ℕ → Bytes → Db → ℕ
count_active_mailboxes_by_ip now ip d =
    length (filter (λ m. bytes_eq m.created_ip ip && ltb now m.expires_at) d.mailboxes)

unfoldable pub count_active_mailboxes : ℕ → Db → ℕ
count_active_mailboxes now d = length (filter (λ m. ltb now m.expires_at) d.mailboxes)

unfoldable pub get_mailbox_by_token : Bytes → Db → Answer Mailbox
get_mailbox_by_token token d = find_row (λ m. bytes_eq m.token token) d.mailboxes

unfoldable pub get_mailbox_by_address : Bytes → Db → Answer Mailbox
get_mailbox_by_address address d =
    find_row (λ m. bytes_eq (to_lower m.address) (to_lower address)) d.mailboxes

unfoldable pub get_mailbox_by_id : ℕ → Db → Answer Mailbox
get_mailbox_by_id k d = find_row (λ m. m.id == k) d.mailboxes

-- The rows that an update matches, none of them an error.
abbrev pub affected : Bool → Db → Db → Answer (Unit {0}) × Db
affected some_row d' d = if some_row then (ok tt, d') else (not_found, d)

unfoldable pub update_mailbox_checks : Bytes → Bool → Bool → Bool → Db → Answer (Unit {0}) × Db
update_mailbox_checks token age blocklist broken d =
    affected (any_row (λ m. bytes_eq m.token token) d.mailboxes)
      (record d {
        mailboxes =
            update_rows (λ m. bytes_eq m.token token)
              (λ m. record m {
                check_domain_age = age;
                check_domain_blocklist = blocklist;
                check_broken_links = broken;
              })
              d.mailboxes;
      })
      d

unfoldable pub touch_mailbox : ℕ → ℕ → Db → Db
touch_mailbox now k d = record d {
  mailboxes = update_rows (λ m. m.id == k) (λ m. record m { last_seen_at = now }) d.mailboxes;
}

unfoldable pub delete_mailbox_by_token : Bytes → Db → Answer (Unit {0}) × Db
delete_mailbox_by_token token d =
    affected (any_row (λ m. bytes_eq m.token token) d.mailboxes)
      (delete_mailboxes (λ m. bytes_eq m.token token) d) d

-- The average is a sum and a number of reports, (0, 1) if there is none.
pub record GlobalStats : Type 0 where
  pub total_mailboxes : ℕ
  pub active_mailboxes : ℕ
  pub total_messages : ℕ
  pub total_reports : ℕ
  pub avg_score : ℕ × ℕ

unfoldable pub get_global_stats : ℕ → Db → GlobalStats
get_global_stats now d = record {
  total_mailboxes = d.counters.mailboxes_created;
  active_mailboxes = count_active_mailboxes now d;
  total_messages = d.counters.messages_received;
  total_reports = d.counters.reports_generated;
  avg_score =
      if ltb 0 d.counters.reports_generated
      then (d.counters.score_sum, d.counters.reports_generated)
      else (0, 1);
}

-- A time before all others is 0, so the cutoff stops there.
abbrev pub cutoff : ℕ → ℕ → ℕ
cutoff now retention = now - retention

abbrev pub old_message : ℕ → Message → Bool
old_message limit m = ltb m.received_at limit

abbrev pub old_mailbox : ℕ → Mailbox → Bool
old_mailbox limit m = ltb m.expires_at limit

pub record CleanupResult : Type 0 where
  pub deleted_mailboxes : ℕ
  pub deleted_messages : ℕ

unfoldable pub cleanup : ℕ → ℕ → Db → CleanupResult × Db
cleanup now retention d =
    let limit = cutoff now retention in
    let d' = delete_messages (old_message limit) d in
    (
      record {
        deleted_mailboxes = length (filter (old_mailbox limit) d'.mailboxes);
        deleted_messages = length (filter (old_message limit) d.messages);
      },
      delete_mailboxes (old_mailbox limit) d',
    )
