-- ===== src/Store/Tables.antt =====
-- The tables of the database: the rows of internal/model/types.go and internal/db/db.go, the ids
-- that AUTOINCREMENT gives out, and `last_insert_rowid`. Times are numbers, the zero time is 0.
-- Text that the code marshals to JSON is kept as bytes; a score is in hundredths of a point.
use sender_report.Base.{ℕ, Bool, false, not, ◌||◌, List, [], ◌∷◌, ◌==◌, filter, if◌then◌else◌}
use sender_report.Text.{Bytes}

pub record Mailbox : Type 0 where
  pub id : ℕ
  pub token : Bytes
  pub address : Bytes
  pub public_key : Bytes
  pub created_ip : Bytes
  pub created_at : ℕ
  pub expires_at : ℕ
  pub last_seen_at : ℕ
  pub check_domain_age : Bool
  pub check_domain_blocklist : Bool
  pub check_broken_links : Bool

pub record Message : Type 0 where
  pub id : ℕ
  pub mailbox_id : ℕ
  pub smtp_from : Bytes
  pub rcpt_to : Bytes
  pub remote_ip : Bytes
  pub helo : Bytes
  pub received_at : ℕ
  pub raw_source : Bytes
  pub header_block : Bytes
  pub subject : Bytes
  pub size_bytes : ℕ
  pub payload_enc : Bytes

pub record Report : Type 0 where
  pub id : ℕ
  pub message_id : ℕ
  pub created_at : ℕ
  pub score : ℕ
  pub score_label : Bytes
  pub checks : Bytes
  pub warnings : Bytes
  pub suggestions : Bytes
  pub raw_headers : Bytes
  pub links : Bytes
  pub spam_signals : Bytes

pub data TestStatus : Type 0 where
  waiting running finished timed_out : TestStatus

pub record PlacementTest : Type 0 where
  pub id : ℕ
  pub mailbox_id : ℕ
  pub placement_token : Bytes
  pub test_status : TestStatus
  pub created_at : ℕ
  pub expires_at : ℕ
  pub seeds : Bytes
  pub results : Bytes

-- The counters that only grow. Their rows are there from the start, so that counting inserts no row.
pub record Counters : Type 0 where
  pub mailboxes_created : ℕ
  pub messages_received : ℕ
  pub reports_generated : ℕ
  pub score_sum : ℕ

-- Rows stand in the order of their ids, the oldest first; `next_` is the next id of a table, where
-- the database may also leave ids out.
pub record Db : Type 0 where
  pub mailboxes : List Mailbox
  pub messages : List Message
  pub reports : List Report
  pub tests : List PlacementTest
  pub counters : Counters
  pub next_mailbox : ℕ
  pub next_message : ℕ
  pub next_report : ℕ
  pub next_test : ℕ
  pub last_rowid : ℕ

-- A result, no row, or a constraint that the database refuses to break.
pub data Answer {ℓ} (A : Type ℓ) : Type ℓ where
  ok : A → Answer A
  not_found : Answer A
  constraint : Answer A

module _ {ℓ} {A : Type ℓ} where
  -- The first row that passes a test, as `QueryRow` gives it.
  abbrev pub find_row : (A → Bool) → List A → Answer A
  find_row p [] = not_found
  find_row p (x ∷ xs) = let later = find_row p xs in if p x then ok x else later

  abbrev pub any_row : (A → Bool) → List A → Bool
  any_row p [] = false
  any_row p (x ∷ xs) = p x || any_row p xs

  -- `UPDATE … WHERE`
  abbrev pub update_rows : (A → Bool) → (A → A) → List A → List A
  update_rows p f [] = []
  update_rows p f (x ∷ xs) = let rest = update_rows p f xs in if p x then f x ∷ rest else x ∷ rest

  -- `DELETE … WHERE`: the rows that stay.
  abbrev pub delete_rows : (A → Bool) → List A → List A
  delete_rows p xs = filter (λ x. not (p x)) xs

abbrev pub has_mailbox : ℕ → List Mailbox → Bool
has_mailbox k rows = any_row (λ m. m.id == k) rows

abbrev pub has_message : ℕ → List Message → Bool
has_message k rows = any_row (λ m. m.id == k) rows

-- `ON DELETE CASCADE`: the reports of deleted messages go, and the messages, with their reports,
-- and the placement tests of deleted mailboxes.
unfoldable pub delete_messages : (Message → Bool) → Db → Db
delete_messages p d =
    let gone = filter p d.messages in
    record d {
      messages = delete_rows p d.messages;
      reports = delete_rows (λ r. has_message r.message_id gone) d.reports;
    }

unfoldable pub delete_mailboxes : (Mailbox → Bool) → Db → Db
unfolding delete_messages
delete_mailboxes p d =
    let gone = filter p d.mailboxes in
    let d' = delete_messages (λ m. has_mailbox m.mailbox_id gone) d in
    record d' {
      mailboxes = delete_rows p d.mailboxes;
      tests = delete_rows (λ t. has_mailbox t.mailbox_id gone) d.tests;
    }
