-- ===== src/Placement/Access.antt =====
-- The token of a placement test, and who may see the test.
use sender_report.Base.{
  ℕ, ◌+◌, ◌/◌, Bool, not, ◌||◌, Option, none, some, ltb, leb, ◌==◌, if◌then◌else◌, length, take,
}
use sender_report.Text.{Bytes}
use sender_report.Store.Tables.{Mailbox, PlacementTest, Db, Answer, ok, not_found, constraint}
use sender_report.Store.Mailboxes.{get_mailbox_by_token}
use sender_report.Store.Placements.{get_placement_test}

abbrev pub min_ipt_token_length : ℕ
min_ipt_token_length = 16

abbrev pub max_ipt_token_length : ℕ
max_ipt_token_length = 64

abbrev pub cut_token : (Bytes → Bytes) → ℕ → Option Bytes → Option Bytes
cut_token encode_hex n none = none
cut_token encode_hex n (some bytes) = some (take n (encode_hex bytes))

-- `random n` are the bytes that rand.Read fills in a slice of `n`, none on its error.
unfoldable pub new_placement_token : (Bytes → Bytes) → (ℕ → Option Bytes) → ℕ → Option Bytes
new_placement_token encode_hex random n =
    if ltb n min_ipt_token_length || ltb max_ipt_token_length n
    then none
    else cut_token encode_hex n (random ((n + 1) / 2))

unfoldable pub placement_token_accepted : ℕ → Bytes → PlacementTest → ℕ → Bool
placement_token_accepted n token t now = leb n (length token) || ltb now t.expires_at

abbrev pub if_open : ℕ → Mailbox → Bytes → ℕ → Answer PlacementTest → Answer PlacementTest
if_open n mb token now not_found = not_found
if_open n mb token now constraint = constraint
if_open n mb token now (ok t) =
    if not (t.mailbox_id == mb.id) || not (placement_token_accepted n token t now)
    then not_found
    else ok t

unfoldable pub placement_test_for : ℕ → Mailbox → Bytes → ℕ → Db → Answer PlacementTest
placement_test_for n mb token now d = if_open n mb token now (get_placement_test token d)

pub data Shown : Type 0 where
  no_mailbox no_test : Shown
  shown : PlacementTest → Shown

abbrev pub shown_test : Answer PlacementTest → Shown
shown_test (ok t) = shown t
shown_test not_found = no_test
shown_test constraint = no_test

abbrev pub shown_to : ℕ → Bytes → ℕ → Db → Answer Mailbox → Shown
shown_to n token now d (ok mb) = shown_test (placement_test_for n mb token now d)
shown_to n token now d not_found = no_mailbox
shown_to n token now d constraint = no_mailbox

-- The result of a test, for who names a mailbox and a test.
unfoldable pub ipt_result : ℕ → Bytes → Bytes → ℕ → Db → Shown
ipt_result n mailbox_token token now d =
    shown_to n token now d (get_mailbox_by_token mailbox_token d)
