-- ===== src/Store/Placements.antt =====
-- The operations on placement tests.
use sender_report.Base.{ℕ, ◌+◌, List, [], ◌∷◌, ◌++◌, ltb, ◌==◌, filter, if◌then◌else◌}
use sender_report.Text.{Bytes, codes, bytes_eq}
use sender_report.Store.Tables.{
  PlacementTest, TestStatus, waiting, Db, Answer, ok, constraint, find_row, any_row, update_rows,
  has_mailbox,
}

abbrev pub test_row : Db → ℕ → ℕ → Bytes → Bytes → ℕ → PlacementTest
test_row d now mailbox token seeds expires = record {
  id = d.next_test;
  mailbox_id = mailbox;
  placement_token = token;
  test_status = waiting;
  created_at = now;
  expires_at = expires;
  seeds = seeds;
  results = codes "[]";
}

abbrev pub insert_test : PlacementTest → Db → Db
insert_test t d = record d {
  tests = d.tests ++ t ∷ [];
  next_test = d.next_test + 1;
  last_rowid = d.next_test;
}

unfoldable pub create_placement_test : ℕ → ℕ → Bytes → Bytes → ℕ → Db → Answer (Unit {0}) × Db
create_placement_test now mailbox token seeds expires d =
    if any_row (λ t. bytes_eq t.placement_token token) d.tests
    then (constraint, d)
    else if has_mailbox mailbox d.mailboxes
    then (ok tt, insert_test (test_row d now mailbox token seeds expires) d)
    else (constraint, d)

unfoldable pub get_placement_test : Bytes → Db → Answer PlacementTest
get_placement_test token d = find_row (λ t. bytes_eq t.placement_token token) d.tests

unfoldable pub update_placement_test_result : Bytes → Bytes → TestStatus → Db → Db
update_placement_test_result token results status d = record d {
  tests =
      update_rows (λ t. bytes_eq t.placement_token token)
        (λ t. record t { results = results; test_status = status }) d.tests;
}

-- `ORDER BY created_at DESC`
abbrev pub insert_latest : PlacementTest → List PlacementTest → List PlacementTest
insert_latest t [] = t ∷ []
insert_latest t (x ∷ xs) =
    let later = insert_latest t xs in
    if ltb t.created_at x.created_at then x ∷ later else t ∷ x ∷ xs

abbrev pub latest_first : List PlacementTest → List PlacementTest
latest_first [] = []
latest_first (t ∷ ts) = insert_latest t (latest_first ts)

unfoldable pub get_mailbox_placement_tests : ℕ → Db → List PlacementTest
get_mailbox_placement_tests k d = latest_first (filter (λ t. t.mailbox_id == k) d.tests)
