-- ===== src/Placement/Tests.antt =====
-- A placement test with two accounts: one finds the mail in its second lookup, the other never does.
use sender_report.Base.{
  ℕ, zero, suc, ◌*◌, ◌≡◌, refl, sym, ap, ◌↔◌, true, none, some, List, [], ◌∷◌, arith, length,
}
use sender_report.Text.{Bytes, codes, bytes_eq}
use sender_report.RateLimit.{new, allow}
use sender_report.Seeds.{Account, Provider, filter_providers, pick}
use sender_report.Store.Tables.{PlacementTest, timed_out, Db, ok}
use sender_report.Store.Sound.{IsSound}
use sender_report.Store.Empty.{empty, empty-IsSound}
use sender_report.Store.Mailboxes.{NewMailbox, create_mailbox, get_mailbox_by_token, touch_mailbox}
use sender_report.Store.Placements.{
  create_placement_test, get_placement_test, update_placement_test_result,
}
use sender_report.Store.Operations.{create, touch, run, run_all}
use sender_report.Store.Counts.{run_all-IsSound}
use sender_report.Placement.Poll.{
  Imap, in_spam, ProviderResult, folder_status, search_folder, try_find, Watch, tries_of, poll_one,
}
use sender_report.Placement.Access.{
  new_placement_token, shown, no_test, ipt_result, placement_test_for, placement_token_accepted,
}
use sender_report.Placement.Start.{StartInputs, ipt_start}
use sender_report.Placement.Life.{Life, starts, arrives, other, status_after, poll_all}
use sender_report.Placement.Owned.{HasTokenLaws, Life-shown_iff}
use sender_report.Placement.Verdict.{Conclusion, Life-Conclusion}

abbrev box : Bytes → NewMailbox
box token = record {
  token = token;
  address = token;
  public_key = [];
  ip = codes "192.0.2.1";
  ttl = 10;
}

-- Two mailboxes.
abbrev boxes : Db
boxes = run_all (create 100 (box (codes "t")) ∷ create 100 (box (codes "u")) ∷ []) empty

boxes-IsSound : IsSound boxes
boxes-IsSound =
    run_all-IsSound (create 100 (box (codes "t")) ∷ create 100 (box (codes "u")) ∷ []) empty
      empty-IsSound

abbrev seed : Bytes → Account
seed name = record { user = name; password = codes "p" }

abbrev provider : Bytes → Provider
provider name = record { name = name; imap = codes "imap:993"; accounts = seed name ∷ [] }

abbrev doubled : Bytes → Bytes
doubled [] = []
doubled (c ∷ s) = c ∷ c ∷ doubled s

abbrev zeros : ℕ → Bytes
zeros zero = []
zeros (suc n) = 48 ∷ zeros n

abbrev inputs : StartInputs
inputs = record {
  seeds = some (provider (codes "a") ∷ provider (codes "b") ∷ []);
  body = some [];
  health = λ key. none;
  random = λ n. some (zeros n);
  rand = λ i n. 0;
  encode_hex = doubled;
  marshal_seeds = λ s. [];
  ipt_token_length = 16;
  ipt_test_duration = 60;
}

length-doubled : (s : Bytes) → length (doubled s) ≡ 2 * length s
length-doubled [] = refl
length-doubled (c ∷ s) = omega (arith, length-doubled s)

length-zeros : (n : ℕ) → length (zeros n) ≡ n
length-zeros zero = refl
length-zeros (suc n) = ap suc (length-zeros n)

laws : HasTokenLaws inputs
laws = record {
  two_digits = length-doubled;
  all_filled =
      λ n bytes e. let same : zeros n ≡ bytes = ground (arith, e) in rw (sym same) (length-zeros n);
}

-- A server on which the mail is in one folder.
abbrev server : Bytes → Imap
server folder = record {
  Client = Bytes;
  split_host_port = λ s. none;
  dial_tls = λ address name. some folder;
  login = λ c user password. true;
  select_folder = λ c f. bytes_eq f c;
  search_in = λ c f subject since. some (1, 1);
}

abbrev nowhere : Imap
nowhere = record (server []) { dial_tls = λ address name. none }

abbrev at_first : Imap → Imap → ℕ → Imap
at_first first second zero = first
at_first first second (suc i) = second

abbrev sent : Watch
sent = record {
  info = record { provider = codes "a"; address = codes "a" };
  account = seed (codes "a");
  imap_host = codes "imap:993";
  imap = at_first nowhere (server (codes "Spam"));
  ticks = 1;
  checked_at = 120;
}

abbrev lost : Watch
lost = record sent {
  info = record { provider = codes "b"; address = codes "b" };
  account = seed (codes "b");
  imap = λ i. nowhere;
}

abbrev spam : List Bytes
spam = codes "Junk" ∷ codes "Spam" ∷ []

abbrev token : Bytes
token = zeros 16

abbrev Trial : List ProviderResult → List ProviderResult → Db → Type 1
Trial = Life inputs (λ rs. []) spam 0 (codes "t") token (sent ∷ lost ∷ [])

abbrev begun : Db
begun = (ipt_start inputs 105 (codes "192.0.2.1") (codes "t") (new 3600 5) boxes).2

trial_starts : Trial (poll_all spam token 0 (sent ∷ lost ∷ [])) [] begun
unfolding ipt_start allow new get_mailbox_by_token run_all run create_mailbox filter_providers
    new_placement_token pick create_placement_test
trial_starts = starts 105 (codes "192.0.2.1") (new 3600 5) boxes _ _ _ _ boxes-IsSound refl refl

-- Both results come, the later one first, with an operation between them.
abbrev trial_ends : (d : Db) × (rs : List ProviderResult) × Trial [] rs d
trial_ends = (
  _,
  _,
  arrives [] (poll_one spam token 0 sent) [] (
      other (touch 110 1) refl
        (arrives (poll_one spam token 0 sent ∷ []) (poll_one spam token 0 lost) [] trial_starts)),
)

abbrev ended : Db
ended = trial_ends.0

abbrev verdict_test : PlacementTest
verdict_test = record {
  id = 1;
  mailbox_id = 1;
  placement_token = token;
  test_status = timed_out;
  created_at = 105;
  expires_at = 165;
  seeds = [];
  results = [];
}

places : (poll_one spam token 0 sent).place ≡ in_spam
unfolding poll_one tries_of try_find search_folder folder_status
places = refl

test_is : get_placement_test token ended ≡ ok verdict_test
unfolding ipt_start allow new get_mailbox_by_token get_placement_test run_all run create_mailbox
    filter_providers new_placement_token pick create_placement_test update_placement_test_result
    status_after poll_one tries_of try_find search_folder folder_status ipt_result
    placement_test_for placement_token_accepted touch_mailbox
test_is = refl

Life-Conclusion_example :
    Conclusion inputs
      (λ rs. [])
      spam
      0
      (codes "t")
      token
      (sent ∷ lost ∷ [])
      []
      trial_ends.1
      verdict_test
Life-Conclusion_example =
    Life-Conclusion inputs (λ rs. []) spam 0 (codes "t") token (sent ∷ lost ∷ []) trial_ends.2
      verdict_test test_is

Life-shown_iff_example :
    (ipt_result 16 (codes "t") token 500 ended ≡ shown verdict_test)
    ↔ ((codes "t" ≡ codes "t") × (get_placement_test token ended ≡ ok verdict_test))
Life-shown_iff_example =
    Life-shown_iff inputs (λ rs. []) spam 0 (codes "t") token (sent ∷ lost ∷ []) laws trial_ends.2
      (codes "t") 500 verdict_test

-- The other mailbox does not see the test.
hidden : ipt_result 16 (codes "u") token 120 ended ≡ no_test
unfolding ipt_start allow new get_mailbox_by_token get_placement_test run_all run create_mailbox
    filter_providers new_placement_token pick create_placement_test update_placement_test_result
    status_after poll_one tries_of try_find search_folder folder_status ipt_result
    placement_test_for placement_token_accepted touch_mailbox
hidden = refl
