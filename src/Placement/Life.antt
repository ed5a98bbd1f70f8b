-- ===== src/Placement/Life.antt =====
-- The life of a placement test: its start, the results that the goroutines send in any order and the
-- collector writes, and any other operations of the store between them.
use sender_report.Base.{
  ℕ, suc, ◌≡◌, Bool, true, false, not, ◌||◌, List, [], ◌∷◌, ◌++◌, ◌==◌, if◌then◌else◌, length,
}
use sender_report.Text.{Bytes, bytes_eq}
use sender_report.RateLimit.{Limiter}
use sender_report.Seeds.{Account, SeedInfo}
use sender_report.Store.Tables.{TestStatus, running, finished, timed_out, Db}
use sender_report.Store.Sound.{IsSound}
use sender_report.Store.Placements.{update_placement_test_result}
use sender_report.Store.Operations.{
  Request, create, set_checks, touch, delete, clean, receive, report, set_payload, set_score,
  start_test, set_result, run,
}
use sender_report.Placement.Poll.{
  PlaceStatus, in_inbox, in_spam, no_show, ProviderResult, Watch, poll_one,
}
use sender_report.Placement.Start.{StartInputs, started, ipt_start}

abbrev pub is_no_show : PlaceStatus → Bool
is_no_show in_inbox = false
is_no_show in_spam = false
is_no_show no_show = true

abbrev pub any_no_show : List ProviderResult → Bool
any_no_show [] = false
any_no_show (r ∷ rs) = is_no_show r.place || any_no_show rs

-- The status that the collector writes after so many of `n` results.
unfoldable pub status_after : ℕ → List ProviderResult → TestStatus
status_after n collected =
    if length collected == n then if any_no_show collected then timed_out else finished else running

-- An operation of others: it neither starts a test with this token nor writes its result.
abbrev pub is_foreign : Bytes → Request → Bool
is_foreign token (create now n) = true
is_foreign token (set_checks t age blocklist broken) = true
is_foreign token (touch now k) = true
is_foreign token (delete t) = true
is_foreign token (clean now retention) = true
is_foreign token (receive now m) = true
is_foreign token (report now r) = true
is_foreign token (set_payload k payload) = true
is_foreign token (set_score k score label checks) = true
is_foreign token (start_test now k t seeds expires) = not (bytes_eq t token)
is_foreign token (set_result t results status) = not (bytes_eq t token)

-- The goroutines watch the accounts that Pick gave, each one of them.
abbrev pub watched : List Watch → List (SeedInfo × Account)
watched [] = []
watched (w ∷ ws) = (w.info, w.account) ∷ watched ws

abbrev pub poll_all : List Bytes → Bytes → ℕ → List Watch → List ProviderResult
poll_all spam_folders subject since [] = []
poll_all spam_folders subject since (w ∷ ws) =
    poll_one spam_folders subject since w ∷ poll_all spam_folders subject since ws

abbrev pub how_many : List Watch → ℕ
how_many [] = 0
how_many (w ∷ ws) = suc (how_many ws)

-- A test that `mailbox_token` started: the results that are still to come, and those that came.
pub data Life (inputs : StartInputs) (marshal : List ProviderResult → Bytes)
    (spam_folders : List Bytes) (since : ℕ) (mailbox_token token : Bytes) (watches : List Watch)
    : List ProviderResult → List ProviderResult → Db → Type 1 where
  starts :
      (now : ℕ) (ip : Bytes) (limiter : Limiter) (d : Db) (tag : Bytes)
      → (picked : List (SeedInfo × Account)) (expires : ℕ) (unavailable : List Bytes) → IsSound d
      → (ipt_start inputs now ip mailbox_token limiter d).0
        ≡ started token tag picked expires unavailable
      → watched watches ≡ picked
      → Life inputs marshal spam_folders since mailbox_token token watches
          (poll_all spam_folders token since watches)
          []
          (ipt_start inputs now ip mailbox_token limiter d).2
  arrives :
      {d : Db} {collected : List ProviderResult} (pre : List ProviderResult) (r : ProviderResult)
      → (post : List ProviderResult)
      → Life inputs marshal spam_folders since mailbox_token token watches
          (pre ++ r ∷ post)
          collected
          d
      → Life inputs marshal spam_folders since mailbox_token token watches
          (pre ++ post)
          (collected ++ r ∷ [])
          (update_placement_test_result token
            (marshal (collected ++ r ∷ []))
            (status_after (how_many watches) (collected ++ r ∷ []))
            d)
  other :
      {d : Db} {pending collected : List ProviderResult} (q : Request)
      → is_foreign token q ≡ true
      → Life inputs marshal spam_folders since mailbox_token token watches pending collected d
      → Life inputs marshal spam_folders since mailbox_token token watches pending collected
          (run q d)
