-- ===== src/RateLimit/Tests.antt =====
-- The limiter at concrete calls.
use sender_report.Base.{ℕ, ◌+◌, ◌≤◌, ◌≡◌, refl, ◌↔◌, true, false, List, [], ◌∷◌, arith}
use sender_report.Text.{Bytes, codes}
use sender_report.RateLimit.{new, allow, retry_after}
use sender_report.RateLimit.Window.{answers, spec_answers, answers-new}
use sender_report.RateLimit.Retry.{run, allow-retry_after}

abbrev calls : List (Bytes × ℕ)
calls = (codes "a", 1) ∷ (codes "b", 2) ∷ (codes "a", 3) ∷ (codes "a", 4) ∷ (codes "a", 12) ∷ []

answers_at_calls : answers (new 10 2) calls ≡ true ∷ true ∷ true ∷ false ∷ true ∷ []
unfolding answers new allow
answers_at_calls = refl

wait_at_calls : retry_after (run (new 10 2) calls) (codes "a") 12 ≡ 1
unfolding run new allow retry_after
wait_at_calls = refl

answers-new_example : answers (new 10 2) calls ≡ spec_answers 10 2 (λ k. []) calls
answers-new_example = answers-new 10 2 calls (omega arith)

allow-retry_after_example :
    ((allow (run (new 10 2) calls) (codes "a") 13).1 ≡ true)
    ↔ (12 + retry_after (run (new 10 2) calls) (codes "a") 12 ≤ 13)
allow-retry_after_example =
    allow-retry_after 10 2 calls (codes "a") 12 13 (omega arith) (omega arith) (omega arith)
