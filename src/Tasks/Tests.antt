-- ===== src/Tasks/Tests.antt =====
-- Two tasks, of which the second panics, with one place.
use sender_report.Base.{◌≡◌, refl, List, [], ◌∷◌, arith}
use sender_report.Text.{codes}
use sender_report.Tasks.{
  CheckTask, Job, returned, panicked, waiting, running, released, error_check, result_of, starts,
  stores, releases, Reach, begin, later, slots, in_turn,
}
use sender_report.Tasks.Schedules.{IsScheduled, Reach-IsScheduled}

abbrev age : CheckTask
age = record { name = codes "domain_age"; ran = returned (error_check (codes "a") [] ∷ []) }

abbrev links : CheckTask
links = record { name = codes "links"; ran = panicked (codes "nil map") }

abbrev both : List CheckTask
both = age ∷ links ∷ []

-- The first task has ended and the second one runs.
abbrev halfway : List Job
halfway = released age (result_of age) ∷ running links ∷ []

halfway_reached : Reach both 1 halfway
unfolding slots
halfway_reached =
    later
      (later
        (later (later begin (starts [] age (waiting links ∷ []) tt (omega arith)))
          (stores [] age (waiting links ∷ [])))
        (releases [] age (result_of age) (waiting links ∷ [])))
      (starts (released age (result_of age) ∷ []) links [] (refl, tt) (omega arith))

reported :
    in_turn both ≡ error_check (codes "a") [] ∷ error_check (codes "links") (codes "nil map") ∷ []
unfolding result_of
reported = refl

Reach-IsScheduled_example : IsScheduled both 1 halfway
Reach-IsScheduled_example = Reach-IsScheduled both 1 halfway_reached
