-- ===== src/Tasks/Schedules.antt =====
-- Every schedule of the goroutines ends with the results of the tasks one after the other.
use mathlib.Core.Path.{subst}
use sender_report.Base.{
  ℕ, ◌+◌, ◌*◌, ◌≤◌, ◌<◌, ◌≡◌, refl, ap, ◌∙◌, ◌⊎◌, List, [], ◌∷◌, ◌++◌, map, arith, length, All,
}
use sender_report.Tasks.{
  CheckTask, Job, waiting, running, stored, released, held, Step, Reach, slots, IsReleased,
  collected, in_turn,
}
use sender_report.Tasks.Invariant.{IsTrue, Reach-IsKept, task_of, taken, work}
use sender_report.Tasks.Progress.{Step-work, unstuck}

-- In a state that is reached, no more places are taken than there are; another step can be taken
-- unless all is released, each step adds one to a count that is at most three for each task;
-- and once all is released, what is collected is the results of the tasks in their order.
pub record IsScheduled (tasks : List CheckTask) (limit : ℕ) (s : List Job) : Type 0 where
  pub bounded : held s ≤ slots limit
  pub goes_on : All IsReleased s ⊎ ((t : List Job) × Step (slots limit) s t)
  pub counts : (t : List Job) → Step (slots limit) s t → work t ≡ work s + 1
  pub ends : work s ≤ 3 * length tasks
  pub same : All IsReleased s → collected s ≡ in_turn tasks

taken-le : (j : Job) → taken j ≤ 3
taken-le (waiting t) = omega arith
taken-le (running t) = omega arith
taken-le (stored t cs) = omega arith
taken-le (released t cs) = omega arith

work-le : (s : List Job) → work s ≤ 3 * length (map task_of s)
work-le [] = omega arith
work-le (j ∷ s) = omega (arith, taken-le j, work-le s)

collected-released :
    (s : List Job) → All IsReleased s → All IsTrue s → collected s ≡ in_turn (map task_of s)
collected-released [] h k = refl
collected-released (waiting t ∷ s) h k = absurd (cc (h.0))
collected-released (running t ∷ s) h k = absurd (cc (h.0))
collected-released (stored t cs ∷ s) h k = absurd (cc (h.0))
collected-released (released t cs ∷ s) h k =
    rw (collected-released s h.1 k.1) (ap (◌++ in_turn (map task_of s)) k.0)

slots-positive : (limit : ℕ) → 0 < slots limit
unfolding slots
slots-positive limit = ground arith

-- Whatever the order in which the goroutines take their steps, the semaphore's bound is kept, no state is stuck,
-- every run ends after at most three steps for each task, and the results are those of
-- the tasks run one after the other.
pub Reach-IsScheduled :
    (tasks : List CheckTask) (limit : ℕ) {s : List Job}
    → Reach tasks limit s
    → IsScheduled tasks limit s
Reach-IsScheduled tasks limit {s} r =
    let k = Reach-IsKept tasks limit r in
    record {
      bounded = k.bounded;
      goes_on = unstuck (slots limit) s (slots-positive limit);
      counts = λ t step. Step-work step;
      ends = subst (λ ts. work s ≤ 3 * length ts) k.same_tasks (work-le s);
      same = λ h. collected-released s h k.truths ∙ ap in_turn k.same_tasks;
    }
