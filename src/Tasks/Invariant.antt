-- ===== src/Tasks/Invariant.antt =====
-- What holds in every state that the goroutines reach.
use sender_report.Base.{ℕ, ◌+◌, ◌≤◌, ◌≡◌, refl, ap, ◌∙◌, List, [], ◌∷◌, ◌++◌, map, arith, All}
use sender_report.Tasks.{
  CheckTask, Job, waiting, running, stored, released, held, result_of, Step, starts, stores,
  releases, Reach, begin, later, slots,
}

abbrev pub task_of : Job → CheckTask
task_of (waiting t) = t
task_of (running t) = t
task_of (stored t cs) = t
task_of (released t cs) = t

-- What is stored is the task's result.
abbrev pub IsTrue : Job → Type 0
IsTrue (waiting t) = Unit
IsTrue (running t) = Unit
IsTrue (stored t cs) = cs ≡ result_of t
IsTrue (released t cs) = cs ≡ result_of t

-- Steps that a job has taken.
abbrev pub taken : Job → ℕ
taken (waiting t) = 0
taken (running t) = 1
taken (stored t cs) = 2
taken (released t cs) = 3

abbrev pub work : List Job → ℕ
work [] = 0
work (j ∷ js) = taken j + work js

-- One job in the middle of a list is exchanged.
pub All-exchange :
    (P : Job → Type 0) (pre : List Job) (j k : Job) (post : List Job)
    → (P j → P k)
    → All P (pre ++ j ∷ post)
    → All P (pre ++ k ∷ post)
All-exchange P [] j k post f h = (f h.0, h.1)
All-exchange P (x ∷ pre) j k post f h = (h.0, All-exchange P pre j k post f h.1)

map-exchange :
    (pre : List Job) (j k : Job) (post : List Job)
    → task_of k ≡ task_of j
    → map task_of (pre ++ k ∷ post) ≡ map task_of (pre ++ j ∷ post)
map-exchange [] j k post e = rw e
map-exchange (x ∷ pre) j k post e = ap (◌∷◌ (task_of x)) (map-exchange pre j k post e)

pub held-append : (xs ys : List Job) → held (xs ++ ys) ≡ held xs + held ys
held-append [] ys = omega arith
held-append (x ∷ xs) ys = omega (arith, held-append xs ys)

pub work-append : (xs ys : List Job) → work (xs ++ ys) ≡ work xs + work ys
work-append [] ys = omega arith
work-append (x ∷ xs) ys = omega (arith, work-append xs ys)

pub record IsKept (tasks : List CheckTask) (limit : ℕ) (s : List Job) : Type 0 where
  pub same_tasks : map task_of s ≡ tasks
  pub truths : All IsTrue s
  pub bounded : held s ≤ limit

pub Step-IsKept :
    {limit : ℕ} {s t : List Job} (tasks : List CheckTask)
    → Step limit s t
    → IsKept tasks limit s
    → IsKept tasks limit t
Step-IsKept tasks (starts pre t post first room) k = record {
  same_tasks = map-exchange pre (waiting t) (running t) post refl ∙ k.same_tasks;
  truths = All-exchange IsTrue pre (waiting t) (running t) post (λ h. h) k.truths;
  bounded =
      omega (arith, held-append pre (waiting t ∷ post), held-append pre (running t ∷ post), room);
}
Step-IsKept tasks (stores pre t post) k = record {
  same_tasks = map-exchange pre (running t) (stored t (result_of t)) post refl ∙ k.same_tasks;
  truths = All-exchange IsTrue pre (running t) (stored t (result_of t)) post (λ h. refl) k.truths;
  bounded = omega (
    arith,
    held-append pre (running t ∷ post),
    held-append pre (stored t (result_of t) ∷ post),
    k.bounded,
  );
}
Step-IsKept tasks (releases pre t cs post) k = record {
  same_tasks = map-exchange pre (stored t cs) (released t cs) post refl ∙ k.same_tasks;
  truths = All-exchange IsTrue pre (stored t cs) (released t cs) post (λ h. h) k.truths;
  bounded = omega (
    arith,
    held-append pre (stored t cs ∷ post),
    held-append pre (released t cs ∷ post),
    k.bounded,
  );
}

start-tasks : (tasks : List CheckTask) → map task_of (map waiting tasks) ≡ tasks
start-tasks [] = refl
start-tasks (t ∷ ts) = ap (◌∷◌ t) (start-tasks ts)

start-IsTrue : (tasks : List CheckTask) → All IsTrue (map waiting tasks)
start-IsTrue [] = tt
start-IsTrue (t ∷ ts) = (tt, start-IsTrue ts)

held-start : (tasks : List CheckTask) → held (map waiting tasks) ≡ 0
held-start [] = refl
held-start (t ∷ ts) = omega (arith, held-start ts)

pub Reach-IsKept :
    (tasks : List CheckTask) (limit : ℕ) {s : List Job}
    → Reach tasks limit s
    → IsKept tasks (slots limit) s
Reach-IsKept tasks limit begin = record {
  same_tasks = start-tasks tasks;
  truths = start-IsTrue tasks;
  bounded = omega (arith, held-start tasks);
}
Reach-IsKept tasks limit (later r step) = Step-IsKept tasks step (Reach-IsKept tasks limit r)
