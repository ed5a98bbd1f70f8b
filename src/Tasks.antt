-- ===== src/Tasks.antt =====
-- runChecksConcurrently of internal/analyzer/analyzer.go: the goroutines of the network checks as jobs that
-- take their steps in any order, with the semaphore that bounds them.
pub mod Invariant
pub mod Progress
pub mod Schedules
mod Tests
use sender_report.Base.{
  ℕ, zero, suc, ◌+◌, ◌-◌, ◌*◌, ◌/◌, ◌%◌, ◌≤◌, ◌<◌, ◌≡◌, refl, sym, ap, ◌∙◌, ◌≢◌, ◌↔◌, ◌⊎◌, inl, inr,
  Bool, true, false, not, ◌&&◌, ◌||◌, Option, none, some, List, [], ◌∷◌, ◌++◌, map, append-nil,
  append_assoc, arith, ltb, leb, ◌==◌, if◌then◌else◌, ltb→lt, lt→ltb, leb→le, ==_iff, Bool-cases,
  Option-cases, length, drop, take, filter, length-append, All, All-append, All-mono,
}
use sender_report.Text.{Bytes, codes}
use sender_report.Score.{Delta, gain}

-- `rest` stands for the fields of a check that the runner leaves empty.
pub record FullCheck : Type 0 where
  pub id : Bytes
  pub name : Bytes
  pub status : Bytes
  pub score_delta : Delta
  pub summary : Bytes
  pub details : List (Bytes × Bytes)
  pub category : Bytes
  pub rest : Bytes

unfoldable pub error_check : Bytes → Bytes → FullCheck
error_check id msg = record {
  id = id;
  name = codes "Prüfung nicht abgeschlossen";
  status = codes "info";
  score_delta = gain 0;
  summary = codes "Diese Prüfung konnte intern nicht abgeschlossen werden und wurde übersprungen.";
  details = (codes "error", msg) ∷ [];
  category = codes "Header und Rohdaten";
  rest = [];
}

-- What a call of a check's function does.
pub data Ran : Type 0 where
  returned : List FullCheck → Ran
  panicked : Bytes → Ran

pub record CheckTask : Type 0 where
  pub name : Bytes
  pub ran : Ran

-- A panic is recovered to a check that tells of it.
abbrev pub recovered : Bytes → Ran → List FullCheck
recovered name (returned cs) = cs
recovered name (panicked msg) = error_check name msg ∷ []

unfoldable pub result_of : CheckTask → List FullCheck
result_of t = recovered t.name t.ran

-- A task before its goroutine starts, in it, with its results stored, and with its place in the
-- semaphore given back.
pub data Job : Type 0 where
  waiting running : CheckTask → Job
  stored released : CheckTask → List FullCheck → Job

abbrev pub held_by : Job → ℕ
held_by (waiting t) = 0
held_by (running t) = 1
held_by (stored t cs) = 1
held_by (released t cs) = 0

-- The places of the semaphore that are taken.
abbrev pub held : List Job → ℕ
held [] = 0
held (j ∷ js) = held_by j + held js

abbrev pub is_waiting : Job → Bool
is_waiting (waiting t) = true
is_waiting (running t) = false
is_waiting (stored t cs) = false
is_waiting (released t cs) = false

abbrev pub is_released : Job → Bool
is_released (waiting t) = false
is_released (running t) = false
is_released (stored t cs) = false
is_released (released t cs) = true

abbrev pub IsReleased : Job → Type 0
IsReleased j = is_released j ≡ true

abbrev pub IsStarted : Job → Type 0
IsStarted j = is_waiting j ≡ false

-- The loop starts the first task that waits once a place is free; each goroutine stores its results
-- and then gives its place back.
pub data Step (limit : ℕ) : List Job → List Job → Type 0 where
  starts :
      (pre : List Job) (t : CheckTask) (post : List Job)
      → All IsStarted pre
      → held (pre ++ waiting t ∷ post) < limit
      → Step limit (pre ++ waiting t ∷ post) (pre ++ running t ∷ post)
  stores :
      (pre : List Job) (t : CheckTask) (post : List Job)
      → Step limit (pre ++ running t ∷ post) (pre ++ stored t (result_of t) ∷ post)
  releases :
      (pre : List Job) (t : CheckTask) (cs : List FullCheck) (post : List Job)
      → Step limit (pre ++ stored t cs ∷ post) (pre ++ released t cs ∷ post)

-- A limit that is not positive is 8.
unfoldable pub slots : ℕ → ℕ
slots limit = if leb limit 0 then 8 else limit

pub data Reach (tasks : List CheckTask) (limit : ℕ) : List Job → Type 0 where
  begin : Reach tasks limit (map waiting tasks)
  later : {s t : List Job} → Reach tasks limit s → Step (slots limit) s t → Reach tasks limit t

abbrev pub results_in : Job → List FullCheck
results_in (waiting t) = []
results_in (running t) = []
results_in (stored t cs) = cs
results_in (released t cs) = cs

-- The results in the order of the tasks.
abbrev pub collected : List Job → List FullCheck
collected [] = []
collected (j ∷ js) = results_in j ++ collected js

-- One task after the other.
abbrev pub in_turn : List CheckTask → List FullCheck
in_turn [] = []
in_turn (t ∷ ts) = result_of t ++ in_turn ts
