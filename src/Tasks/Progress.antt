-- ===== src/Tasks/Progress.antt =====
-- No state is stuck before all is released, and every step counts.
use mathlib.Core.Path.{subst}
use sender_report.Base.{
  ℕ, ◌+◌, ◌<◌, ◌≡◌, refl, sym, ap, ◌⊎◌, inl, inr, List, [], ◌∷◌, ◌++◌, arith, All,
}
use sender_report.Tasks.{
  CheckTask, FullCheck, Job, waiting, running, stored, released, held, result_of, Step, starts,
  stores, releases, IsReleased, IsStarted,
}
use sender_report.Tasks.Invariant.{work, work-append}

pub Step-work : {limit : ℕ} {s t : List Job} → Step limit s t → work t ≡ work s + 1
Step-work (starts pre t post first room) =
    omega (arith, work-append pre (waiting t ∷ post), work-append pre (running t ∷ post))
Step-work (stores pre t post) =
    omega
      (arith, work-append pre (running t ∷ post), work-append pre (stored t (result_of t) ∷ post))
Step-work (releases pre t cs post) =
    omega (arith, work-append pre (stored t cs ∷ post), work-append pre (released t cs ∷ post))

-- A step of a later part of the list, where nothing waits and no place is taken before it.
abbrev CanStep : List Job → Type 0
CanStep js =
    ((pre : List Job) × (t : CheckTask) × (post : List Job) × (js ≡ pre ++ running t ∷ post))
    ⊎ ((pre : List Job) × (t : CheckTask) × (cs : List FullCheck) × (post : List Job) × (js
          ≡ pre ++ stored t cs ∷ post))

CanStep-behind : (j : Job) (js : List Job) → CanStep js → CanStep (j ∷ js)
CanStep-behind j js (inl (pre, t, post, e)) = inl (j ∷ pre, t, post, ap (◌∷◌ j) e)
CanStep-behind j js (inr (pre, t, cs, post, e)) = inr (j ∷ pre, t, cs, post, ap (◌∷◌ j) e)

-- Some goroutine can go on, or no place is taken.
goes_on : (js : List Job) → CanStep js ⊎ (held js ≡ 0)
goes_on [] = inr refl
goes_on (waiting t ∷ js) = elim (goes_on js) [
  | inl c ↦ inl (CanStep-behind _ js c)
  | inr e ↦ inr (omega (arith, e))
]
goes_on (running t ∷ js) = inl (inl ([], t, js, refl))
goes_on (stored t cs ∷ js) = inl (inr ([], t, cs, js, refl))
goes_on (released t cs ∷ js) = elim (goes_on js) [
  | inl c ↦ inl (CanStep-behind _ js c)
  | inr e ↦ inr (omega (arith, e))
]

-- A first task that waits, or none does.
first_waiting :
    (js : List Job)
    → held js ≡ 0
    → ((pre : List Job) × (t : CheckTask) × (post : List Job) × All IsStarted pre
        × (js ≡ pre ++ waiting t ∷ post))
      ⊎ All IsReleased js
first_waiting [] h = inr tt
first_waiting (waiting t ∷ js) h = inl ([], t, js, tt, refl)
first_waiting (running t ∷ js) h = absurd (omega (arith, h))
first_waiting (stored t cs ∷ js) h = absurd (omega (arith, h))
first_waiting (released t cs ∷ js) h = elim (first_waiting js (omega (arith, h))) [
  | inl (pre, u, post, first, e) ↦
      inl (released t cs ∷ pre, u, post, (refl, first), ap (◌∷◌ (released t cs)) e)
  | inr all ↦ inr (refl, all)
]

Step-at : {limit : ℕ} {js s t : List Job} → js ≡ s → Step limit s t → Step limit js t
Step-at {limit} {js} {s} {t} e step = subst (λ u. Step limit u t) (sym e) step

can_step : (limit : ℕ) (js : List Job) → CanStep js → (t : List Job) × Step limit js t
can_step limit js (inl (pre, t, post, e)) =
    (pre ++ stored t (result_of t) ∷ post, Step-at e (stores pre t post))
can_step limit js (inr (pre, t, cs, post, e)) =
    (pre ++ released t cs ∷ post, Step-at e (releases pre t cs post))

can_start :
    (limit : ℕ) (js pre : List Job) (t : CheckTask) (post : List Job)
    → 0 < limit
    → held js ≡ 0
    → All IsStarted pre
    → js ≡ pre ++ waiting t ∷ post
    → (s : List Job) × Step limit js s
can_start limit js pre t post pos h first e =
    let room : held (pre ++ waiting t ∷ post) < limit = rw (sym e) (omega arith) in
    (pre ++ running t ∷ post, Step-at e (starts pre t post first room))

-- With a place in the semaphore, a state in which not all is released has a next one.
pub unstuck :
    (limit : ℕ) (js : List Job) → 0 < limit → All IsReleased js ⊎ ((t : List Job) × Step limit js t)
unstuck limit js pos = elim (goes_on js) [
  | inl c ↦ inr (can_step limit js c)
  | inr h ↦ elim (first_waiting js h) [
    | inl (pre, t, post, first, e) ↦ inr (can_start limit js pre t post pos h first e)
    | inr all ↦ inl all
  ]
]
