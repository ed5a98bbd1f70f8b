-- ===== src/Score/Bounds.antt =====
-- How far a score can go, and how it moves with the checks.
use sender_report.Base.{
  ℕ, ◌+◌, ◌-◌, ◌≤◌, ◌≡◌, refl, sym, ◌⊎◌, inl, inr, true, not, ◌&&◌, List, [], ◌∷◌, arith, All,
}
use sender_report.Score.{
  CheckResult, Status, passes, gain_of, loss_of, gains, losses, clamp_score, essentials_all_pass,
  is_essential, is_clean, capped, score, compute_score,
}

clamp_score-le : (s : ℕ) → clamp_score s ≤ 1000
unfolding clamp_score
clamp_score-le s = ground arith

clamp_score_mono : (s t : ℕ) → s ≤ t → clamp_score s ≤ clamp_score t
unfolding clamp_score
clamp_score_mono s t h = ground arith

-- Two checks of one name: the second is worse in points, and clean only if the first is.
abbrev pub IsWorse : CheckResult → CheckResult → Type 0
IsWorse c d =
    (c.id ≡ d.id)
    × (gain_of d.score_delta + loss_of c.score_delta
        ≤ gain_of c.score_delta + loss_of d.score_delta)
    × ((is_clean d.status ≡ true) → is_clean c.status ≡ true)

abbrev pub AreWorse : List CheckResult → List CheckResult → Type 0
AreWorse [] [] = Unit
AreWorse [] (d ∷ ds) = ⊥
AreWorse (c ∷ cs) [] = ⊥
AreWorse (c ∷ cs) (d ∷ ds) = IsWorse c d × AreWorse cs ds

points_mono :
    (cs ds : List CheckResult) → AreWorse cs ds → gains ds + losses cs ≤ gains cs + losses ds
points_mono [] [] h = omega arith
points_mono [] (d ∷ ds) h = absurd h
points_mono (c ∷ cs) [] h = absurd h
points_mono (c ∷ cs) (d ∷ ds) h = omega (arith, h.0.1, points_mono cs ds h.1)

clean_mono :
    (c d : CheckResult)
    → IsWorse c d
    → (is_essential c.id && not (is_clean c.status)) ≡ true
    → (is_essential d.id && not (is_clean d.status)) ≡ true
clean_mono c d h e = rw (sym (h.0)) (ground (arith, e, h.2))

essentials_mono :
    (cs ds : List CheckResult)
    → AreWorse cs ds
    → essentials_all_pass ds ≡ true
    → essentials_all_pass cs ≡ true
unfolding essentials_all_pass
essentials_mono [] ds h e = refl
essentials_mono (c ∷ cs) [] h e = absurd h
essentials_mono (c ∷ cs) (d ∷ ds) h e =
    ground (arith, e, clean_mono c d h.0, essentials_mono cs ds h.1)

capped_mono :
    (cs ds : List CheckResult) (s t : ℕ) → AreWorse cs ds → t ≤ s → capped ds t ≤ capped cs s
capped_mono cs ds s t h le = ground (arith, essentials_mono cs ds h, le)

-- Where every check of a second list has the name of its check in the first, at most its points,
-- and passes only if that one does, the second list has no higher score.
pub score_mono : (cs ds : List CheckResult) → AreWorse cs ds → score ds ≤ score cs
unfolding score
score_mono cs ds h =
    capped_mono cs ds _ _ h (clamp_score_mono _ _ (omega (arith, points_mono cs ds h)))

-- The check passed, if it is one for SPF, DKIM, DMARC or PTR.
abbrev pub IsClean : CheckResult → Type 0
IsClean c = is_essential c.id ≡ true → c.status ≡ passes

is_clean_sound : (s : Status) → is_clean s ≡ true → s ≡ passes
is_clean_sound passes e = refl
is_clean_sound other e = ground arith

essentials_sound : (cs : List CheckResult) → essentials_all_pass cs ≡ true → All IsClean cs
unfolding essentials_all_pass
essentials_sound [] e = tt
essentials_sound (c ∷ cs) e =
    ((λ h. is_clean_sound c.status (ground (arith, e, h))), essentials_sound cs (ground (arith, e)))

capped-le : (cs : List CheckResult) (s : ℕ) → s ≤ 1000 → capped cs s ≤ 1000
capped-le cs s h = ground (arith, h)

capped_or_clean :
    (cs : List CheckResult) (s : ℕ) → (capped cs s ≤ 950) ⊎ (essentials_all_pass cs ≡ true)
capped_or_clean cs s = ground arith

-- A score is at most 1000 hundredths, and it is at most 950 or every check for SPF, DKIM, DMARC and
-- PTR in the list passed.
pub compute_score-bounds :
    (checks : List CheckResult)
    → ((compute_score checks).0 ≤ 1000) × (((compute_score checks).0 ≤ 950) ⊎ All IsClean checks)
unfolding compute_score score
compute_score-bounds checks =
    let s = clamp_score (1000 + gains checks - losses checks) in
    (
      capped-le checks s (clamp_score-le _),
      elim (capped_or_clean checks s) [ inl h ↦ inl h | inr e ↦ inr (essentials_sound checks e) ],
    )
