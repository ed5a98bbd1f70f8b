-- ===== src/Score/Tests.antt =====
-- Scores of concrete checks.
use sender_report.Base.{◌≤◌, ◌≡◌, ◌⊎◌, refl, false, [], ◌∷◌, map, All, arith}
use sender_report.Text.{codes}
use sender_report.Score.{
  CheckResult, passes, fails, informs, gain, loss, excellent, good, check_importance, score_for,
  enrich_delta, clamp_score, essentials_all_pass, assign_label, score, compute_score,
}
use sender_report.Score.Bounds.{IsClean, score_mono, compute_score-bounds}

abbrev spf_passes : CheckResult
spf_passes = record { id = codes "spf"; status = passes; score_delta = gain 30 }

abbrev spf_fails : CheckResult
spf_fails = record { id = codes "spf"; status = fails; score_delta = loss 140 }

abbrev ptr_unsure : CheckResult
ptr_unsure = record { id = codes "ptr"; status = informs; score_delta = loss 0 }

abbrev not_listed : CheckResult
not_listed = record { id = codes "rbl"; status = passes; score_delta = gain 10 }

-- A pass earns nothing, a failed critical check costs 2.6 points.
shares :
    map (enrich_delta false) (spf_passes ∷ spf_fails ∷ not_listed ∷ [])
    ≡ record spf_passes { score_delta = loss 0 }
      ∷ record spf_fails { score_delta = loss 260 }
      ∷ not_listed
      ∷ []
unfolding enrich_delta check_importance score_for
shares = refl

-- An unconfirmed reverse name takes the perfect score away.
held_back : compute_score (spf_passes ∷ ptr_unsure ∷ []) ≡ (950, excellent)
unfolding compute_score score clamp_score essentials_all_pass assign_label
held_back = refl

-- A listing that was asked for and not found makes up for a tenth of a point.
made_up :
    compute_score (record spf_fails { score_delta = loss 260 } ∷ not_listed ∷ []) ≡ (750, good)
unfolding compute_score score clamp_score essentials_all_pass assign_label
made_up = refl

score_mono_example : score (spf_fails ∷ not_listed ∷ []) ≤ score (spf_passes ∷ not_listed ∷ [])
score_mono_example =
    score_mono (spf_passes ∷ not_listed ∷ []) (spf_fails ∷ not_listed ∷ [])
      ((refl, omega arith, λ e. refl), ((refl, omega arith, λ e. e), tt))

compute_score-bounds_example :
    ((compute_score (spf_passes ∷ ptr_unsure ∷ [])).0 ≤ 1000)
    × (((compute_score (spf_passes ∷ ptr_unsure ∷ [])).0 ≤ 950)
        ⊎ All IsClean (spf_passes ∷ ptr_unsure ∷ []))
compute_score-bounds_example = compute_score-bounds (spf_passes ∷ ptr_unsure ∷ [])
