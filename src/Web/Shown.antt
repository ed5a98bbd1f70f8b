-- ===== src/Web/Shown.antt =====
-- In which order a report shows its checks, said without the comparison of the code.
use sender_report.Base.{ℕ, ◌<◌, ◌≡◌, ◌⊎◌, Bool, ◌&&◌, List, [], ◌∷◌, ◌++◌, ◌==◌, if◌then◌else◌}
use sender_report.Text.{Bytes, codes, bytes_eq}
use sender_report.Web.Checks.{ShownCheck}

-- Passed checks are last, before them the informative ones, before these the warnings; failed checks and all
-- other statuses are first.
abbrev pub stage : Bytes → ℕ
stage status =
    if bytes_eq status (codes "pass")
    then 3
    else if bytes_eq status (codes "info")
    then 2
    else if bytes_eq status (codes "warn")
    then 1
    else 0

-- The first text is the beginning of the second, or is smaller at the first byte in which they differ.
abbrev pub IsUpTo : Bytes → Bytes → Type 0
IsUpTo s t =
    ((more : Bytes) × (t ≡ s ++ more))
    ⊎ ((same : Bytes) × (c : ℕ) × (d : ℕ) × (s' : Bytes) × (t' : Bytes) × (s ≡ same ++ c ∷ s')
        × (t ≡ same ++ d ∷ t')
        × (c < d))

-- An earlier stage, or the same one and no later name.
abbrev pub Precedes : ShownCheck → ShownCheck → Type 0
Precedes c d =
    (stage c.status < stage d.status) ⊎ ((stage c.status ≡ stage d.status) × IsUpTo c.name d.name)

abbrev pub IsOrdered : List ShownCheck → Type 0
IsOrdered [] = Unit
IsOrdered (c ∷ []) = Unit
IsOrdered (c ∷ d ∷ ds) = Precedes c d × IsOrdered (d ∷ ds)

-- The checks of one stage and name.
abbrev pub is_like : ℕ → Bytes → ShownCheck → Bool
is_like n name c = stage c.status == n && bytes_eq c.name name
