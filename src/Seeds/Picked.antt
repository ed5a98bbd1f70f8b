-- ===== src/Seeds/Picked.antt =====
-- Pick does not panic on providers that were validated.
use Prim.Native.Nat.{ℕ, zero, suc}
use sender_report.Base.{
  ◌<◌, ◌≡◌, refl, inl, inr, Bool, false, List, [], ◌∷◌, none, some, arith, Bool-cases, filter,
  get_elem?, length, All,
}
use sender_report.Text.{Bytes}
use sender_report.Seeds.{
  Account, Provider, SeedInfo, is_empty, check_provider, check_providers, validate, is_wanted,
  filter_providers, pick,
}

abbrev HasAccounts : Provider → Type 0
HasAccounts p = is_empty p.accounts ≡ false

check_provider-HasAccounts : (i : ℕ) (p : Provider) → check_provider i p ≡ none → HasAccounts p
unfolding check_provider
check_provider-HasAccounts i p e = ground (arith, e)

check_providers-HasAccounts :
    (i : ℕ) (ps : List Provider) → check_providers i ps ≡ none → All HasAccounts ps
unfolding check_providers
check_providers-HasAccounts i [] e = tt
check_providers-HasAccounts i (p ∷ ps) e = (
  check_provider-HasAccounts i p (ground (arith, e)),
  check_providers-HasAccounts (suc i) ps (ground (arith, e)),
)

filter-All :
    (q : Provider → Bool) (ps : List Provider) → All HasAccounts ps → All HasAccounts (filter q ps)
filter-All q [] h = tt
filter-All q (p ∷ ps) h = elim (Bool-cases (q p)) [
  | inl e ↦ rw e (h.0, filter-All q ps h.1)
  | inr e ↦ rw e (filter-All q ps h.1)
]

in_range :
    {A : Type 0} → (xs : List A) (i : ℕ) → i < length xs → (x : A) × (get_elem? xs i ≡ some x)
in_range [] i h = absurd (omega arith)
in_range (x ∷ xs) zero h = (x, refl)
in_range (x ∷ xs) (suc i) h = in_range xs i (omega arith)

-- One pair for each provider: its name, and one of its accounts with its address.
abbrev pub AreOf : List Provider → List (SeedInfo × Account) → Type 0
AreOf [] [] = Unit
AreOf [] (x ∷ xs) = ⊥
AreOf (p ∷ ps) [] = ⊥
AreOf (p ∷ ps) (x ∷ xs) =
    ((x.0.provider ≡ p.name)
      × (x.0.address ≡ x.1.user)
      × (i : ℕ) × (get_elem? p.accounts i ≡ some x.1))
    × AreOf ps xs

abbrev pub IsInBounds : (ℕ → ℕ → ℕ) → Type 0
IsInBounds rand = (i n : ℕ) → rand i (suc n) < suc n

chosen :
    (rand : ℕ → ℕ → ℕ)
    → IsInBounds rand
    → (as' : List Account) → is_empty as' ≡ false
    → (a : Account) × (get_elem? as' (rand 0 (length as')) ≡ some a)
chosen rand in_bounds [] h = absurd (cc)
chosen rand in_bounds (a ∷ as') h =
    in_range (a ∷ as') (rand 0 (suc (length as'))) (in_bounds 0 (length as'))

pick-AreOf :
    (rand : ℕ → ℕ → ℕ)
    → IsInBounds rand
    → (ps : List Provider) → All HasAccounts ps
    → (xs : List (SeedInfo × Account)) × (pick rand ps ≡ some xs) × AreOf ps xs
unfolding pick
pick-AreOf rand in_bounds [] h = ([], refl, tt)
pick-AreOf rand in_bounds (p ∷ ps) h =
    let (a, at) = chosen rand in_bounds p.accounts h.0 in
    let (xs, e, of) = pick-AreOf (λ i. rand (suc i)) (λ i n. in_bounds (suc i) n) ps h.1 in
    (
      (record { provider = p.name; address = a.user }, a) ∷ xs,
      rw (pick, at, e),
      ((refl, refl, rand 0 (length p.accounts), at), of),
    )

-- A configuration that passes the validation: whatever providers are selected and whatever
-- random numbers in their bounds come, Pick does not panic, and gives for each provider that is
-- left, in order, its name with the address of one of its accounts.
pub validated-AreOf :
    (rand : ℕ → ℕ → ℕ)
    → IsInBounds rand
    → (ps : List Provider) (selected : List Bytes) → validate ps ≡ none
    → (xs : List (SeedInfo × Account)) × (pick rand (filter_providers ps selected) ≡ some xs)
      × AreOf (filter_providers ps selected) xs
unfolding validate filter_providers
validated-AreOf rand in_bounds [] selected e = absurd (ground arith)
validated-AreOf rand in_bounds (p ∷ ps) [] e =
    pick-AreOf rand in_bounds (p ∷ ps) (check_providers-HasAccounts 0 (p ∷ ps) e)
validated-AreOf rand in_bounds (p ∷ ps) (s ∷ ss) e = pick-AreOf rand in_bounds _ (
    filter-All (λ q. is_wanted (s ∷ ss) q.name) (p ∷ ps) (check_providers-HasAccounts 0 (p ∷ ps) e))
