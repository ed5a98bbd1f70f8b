-- ===== src/Fallback/Source.antt =====
-- Whose answer LookupTXTSource gives.
use Prim.Native.Nat.{ℕ, zero, suc}
use sender_report.Base.{
  ◌+◌, ◌<◌, ◌≡◌, refl, sym, ap, ◌∙◌, ◌⊎◌, inl, inr, Bool, true, false, List, [], ◌∷◌, none, some,
  arith, Bool-cases, get_elem?,
}
use sender_report.Text.{Bytes}
use sender_report.Dns.{Reply}
use sender_report.Fallback.{
  Fallback, Sourced, has_records, answered, local_reply, ask_resolvers, lookup_txt_source,
}

module _ (ask : Bytes → Reply Bytes) (ended : ℕ → Bool) (here : Reply Bytes) where
  -- The resolver before the k-th is asked in time and has no records.
  abbrev IsSilent : ℕ → List Bytes → ℕ → Type 0
  IsSilent i as' k =
      (j : ℕ)
      → j < k
      → (ended (i + j) ≡ false)
        × ((a : Bytes) → get_elem? as' j ≡ some a → has_records (ask a) ≡ false)

  -- The answer of the k-th resolver, the first to have records, or the local reply where the list
  -- or the time is over before one has.
  abbrev pub IsFirst : ℕ → List Bytes → Sourced → Type 0
  IsFirst i as' r =
      (k : ℕ) × IsSilent i as' k
      × (((a : Bytes) × (get_elem? as' k ≡ some a)
            × (ended (i + k) ≡ false)
            × (has_records (ask a) ≡ true)
            × (r ≡ answered a (ask a)))
          ⊎ (((get_elem? as' k ≡ none) ⊎ (ended (i + k) ≡ true)) × (r ≡ local_reply here)))

  here_at : (i : ℕ) (b : Bool) → ended i ≡ b → ended (i + 0) ≡ b
  here_at i b e = ap ended (omega arith) ∙ e

  next_at : (i j : ℕ) (b : Bool) → ended (suc i + j) ≡ b → ended (i + suc j) ≡ b
  next_at i j b e = ap ended (omega arith) ∙ e

  none_yet : (i : ℕ) (as' : List Bytes) → IsSilent i as' 0
  none_yet i as' j h = absurd (omega arith)

  one_more :
      (i : ℕ) (a : Bytes) (as' : List Bytes) (k : ℕ)
      → ended i ≡ false
      → has_records (ask a) ≡ false
      → IsSilent (suc i) as' k
      → IsSilent i (a ∷ as') (suc k)
  one_more i a as' k e h s zero lt =
      (here_at i false e, λ x at. let same : a ≡ x = ground arith in rw (sym same) h)
  one_more i a as' k e h s (suc j) lt =
      let (late, quiet) = s j (omega arith) in (next_at i j false late, quiet)

  later-IsFirst :
      (i : ℕ) (a : Bytes) (as' : List Bytes) (r : Sourced)
      → ended i ≡ false
      → has_records (ask a) ≡ false
      → IsFirst (suc i) as' r
      → IsFirst i (a ∷ as') r
  later-IsFirst i a as' r e h (k, s, inl (x, at, t, y, q)) =
      (suc k, one_more i a as' k e h s, inl (x, at, next_at i k false t, y, q))
  later-IsFirst i a as' r e h (k, s, inr (inl at, q)) =
      (suc k, one_more i a as' k e h s, inr (inl at, q))
  later-IsFirst i a as' r e h (k, s, inr (inr t, q)) =
      (suc k, one_more i a as' k e h s, inr (inr (next_at i k true t), q))

  ask_resolvers-IsFirst :
      (i : ℕ) (as' : List Bytes) → IsFirst i as' (ask_resolvers ask ended here i as')
  unfolding ask_resolvers
  ask_resolvers-IsFirst i [] = (0, none_yet i [], inr (inl refl, refl))
  ask_resolvers-IsFirst i (a ∷ as') = elim (Bool-cases (ended i)) [
    | inl e ↦ (0, none_yet i (a ∷ as'), inr (inr (here_at i true e), rw e))
    | inr e ↦ elim (Bool-cases (has_records (ask a))) [
      | inl h ↦ (0, none_yet i (a ∷ as'), inl (a, refl, here_at i false e, h, rw (e, h)))
      | inr h ↦
          let step = ask_resolvers-IsFirst (suc i) as' in
          later-IsFirst i a as' _ e h (rw (e, h) step)
    ]
  ]

  -- The local reply stands if it has records. Otherwise the first resolver that has records and is
  -- asked in time answers, with its address and no error; without one, the local reply stands
  -- with its own error.
  pub lookup_txt_source-IsFirst :
      (f : Fallback)
      → ((has_records here ≡ true) × (lookup_txt_source ask ended here f ≡ answered [] here))
        ⊎ ((has_records here ≡ false)
            × IsFirst 0 (f.resolvers) (lookup_txt_source ask ended here f))
  unfolding lookup_txt_source
  lookup_txt_source-IsFirst f = elim (Bool-cases (has_records here)) [
    | inl h ↦ inl (h, rw h)
    | inr h ↦ inr (h, rw h (ask_resolvers-IsFirst 0 (f.resolvers)))
  ]
