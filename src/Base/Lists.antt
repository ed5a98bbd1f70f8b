-- ===== src/Base/Lists.antt =====
-- Lists measured and indexed by native numbers, and filtered by a Boolean test.
use Prim.Native.Nat.{ℕ, zero, suc, ◌+◌, ◌-◌, ◌≤◌}
use mathlib.Core.Path.{◌≡◌, refl, ap}
use mathlib.Core.Bool.{Bool, true}
use mathlib.Core.List.{List, [], ◌∷◌, ◌++◌}
use mathlib.Core.Option.{Option, none, some}
use native.Mathlib.Omega.{arith}
use sender_report.Base.Tests.{if◌then◌else◌}

module _ {ℓ} {A : Type ℓ} where
  abbrev pub length : List A → ℕ
  length [] = 0
  length (x ∷ xs) = suc (length xs)

  abbrev pub get_elem? : List A → ℕ → Option A
  get_elem? [] i = none
  get_elem? (x ∷ xs) zero = some x
  get_elem? (x ∷ xs) (suc i) = get_elem? xs i

  abbrev pub drop : ℕ → List A → List A
  drop zero xs = xs
  drop (suc n) [] = []
  drop (suc n) (x ∷ xs) = drop n xs

  abbrev pub take : ℕ → List A → List A
  take zero xs = []
  take (suc n) [] = []
  take (suc n) (x ∷ xs) = x ∷ take n xs

  -- The elements that pass a test, in order.
  abbrev pub filter : (A → Bool) → List A → List A
  filter p [] = []
  filter p (x ∷ xs) = let rest = filter p xs in if p x then x ∷ rest else rest

  pub take-append :
      (n : ℕ) (xs ys : List A) → take n (xs ++ ys) ≡ take n xs ++ take (n - length xs) ys
  take-append zero xs ys = let e : 0 - length xs ≡ 0 = omega arith in rw e
  take-append (suc n) [] ys = let e : suc n - 0 ≡ suc n = omega arith in rw e
  take-append (suc n) (x ∷ xs) ys =
      let e : suc n - suc (length xs) ≡ n - length xs = omega arith in
      rw e (ap (◌∷◌ x) (take-append n xs ys))

  pub take_all : (n : ℕ) (xs : List A) → length xs ≤ n → take n xs ≡ xs
  take_all zero [] h = refl
  take_all zero (x ∷ xs) h = absurd (omega arith)
  take_all (suc n) [] h = refl
  take_all (suc n) (x ∷ xs) h = ap (◌∷◌ x) (take_all n xs (omega arith))

  pub length-take : (n : ℕ) (xs : List A) → n ≤ length xs → length (take n xs) ≡ n
  length-take zero xs h = refl
  length-take (suc n) [] h = absurd (omega arith)
  length-take (suc n) (x ∷ xs) h = ap suc (length-take n xs (omega arith))

  pub length-take_same :
      (n : ℕ) (xs ys : List A) → length xs ≡ length ys → length (take n xs) ≡ length (take n ys)
  length-take_same zero xs ys h = refl
  length-take_same (suc n) [] [] h = refl
  length-take_same (suc n) [] (y ∷ ys) h = absurd (omega arith)
  length-take_same (suc n) (x ∷ xs) [] h = absurd (omega arith)
  length-take_same (suc n) (x ∷ xs) (y ∷ ys) h = ap suc (length-take_same n xs ys (omega arith))

  -- Lists with heads of one length are equal in parts.
  pub append-injective :
      (xs ys us vs : List A) → length xs ≡ length us → xs ++ ys ≡ us ++ vs → (xs ≡ us) × (ys ≡ vs)
  append-injective [] ys [] vs h e = (refl, e)
  append-injective [] ys (u ∷ us) vs h e = absurd (omega arith)
  append-injective (x ∷ xs) ys [] vs h e = absurd (omega arith)
  append-injective (x ∷ xs) ys (u ∷ us) vs h e =
      let rest = append-injective xs ys us vs (omega arith) (cc) in (cc (rest.0), rest.1)

  pub length-append : (xs ys : List A) → length (xs ++ ys) ≡ length xs + length ys
  length-append [] ys = omega arith
  length-append (x ∷ xs) ys = omega (arith, length-append xs ys)

module _ {ℓ} {A : Type ℓ} where
  pub length-filter-le : (p : A → Bool) (xs : List A) → length (filter p xs) ≤ length xs
  length-filter-le p [] = omega arith
  length-filter-le p (x ∷ xs) = ground (arith, length-filter-le p xs)

  pub filter-append :
      (p : A → Bool) (xs ys : List A) → filter p (xs ++ ys) ≡ filter p xs ++ filter p ys
  filter-append p [] ys = refl
  filter-append p (x ∷ xs) ys = ground (arith, filter-append p xs ys)

  -- A test that implies another one sees through it.
  pub filter-filter :
      (p q : A → Bool)
      → ((x : A) → p x ≡ true → q x ≡ true)
      → (xs : List A) → filter p (filter q xs) ≡ filter p xs
  filter-filter p q imp [] = refl
  filter-filter p q imp (x ∷ xs) = ground (arith, imp x, filter-filter p q imp xs)

  pub length-filter_mono :
      (p q : A → Bool)
      → ((x : A) → p x ≡ true → q x ≡ true)
      → (xs : List A) → length (filter p xs) ≤ length (filter q xs)
  length-filter_mono p q imp [] = omega arith
  length-filter_mono p q imp (x ∷ xs) = ground (arith, imp x, length-filter_mono p q imp xs)
