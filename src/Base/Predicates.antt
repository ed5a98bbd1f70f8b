-- ===== src/Base/Predicates.antt =====
-- Predicates that hold of every element of a list, by recursion.
use mathlib.Core.List.{List, [], ◌∷◌, ◌++◌}

module _ {ℓ κ} {A : Type ℓ} (P : A → Type κ) where
  abbrev pub All : List A → Type κ
  All [] = Unit
  All (x ∷ xs) = P x × All xs

  pub All-append : (xs ys : List A) → All xs → All ys → All (xs ++ ys)
  All-append [] ys hx hy = hy
  All-append (x ∷ xs) ys hx hy = (hx.0, All-append xs ys hx.1 hy)

module _ {ℓ κ μ} {A : Type ℓ} (P : A → Type κ) (Q : A → Type μ) where
  pub All-mono : ((x : A) → P x → Q x) → (xs : List A) → All P xs → All Q xs
  All-mono f [] h = tt
  All-mono f (x ∷ xs) h = (f x h.0, All-mono f xs h.1)

  pub All-both : (xs : List A) → All P xs → All Q xs → All (λ x. P x × Q x) xs
  All-both [] hp hq = tt
  All-both (x ∷ xs) hp hq = ((hp.0, hq.0), All-both xs hp.1 hq.1)
