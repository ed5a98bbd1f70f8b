-- ===== src/Store/Rows.antt =====
-- Lemmas on rows: what an insert, an update and a deletion do to tests, keys and references.
use sender_report.Base.{
  ◌≡◌, refl, ◌∙◌, Bool, true, false, List, [], ◌∷◌, ◌++◌, arith, Bool-cases, inl, inr, length,
  filter, All, if◌then◌else◌,
}
use sender_report.Store.Tables.{Db, ok, find_row, any_row, update_rows, delete_rows}
use sender_report.Store.Mailboxes.{affected}

pub affected_rule :
    (P : Db → Type 0) (some_row : Bool) (d' d : Db) → P d' → P d → P (affected some_row d' d).1
affected_rule P true d' d h' h = h'
affected_rule P false d' d h' h = h

module _ {ℓ} {A : Type ℓ} where
  pub any_row-append_left :
      (q : A → Bool) (xs ys : List A) → any_row q xs ≡ true → any_row q (xs ++ ys) ≡ true
  any_row-append_left q [] ys h = absurd (cc)
  any_row-append_left q (x ∷ xs) ys h = ground (arith, h, any_row-append_left q xs ys)

  pub any_row-append_none :
      (q : A → Bool) (xs : List A) (y : A)
      → any_row q xs ≡ false
      → q y ≡ false
      → any_row q (xs ++ y ∷ []) ≡ false
  any_row-append_none q [] y h k = ground (arith, k)
  any_row-append_none q (x ∷ xs) y h k =
      ground (arith, h, any_row-append_none q xs y (ground arith) k)

  pub any_row-update :
      (q p : A → Bool) (f : A → A)
      → ((x : A) → q (f x) ≡ q x)
      → (xs : List A) → any_row q (update_rows p f xs) ≡ any_row q xs
  any_row-update q p f e [] = refl
  any_row-update q p f e (x ∷ xs) = ground (arith, e x, any_row-update q p f e xs)

  pub any_row-ext :
      (p q : A → Bool) → ((x : A) → p x ≡ q x) → (xs : List A) → any_row p xs ≡ any_row q xs
  any_row-ext p q e [] = refl
  any_row-ext p q e (x ∷ xs) = ground (arith, e x, any_row-ext p q e xs)

  pub any_row-filter :
      (q p : A → Bool) (xs : List A) → any_row q xs ≡ false → any_row q (filter p xs) ≡ false
  any_row-filter q p [] h = refl
  any_row-filter q p (x ∷ xs) h = ground (arith, h, any_row-filter q p xs)

  pub any_row-none :
      (q : A → Bool) (rows : List A) → any_row q rows ≡ false → All (λ x. q x ≡ false) rows
  any_row-none q [] h = tt
  any_row-none q (x ∷ rows) h = (ground (arith, h), any_row-none q rows (ground (arith, h)))

  pub find_row-some :
      (q : A → Bool) (rows : List A) → any_row q rows ≡ true → (x : A) × (find_row q rows ≡ ok x)
  find_row-some q [] h = absurd (cc)
  find_row-some q (x ∷ rows) h = elim (Bool-cases (q x)) [
    | inl e ↦ (x, rw e refl)
    | inr e ↦ let (y, found) = find_row-some q rows (ground (arith, h, e)) in (y, rw e found)
  ]

  -- A row that is there and not deleted stays.
  pub any_row-delete :
      (q p : A → Bool) (xs : List A)
      → any_row q xs ≡ true
      → any_row q (filter p xs) ≡ false
      → any_row q (delete_rows p xs) ≡ true
  any_row-delete q p [] h k = absurd (cc)
  any_row-delete q p (x ∷ xs) h k = ground (arith, h, k, any_row-delete q p xs)

  -- An update may assume the test.
  pub update_guarded :
      (p : A → Bool) (f : A → A) (xs : List A)
      → update_rows p f xs ≡ update_rows p (λ x. if p x then f x else x) xs
  update_guarded p f [] = refl
  update_guarded p f (x ∷ xs) = ground (arith, update_guarded p f xs)

  pub length-update :
      (p : A → Bool) (f : A → A) (xs : List A) → length (update_rows p f xs) ≡ length xs
  length-update p f [] = refl
  length-update p f (x ∷ xs) = ground (arith, length-update p f xs)

module _ {ℓ κ} {A : Type ℓ} (P : A → Type κ) where
  pub All-update :
      (p : A → Bool) (f : A → A)
      → ((x : A) → P x → P (f x))
      → (xs : List A) → All P xs
      → All P (update_rows p f xs)
  All-update p f k [] h = tt
  All-update p f k (x ∷ xs) h = elim (Bool-cases (p x)) [
    | inl e ↦ rw e (k x h.0, All-update p f k xs h.1)
    | inr e ↦ rw e (h.0, All-update p f k xs h.1)
  ]

  pub All-filter : (p : A → Bool) (xs : List A) → All P xs → All P (filter p xs)
  All-filter p [] h = tt
  All-filter p (x ∷ xs) h = elim (Bool-cases (p x)) [
    | inl e ↦ rw e (h.0, All-filter p xs h.1)
    | inr e ↦ rw e (All-filter p xs h.1)
  ]

-- No two rows are the same in a key.
module _ {ℓ} {A : Type ℓ} (same : A → A → Bool) where
  abbrev pub Distinct : List A → Type 0
  Distinct [] = Unit
  Distinct (x ∷ xs) = (any_row (same x) xs ≡ false) × Distinct xs

  pub Distinct-append :
      (xs : List A) (y : A)
      → Distinct xs
      → any_row (λ x. same x y) xs ≡ false
      → Distinct (xs ++ y ∷ [])
  Distinct-append [] y h k = (refl, tt)
  Distinct-append (x ∷ xs) y h k = (
    any_row-append_none (same x) xs y h.0 (ground (arith, k)),
    Distinct-append xs y h.1 (ground (arith, k)),
  )

  pub Distinct-filter : (p : A → Bool) (xs : List A) → Distinct xs → Distinct (filter p xs)
  Distinct-filter p [] h = tt
  Distinct-filter p (x ∷ xs) h = elim (Bool-cases (p x)) [
    | inl e ↦ rw e (any_row-filter (same x) p xs h.0, Distinct-filter p xs h.1)
    | inr e ↦ rw e (Distinct-filter p xs h.1)
  ]

  pub Distinct-update :
      (p : A → Bool) (f : A → A)
      → ((x y : A) → same (f x) y ≡ same x y)
      → ((x y : A) → same x (f y) ≡ same x y)
      → (xs : List A) → Distinct xs
      → Distinct (update_rows p f xs)
  Distinct-update p f l r [] h = tt
  Distinct-update p f l r (x ∷ xs) h =
      let rest = Distinct-update p f l r xs h.1 in
      let same_x = any_row-update (same x) p f (r x) xs in
      let same_fx = any_row-update (same (f x)) p f (r (f x)) xs in
      elim (Bool-cases (p x)) [
        | inl e ↦ rw e (same_fx ∙ (any_row-ext (same (f x)) (same x) (l x) xs ∙ h.0), rest)
        | inr e ↦ rw e (same_x ∙ h.0, rest)
      ]

-- Every row of a second table refers to a row of the first.
module _ {ℓ κ} {A : Type ℓ} {B : Type κ} (refers : B → A → Bool) where
  abbrev pub Referring : List A → List B → Type 0
  Referring xs ys = All (λ y. any_row (refers y) xs ≡ true) ys

  -- A deletion that takes the referring rows along.
  pub Referring-delete :
      (p : A → Bool) (xs : List A) (ys : List B)
      → Referring xs ys
      → Referring (delete_rows p xs) (delete_rows (λ y. any_row (refers y) (filter p xs)) ys)
  Referring-delete p xs [] h = tt
  Referring-delete p xs (y ∷ ys) h = elim (Bool-cases (any_row (refers y) (filter p xs))) [
    | inl e ↦ rw e (Referring-delete p xs ys h.1)
    | inr e ↦ rw e (any_row-delete (refers y) p xs h.0 e, Referring-delete p xs ys h.1)
  ]

  pub Referring-append : (xs zs : List A) (ys : List B) → Referring xs ys → Referring (xs ++ zs) ys
  Referring-append xs zs [] h = tt
  Referring-append xs zs (y ∷ ys) h =
      (any_row-append_left (refers y) xs zs h.0, Referring-append xs zs ys h.1)

  pub Referring-update :
      (p : A → Bool) (f : A → A)
      → ((y : B) (x : A) → refers y (f x) ≡ refers y x)
      → (xs : List A) (ys : List B) → Referring xs ys
      → Referring (update_rows p f xs) ys
  Referring-update p f k xs [] h = tt
  Referring-update p f k xs (y ∷ ys) h =
      (any_row-update (refers y) p f (k y) xs ∙ h.0, Referring-update p f k xs ys h.1)
