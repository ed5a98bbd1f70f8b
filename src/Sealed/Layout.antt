-- ===== src/Sealed/Layout.antt =====
-- The parts of a blob.
use sender_report.Base.{
  ℕ, zero, suc, ◌+◌, ◌-◌, ◌≤◌, ◌≡◌, refl, sym, ap, ◌∙◌, [], ◌∷◌, ◌++◌, arith, length, length-take,
  drop, take, length-append,
}
use sender_report.Text.{Bytes}
use sender_report.Sealed.{magic, blob_of, slice}

-- Heads of a list that is put together.
pub take_head : (xs ys : Bytes) (n : ℕ) → length xs ≡ n → take n (xs ++ ys) ≡ xs
take_head [] ys zero e = refl
take_head [] ys (suc n) e = absurd (omega arith)
take_head (x ∷ xs) ys zero e = absurd (omega arith)
take_head (x ∷ xs) ys (suc n) e = ap (◌∷◌ x) (take_head xs ys n (omega arith))

pub drop_head : (xs ys : Bytes) (n k : ℕ) → length xs ≡ n → drop (n + k) (xs ++ ys) ≡ drop k ys
drop_head [] ys zero k e = ap (λ m. drop m ys) (omega arith)
drop_head [] ys (suc n) k e = absurd (omega arith)
drop_head (x ∷ xs) ys zero k e = absurd (omega arith)
drop_head (x ∷ xs) ys (suc n) k e =
    let step : suc n + k ≡ suc (n + k) = omega arith in rw step (drop_head xs ys n k (omega arith))

pub take-drop : (n : ℕ) (xs : Bytes) → take n xs ++ drop n xs ≡ xs
take-drop zero xs = refl
take-drop (suc n) [] = refl
take-drop (suc n) (x ∷ xs) = ap (◌∷◌ x) (take-drop n xs)

pub drop-drop : (n k : ℕ) (xs : Bytes) → drop k (drop n xs) ≡ drop (n + k) xs
drop-drop zero k xs = ap (λ m. drop m xs) (omega arith)
drop-drop (suc n) zero [] = let step : suc n + 0 ≡ suc n = omega arith in rw step
drop-drop (suc n) (suc k) [] = let step : suc n + suc k ≡ suc (n + suc k) = omega arith in rw step
drop-drop (suc n) k (x ∷ xs) =
    let step : suc n + k ≡ suc (n + k) = omega arith in rw step (drop-drop n k xs)

pub length-drop : (n : ℕ) (xs : Bytes) → length (drop n xs) ≡ length xs - n
length-drop zero xs = omega arith
length-drop (suc n) [] = omega arith
length-drop (suc n) (x ∷ xs) = omega (arith, length-drop n xs)

-- A blob is read in the parts that it is made of.
pub blob_of-parts :
    (eph nonce ct : Bytes)
    → length eph ≡ 32
    → length nonce ≡ 12
    → (slice 4 32 (blob_of eph nonce ct) ≡ eph)
      × (slice 36 12 (blob_of eph nonce ct) ≡ nonce)
      × (drop 48 (blob_of eph nonce ct) ≡ ct)
blob_of-parts eph nonce ct e n =
    let after_eph : drop 32 (eph ++ (nonce ++ ct)) ≡ nonce ++ ct =
      drop_head eph (nonce ++ ct) 32 0 e in
    let after_nonce : drop 44 (eph ++ (nonce ++ ct)) ≡ ct =
      drop_head eph (nonce ++ ct) 32 12 e ∙ drop_head nonce ct 12 0 n in
    (
      take_head eph (nonce ++ ct) 32 e,
      ap (take 12) after_eph ∙ take_head nonce ct 12 n,
      after_nonce,
    )

-- A blob with the mark is made of the parts that are read, and they are as long as they have to be.
pub parts-blob_of :
    (blob : Bytes)
    → take 4 blob ≡ magic
    → 64 ≤ length blob
    → (blob ≡ blob_of (slice 4 32 blob) (slice 36 12 blob) (drop 48 blob))
      × (length (slice 4 32 blob) ≡ 32)
      × (length (slice 36 12 blob) ≡ 12)
parts-blob_of blob mark long =
    let rest = length-drop 4 blob in
    let rest' = length-drop 36 blob in
    let tail : slice 36 12 blob ++ drop 48 blob ≡ drop 36 blob =
      ap (slice 36 12 blob ++◌) (sym (drop-drop 36 12 blob)) ∙ take-drop 12 (drop 36 blob) in
    let body : slice 4 32 blob ++ drop 36 blob ≡ drop 4 blob =
      ap (slice 4 32 blob ++◌) (sym (drop-drop 4 32 blob)) ∙ take-drop 32 (drop 4 blob) in
    (
      sym (
          ap (magic ++◌) (ap (slice 4 32 blob ++◌) tail ∙ body)
          ∙ ap (◌++ drop 4 blob) (sym mark)
          ∙ take-drop 4 blob),
      length-take 32 (drop 4 blob) (omega arith),
      length-take 12 (drop 36 blob) (omega arith),
    )

pub length-blob_of :
    (eph nonce ct : Bytes)
    → length eph ≡ 32
    → length nonce ≡ 12
    → length (blob_of eph nonce ct) ≡ length ct + 48
length-blob_of eph nonce ct e n =
    omega (arith, length-append eph (nonce ++ ct), length-append nonce ct)
