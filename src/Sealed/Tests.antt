-- ===== src/Sealed/Tests.antt =====
-- A small stand-in for the libraries that keeps their laws, and blobs of it.
use sender_report.Base.{
  ℕ, zero, suc, ◌+◌, ◌≡◌, refl, sym, ap, ◌∙◌, inl, inr, Option, none, some, [], ◌∷◌, ◌++◌, arith,
  if◌then◌else◌, Bool-cases, length, drop, take,
}
use sender_report.Text.{Bytes, codes, bytes_eq, bytes_eq_sound}
use sender_report.Sealed.{
  Crypto, Gcm, HasLaws, done, failed, seal, open_blob, open_parts, derive_key, blob_of, bad_blob,
  generate_key_pair,
}
use sender_report.Sealed.Layout.{take-drop}
use sender_report.Sealed.Opening.{open_blob-seal}

abbrev pub first : Bytes → ℕ
first [] = 0
first (x ∷ xs) = x

abbrev pub copies : ℕ → ℕ → Bytes
copies zero x = []
copies (suc n) x = x ∷ copies n x

abbrev pub added : Bytes → Bytes → Option Bytes
added a b = some (copies 32 (first a + first b))

abbrev pub tag : Bytes
tag = copies 16 0

abbrev pub small_gcm : Gcm
small_gcm = record {
  seal_text = λ nonce plain extra. tag ++ plain;
  open_text = λ nonce ct extra. if bytes_eq (take 16 ct) tag then some (drop 16 ct) else none;
}

abbrev pub small_crypto : Crypto
small_crypto = record {
  x25519 = added;
  base_point = copies 32 0;
  hkdf = λ secret salt info. some (copies 32 (first secret));
  new_gcm = λ key. some small_gcm;
  sha256 = λ s. s;
  base32 = λ s. s;
}

some_same {ℓ} : {A : Type ℓ} (a b : A) → some a ≡ some b → a ≡ b
some_same a b e = cc

small-agree :
    (a b a_public b_public : Bytes)
    → added a (copies 32 0) ≡ some a_public
    → added b (copies 32 0) ≡ some b_public
    → added a b_public ≡ added b a_public
small-agree a b a_public b_public e f =
    let sum : first a + (first b + 0) ≡ first b + (first a + 0) = omega arith in
    rw (sym (some_same _ _ e), sym (some_same _ _ f), sum)

small-sealed : (ct plain : Bytes) → small_gcm.open_text [] ct [] ≡ some plain → ct ≡ tag ++ plain
small-sealed ct plain e = elim (Bool-cases (bytes_eq (take 16 ct) tag)) [
  | inl same ↦
      let mark : take 16 ct ≡ tag = bytes_eq_sound _ tag same in
      let rest : drop 16 ct ≡ plain = ground (arith, e, same) in
      sym (take-drop 16 ct) ∙ rw (mark, rest)
  | inr other ↦ absurd (ground (arith, e, other))
]

pub small_laws : HasLaws small_crypto
small_laws = record {
  base_length = λ secret public e. ap length (sym (some_same _ _ e));
  agree = small-agree;
  hkdf_reads = λ secret salt info. (copies 32 (first secret), refl, refl);
  gcm_for = λ key size. (small_gcm, refl);
  seal_length = λ key g nonce plain extra e. rw (sym (some_same _ _ e)) (omega arith);
  opens_sealed = λ key g nonce plain extra e size. rw (sym (some_same _ _ e)) refl;
  sealed_only = λ key g nonce ct plain extra e size opened. rw (sym (some_same _ _ e)) (
      small-sealed ct plain
        (ap (λ h. h.open_text nonce ct extra) (some_same small_gcm g e) ∙ opened));
}

opened :
    open_blob small_crypto (blob_of (copies 32 3) (copies 12 9) (tag ++ codes "hi")) (copies 32 5)
    ≡ done (codes "hi")
unfolding open_blob open_parts derive_key
opened = refl

too_short : open_blob small_crypto (codes "MPE1") (copies 32 5) ≡ failed bad_blob
unfolding open_blob
too_short = refl

pair :
    generate_key_pair small_crypto (some (copies 32 5))
    ≡ done (record { secret = copies 32 5; public = copies 32 5 })
unfolding generate_key_pair
pair = refl

open_blob-seal_example :
    (blob : Bytes) × (seal small_crypto
        (codes "hi")
        (copies 32 5)
        (some (copies 32 3))
        (some (copies 12 9))
      ≡ done blob)
    × (length blob ≡ length (codes "hi") + 64)
    × (open_blob small_crypto blob (copies 32 5) ≡ done (codes "hi"))
open_blob-seal_example =
    open_blob-seal small_crypto small_laws (codes "hi") (copies 32 5) (copies 32 5) (copies 32 3)
      (copies 12 9) (copies 32 3) (copies 32 8) refl refl refl refl refl refl
