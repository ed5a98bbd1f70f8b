-- ===== src/Sealed/Opening.antt =====
-- What Open gives for a blob of Seal, and which blobs it opens.
use sender_report.Base.{
  ◌+◌, ◌≤◌, ◌≡◌, refl, ap, ◌∙◌, true, false, Option, none, some, ◌++◌, arith, ltb, length, drop,
  take,
}
use sender_report.Text.{Bytes, bytes_eq, bytes_eq_sound}
use sender_report.Sealed.{
  Crypto, Gcm, HasLaws, Outcome, done, from_library, derive_key, seal, seal_with_ephemeral,
  open_blob, open_parts, hkdf_info, open_result, blob_of, slice, magic,
}
use sender_report.Sealed.Layout.{blob_of-parts, parts-blob_of, length-blob_of}

pub from_library-done {ℓ κ} :
    {A : Type ℓ} {B : Type κ} (o : Option A) (next : A → Outcome B) (b : B)
    → from_library o next ≡ done b
    → (a : A) × (o ≡ some a) × (next a ≡ done b)
from_library-done none next b e = absurd (cc)
from_library-done (some a) next b e = (a, refl, e)

open_result-done : (o : Option Bytes) (plain : Bytes) → open_result o ≡ done plain → o ≡ some plain
open_result-done none plain e = absurd (cc)
open_result-done (some p) plain e = cc

-- A derived key with its AEAD.
pub record KeyFor (crypto : Crypto) (secret eph : Bytes) (g : Gcm) : Type 0 where
  pub public : Bytes
  pub shared : Bytes
  pub key : Bytes
  pub own : crypto.x25519 secret crypto.base_point ≡ some public
  pub joint : crypto.x25519 secret eph ≡ some shared
  pub derived : derive_key crypto shared eph public ≡ some key
  pub aead : crypto.new_gcm key ≡ some g

module _ (crypto : Crypto) (laws : HasLaws crypto) where
  open_parts-seal :
      (plain secret public eph_secret nonce eph shared : Bytes)
      → crypto.x25519 secret crypto.base_point ≡ some public
      → crypto.x25519 eph_secret crypto.base_point ≡ some eph
      → crypto.x25519 eph_secret public ≡ some shared
      → length nonce ≡ 12
      → length eph_secret ≡ 32
      → (ct : Bytes) × (seal crypto plain public (some eph_secret) (some nonce)
          ≡ done (blob_of eph nonce ct))
        × (length ct ≡ length plain + 16)
        × (open_parts crypto eph nonce ct secret ≡ done plain)
  unfolding seal seal_with_ephemeral open_parts derive_key
  open_parts-seal plain secret public eph_secret nonce eph shared own other joint n m =
      let (key, reads, size) = laws.hkdf_reads shared (eph ++ public) hkdf_info in
      let (g, gcm) = laws.gcm_for key size in
      let same = laws.agree secret eph_secret public eph own other ∙ joint in
      let sizes = laws.base_length secret public own in
      (
        g.seal_text nonce plain eph,
        rw (sizes, m, other, joint, reads, gcm),
        laws.seal_length key g nonce plain eph gcm,
        rw (own, same, reads, gcm, laws.opens_sealed key g nonce plain eph gcm n),
      )

  pub open_blob-blob_of :
      (eph nonce ct secret : Bytes)
      → length eph ≡ 32
      → length nonce ≡ 12
      → length secret ≡ 32
      → 16 ≤ length ct
      → open_blob crypto (blob_of eph nonce ct) secret ≡ open_parts crypto eph nonce ct secret
  unfolding open_blob
  open_blob-blob_of eph nonce ct secret e n s long =
      let (at_eph, at_nonce, at_ct) = blob_of-parts eph nonce ct e n in
      let size = length-blob_of eph nonce ct e n in
      let fits : ltb (length (blob_of eph nonce ct)) 64 ≡ false = ground (arith, size) in
      rw (s, fits, at_eph, at_nonce, at_ct)

  -- For a key pair and a fresh pair that the library accepts, Seal gives a blob 64 bytes longer than the
  -- text, and Open gives the text back.
  pub open_blob-seal :
      (plain secret public eph_secret nonce eph shared : Bytes)
      → length secret ≡ 32
      → length eph_secret ≡ 32
      → length nonce ≡ 12
      → crypto.x25519 secret crypto.base_point ≡ some public
      → crypto.x25519 eph_secret crypto.base_point ≡ some eph
      → crypto.x25519 eph_secret public ≡ some shared
      → (blob : Bytes) × (seal crypto plain public (some eph_secret) (some nonce) ≡ done blob)
        × (length blob ≡ length plain + 64)
        × (open_blob crypto blob secret ≡ done plain)
  open_blob-seal plain secret public eph_secret nonce eph shared s m n own other joint =
      let (ct, sealed, size, opened) =
        open_parts-seal plain secret public eph_secret nonce eph shared own other joint n m in
      let e = laws.base_length eph_secret eph other in
      (
        blob_of eph nonce ct,
        sealed,
        omega (arith, length-blob_of eph nonce ct e n, size),
        open_blob-blob_of eph nonce ct secret e n s (omega arith) ∙ opened,
      )

  open_parts-done :
      (eph nonce ct secret plain : Bytes)
      → length nonce ≡ 12
      → open_parts crypto eph nonce ct secret ≡ done plain
      → (g : Gcm) × KeyFor crypto secret eph g × (ct ≡ g.seal_text nonce plain eph)
  unfolding open_parts
  open_parts-done eph nonce ct secret plain n e =
      let (public, own, e1) = from_library-done _ _ plain e in
      let (shared, joint, e2) = from_library-done _ _ plain e1 in
      let (key, derived, e3) = from_library-done _ _ plain e2 in
      let (g, aead, e4) = from_library-done _ _ plain e3 in
      (
        g,
        record {
          public = public;
          shared = shared;
          key = key;
          own = own;
          joint = joint;
          derived = derived;
          aead = aead;
        },
        laws.sealed_only key g nonce ct plain eph aead n (open_result-done _ plain e4),
      )

  -- The tests that a blob has passed.
  open_blob-done :
      (blob secret plain : Bytes)
      → open_blob crypto blob secret ≡ done plain
      → (64 ≤ length blob)
        × (bytes_eq (take 4 blob) magic ≡ true)
        × (open_parts crypto (slice 4 32 blob) (slice 36 12 blob) (drop 48 blob) secret
            ≡ done plain)
  unfolding open_blob
  open_blob-done blob secret plain e = ground arith

  -- A blob that Open accepts is the mark, an ephemeral key, a nonce and the text sealed under the key
  -- that is derived from that ephemeral key and the secret, with nothing before, between or behind.
  pub open_blob-IsSealed :
      (blob secret plain : Bytes)
      → open_blob crypto blob secret ≡ done plain
      → (eph : Bytes) × (nonce : Bytes) × (g : Gcm) × KeyFor crypto secret eph g
        × (length eph ≡ 32)
        × (length nonce ≡ 12)
        × (blob ≡ blob_of eph nonce (g.seal_text nonce plain eph))
  open_blob-IsSealed blob secret plain e =
      let (long, mark, opened) = open_blob-done blob secret plain e in
      let (parts, at_eph, at_nonce) = parts-blob_of blob (bytes_eq_sound _ _ mark) long in
      let (g, key, text) = open_parts-done _ _ _ secret plain at_nonce opened in
      (
        slice 4 32 blob,
        slice 36 12 blob,
        g,
        key,
        at_eph,
        at_nonce,
        parts ∙ ap (blob_of (slice 4 32 blob) (slice 36 12 blob)) text,
      )
