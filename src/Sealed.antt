-- ===== src/Sealed.antt =====
-- The sealed box of internal/sealedbox/sealedbox.go. The curve, the key derivation, AES-GCM, SHA-256
-- and base32 are parameters, and so are the random bytes, none if they cannot be read.
mod Layout
pub mod Opening
pub mod Tests
use sender_report.Base.{
  ℕ, ◌+◌, ◌≡◌, Bool, not, ◌||◌, List, ◌++◌, Option, none, some, ltb, ◌==◌, length, take, drop, map,
  if◌then◌else◌,
}
use sender_report.Text.{Bytes, codes, bytes_eq, lower_byte}

-- An AEAD, over a nonce, a text and the additional data.
pub record Gcm : Type 0 where
  pub seal_text : Bytes → Bytes → Bytes → Bytes
  pub open_text : Bytes → Bytes → Bytes → Option Bytes

-- `hkdf` reads 32 bytes for a secret, a salt and an info.
pub record Crypto : Type 0 where
  pub x25519 : Bytes → Bytes → Option Bytes
  pub base_point : Bytes
  pub hkdf : Bytes → Bytes → Bytes → Option Bytes
  pub new_gcm : Bytes → Option Gcm
  pub sha256 : Bytes → Bytes
  pub base32 : Bytes → Bytes

pub data BoxError : Type 0 where
  bad_key_size bad_blob open_failed library_error : BoxError

pub data Outcome {ℓ} (A : Type ℓ) : Type ℓ where
  done : A → Outcome A
  failed : BoxError → Outcome A

-- An error of a library is passed on.
abbrev pub from_library {ℓ κ} : {A : Type ℓ} {B : Type κ} → Option A → (A → Outcome B) → Outcome B
from_library none next = failed library_error
from_library (some a) next = next a

abbrev pub magic : Bytes
magic = codes "MPE1"

abbrev pub hkdf_info : Bytes
hkdf_info = codes "senderreport-content-v1"

abbrev pub ident_domain : Bytes
ident_domain = codes "senderreport-id-v1"

abbrev pub key_size : ℕ
key_size = 32

abbrev pub nonce_size : ℕ
nonce_size = 12

abbrev pub tag_size : ℕ
tag_size = 16

abbrev pub ident_len : ℕ
ident_len = 10

-- The part of a blob from one offset, of a length.
abbrev pub slice : ℕ → ℕ → Bytes → Bytes
slice from size blob = take size (drop from blob)

abbrev pub blob_of : Bytes → Bytes → Bytes → Bytes
blob_of eph nonce ct = magic ++ (eph ++ (nonce ++ ct))

pub record KeyPair : Type 0 where
  pub secret : Bytes
  pub public : Bytes

abbrev pub open_result : Option Bytes → Outcome Bytes
open_result none = failed open_failed
open_result (some plain) = done plain

module _ (crypto : Crypto) where
  unfoldable pub public_from_secret : Bytes → Outcome Bytes
  public_from_secret secret =
      if not (length secret == key_size)
      then failed bad_key_size
      else from_library (crypto.x25519 secret crypto.base_point) (λ public. done public)

  unfoldable pub generate_key_pair : Option Bytes → Outcome KeyPair
  generate_key_pair random = from_library random (λ secret.
      from_library (crypto.x25519 secret crypto.base_point)
        (λ public. done (record { secret = secret; public = public })))

  unfoldable pub identifier : Bytes → Bytes
  identifier public =
      map lower_byte (crypto.base32 (take ident_len (crypto.sha256 (ident_domain ++ public))))

  unfoldable pub derive_key : Bytes → Bytes → Bytes → Option Bytes
  derive_key shared eph public = crypto.hkdf shared (eph ++ public) hkdf_info

  unfoldable pub seal_with_ephemeral : Bytes → Bytes → Bytes → Option Bytes → Outcome Bytes
  seal_with_ephemeral plain public eph_secret random =
      if not (length public == key_size) || not (length eph_secret == key_size)
      then failed bad_key_size
      else from_library (crypto.x25519 eph_secret crypto.base_point) (λ eph.
        from_library (crypto.x25519 eph_secret public) (λ shared.
          from_library (derive_key shared eph public) (λ key.
            from_library (crypto.new_gcm key) (λ gcm.
              from_library random
                (λ nonce. done (blob_of eph nonce (gcm.seal_text nonce plain eph)))))))

  -- The ephemeral secret is read first, the nonce last.
  unfoldable pub seal : Bytes → Bytes → Option Bytes → Option Bytes → Outcome Bytes
  seal plain public random random_nonce =
      if not (length public == key_size)
      then failed bad_key_size
      else from_library random
          (λ eph_secret. seal_with_ephemeral plain public eph_secret random_nonce)

  -- The parts of a blob that is long enough.
  unfoldable pub open_parts : Bytes → Bytes → Bytes → Bytes → Outcome Bytes
  open_parts eph nonce ct secret = from_library (crypto.x25519 secret crypto.base_point) (λ public.
      from_library (crypto.x25519 secret eph) (λ shared.
        from_library (derive_key shared eph public) (λ key.
          from_library (crypto.new_gcm key) (λ gcm. open_result (gcm.open_text nonce ct eph)))))

  unfoldable pub open_blob : Bytes → Bytes → Outcome Bytes
  open_blob blob secret =
      if not (length secret == key_size)
      then failed bad_key_size
      else if ltb (length blob) (length magic + key_size + nonce_size + tag_size)
      then failed bad_blob
      else if not (bytes_eq (take (length magic) blob) magic)
      then failed bad_blob
      else open_parts (slice (length magic) key_size blob)
          (slice (length magic + key_size) nonce_size blob)
          (drop (length magic + key_size + nonce_size) blob) secret

-- What the libraries promise: keys of 32 bytes, a shared secret that both sides compute, an AEAD for
-- every key of 32 bytes, and that it opens exactly what it seals, with a tag of 16 bytes.
pub record HasLaws (crypto : Crypto) : Type 0 where
  pub base_length :
      (secret public : Bytes)
      → crypto.x25519 secret crypto.base_point ≡ some public
      → length public ≡ key_size
  pub agree :
      (a b a_public b_public : Bytes)
      → crypto.x25519 a crypto.base_point ≡ some a_public
      → crypto.x25519 b crypto.base_point ≡ some b_public
      → crypto.x25519 a b_public ≡ crypto.x25519 b a_public
  pub hkdf_reads :
      (secret salt info : Bytes)
      → (key : Bytes) × (crypto.hkdf secret salt info ≡ some key) × (length key ≡ key_size)
  pub gcm_for : (key : Bytes) → length key ≡ key_size → (g : Gcm) × (crypto.new_gcm key ≡ some g)
  pub seal_length :
      (key : Bytes) (g : Gcm) (nonce plain extra : Bytes)
      → crypto.new_gcm key ≡ some g
      → length (g.seal_text nonce plain extra) ≡ length plain + tag_size
  pub opens_sealed :
      (key : Bytes) (g : Gcm) (nonce plain extra : Bytes)
      → crypto.new_gcm key ≡ some g
      → length nonce ≡ nonce_size
      → g.open_text nonce (g.seal_text nonce plain extra) extra ≡ some plain
  pub sealed_only :
      (key : Bytes) (g : Gcm) (nonce ct plain extra : Bytes)
      → crypto.new_gcm key ≡ some g
      → length nonce ≡ nonce_size
      → g.open_text nonce ct extra ≡ some plain
      → ct ≡ g.seal_text nonce plain extra
