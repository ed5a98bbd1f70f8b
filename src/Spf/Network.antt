-- ===== src/Spf/Network.antt =====
-- `ipMatchesWithOptionalCIDR` against what a network is: the addresses that begin with its bits.
use Prim.Native.Nat.{bit_and}
use sender_report.Base.{
  ℕ, zero, suc, ◌+◌, ◌-◌, ◌*◌, ◌/◌, ◌%◌, ◌^◌, ◌<◌, ◌≡◌, refl, sym, ap, ◌∙◌, ◌↔◌, Bool, true, false,
  ◌&&◌, List, [], ◌∷◌, ◌++◌, arith, leb, ◌==◌, ==_iff, length, take, take-append, append-injective,
  take_all, length-take_same, All, inl, inr, Bool-cases, leb→le, if◌then◌else◌,
}
use mathlib.Core.Path.{ap₂}
use sender_report.Base.Tables.{holds_under, read_table}
use sender_report.Text.{Bytes, bytes_eq, bytes_eq_sound, bytes_eq_complete}
use sender_report.Spf.Address.{cidr_mask, and_bytes, mask_ip, ip_equal, same_network}

-- The eight bits of a byte, the highest first.
abbrev pub bits : ℕ → List ℕ
bits b =
    b / 128 % 2
    ∷ b / 64 % 2
    ∷ b / 32 % 2
    ∷ b / 16 % 2
    ∷ b / 8 % 2
    ∷ b / 4 % 2
    ∷ b / 2 % 2
    ∷ b % 2
    ∷ []

abbrev pub address_bits : Bytes → List ℕ
address_bits [] = []
address_bits (b ∷ ip) = bits b ++ address_bits ip

abbrev mask_byte : ℕ → ℕ
mask_byte k = 255 - 255 / 2 ^ k

-- The byte whose highest bits are the given ones.
abbrev from_top : ℕ → List ℕ → ℕ
from_top w [] = 0
from_top w (d ∷ ds) = d * w + from_top (w / 2) ds

-- A masked byte is made of its highest bits, and has them.
abbrev is_top : ℕ → ℕ → Bool
is_top k x = bit_and x (mask_byte k) == from_top 128 (take k (bits x))

abbrev keeps_top : ℕ → ℕ → Bool
keeps_top k x = bytes_eq (take k (bits (bit_and x (mask_byte k)))) (take k (bits x))

top_table : holds_under (λ k. holds_under (is_top k) 256) 9 ≡ true
unfolding holds_under
top_table = refl

keep_table : holds_under (λ k. holds_under (keeps_top k) 256) 9 ≡ true
unfolding holds_under
keep_table = refl

masked_top : (k x : ℕ) → k < 9 → x < 256 → bit_and x (mask_byte k) ≡ from_top 128 (take k (bits x))
masked_top k x hk hx =
    (==_iff _ _).0
      (read_table (is_top k) hx (read_table (λ k. holds_under (is_top k) 256) hk top_table))

masked_keep :
    (k x : ℕ) → k < 9 → x < 256 → take k (bits (bit_and x (mask_byte k))) ≡ take k (bits x)
masked_keep k x hk hx =
    bytes_eq_sound _ _
      (read_table (keeps_top k) hx (read_table (λ k. holds_under (keeps_top k) 256) hk keep_table))

-- Two masked bytes are equal exactly when their highest `k` bits are.
masked_iff :
    (k x y : ℕ)
    → k < 9
    → x < 256
    → y < 256
    → (bit_and x (mask_byte k) ≡ bit_and y (mask_byte k)) ↔ (take k (bits x) ≡ take k (bits y))
masked_iff k x y hk hx hy = (
  (λ e. sym (masked_keep k x hk hx) ∙ (ap (λ b. take k (bits b)) e ∙ masked_keep k y hk hy)),
  (λ e. masked_top k x hk hx ∙ (ap (from_top 128) e ∙ sym (masked_top k y hk hy))),
)

-- The bits of a byte that a prefix of `ones` bits has.
abbrev top : ℕ → ℕ
top ones = if leb 8 ones then 8 else ones

top-lt : (ones : ℕ) → top ones < 9
top-lt ones = ground arith

mask-top : (ones : ℕ) → (if leb 8 ones then 255 else 255 - 255 / 2 ^ ones) ≡ mask_byte (top ones)
mask-top ones = elim (Bool-cases (leb 8 ones)) [ inl e ↦ rw e | inr e ↦ rw e ]

take-top : (ones x : ℕ) → take ones (bits x) ≡ take (top ones) (bits x)
take-top ones x = elim (Bool-cases (leb 8 ones)) [
  | inl e ↦ rw e (take_all ones (bits x) (leb→le 8 ones e))
  | inr e ↦ rw e
]

take-address_bits :
    (ones b : ℕ) (ip : Bytes)
    → take ones (address_bits (b ∷ ip))
      ≡ take (top ones) (bits b) ++ take (ones - 8) (address_bits ip)
take-address_bits ones b ip =
    take-append ones (bits b) (address_bits ip)
    ∙ ap (λ bs. bs ++ take (ones - 8) (address_bits ip)) (take-top ones b)

abbrev pub IsByte : ℕ → Type 0
IsByte b = b < 256

abbrev pub Same : ℕ → Bytes → Bytes → Type 0
Same ones a b = take ones (address_bits a) ≡ take ones (address_bits b)

and_bytes_iff :
    (n ones : ℕ) (a b : Bytes)
    → length a ≡ n
    → length b ≡ n
    → All IsByte a
    → All IsByte b
    → (and_bytes a (cidr_mask n ones) ≡ and_bytes b (cidr_mask n ones)) ↔ Same ones a b
and_bytes_iff n ones [] [] la lb ha hb = ((λ _. refl), (λ _. refl))
and_bytes_iff n ones [] (y ∷ b) la lb ha hb = absurd (omega arith)
and_bytes_iff n ones (x ∷ a) [] la lb ha hb = absurd (omega arith)
and_bytes_iff zero ones (x ∷ a) (y ∷ b) la lb ha hb = absurd (omega arith)
and_bytes_iff (suc n) ones (x ∷ a) (y ∷ b) la lb ha hb =
    let first = masked_iff (top ones) x y (top-lt ones) ha.0 hb.0 in
    let rest = and_bytes_iff n (ones - 8) a b (omega arith) (omega arith) ha.1 hb.1 in
    rw (mask-top ones, take-address_bits ones x a, take-address_bits ones y b)
      (
        (λ e. ap₂ ◌++◌ (first.0 (cc e)) (rest.0 (cc e))),
        (λ e.
            let parts =
              append-injective _ _ _ _ (length-take_same (top ones) (bits x) (bits y) refl) e in
            ap₂ ◌∷◌ (first.1 parts.0) (rest.1 parts.1)),
      )

length-cidr_mask : (n ones : ℕ) → length (cidr_mask n ones) ≡ n
length-cidr_mask zero ones = refl
length-cidr_mask (suc n) ones = ap suc (length-cidr_mask n (ones - 8))

length-and_bytes :
    (ip mask : Bytes) → length ip ≡ length mask → length (and_bytes ip mask) ≡ length ip
length-and_bytes [] mask h = refl
length-and_bytes (b ∷ ip) [] h = absurd (omega arith)
length-and_bytes (b ∷ ip) (m ∷ mask) h = ap suc (length-and_bytes ip mask (omega arith))

apart : (a b : ℕ) (p : Bool) → a ≡ b → (a == 16 && b == 4 && p) ≡ false
apart a b p e = ground arith

apart' : (a b : ℕ) (p : Bool) → a ≡ b → (a == 4 && b == 16 && p) ≡ false
apart' a b p e = ground arith

-- A mask of the address's length is put on as it stands.
mask_ip-and_bytes :
    (ip mask : Bytes) → length ip ≡ length mask → mask_ip ip mask ≡ and_bytes ip mask
unfolding mask_ip
mask_ip-and_bytes ip mask e = rw (
  apart (length mask) (length ip) _ (sym e),
  apart' (length mask) (length ip) _ (sym e),
  (==_iff _ _).1 e,
)

-- Addresses of one length are equal as bytes.
ip_equal-bytes_eq : (a b : Bytes) → length a ≡ length b → ip_equal a b ≡ bytes_eq a b
unfolding ip_equal
ip_equal-bytes_eq a b e = rw ((==_iff _ _).1 e)

pub same_network_iff :
    (n ones : ℕ) (a b : Bytes)
    → length a ≡ n
    → length b ≡ n
    → All IsByte a
    → All IsByte b
    → (same_network n ones a b ≡ true) ↔ Same ones a b
unfolding same_network
same_network_iff n ones a b la lb ha hb =
    let mask = cidr_mask n ones in
    let ea : length a ≡ length mask = omega (arith, length-cidr_mask n ones) in
    let eb : length b ≡ length mask = omega (arith, length-cidr_mask n ones) in
    let same = and_bytes_iff n ones a b la lb ha hb in
    let lengths : length (and_bytes a mask) ≡ length (and_bytes b mask) =
      omega (arith, length-and_bytes a mask ea, length-and_bytes b mask eb) in
    rw
      (
        mask_ip-and_bytes a mask ea,
        mask_ip-and_bytes b mask eb,
        ip_equal-bytes_eq (and_bytes a mask) (and_bytes b mask) lengths,
      )
      ((λ e. same.0 (bytes_eq_sound _ _ e)), (λ e. bytes_eq_complete _ _ (same.1 e)))
