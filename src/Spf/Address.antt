-- ===== src/Spf/Address.antt =====
-- Addresses (`net.IP`: no bytes for nil, or 4, or 16) and `ipMatchesWithOptionalCIDR`.
use Prim.Native.Nat.{bit_and}
use sender_report.Base.{
  ℕ, zero, suc, ◌-◌, ◌/◌, ◌^◌, Bool, false, ◌&&◌, ◌||◌, [], ◌∷◌, Option, none, some, ltb, leb, ◌==◌,
  length, drop, if◌then◌else◌,
}
use sender_report.Text.{Bytes, bytes_eq, has_prefix}

abbrev pub v4_in_v6_prefix : Bytes
v4_in_v6_prefix = 0 ∷ 0 ∷ 0 ∷ 0 ∷ 0 ∷ 0 ∷ 0 ∷ 0 ∷ 0 ∷ 0 ∷ 255 ∷ 255 ∷ []

-- `ip.To4()`
unfoldable pub to4 : Bytes → Bytes
to4 ip =
    if length ip == 4
    then ip
    else if length ip == 16 && has_prefix v4_in_v6_prefix ip
    then drop 12 ip
    else []

-- `ip.Equal(x)`: an IPv4 address and its form in IPv6 are equal.
unfoldable pub ip_equal : Bytes → Bytes → Bool
ip_equal ip x =
    if length ip == length x
    then bytes_eq ip x
    else if length ip == 4 && length x == 16
    then has_prefix v4_in_v6_prefix x && bytes_eq ip (drop 12 x)
    else if length ip == 16 && length x == 4
    then has_prefix v4_in_v6_prefix ip && bytes_eq (drop 12 ip) x
    else false

-- The bytes of `net.CIDRMask(ones, 8 * n)`: `^byte(0xff >> k)` is 255 less the shifted value.
abbrev pub cidr_mask : ℕ → ℕ → Bytes
cidr_mask zero ones = []
cidr_mask (suc n) ones = (if leb 8 ones then 255 else 255 - 255 / 2 ^ ones) ∷ cidr_mask n (ones - 8)

abbrev pub and_bytes : Bytes → Bytes → Bytes
and_bytes [] mask = []
and_bytes (b ∷ ip) [] = []
and_bytes (b ∷ ip) (m ∷ mask) = bit_and b m ∷ and_bytes ip mask

abbrev all_ff_12 : Bytes
all_ff_12 = 255 ∷ 255 ∷ 255 ∷ 255 ∷ 255 ∷ 255 ∷ 255 ∷ 255 ∷ 255 ∷ 255 ∷ 255 ∷ 255 ∷ []

-- `ip.Mask(mask)`: nil where the lengths do not fit.
unfoldable pub mask_ip : Bytes → Bytes → Bytes
mask_ip ip mask =
    let m =
      if length mask == 16 && length ip == 4 && has_prefix all_ff_12 mask
      then drop 12 mask
      else mask in
    let b =
      if length m == 4 && length ip == 16 && has_prefix v4_in_v6_prefix ip
      then drop 12 ip
      else ip in
    if length b == length m then and_bytes b m else []

-- `base.Mask(mask).Equal(check.Mask(mask))` for addresses of `n` bytes, a mask of `ones` bits.
unfoldable pub same_network : ℕ → ℕ → Bytes → Bytes → Bool
same_network n ones base check =
    let mask = cidr_mask n ones in ip_equal (mask_ip base mask) (mask_ip check mask)

abbrev pub is_nil : Bytes → Bool
is_nil ip = bytes_eq ip []

-- `none` stands for a negative length, which means that the addresses are compared whole.
unfoldable pub ip_matches_with_optional_cidr : Bytes → Bytes → Option ℕ → Bool
ip_matches_with_optional_cidr remote candidate none =
    if is_nil remote || is_nil candidate then false else ip_equal remote candidate
ip_matches_with_optional_cidr remote candidate (some cidr) =
    if is_nil remote || is_nil candidate
    then false
    else if is_nil (to4 candidate) || is_nil (to4 remote)
    then (if ltb 128 cidr then false else same_network 16 cidr candidate remote)
    else if ltb 32 cidr
    then false
    else same_network 4 cidr (to4 candidate) (to4 remote)

abbrev pub normalize_cidr : Option ℕ → ℕ → Option ℕ
normalize_cidr none bits = some bits
normalize_cidr (some cidr) bits = some cidr
