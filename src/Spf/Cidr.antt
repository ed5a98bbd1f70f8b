-- ===== src/Spf/Cidr.antt =====
-- `ipMatchesWithOptionalCIDR` by the families of the two addresses.
use sender_report.Base.{
  ℕ, ◌≤◌, ◌<◌, ◌⊎◌, inr, ◌++◌, ◌≡◌, refl, ◌↔◌, true, false, ◌||◌, [], ◌∷◌, none, some, arith,
  length, All, All-append,
}
use sender_report.Text.{Bytes}
use sender_report.Spf.Address.{
  to4, is_nil, v4_in_v6_prefix, ip_matches_with_optional_cidr, normalize_cidr,
}
use sender_report.Spf.Network.{IsByte, Same, same_network_iff}

filled : (ip : Bytes) → 0 < length ip → is_nil ip ≡ false
filled [] h = absurd (omega arith)
filled (b ∷ ip) h = refl

to4-filled : (ip : Bytes) → 0 < length (to4 ip) → is_nil ip ≡ false
unfolding to4
to4-filled [] h = absurd (omega arith)
to4-filled (b ∷ ip) h = refl

-- Two IPv4 addresses, in either form, match by a prefix length of at most 32 exactly when they
-- begin with as many equal bits, and by a longer one never.
pub matches_v4 :
    (remote candidate : Bytes) (cidr : ℕ)
    → length (to4 remote) ≡ 4
    → length (to4 candidate) ≡ 4
    → All IsByte (to4 remote)
    → All IsByte (to4 candidate)
    → (ip_matches_with_optional_cidr remote candidate (some cidr) ≡ true)
      ↔ ((cidr ≤ 32) × Same cidr (to4 candidate) (to4 remote))
unfolding ip_matches_with_optional_cidr
matches_v4 remote candidate cidr lr lc hr hc =
    rw
      (
        to4-filled remote (omega arith),
        to4-filled candidate (omega arith),
        filled (to4 candidate) (omega arith),
        filled (to4 remote) (omega arith),
      )
      (ground (arith, same_network_iff 4 cidr (to4 candidate) (to4 remote) lc lr hc hr))

-- Two addresses of 16 bytes of which one at least is no IPv4 address match by a prefix length of
-- at most 128 exactly when they begin with as many equal bits, and by a longer one never. So an
-- IPv4 candidate is compared with an IPv6 client as the IPv6 address that stands for it.
pub matches_v6 :
    (remote candidate : Bytes) (cidr : ℕ)
    → length remote ≡ 16
    → length candidate ≡ 16
    → (to4 candidate ≡ []) ⊎ (to4 remote ≡ [])
    → All IsByte remote
    → All IsByte candidate
    → (ip_matches_with_optional_cidr remote candidate (some cidr) ≡ true)
      ↔ ((cidr ≤ 128) × Same cidr candidate remote)
unfolding ip_matches_with_optional_cidr
matches_v6 remote candidate cidr lr lc family hr hc =
    let mixed : (is_nil (to4 candidate) || is_nil (to4 remote)) ≡ true = ground arith in
    rw (filled remote (omega arith), filled candidate (omega arith), mixed)
      (ground (arith, same_network_iff 16 cidr candidate remote lc lr hc hr))

-- An `ip4` mechanism without a length lets in every IPv6 client whose address begins with four zero
-- bytes (the loopback address among them), whatever IPv4 address the mechanism names.
pub ip4_matches_v6 :
    (named client : Bytes)
    → length named ≡ 4
    → length client ≡ 12
    → All IsByte named
    → All IsByte client
    → to4 (0 ∷ 0 ∷ 0 ∷ 0 ∷ client) ≡ []
    → ip_matches_with_optional_cidr
        (0 ∷ 0 ∷ 0 ∷ 0 ∷ client)
        (v4_in_v6_prefix ++ named)
        (normalize_cidr none 32)
      ≡ true
ip4_matches_v6 named client ln lc hn hc family =
    (matches_v6 (0 ∷ 0 ∷ 0 ∷ 0 ∷ client) (v4_in_v6_prefix ++ named) 32 (omega arith) (omega arith)
        (inr family) (All-append IsByte (0 ∷ 0 ∷ 0 ∷ 0 ∷ []) client (omega arith) hc)
        (All-append IsByte v4_in_v6_prefix named (omega arith) hn)).1
      (omega arith, refl)
