-- ===== src/Fallback/Listed.antt =====
-- Which lists of resolvers ParseResolvers takes.
use sender_report.Base.{
  ℕ, ◌≡◌, ◌≤◌, refl, inl, inr, true, ◌||◌, List, [], ◌∷◌, Option, none, some, arith, Bool-cases,
  ltb, length, All,
}
use sender_report.Text.{Bytes, codes, bytes_eq, to_lower, trim_space, split, atoi}
use sender_report.Fallback.{
  NetLibrary, Parsed, parsed, refused, max_resolvers, is_port, checked_addr, normalize_addr,
  read_parts, parse_resolvers, and_then, limited, host_and_port,
}

module _ (net : NetLibrary) where
  -- A host that is an address, joined with a port from 1 to 65535.
  abbrev pub IsResolver : Bytes → Type 0
  IsResolver a =
      (host : Bytes) × (port : Bytes) × (a ≡ net.join_host_port host port)
      × (net.is_ip host ≡ true)
      × (n : ℕ) × (atoi port ≡ some n)
      × (1 ≤ n)
      × (n ≤ 65535)

  abbrev pub Holds : (List Bytes → Type 0) → Parsed (List Bytes) → Type 0
  Holds P (refused e) = Unit
  Holds P (parsed as') = P as'

  abbrev HoldsOne : Parsed Bytes → Type 0
  HoldsOne (refused e) = Unit
  HoldsOne (parsed a) = IsResolver a

  is_port_sound : (p : Option ℕ) → is_port p ≡ true → (n : ℕ) × (p ≡ some n) × (1 ≤ n) × (n ≤ 65535)
  is_port_sound none e = absurd (cc)
  is_port_sound (some n) e = (n, refl, ground (arith, e), ground (arith, e))

  checked_addr-HoldsOne : (s host port : Bytes) → HoldsOne (checked_addr net s host port)
  checked_addr-HoldsOne s host port = elim (Bool-cases (net.is_ip host)) [
    | inr e ↦ rw e tt
    | inl e ↦ elim (Bool-cases (is_port (atoi port))) [
      | inr h ↦ rw (e, h) tt
      | inl h ↦
          let (n, at, lo, hi) = is_port_sound (atoi port) h in
          rw (e, h) (host, port, refl, e, n, at, lo, hi)
    ]
  ]

  normalize_addr-HoldsOne : (s : Bytes) → HoldsOne (normalize_addr net s)
  unfolding normalize_addr
  normalize_addr-HoldsOne s =
      let (host, port) = host_and_port net s in checked_addr-HoldsOne s host port

  and_then-Holds :
      (p : Parsed Bytes) (r : Parsed (List Bytes))
      → HoldsOne p
      → Holds (All IsResolver) r
      → Holds (All IsResolver) (and_then net p r)
  and_then-Holds (refused e) r hp hr = tt
  and_then-Holds (parsed a) (refused e) hp hr = tt
  and_then-Holds (parsed a) (parsed as') hp hr = (hp, hr)

  read_parts-Holds : (ps : List Bytes) → Holds (All IsResolver) (read_parts net ps)
  unfolding read_parts
  read_parts-Holds [] = tt
  read_parts-Holds (p ∷ ps) = elim (Bool-cases (bytes_eq (trim_space p) [])) [
    | inl e ↦ rw e (read_parts-Holds ps)
    | inr e ↦ rw e (
        and_then-Holds (normalize_addr net (trim_space p)) (read_parts net ps)
          (normalize_addr-HoldsOne (trim_space p)) (read_parts-Holds ps))
  ]

  -- At most five resolvers, good ones each.
  abbrev pub IsGoodList : List Bytes → Type 0
  IsGoodList as' = (length as' ≤ max_resolvers) × All IsResolver as'

  limited-Holds :
      (r : Parsed (List Bytes)) → Holds (All IsResolver) r → Holds IsGoodList (limited net r)
  limited-Holds (refused e) h = tt
  limited-Holds (parsed as') h = elim (Bool-cases (ltb max_resolvers (length as'))) [
    | inl e ↦ rw e tt
    | inr e ↦ rw e (ground (arith, e), h)
  ]

  -- A list of resolvers that is not refused has at most five of them, and each is the joined form
  -- of a host that is an IP address and a port from 1 to 65535.
  pub parse_resolvers-IsGoodList : (list : Bytes) → Holds IsGoodList (parse_resolvers net list)
  unfolding parse_resolvers
  parse_resolvers-IsGoodList list =
      elim (Bool-cases
        (bytes_eq (trim_space list) [] || bytes_eq (to_lower (trim_space list)) (codes "none"))) [
          | inl e ↦ rw e (omega arith, tt)
          | inr e ↦ rw e (limited-Holds _ (read_parts-Holds (split b',' (trim_space list))))
        ]
