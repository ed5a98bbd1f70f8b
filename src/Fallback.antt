-- ===== src/Fallback.antt =====
-- The fallback resolvers of internal/dnsfallback/dnsfallback.go: the reading of their list, the
-- configuration, and LookupTXTSource. The children hold the proofs. The functions of
-- Go's `net` package and the replies of the resolvers are parameters.
use Prim.Native.Nat.{ℕ, suc}
use sender_report.Base.{
  ◌+◌, ◌*◌, Bool, true, false, not, ◌&&◌, ◌||◌, List, [], ◌∷◌, ◌++◌, Option, none, some, leb, ltb,
  ◌==◌, length, map, if◌then◌else◌,
}
use sender_report.Text.{Bytes, codes, bytes_eq, to_lower, trim, trim_space, split, atoi}
use sender_report.Dns.{DnsError, Reply}
pub mod Listed
pub mod Source
mod Tests

-- `net.SplitHostPort` without an error, `net.ParseIP(s) != nil` and `net.JoinHostPort`.
pub record NetLibrary : Type 0 where
  pub split_host_port : Bytes → Option (Bytes × Bytes)
  pub is_ip : Bytes → Bool
  pub join_host_port : Bytes → Bytes → Bytes

pub data ListError : Type 0 where
  no_address : Bytes → ListError
  bad_port : Bytes → Bytes → ListError
  too_many : ℕ → ListError

pub data Parsed {ℓ} (A : Type ℓ) : Type ℓ where
  parsed : A → Parsed A
  refused : ListError → Parsed A

abbrev pub max_resolvers : ℕ
max_resolvers = 5

abbrev is_bracket : ℕ → Bool
is_bracket c = c == b'[' || c == b']'

abbrev pub is_port : Option ℕ → Bool
is_port none = false
is_port (some n) = leb 1 n && leb n 65535

module _ (net : NetLibrary) where
  abbrev pub host_and_port : Bytes → Bytes × Bytes
  host_and_port s = elim (net.split_host_port s) [
    | some (h, p) ↦ (h, p)
    | none ↦ (trim is_bracket s, codes "53")
  ]

  abbrev pub checked_addr : Bytes → Bytes → Bytes → Parsed Bytes
  checked_addr s host port =
      if not (net.is_ip host)
      then refused (no_address s)
      else if not (is_port (atoi port))
      then refused (bad_port s port)
      else parsed (net.join_host_port host port)

  unfoldable pub normalize_addr : Bytes → Parsed Bytes
  normalize_addr s = let (host, port) = host_and_port s in checked_addr s host port

  abbrev pub and_then : Parsed Bytes → Parsed (List Bytes) → Parsed (List Bytes)
  and_then (refused e) rest = refused e
  and_then (parsed a) (refused e) = refused e
  and_then (parsed a) (parsed as') = parsed (a ∷ as')

  -- The loop over the parts: the first one that is refused ends it.
  unfoldable pub read_parts : List Bytes → Parsed (List Bytes)
  read_parts [] = parsed []
  read_parts (p ∷ ps) =
      let rest = read_parts ps in
      let part = trim_space p in
      if bytes_eq part [] then rest else and_then (normalize_addr part) rest

  abbrev pub limited : Parsed (List Bytes) → Parsed (List Bytes)
  limited (refused e) = refused e
  limited (parsed out) =
      if ltb max_resolvers (length out) then refused (too_many (length out)) else parsed out

  unfoldable pub parse_resolvers : Bytes → Parsed (List Bytes)
  parse_resolvers list =
      let l = trim_space list in
      if bytes_eq l [] || bytes_eq (to_lower l) (codes "none")
      then parsed []
      else limited (read_parts (split b',' l))

  -- The resolvers without their ports.
  abbrev host_of : Bytes → Bytes
  host_of a = elim (net.split_host_port a) [ none ↦ a | some (h, p) ↦ h ]

  unfoldable pub hosts : List Bytes → List Bytes
  hosts addrs = map host_of addrs

-- The variables of the package, with the timeout in nanoseconds.
pub record Fallback : Type 0 where
  pub resolvers : List Bytes
  pub timeout : ℕ

-- A timeout that is not positive is 0 here.
unfoldable pub configure : List Bytes → ℕ → Fallback → Fallback
configure addrs per_resolver f = record {
  resolvers = addrs;
  timeout = if ltb 0 per_resolver then per_resolver else f.timeout;
}

-- The records, the address of the resolver that gave them (none for the local one), the error.
pub record Sourced : Type 0 where
  pub recs : List Bytes
  pub source : Bytes
  pub err : Option DnsError

abbrev pub has_records : Reply Bytes → Bool
has_records r = elim (r.err) [ some e ↦ false | none ↦ not (leb (length r.recs) 0) ]

abbrev pub answered : Bytes → Reply Bytes → Sourced
answered addr r = record { recs = r.recs; source = addr; err = none }

abbrev pub local_reply : Reply Bytes → Sourced
local_reply r = record { recs = r.recs; source = []; err = r.err }

-- `ended` says whether the context has ended when the resolver of that number is to be asked.
module _ (ask : Bytes → Reply Bytes) (ended : ℕ → Bool) (here : Reply Bytes) where
  unfoldable pub ask_resolvers : ℕ → List Bytes → Sourced
  ask_resolvers i [] = local_reply here
  ask_resolvers i (a ∷ as') =
      let later = ask_resolvers (suc i) as' in
      if ended i
      then local_reply here
      else if has_records (ask a)
      then answered a (ask a)
      else later

  unfoldable pub lookup_txt_source : Fallback → Sourced
  lookup_txt_source f = if has_records here then answered [] here else ask_resolvers 0 f.resolvers
