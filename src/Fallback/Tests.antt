-- ===== src/Fallback/Tests.antt =====
-- Lists of resolvers and answers of them.
use Prim.Native.Nat.{ℕ}
use sender_report.Base.{
  ◌≡◌, refl, ◌⊎◌, Bool, true, false, [], ◌∷◌, ◌++◌, none, some, leb, if◌then◌else◌,
}
use sender_report.Text.{Bytes, codes, bytes_eq, trim, trim_space, to_lower, split, atoi, cut}
use sender_report.Dns.{Reply, not_found}
use sender_report.Fallback.{
  NetLibrary, Fallback, parsed, refused, no_address, bad_port, normalize_addr, read_parts,
  parse_resolvers, has_records, answered, ask_resolvers, lookup_txt_source, configure,
}
use sender_report.Fallback.Listed.{Holds, IsGoodList, parse_resolvers-IsGoodList}
use sender_report.Fallback.Source.{IsFirst, lookup_txt_source-IsFirst}

-- One address; a port is behind a colon.
abbrev net : NetLibrary
net = record {
  split_host_port = λ s. cut (codes ":") s;
  is_ip = λ s. bytes_eq s (codes "1.1.1.1");
  join_host_port = λ h p. h ++ (codes ":" ++ p);
}

two_resolvers :
    parse_resolvers net (codes "1.1.1.1, ,[1.1.1.1]:99")
    ≡ refused (no_address (codes "[1.1.1.1]:99"))
unfolding parse_resolvers read_parts normalize_addr split trim_space trim to_lower atoi
two_resolvers = refl

default_port :
    parse_resolvers net (codes "1.1.1.1, ,1.1.1.1:99")
    ≡ parsed (codes "1.1.1.1:53" ∷ codes "1.1.1.1:99" ∷ [])
unfolding parse_resolvers read_parts normalize_addr split trim_space trim to_lower atoi
default_port = refl

port_out_of_range :
    parse_resolvers net (codes "1.1.1.1:65536")
    ≡ refused (bad_port (codes "1.1.1.1:65536") (codes "65536"))
unfolding parse_resolvers read_parts normalize_addr split trim_space trim to_lower atoi
port_out_of_range = refl

parse_resolvers-IsGoodList_example :
    Holds net (IsGoodList net) (parse_resolvers net (codes "1.1.1.1, ,1.1.1.1:99"))
parse_resolvers-IsGoodList_example = parse_resolvers-IsGoodList net (codes "1.1.1.1, ,1.1.1.1:99")

abbrev nothing : Reply Bytes
nothing = record { recs = []; err = some not_found }

-- The resolver b has a record.
abbrev ask : Bytes → Reply Bytes
ask a = if bytes_eq a (codes "b") then record { recs = codes "v=1" ∷ []; err = none } else nothing

abbrev in_time : ℕ → Bool
in_time i = false

abbrev state : Fallback
state = record { resolvers = codes "a" ∷ codes "b" ∷ []; timeout = 2 }

second_answers :
    lookup_txt_source ask in_time nothing state
    ≡ record { recs = codes "v=1" ∷ []; source = codes "b"; err = none }
unfolding lookup_txt_source ask_resolvers
second_answers = refl

too_late :
    lookup_txt_source ask (λ i. leb 1 i) nothing state
    ≡ record { recs = []; source = []; err = some not_found }
unfolding lookup_txt_source ask_resolvers
too_late = refl

keeps_timeout : configure [] 0 state ≡ record { resolvers = []; timeout = 2 }
unfolding configure
keeps_timeout = refl

lookup_txt_source-IsFirst_example :
    ((has_records nothing ≡ true)
      × (lookup_txt_source ask in_time nothing state ≡ answered [] nothing))
    ⊎ ((has_records nothing ≡ false)
        × IsFirst ask in_time nothing 0
            (codes "a" ∷ codes "b" ∷ [])
            (lookup_txt_source ask in_time nothing state))
lookup_txt_source-IsFirst_example = lookup_txt_source-IsFirst ask in_time nothing state
