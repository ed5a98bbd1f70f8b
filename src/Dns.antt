-- ===== src/Dns.antt =====
-- What a DNS question may come to. internal/analyzer/dns.go sorts the errors;
-- The resolvers themselves are parameters: functions from names to replies.
use sender_report.Base.{ℕ, Bool, true, false, List, Option, none, some}

-- An error is a `net.DNSError` with IsNotFound, or any other error.
pub data DnsError : Type 0 where
  not_found other_error : DnsError

-- The records and the error that a lookup returns.
pub record Reply {ℓ} (A : Type ℓ) : Type ℓ where
  pub recs : List A
  pub err : Option DnsError

pub data DnsStatus : Type 0 where
  dns_ok dns_absent dns_unavailable : DnsStatus

-- The counter of failed lookups is left out.
abbrev pub classify_dns_error : Option DnsError → DnsStatus
classify_dns_error none = dns_ok
classify_dns_error (some not_found) = dns_absent
classify_dns_error (some other_error) = dns_unavailable

abbrev pub dns_lookup_failed : Option DnsError → Bool
dns_lookup_failed e = elim (classify_dns_error e) [ dns_unavailable ↦ true | _ ↦ false ]

-- What the SPF evaluation asks: TXT records, addresses of a host, hosts of an address, and mail
-- exchangers with their preferences. Answers do not change during one evaluation.
pub record Dns : Type 0 where
  pub lookup_txt : List ℕ → Reply (List ℕ)
  pub lookup_host : List ℕ → Reply (List ℕ)
  pub lookup_ip_addr : List ℕ → Reply (List ℕ)
  pub lookup_addr : List ℕ → Reply (List ℕ)
  pub lookup_mx : List ℕ → Reply (ℕ × List ℕ)
