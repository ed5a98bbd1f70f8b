-- ===== src/Spf/Tests.antt =====
-- The SPF evaluation at concrete records.
use sender_report.Base.{◌≤◌, ◌≡◌, refl, ◌↔◌, true, [], ◌∷◌, ◌++◌, none, some, arith, if◌then◌else◌}
use sender_report.Text.{Bytes, codes, bytes_eq, to_lower, trim, trim_space, fields, atoi}
use sender_report.Dns.{Dns, Reply, not_found}
use sender_report.Spf.Address.{
  ip_matches_with_optional_cidr, to4, mask_ip, ip_equal, same_network, v4_in_v6_prefix,
}
use sender_report.Spf.Parse.{
  pass, fail, permerror, parse_spf_mechanism, read_token, name_or_token, extract_domain,
  qualifier_to_result,
}
use sender_report.Spf.Mechanism.{dispatch, match_spf_mechanism}
use sender_report.Spf.Check.{
  lookup_spf_record, finish, scan_tokens, check_domain, check_spf_domain, evaluate_spf, start,
}
use sender_report.Spf.Budget.{InBudget, check_spf_domain-InBudget}
use sender_report.Spf.Levels.{check_spf_domain-levels}
use sender_report.Spf.Network.{Same}
use sender_report.Spf.Cidr.{matches_v4}

abbrev absent {ℓ} : {A : Type ℓ} → Reply A
absent = record { recs = []; err = some not_found }

abbrev answer {ℓ} : {A : Type ℓ} → A → Reply A
answer a = record { recs = a ∷ []; err = none }

-- a.test includes b.test, which allows a network; l.test includes itself.
abbrev txt : Bytes → Reply Bytes
txt d =
    if bytes_eq d (codes "a.test")
    then answer (codes "v=spf1 include:B.test -all")
    else if bytes_eq d (codes "b.test")
    then answer (codes "v=spf1 ip4:N/16 ?all")
    else if bytes_eq d (codes "l.test")
    then answer (codes "v=spf1 include:l.test -all")
    else absent

abbrev dns : Dns
dns = record {
  lookup_txt = txt;
  lookup_host = λ h. absent;
  lookup_ip_addr = λ h. absent;
  lookup_addr = λ h. absent;
  lookup_mx = λ h. absent;
}

-- The one address that the records name.
abbrev parse_ip : Bytes → Bytes
parse_ip s = if bytes_eq s (codes "N") then v4_in_v6_prefix ++ 192 ∷ 0 ∷ 2 ∷ 7 ∷ [] else []

abbrev client : Bytes
client = v4_in_v6_prefix ++ 192 ∷ 0 ∷ 9 ∷ 9 ∷ []

abbrev stranger : Bytes
stranger = v4_in_v6_prefix ++ 192 ∷ 1 ∷ 2 ∷ 7 ∷ []

client_passes : (evaluate_spf dns parse_ip client (codes "h") (codes "<x@A.test>")).result ≡ pass
unfolding evaluate_spf check_spf_domain check_domain scan_tokens finish lookup_spf_record
    extract_domain read_token parse_spf_mechanism match_spf_mechanism dispatch
    ip_matches_with_optional_cidr to4 mask_ip ip_equal same_network to_lower trim trim_space fields
    atoi qualifier_to_result name_or_token
client_passes = refl

stranger_fails : (evaluate_spf dns parse_ip stranger (codes "h") (codes "<x@A.test>")).result ≡ fail
unfolding evaluate_spf check_spf_domain check_domain scan_tokens finish lookup_spf_record
    extract_domain read_token parse_spf_mechanism match_spf_mechanism dispatch
    ip_matches_with_optional_cidr to4 mask_ip ip_equal same_network to_lower trim trim_space fields
    atoi qualifier_to_result name_or_token
stranger_fails = refl

loop_is_an_error : (evaluate_spf dns parse_ip client (codes "L.test ") []).result ≡ permerror
unfolding evaluate_spf check_spf_domain check_domain scan_tokens finish lookup_spf_record
    extract_domain read_token parse_spf_mechanism match_spf_mechanism dispatch
    ip_matches_with_optional_cidr to4 mask_ip ip_equal same_network to_lower trim trim_space fields
    atoi qualifier_to_result name_or_token
loop_is_an_error = refl

check_spf_domain-InBudget_example :
    InBudget start (check_spf_domain dns parse_ip client 11 (codes "a.test") start)
check_spf_domain-InBudget_example =
    check_spf_domain-InBudget dns parse_ip client 11 (codes "a.test") start (omega arith)

check_spf_domain-levels_example :
    check_spf_domain dns parse_ip client 11 (codes "a.test") start
    ≡ check_spf_domain dns parse_ip client 14 (codes "a.test") start
check_spf_domain-levels_example = check_spf_domain-levels dns parse_ip client 3 (codes "a.test")

matches_v4_example :
    (ip_matches_with_optional_cidr client stranger (some 15) ≡ true)
    ↔ ((15 ≤ 32) × Same 15 (192 ∷ 1 ∷ 2 ∷ 7 ∷ []) (192 ∷ 0 ∷ 9 ∷ 9 ∷ []))
unfolding to4
matches_v4_example = matches_v4 client stranger 15 refl refl (omega arith) (omega arith)
