-- ===== src/Web/Tests.antt =====
-- Requests, addresses and checks.
use sender_report.Base.{◌≡◌, refl, Bool, true, false, none, some, List, [], ◌∷◌, map, if◌then◌else◌}
use sender_report.Text.{Bytes, codes, bytes_eq, split, trim, trim_space, to_lower, decimal}
use sender_report.Web.Paths.{
  de, en, clean_request_path, https_exempt, local_return_path, set_lang, swap_lang_prefix,
  split_lang_prefix, lang_path, lang_prefixed_page,
}
use sender_report.Web.Language.{detect, detect_from_header}
use sender_report.Web.Local.{IsLocal, set_lang-IsLocal}
use sender_report.Web.Proxy.{
  NetText, Request, WebConfig, client_ip, is_trusted_proxy, is_request_from_trusted_proxy,
  remote_addr_ip, first_forwarded_ip,
}
use sender_report.Web.Trusted.{SameClient, SameHost, direct-SameClient}
use sender_report.Web.Checks.{
  ShownCheck, rank, insert_check, sort_checks, group_report_checks, category_of, wait_seconds,
  wait_text, count_noun,
}

clean : clean_request_path (codes "/api/x/") ≡ true
unfolding clean_request_path split
clean = refl

dotted : https_exempt (codes "/api/" ∷ []) (codes "/api/../x") ≡ false
unfolding https_exempt clean_request_path split
dotted = refl

below : https_exempt (codes "/healthz" ∷ codes "/api/" ∷ []) (codes "/api/x") ≡ true
unfolding https_exempt clean_request_path split
below = refl

switched :
    set_lang (λ s. some (s, codes "a=1")) (codes "de") (codes "/en/guides") ≡ codes "/de/guides?a=1"
unfolding set_lang swap_lang_prefix local_return_path split_lang_prefix lang_path lang_prefixed_page
switched = refl

foreign : set_lang (λ s. some (s, [])) (codes "en") (codes "//evil.test/") ≡ codes "/"
unfolding set_lang swap_lang_prefix local_return_path split_lang_prefix lang_path lang_prefixed_page
foreign = refl

set_lang-IsLocal_example :
    IsLocal (set_lang (λ s. some (s, codes "a=1")) (codes "de") (codes "/en//evil.test"))
set_lang-IsLocal_example =
    set_lang-IsLocal (λ s. some (s, codes "a=1")) (codes "de") (codes "/en//evil.test")

-- An address is its text, and only one is a proxy.
abbrev text_net : NetText
text_net = record {
  Ip = Bytes;
  split_host_port = λ s. none;
  parse_ip = λ s. if bytes_eq s [] then none else some s;
  ip_text = λ ip. ip;
}

abbrev proxies : List (Bytes → Bool)
proxies = bytes_eq (codes "10.0.0.1") ∷ []

abbrev request : Bytes → Request
request remote = record {
  remote_addr = remote;
  host = codes "host.test";
  tls = false;
  header = λ name. codes " 192.0.2.7, 10.0.0.9";
}

abbrev config : WebConfig
config = record { public_base_url = []; smtp_domain = []; enable_tls = false }

behind_proxy : client_ip text_net proxies (request (codes "10.0.0.1")) ≡ codes "192.0.2.7"
unfolding client_ip is_trusted_proxy remote_addr_ip first_forwarded_ip split trim_space trim
behind_proxy = refl

direct : client_ip text_net proxies (request (codes "10.0.0.2")) ≡ codes "10.0.0.2"
unfolding client_ip is_trusted_proxy remote_addr_ip first_forwarded_ip split trim_space trim
direct = refl

stranger : is_request_from_trusted_proxy text_net proxies (request (codes "10.0.0.2")) ≡ false
unfolding is_request_from_trusted_proxy is_trusted_proxy remote_addr_ip trim_space trim
stranger = refl

direct-SameClient_example :
    ((named : Bytes)
      → SameClient text_net proxies config
          (record (request (codes "10.0.0.2")) { header = λ name. []; host = named })
          (request (codes "10.0.0.2")))
    × SameHost text_net proxies config
        (record (request (codes "10.0.0.2")) { header = λ name. [] })
        (request (codes "10.0.0.2"))
direct-SameClient_example =
    direct-SameClient text_net proxies config (request (codes "10.0.0.2")) (λ name. []) stranger

abbrev shown : Bytes → Bytes → ShownCheck
shown name status = record { name = name; status = status; category = []; details = [] }

abbrev three : List ShownCheck
three =
    shown (codes "B") (codes "fail")
    ∷ shown (codes "C") (codes "warn")
    ∷ shown (codes "A") (codes "na")
    ∷ []

-- A check that does not apply comes before one that failed.
na_first :
    sort_checks three
    ≡ shown (codes "A") (codes "na")
      ∷ shown (codes "B") (codes "fail")
      ∷ shown (codes "C") (codes "warn")
      ∷ []
unfolding sort_checks insert_check rank
na_first = refl

one_group : map (λ g. g.na_count) (group_report_checks three en) ≡ 1 ∷ []
unfolding group_report_checks category_of trim_space trim
one_group = refl

minutes : wait_text en 61000000000 ≡ codes "2 minutes"
unfolding wait_text wait_seconds count_noun decimal
minutes = refl

from_browser : detect (some (codes "fr")) (codes "fr, DE-at;q=0.8, en") ≡ de
unfolding detect detect_from_header split trim_space trim to_lower
from_browser = refl
