-- ===== src/Create/Tests.antt =====
-- Requests for mailboxes with limits of one.
use sender_report.Base.{◌≡◌, refl, true, false, none, some, List, [], ◌∷◌, map, arith}
use sender_report.Text.{Bytes, codes, trim_space, to_lower}
use sender_report.Sealed.{identifier}
use sender_report.Sealed.Tests.{small_crypto}
use sender_report.Store.Tables.{Mailbox, Db}
use sender_report.Store.Sound.{IsSound}
use sender_report.Store.Empty.{empty, empty-IsSound}
use sender_report.Store.Mailboxes.{
  count_active_mailboxes_by_ip, count_active_mailboxes, get_mailbox_by_address,
  get_mailbox_by_token, create_mailbox, update_mailbox_checks, delete_mailbox_by_token,
}
use sender_report.Web.Proxy.{
  NetText, Request, WebConfig, client_ip, is_trusted_proxy, remote_addr_ip, request_smtp_domain,
  request_host, clean_domain,
}
use sender_report.Create.Program.{too_many_for_ip, could_not_create, Program, exec, alone}
use sender_report.Create.Handler.{
  CreateConfig, CreateRequest, HexText, generate_mailbox_address, handle_create_mailbox,
}
use sender_report.Create.Traffic.{IsWithin, Traffic, begin, arrives, goes_on}
use sender_report.Create.Limits.{IsCreateHandler, Traffic-IsWithin}

-- An address is its text.
abbrev text_net : NetText
text_net = record {
  Ip = Bytes;
  split_host_port = λ s. none;
  parse_ip = λ s. some s;
  ip_text = λ ip. ip;
}

abbrev hex : HexText
hex = record { encode_hex = λ s. s; decode_hex = λ s. some s }

abbrev ones : CreateConfig
ones = record { max_active_per_ip = 1; max_active_global = 1; mailbox_ttl = 10 }

abbrev web : WebConfig
web = record { public_base_url = []; smtp_domain = codes "host.test"; enable_tls = false }

abbrev origin : Bytes → Request
origin kind = record {
  remote_addr = codes "192.0.2.1";
  host = codes "host.test";
  tls = false;
  header = λ name. kind;
}

abbrev form : Bytes → CreateRequest
form bytes = record {
  method = codes "POST";
  origin = origin [];
  body = none;
  random = λ i. some bytes;
}

-- A key whose identifier is the first ten bytes that `small_crypto` hashes.
abbrev client : CreateRequest
client = record (form []) {
  origin = origin (codes "application/json");
  body = some (record {
    identifier = codes "senderrepo";
    public_key = codes "0123456789abcdef0123456789abcdef";
    check_domain_age = true;
    check_domain_blocklist = false;
    check_broken_links = false;
  });
}

abbrev handled : CreateRequest → Program
handled r = handle_create_mailbox hex text_net small_crypto ones [] web r

abbrev after_one : Db
after_one = (alone 5 (handled (form (codes "ab"))) empty).1

-- The second request is refused until the mailbox of the first has expired.
refused : (alone 14 (handled client) after_one).0 ≡ too_many_for_ip
unfolding alone exec handle_create_mailbox generate_mailbox_address count_active_mailboxes_by_ip
    count_active_mailboxes get_mailbox_by_address get_mailbox_by_token create_mailbox
    update_mailbox_checks delete_mailbox_by_token identifier client_ip is_trusted_proxy
    remote_addr_ip request_smtp_domain request_host clean_domain trim_space to_lower
refused = refl

address_is_new : map (λ (m : Mailbox). m.address) after_one.mailboxes ≡ codes "ab@host.test" ∷ []
unfolding alone exec handle_create_mailbox generate_mailbox_address count_active_mailboxes_by_ip
    count_active_mailboxes get_mailbox_by_address get_mailbox_by_token create_mailbox
    update_mailbox_checks delete_mailbox_by_token identifier client_ip is_trusted_proxy
    remote_addr_ip request_smtp_domain request_host clean_domain trim_space to_lower
address_is_new = refl

expired_later :
    map (λ (m : Mailbox). m.token) (alone 15 (handled client) after_one).1.mailboxes
    ≡ codes "ab" ∷ codes "senderrepo" ∷ []
unfolding alone exec handle_create_mailbox generate_mailbox_address count_active_mailboxes_by_ip
    count_active_mailboxes get_mailbox_by_address get_mailbox_by_token create_mailbox
    update_mailbox_checks delete_mailbox_by_token identifier client_ip is_trusted_proxy
    remote_addr_ip request_smtp_domain request_host clean_domain trim_space to_lower
expired_later = refl

-- Eight tries of an address that is taken.
taken : (alone 15 (handled (form (codes "ab"))) after_one).0 ≡ could_not_create
unfolding alone exec handle_create_mailbox generate_mailbox_address count_active_mailboxes_by_ip
    count_active_mailboxes get_mailbox_by_address get_mailbox_by_token create_mailbox
    update_mailbox_checks delete_mailbox_by_token identifier client_ip is_trusted_proxy
    remote_addr_ip request_smtp_domain request_host clean_domain trim_space to_lower
taken = refl

abbrev ab : Program
ab = handled (form (codes "ab"))

abbrev cd : Program
cd = handled (form (codes "cd"))

empty-IsWithin : IsWithin 1 1 5 empty
unfolding count_active_mailboxes_by_ip count_active_mailboxes
empty-IsWithin = record { by_ip = λ ip. omega arith; in_all = omega arith }

abbrev Run : List Program → Db → Type 0
Run ps d = Traffic (IsCreateHandler hex text_net small_crypto ones [] web) ones 1 5 ps d

first : {p q : Program} {d : Db} → Run (p ∷ q ∷ []) d → Run ((exec 5 p d).0 ∷ q ∷ []) (exec 5 p d).1
first {p = p} {q = q} r = goes_on 5 [] p (q ∷ []) (omega arith) r

second :
    {p q : Program} {d : Db} → Run (p ∷ q ∷ []) d → Run (p ∷ (exec 5 q d).0 ∷ []) (exec 5 q d).1
second {p = p} {q = q} r = goes_on 5 (p ∷ []) q [] (omega arith) r

two_arrive : Run (ab ∷ cd ∷ []) empty
two_arrive =
    arrives ab (form (codes "ab"), refl) (omega arith)
      (arrives cd (form (codes "cd"), refl) (omega arith)
        (begin 5 empty empty-IsSound empty-IsWithin))

-- Two requests that count before either creates.
abbrev overbooked : (ps : List Program) × (d : Db) × Run ps d
overbooked = (_, _, second (second (first (first (first (second (first (second two_arrive))))))))

limit_passed : count_active_mailboxes_by_ip 5 (codes "192.0.2.1") overbooked.1 ≡ 2
unfolding alone exec handle_create_mailbox generate_mailbox_address count_active_mailboxes_by_ip
    count_active_mailboxes get_mailbox_by_address get_mailbox_by_token create_mailbox
    update_mailbox_checks delete_mailbox_by_token identifier client_ip is_trusted_proxy
    remote_addr_ip request_smtp_domain request_host clean_domain trim_space to_lower
limit_passed = refl

Traffic-IsWithin_example : IsSound overbooked.1 × IsWithin 2 2 5 overbooked.1
Traffic-IsWithin_example =
    Traffic-IsWithin hex text_net small_crypto ones [] web 1 5 overbooked.0 overbooked.1
      overbooked.2
