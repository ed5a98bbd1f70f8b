-- ===== src/Create/Handler.antt =====
-- `createMailbox` and `generateMailboxAddress`. What the JSON decoder reads of the body, the hex codec,
-- and the random bytes are parameters.
use sender_report.Base.{
  ℕ, zero, suc, Bool, not, ◌||◌, Option, none, some, List, [], ◌++◌, leb, ◌==◌, length,
  if◌then◌else◌,
}
use sender_report.Text.{Bytes, codes, bytes_eq, contains}
use sender_report.Sealed.{Crypto, identifier}
use sender_report.Store.Tables.{Mailbox, Answer, ok, not_found, constraint}
use sender_report.Store.Mailboxes.{NewMailbox}
use sender_report.Web.Proxy.{
  NetText, Request, WebConfig, non_empty, clean_domain, client_ip, request_smtp_domain,
}
use sender_report.Create.Program.{
  method_not_allowed, too_many_for_ip, too_many_globally, invalid_public_key, wrong_identifier,
  could_not_create, reused, created, redirected, Program, reply, ask_active_by_ip, ask_active,
  ask_token, ask_address, ask_if_valid, insert, mark_seen, remove, choose,
}

-- A limit of zero or less is 0.
pub record CreateConfig : Type 0 where
  pub max_active_per_ip : ℕ
  pub max_active_global : ℕ
  pub mailbox_ttl : ℕ

pub record CreateBody : Type 0 where
  pub identifier : Bytes
  pub public_key : Bytes
  pub check_domain_age : Bool
  pub check_domain_blocklist : Bool
  pub check_broken_links : Bool

-- `body` is what the decoder gives, none on its error; `random i` are the bytes of the request's call
-- `i` of rand.Read, none on an error.
pub record CreateRequest : Type 0 where
  pub method : Bytes
  pub origin : Request
  pub body : Option CreateBody
  pub random : ℕ → Option Bytes

pub record HexText : Type 0 where
  pub encode_hex : Bytes → Bytes
  pub decode_hex : Bytes → Option Bytes

-- `token@domain`
abbrev pub address_of : Bytes → Bytes → Bytes
address_of token domain = token ++ (codes "@" ++ domain)

-- The replies after CreateMailbox.
abbrev pub as_json : Answer Mailbox → Program
as_json (ok mb) = reply (created mb)
as_json not_found = reply could_not_create
as_json constraint = reply could_not_create

abbrev pub as_redirect : Answer Mailbox → Program
as_redirect (ok mb) = reply (redirected mb)
as_redirect not_found = reply could_not_create
as_redirect constraint = reply could_not_create

abbrev pub with_choices : CreateBody → Answer Mailbox → Program
with_choices b (ok mb) =
    if b.check_domain_age || b.check_domain_blocklist || b.check_broken_links
    then choose mb.token b.check_domain_age b.check_domain_blocklist b.check_broken_links (
        reply (
          created (record mb {
            check_domain_age = b.check_domain_age;
            check_domain_blocklist = b.check_domain_blocklist;
            check_broken_links = b.check_broken_links;
          })))
    else reply (created mb)
with_choices b not_found = reply could_not_create
with_choices b constraint = reply could_not_create

-- A client's mailbox: one that is still valid is given again, an expired one makes room.
abbrev pub replace_or_create : CreateBody → NewMailbox → Answer Mailbox → Program
replace_or_create b n (ok existing) = ask_if_valid existing.expires_at (λ valid.
    if valid
    then mark_seen existing.id (reply (reused existing))
    else remove existing.token (insert n (with_choices b)))
replace_or_create b n not_found = insert n (with_choices b)
replace_or_create b n constraint = insert n (with_choices b)

-- An address that nobody has, or one more try.
abbrev pub unless_taken :
    Bytes × Bytes → (Option (Bytes × Bytes) → Program) → Program → Answer Mailbox → Program
unless_taken names next again not_found = next (some names)
unless_taken names next again (ok mb) = again
unless_taken names next again constraint = next none

module _ (hex : HexText) where
  -- The tries from one on, at most a number of them. A random address that is taken counts as one.
  abbrev pub try_addresses :
      (ℕ → Option Bytes) → ℕ → ℕ → Bytes → (Option (Bytes × Bytes) → Program) → Program
  try_addresses random i zero domain next = next none
  try_addresses random i (suc n) domain next = elim (random i) [
    | none ↦ next none
    | some bytes ↦
        let token = hex.encode_hex bytes in
        let again = try_addresses random (suc i) n domain next in
        ask_address (address_of token domain)
          (unless_taken (token, address_of token domain) next again)
  ]

  module _ (net : NetText) where
    unfoldable pub generate_mailbox_address :
        (ℕ → Option Bytes) → Bytes → (Option (Bytes × Bytes) → Program) → Program
    generate_mailbox_address random domain next =
        try_addresses random 0 8 (non_empty (clean_domain net domain) (codes "sender-report.local"))
          next

    module _ (crypto : Crypto) (cfg : CreateConfig) where
      abbrev pub new_mailbox : Bytes → Bytes → Bytes → Bytes → NewMailbox
      new_mailbox ip token address key = record {
        token = token;
        address = address;
        public_key = key;
        ip = ip;
        ttl = cfg.mailbox_ttl;
      }

      abbrev pub for_client : Bytes → Bytes → CreateBody → Option Bytes → Program
      for_client ip domain b none = reply invalid_public_key
      for_client ip domain b (some key) =
          if not (length key == 32)
          then reply invalid_public_key
          else if not (bytes_eq (identifier crypto key) b.identifier)
          then reply wrong_identifier
          else ask_token b.identifier (
              replace_or_create b (
                new_mailbox ip b.identifier (address_of b.identifier (clean_domain net domain))
                  b.public_key))

      abbrev pub at_address : Bytes → (Answer Mailbox → Program) → Option (Bytes × Bytes) → Program
      at_address ip next none = reply could_not_create
      at_address ip next (some (token, address)) = insert (new_mailbox ip token address []) next

      -- A body that names an identifier and a key, or the address that the server makes.
      abbrev pub for_body : Bytes → Bytes → (ℕ → Option Bytes) → Option CreateBody → Program
      for_body ip domain random none =
          generate_mailbox_address random domain (at_address ip as_json)
      for_body ip domain random (some b) =
          if bytes_eq b.identifier [] || bytes_eq b.public_key []
          then generate_mailbox_address random domain (at_address ip as_json)
          else for_client ip domain b (hex.decode_hex b.public_key)

      abbrev pub after_limits : Bytes → Bytes → CreateRequest → Program
      after_limits ip domain r =
          if contains (codes "application/json") (r.origin.header (codes "Content-Type"))
          then for_body ip domain r.random r.body
          else generate_mailbox_address r.random domain (at_address ip as_redirect)

      abbrev pub within_limits : Bytes → Bytes → CreateRequest → Program
      within_limits ip domain r = ask_active_by_ip ip (λ active.
          if leb cfg.max_active_per_ip active
          then reply too_many_for_ip
          else ask_active (λ all.
            if leb cfg.max_active_global all
            then reply too_many_globally
            else after_limits ip domain r))

      module _ (trusted : List (net.Ip → Bool)) (web : WebConfig) where
        unfoldable pub handle_create_mailbox : CreateRequest → Program
        handle_create_mailbox r =
            if not (bytes_eq r.method (codes "POST"))
            then reply method_not_allowed
            else within_limits (client_ip net trusted r.origin)
                (request_smtp_domain net trusted web r.origin) r
