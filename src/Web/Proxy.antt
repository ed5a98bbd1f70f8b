-- ===== src/Web/Proxy.antt =====
-- What a request says of its client, host and scheme, in internal/web/server.go. The package net is a
-- parameter, and so are the networks of the trusted proxies.
use sender_report.Base.{
  ℕ, Bool, false, ◌||◌, Option, none, some, List, [], ◌∷◌, ◌++◌, ◌==◌, if◌then◌else◌,
}
use sender_report.Text.{
  Bytes, codes, bytes_eq, has_prefix, cut, split, trim, trim_prefix, trim_space, to_lower,
}

-- `split_host_port` gives the host, or an error; `parse_ip` gives an address, or nil.
pub record NetText : Type 1 where
  pub Ip : Type 0
  pub split_host_port : Bytes → Option Bytes
  pub parse_ip : Bytes → Option Ip
  pub ip_text : Ip → Bytes

-- `header` is Header.Get.
pub record Request : Type 0 where
  pub remote_addr : Bytes
  pub host : Bytes
  pub tls : Bool
  pub header : Bytes → Bytes

pub record WebConfig : Type 0 where
  pub public_base_url : Bytes
  pub smtp_domain : Bytes
  pub enable_tls : Bool

abbrev pub non_empty : Bytes → Bytes → Bytes
non_empty a b = if bytes_eq a [] then b else a

-- The first part that is not blank.
abbrev pub first_value : List Bytes → Bytes
first_value [] = []
first_value (part ∷ parts) = non_empty (to_lower (trim_space part)) (first_value parts)

unfoldable pub first_header_value : Bytes → Bytes
first_header_value header = first_value (split 44 header)

abbrev pub is_quote : ℕ → Bool
is_quote c = c == 34

abbrev pub value_in : Bytes → Option (Bytes × Bytes) → Option Bytes
value_in key none = none
value_in key (some (name, value)) =
    if bytes_eq (to_lower (trim_space name)) key
    then some (to_lower (trim is_quote (trim_space value)))
    else none

abbrev pub first_pair : Bytes → List Bytes → Option Bytes
first_pair key [] = none
first_pair key (pair ∷ pairs) =
    let later = first_pair key pairs in
    elim (value_in key (cut (codes "=") (trim_space pair))) [ none ↦ later | some v ↦ some v ]

abbrev pub first_element : Bytes → List Bytes → Bytes
first_element key [] = []
first_element key (element ∷ elements) =
    let later = first_element key elements in
    elim (first_pair key (split 59 element)) [ none ↦ later | some v ↦ v ]

unfoldable pub forwarded_header_value : Bytes → Bytes → Bytes
forwarded_header_value header key = first_element (to_lower (trim_space key)) (split 44 header)

abbrev pub without_scheme : Bytes → Bytes
without_scheme s = trim_prefix (codes "https://") (trim_prefix (codes "http://") s)

-- The text before the first byte of a set.
abbrev pub before_any : (ℕ → Bool) → Bytes → Bytes
before_any stop [] = []
before_any stop (c ∷ s) = let rest = before_any stop s in if stop c then [] else c ∷ rest

abbrev pub ends_host : ℕ → Bool
ends_host c = c == 47 || c == 63 || c == 35

abbrev pub is_bracket : ℕ → Bool
is_bracket c = c == 91 || c == 93

abbrev pub is_scheme : Bytes → Bool
is_scheme s = bytes_eq s (codes "https") || bytes_eq s (codes "http")

module _ (net : NetText) where
  abbrev pub plain_host : Bytes → Bytes
  plain_host value = elim (net.split_host_port value) [
    | some host ↦ trim is_bracket host
    | none ↦ trim is_bracket (before_any (λ c. c == 58 || ends_host c) value)
  ]

  -- The text between brackets, if it begins with one and has a second.
  unfoldable pub clean_domain : Bytes → Bytes
  clean_domain value =
      let v = without_scheme (to_lower (trim_space value)) in
      if has_prefix (codes "[") v
      then elim (cut (codes "]") v) [
        | some (inside, after) ↦ trim is_bracket (inside ++ codes "]")
        | none ↦ plain_host v
      ]
      else plain_host v

  abbrev pub text_or : Option net.Ip → Bytes → Bytes
  text_or none other = other
  text_or (some ip) other = net.ip_text ip

  unfoldable pub remote_addr_ip : Bytes → Bytes
  remote_addr_ip remote_addr = elim (net.split_host_port (trim_space remote_addr)) [
    | some host ↦ text_or (net.parse_ip host) host
    | none ↦ text_or (net.parse_ip (trim_space remote_addr)) []
  ]

  abbrev pub first_ip : List Bytes → Bytes
  first_ip [] = []
  first_ip (part ∷ parts) = text_or (net.parse_ip (trim_space part)) (first_ip parts)

  unfoldable pub first_forwarded_ip : Bytes → Bytes
  first_forwarded_ip header = first_ip (split 44 header)

  module _ (trusted : List (net.Ip → Bool)) where
    abbrev pub in_any : List (net.Ip → Bool) → net.Ip → Bool
    in_any [] ip = false
    in_any (cidr ∷ cidrs) ip = cidr ip || in_any cidrs ip

    unfoldable pub is_trusted_proxy : Bytes → Bool
    is_trusted_proxy ip_text = elim (net.parse_ip (trim_space ip_text)) [
      | none ↦ false
      | some ip ↦ in_any trusted ip
    ]

    unfoldable pub is_request_from_trusted_proxy : Request → Bool
    is_request_from_trusted_proxy r = is_trusted_proxy (remote_addr_ip r.remote_addr)

    unfoldable pub client_ip : Request → Bytes
    client_ip r =
        let remote_ip = remote_addr_ip r.remote_addr in
        let direct = non_empty remote_ip r.remote_addr in
        if is_trusted_proxy remote_ip
        then non_empty (first_forwarded_ip (r.header (codes "X-Forwarded-For"))) direct
        else direct

    abbrev pub forwarded_scheme : Request → Bytes
    forwarded_scheme r =
        let proto = first_header_value (r.header (codes "X-Forwarded-Proto")) in
        let forwarded = forwarded_header_value (r.header (codes "Forwarded")) (codes "proto") in
        if is_scheme proto then proto else if is_scheme forwarded then forwarded else codes "http"

    unfoldable pub request_scheme : WebConfig → Request → Bytes
    request_scheme cfg r =
        if r.tls || cfg.enable_tls
        then codes "https"
        else if is_request_from_trusted_proxy r
        then forwarded_scheme r
        else codes "http"

    abbrev pub named_host : Request → Bytes
    named_host r =
        let forwarded = forwarded_header_value (r.header (codes "Forwarded")) (codes "host") in
        let x_host = first_header_value (r.header (codes "X-Forwarded-Host")) in
        if is_request_from_trusted_proxy r
        then non_empty forwarded (non_empty x_host (trim_space r.host))
        else trim_space r.host

    unfoldable pub request_host : Request → Bytes
    request_host r =
        let bare = without_scheme (trim_space (trim is_quote (named_host r))) in
        non_empty (before_any ends_host bare) (codes "localhost:8080")

    unfoldable pub public_base_url : WebConfig → Request → Bytes
    public_base_url cfg r =
        if bytes_eq cfg.public_base_url []
        then request_scheme cfg r ++ (codes "://" ++ request_host r)
        else cfg.public_base_url

    unfoldable pub request_smtp_domain : WebConfig → Request → Bytes
    request_smtp_domain cfg r =
        non_empty (clean_domain cfg.smtp_domain) (clean_domain (request_host r))
