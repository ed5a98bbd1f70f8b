-- ===== src/Web/Trusted.antt =====
-- Which requests may speak for another client.
use sender_report.Base.{
  ◌≡◌, refl, ◌⊎◌, inl, inr, Bool, true, false, Option, none, some, List, [], ◌∷◌, arith, Bool-cases,
}
use sender_report.Text.{Bytes, codes, bytes_eq, split}
use sender_report.Web.Proxy.{
  NetText, Request, WebConfig, non_empty, first_ip, text_or, first_forwarded_ip, remote_addr_ip,
  is_request_from_trusted_proxy, is_trusted_proxy, client_ip, request_scheme, request_host,
  public_base_url, request_smtp_domain,
}

-- What the server takes from a request about its client and its own address, and the part of it that is not
-- about the host.
pub record SameClient (net : NetText) (trusted : List (net.Ip → Bool)) (cfg : WebConfig)
    (r q : Request) : Type 0 where
  pub same_client : client_ip net trusted r ≡ client_ip net trusted q
  pub same_scheme : request_scheme net trusted cfg r ≡ request_scheme net trusted cfg q

pub record SameHost (net : NetText) (trusted : List (net.Ip → Bool)) (cfg : WebConfig)
    (r q : Request) : Type 0 where
  pub same_host : request_host net trusted r ≡ request_host net trusted q
  pub same_base : public_base_url net trusted cfg r ≡ public_base_url net trusted cfg q
  pub same_domain : request_smtp_domain net trusted cfg r ≡ request_smtp_domain net trusted cfg q

module _ (net : NetText) where
  -- The text that some part of a header is read as, or nothing.
  text_or-cases :
      (o : Option net.Ip) (other : Bytes)
      → (other ≡ []) ⊎ ((ip : net.Ip) × (other ≡ net.ip_text ip))
      → (text_or net o other ≡ []) ⊎ ((ip : net.Ip) × (text_or net o other ≡ net.ip_text ip))
  text_or-cases none other h = h
  text_or-cases (some ip) other h = inr (ip, refl)

  first_ip-cases :
      (parts : List Bytes)
      → (first_ip net parts ≡ []) ⊎ ((ip : net.Ip) × (first_ip net parts ≡ net.ip_text ip))
  first_ip-cases [] = inl refl
  first_ip-cases (part ∷ parts) = text_or-cases _ _ (first_ip-cases parts)

  first_forwarded_ip-cases :
      (header : Bytes)
      → (first_forwarded_ip net header ≡ [])
        ⊎ ((ip : net.Ip) × (first_forwarded_ip net header ≡ net.ip_text ip))
  unfolding first_forwarded_ip
  first_forwarded_ip-cases header = first_ip-cases (split 44 header)

module _ (net : NetText) (trusted : List (net.Ip → Bool)) where
  direct_host :
      (r : Request) (h : Bytes → Bytes)
      → is_request_from_trusted_proxy net trusted r ≡ false
      → request_host net trusted (record r { header = h }) ≡ request_host net trusted r
  unfolding request_host is_request_from_trusted_proxy
  direct_host r h e = rw e

  direct_scheme :
      (cfg : WebConfig) (r : Request) (h : Bytes → Bytes) (named : Bytes)
      → is_request_from_trusted_proxy net trusted r ≡ false
      → request_scheme net trusted cfg (record r { header = h; host = named })
        ≡ request_scheme net trusted cfg r
  unfolding request_scheme is_request_from_trusted_proxy
  direct_scheme cfg r h named e = rw e

  -- A request that comes from no trusted proxy has the same client and scheme whatever its headers say, the
  -- Host header included; its host, its base address and its mail domain are the same whatever
  -- all headers but the Host header say.
  pub direct-SameClient :
      (cfg : WebConfig) (r : Request) (h : Bytes → Bytes)
      → is_request_from_trusted_proxy net trusted r ≡ false
      → ((named : Bytes) → SameClient net trusted cfg (record r { header = h; host = named }) r)
        × SameHost net trusted cfg (record r { header = h }) r
  unfolding client_ip is_request_from_trusted_proxy public_base_url request_smtp_domain
  direct-SameClient cfg r h e =
      let host = direct_host r h e in
      (
        λ named. record { same_client = rw e; same_scheme = direct_scheme cfg r h named e },
        record {
          same_host = host;
          same_base = rw (host, direct_scheme cfg r h r.host e);
          same_domain = rw host;
        },
      )

  -- The client of a request is the address of its connection, or, behind a trusted proxy, the text of an
  -- address; what a header says is never taken as it stands.
  pub client_ip-cases :
      (r : Request)
      → (client_ip net trusted r ≡ non_empty (remote_addr_ip net r.remote_addr) r.remote_addr)
        ⊎ ((is_request_from_trusted_proxy net trusted r ≡ true)
            × (ip : net.Ip) × (client_ip net trusted r ≡ net.ip_text ip))
  unfolding client_ip is_request_from_trusted_proxy
  client_ip-cases r =
      let forwarded = first_forwarded_ip net (r.header (codes "X-Forwarded-For")) in
      elim (Bool-cases (is_trusted_proxy net trusted (remote_addr_ip net r.remote_addr))) [
        | inr stranger ↦ inl (rw stranger)
        | inl proxy ↦ elim (Bool-cases (bytes_eq forwarded [])) [
          | inl bare ↦ inl (rw (proxy, bare))
          | inr named ↦ elim (first_forwarded_ip-cases net (r.header (codes "X-Forwarded-For"))) [
            | inl e ↦ absurd (ground (arith, e, named))
            | inr (ip, e) ↦ inr (proxy, ip, rw (proxy, named) e)
          ]
        ]
      ]
