-- ===== src/Policy/Lookup.antt =====
-- The lookup of a DMARC record, in internal/analyzer/dns.go, with the domains it is asked for. The IDNA
-- conversion, the TXT lookup with its fallback and the list of public suffixes are parameters.
use sender_report.Base.{
  Bool, true, false, not, ◌&&◌, ◌||◌, Option, none, some, List, [], ◌∷◌, ◌++◌, map, if◌then◌else◌,
  length, drop, filter,
}
use sender_report.Text.{
  Bytes, codes, bytes_eq, has_prefix, split, to_lower, trim_space, trim_suffix,
}
use sender_report.Dns.{Reply, DnsStatus, dns_ok, dns_absent, dns_unavailable, classify_dns_error}

unfoldable pub norm_domain : Bytes → Bytes
norm_domain d = trim_suffix (codes ".") (to_lower (trim_space d))

-- The value behind `key=` in the first part that begins with it.
abbrev pub tag_in : Bytes → List Bytes → Bytes
tag_in key [] = []
tag_in key (token ∷ tokens) =
    let t = trim_space token in
    let later = tag_in key tokens in
    let p = key ++ codes "=" in if has_prefix p t then trim_space (drop (length p) t) else later

unfoldable pub extract_tag_value : Bytes → Bytes → Bytes
extract_tag_value v key = tag_in key (split 59 v)

pub record DmarcLookupResult : Type 0 where
  pub records : List Bytes
  pub policy : Bytes
  pub domain : Bytes
  pub via_org : Bool
  pub status : DnsStatus

-- `registered` is publicsuffix.EffectiveTLDPlusOne.
pub record Names : Type 0 where
  pub ascii_domain : Bytes → Option Bytes
  pub lookup_txt_raw : Bytes → Reply Bytes
  pub registered : Bytes → Option Bytes

abbrev pub is_dmarc : Bytes → Bool
is_dmarc r = has_prefix (codes "v=dmarc1") (to_lower (trim_space r))

-- An answer without records is an absent one.
abbrev pub settled : List Bytes → DnsStatus → List Bytes × DnsStatus
settled [] dns_ok = ([], dns_absent)
settled (r ∷ rs) dns_ok = (r ∷ rs, dns_ok)
settled rs dns_absent = ([], dns_absent)
settled rs dns_unavailable = ([], dns_unavailable)

module _ (names : Names) where
  unfoldable pub lookup_txt : Bytes → List Bytes × DnsStatus
  lookup_txt name = elim (names.ascii_domain name) [
    | none ↦ ([], dns_absent)
    | some ascii ↦
        let reply = names.lookup_txt_raw ascii in settled reply.recs (classify_dns_error reply.err)
  ]

  unfoldable pub registrable_domain : Bytes → Bytes
  registrable_domain domain =
      let d = norm_domain domain in
      if bytes_eq d [] then [] else elim (names.registered d) [ none ↦ d | some e ↦ e ]

  unfoldable pub relaxed_aligned : Bytes → Bytes → Bool
  relaxed_aligned auth_domain from_domain =
      let a = registrable_domain auth_domain in
      let f = registrable_domain from_domain in
      not (bytes_eq a []) && (not (bytes_eq f []) && bytes_eq a f)

  abbrev pub nothing_at : Bytes → DnsStatus → DmarcLookupResult
  nothing_at domain status = record {
    records = [];
    policy = [];
    domain = domain;
    via_org = false;
    status = status;
  }

  -- The records at a domain that are for DMARC, if there are any.
  abbrev pub dmarc_among : Bytes → List Bytes → DmarcLookupResult × Bool
  dmarc_among domain [] = (nothing_at domain dns_absent, false)
  dmarc_among domain (r ∷ rs) =
      (record (nothing_at domain dns_ok) { records = map trim_space (r ∷ rs) }, true)

  abbrev pub dmarc_in : Bytes → List Bytes × DnsStatus → DmarcLookupResult × Bool
  dmarc_in domain (recs, dns_ok) = dmarc_among domain (filter is_dmarc recs)
  dmarc_in domain (recs, dns_absent) = (nothing_at domain dns_absent, false)
  dmarc_in domain (recs, dns_unavailable) = (nothing_at domain dns_unavailable, false)

  unfoldable pub dmarc_records_at : Bytes → DmarcLookupResult × Bool
  dmarc_records_at domain = dmarc_in domain (lookup_txt (codes "_dmarc." ++ domain))

  abbrev pub first_record : DmarcLookupResult → Bytes
  first_record res = elim (res.records) [ [] ↦ [] | r ∷ rs ↦ to_lower r ]

  -- The policy for subdomains, or the general one.
  abbrev pub org_policy : Bytes → Bytes
  org_policy lower =
      let sp = extract_tag_value lower (codes "sp") in
      if bytes_eq sp [] then extract_tag_value lower (codes "p") else sp

  abbrev pub via_organisation : DmarcLookupResult × Bool → DmarcLookupResult
  via_organisation (res, false) = res
  via_organisation (res, true) = record res {
    via_org = true;
    policy = org_policy (first_record res);
  }

  abbrev pub ask_org : Bytes → Bytes → DmarcLookupResult
  ask_org domain org =
      if bytes_eq org [] || bytes_eq org domain
      then nothing_at domain dns_absent
      else via_organisation (dmarc_records_at org)

  -- The organisation is asked unless the first question is answered with a record or not answered.
  abbrev pub after_first : Bytes → DmarcLookupResult × Bool → DmarcLookupResult
  after_first domain (res, true) = record res {
    policy = extract_tag_value (first_record res) (codes "p");
  }
  after_first domain (res, false) = elim (res.status) [
    | dns_unavailable ↦ res
    | _ ↦ ask_org domain (registrable_domain domain)
  ]

  unfoldable pub lookup_dmarc_record : Bytes → DmarcLookupResult
  lookup_dmarc_record from_domain =
      let d = norm_domain from_domain in
      if bytes_eq d [] then nothing_at [] dns_absent else after_first d (dmarc_records_at d)
