-- ===== src/Policy/Answers.antt =====
-- What DNS answers to the question for a domain's policy, said of the replies themselves.
use sender_report.Base.{
  ◌≡◌, refl, ap, ◌⊎◌, inl, inr, Bool, true, false, Option, none, some, List, [], ◌∷◌, ◌++◌, map,
  Option-cases, filter,
}
use sender_report.Text.{Bytes, codes, has_prefix, to_lower, trim_space}
use sender_report.Dns.{
  Reply, DnsError, classify_dns_error, DnsStatus, dns_ok, dns_absent, dns_unavailable, not_found,
  other_error,
}
use sender_report.Policy.Lookup.{
  Names, DmarcLookupResult, lookup_txt, settled, is_dmarc, dmarc_among, dmarc_in, dmarc_records_at,
  nothing_at,
}

-- The reply for the policy of a domain, where its name can be converted.
abbrev pub IsReply : Names → Bytes → Reply Bytes → Type 0
IsReply names d reply =
    (ascii : Bytes) × (names.ascii_domain (codes "_dmarc." ++ d) ≡ some ascii)
    × (names.lookup_txt_raw ascii ≡ reply)

abbrev pub is_policy : Bytes → Bool
is_policy r = has_prefix (codes "v=dmarc1") (to_lower (trim_space r))

-- DNS failed to answer for a domain.
abbrev pub IsSilent : Names → Bytes → Type 0
IsSilent names d = (reply : Reply Bytes) × IsReply names d reply × (reply.err ≡ some other_error)

-- Its name cannot be asked for; or DNS answered that there is no such name, or without a policy.
abbrev pub IsBare : Names → Bytes → Type 0
IsBare names d =
    (names.ascii_domain (codes "_dmarc." ++ d) ≡ none)
    ⊎ ((reply : Reply Bytes) × IsReply names d reply
        × ((reply.err ≡ some not_found)
            ⊎ ((reply.err ≡ none) × (filter is_policy reply.recs ≡ []))))

-- DNS answered with policies: these, without white space at their ends.
abbrev pub IsPublished : Names → Bytes → Bytes → List Bytes → Type 0
IsPublished names d r rs =
    (reply : Reply Bytes) × IsReply names d reply
    × (reply.err ≡ none)
    × (map trim_space (filter is_policy reply.recs) ≡ r ∷ rs)

module _ (names : Names) where
  pub data Seen (d : Bytes) : DmarcLookupResult × Bool → Type 0 where
    bare : IsBare names d → Seen d (nothing_at names d dns_absent, false)
    silent : IsSilent names d → Seen d (nothing_at names d dns_unavailable, false)
    published :
        (r : Bytes) (rs : List Bytes)
        → IsPublished names d r rs
        → Seen d (record (nothing_at names d dns_ok) { records = r ∷ rs }, true)

  -- The answer of lookupTXT, and what the replies were.
  data Looked (d : Bytes) : List Bytes × DnsStatus → Type 0 where
    without : IsBare names d → Looked d ([], dns_absent)
    failed : IsSilent names d → Looked d ([], dns_unavailable)
    answered :
        (reply : Reply Bytes) (recs : List Bytes)
        → IsReply names d reply
        → reply.err ≡ none
        → reply.recs ≡ recs
        → Looked d (recs, dns_ok)

  settled-Looked :
      (d : Bytes) (reply : Reply Bytes) (recs : List Bytes) (err : Option DnsError)
      → IsReply names d reply
      → reply.recs ≡ recs
      → reply.err ≡ err
      → Looked d (settled recs (classify_dns_error err))
  settled-Looked d reply [] none known q e =
      without (inr (reply, known, inr (e, ap (filter is_policy) q)))
  settled-Looked d reply (r ∷ rs) none known q e = answered reply (r ∷ rs) known e q
  settled-Looked d reply [] (some not_found) known q e = without (inr (reply, known, inl e))
  settled-Looked d reply (r ∷ rs) (some not_found) known q e = without (inr (reply, known, inl e))
  settled-Looked d reply [] (some other_error) known q e = failed (reply, known, e)
  settled-Looked d reply (r ∷ rs) (some other_error) known q e = failed (reply, known, e)

  looked : (d : Bytes) → Looked d (lookup_txt names (codes "_dmarc." ++ d))
  looked d = elim (Option-cases (names.ascii_domain (codes "_dmarc." ++ d))) [
    | inl e ↦ unfold lookup_txt in rw (lookup_txt, e) (without (inl e))
    | inr (ascii, e) ↦
        let reply = names.lookup_txt_raw ascii in
        let all : Looked d (settled reply.recs (classify_dns_error reply.err)) =
          settled-Looked d reply reply.recs reply.err (ascii, e, refl) refl refl in
        unfold lookup_txt in rw (lookup_txt, e) all
  ]

  seen_among :
      (d : Bytes) (reply : Reply Bytes) (rs : List Bytes)
      → IsReply names d reply
      → reply.err ≡ none
      → filter is_dmarc reply.recs ≡ rs
      → Seen d (dmarc_among names d rs)
  seen_among d reply [] known ok e = bare (inr (reply, known, inr (ok, e)))
  seen_among d reply (r ∷ rs) known ok e =
      published (trim_space r) (map trim_space rs) (reply, known, ok, ap (map trim_space) e)

  seen_in : (d : Bytes) {q : List Bytes × DnsStatus} → Looked d q → Seen d (dmarc_in names d q)
  seen_in d (without h) = bare h
  seen_in d (failed h) = silent h
  seen_in d (answered reply recs known ok q) =
      seen_among d reply (filter is_dmarc recs) known ok (ap (filter is_dmarc) q)

  pub seen : (d : Bytes) → Seen d (dmarc_records_at names d)
  unfolding dmarc_records_at
  seen d = seen_in d (looked d)
