-- ===== src/Auth/Injection.antt =====
-- No value that a client chooses breaks out of the header line it is written to.
use sender_report.Base.{
  ℕ, ◌≡◌, refl, inl, inr, Bool, true, false, not, ◌&&◌, ◌||◌, List, [], ◌∷◌, ◌++◌, arith,
  Bool-cases, ◌==◌, All, if◌then◌else◌,
}
use sender_report.Text.{Bytes, codes, trim_space}
use sender_report.Spf.Parse.{SpfResult, is_empty_text}
use sender_report.Smtp.Session.{ReceivedMail}
use sender_report.Auth.Headers.{
  without, safe_auth_value, AuthResults, sprint, or_default, detail_header, for_clause,
  build_authentication_results_header, build_received_header, build_received_spf_header,
  receiver_headers,
}

-- Where the reading of a header field stands: in its text, behind a CR, or behind a CR LF.
pub data Place : Type 0 where
  in_text after_cr after_lf : Place

abbrev pub step_ok : Place → ℕ → Bool
step_ok in_text c = not (c == 10)
step_ok after_cr c = c == 10
step_ok after_lf c = c == 9

abbrev pub next : Place → ℕ → Place
next in_text c = if c == 13 then after_cr else in_text
next after_cr c = after_lf
next after_lf c = in_text

abbrev pub is_end : Place → Bool
is_end in_text = true
is_end after_cr = false
is_end after_lf = false

abbrev pub reads_field : Place → Bytes → Bool
reads_field p [] = is_end p
reads_field p (c ∷ s) = step_ok p c && reads_field (next p c) s

-- One header field: a line break is a CR LF with a tab behind it, and no CR or LF stands alone.
unfoldable pub IsField : Bytes → Type 0
IsField h = reads_field in_text h ≡ true

-- No CR and no LF.
abbrev pub is_line : Bytes → Bool
is_line [] = true
is_line (c ∷ s) = not (c == 13 || c == 10) && is_line s

abbrev pub IsLine : Bytes → Type 0
IsLine s = is_line s ≡ true

append_reads :
    (p : Place) (s t : Bytes)
    → reads_field p s ≡ true
    → reads_field in_text t ≡ true
    → reads_field p (s ++ t) ≡ true
append_reads in_text [] t hs ht = ht
append_reads after_cr [] t hs ht = absurd (cc)
append_reads after_lf [] t hs ht = absurd (cc)
append_reads p (c ∷ s) t hs ht = ground (arith, append_reads (next p c) s t)

IsField-append : (s t : Bytes) → IsField s → IsField t → IsField (s ++ t)
unfolding IsField
IsField-append s t hs ht = append_reads in_text s t hs ht

literal : (s : Bytes) → reads_field in_text s ≡ true → IsField s
unfolding IsField
literal s h = h

infixr 5 ◌⊹◌
-- A proof for the first part, and one for the others.
◌⊹◌ : {A B : Type 0} → A → B → A × B
◌⊹◌ a b = (a, b)

IsLine-IsField : (s : Bytes) → IsLine s → IsField s
unfolding IsField
IsLine-IsField [] h = refl
IsLine-IsField (c ∷ s) h = ground (arith, h, IsLine-IsField s)

-- The value without semicolon, CR and LF.
safe_text-IsField : (s : Bytes) → IsField (without 10 (without 13 (without b';' s)))
unfolding IsField
safe_text-IsField [] = refl
safe_text-IsField (c ∷ s) = ground (arith, safe_text-IsField s)

safe : (v : Bytes) → IsField (safe_auth_value v)
unfolding safe_auth_value
safe v = elim (Bool-cases (is_empty_text (trim_space v))) [
  | inl e ↦ rw e (literal _ refl)
  | inr e ↦ rw e (safe_text-IsField (trim_space v))
]

sprint-IsField : (ps : List Bytes) → All IsField ps → IsField (sprint ps)
unfolding sprint
sprint-IsField [] h = literal _ refl
sprint-IsField (p ∷ ps) h = IsField-append p (sprint ps) h.0 (sprint-IsField ps h.1)

or_default-IsField : (host : Bytes) → IsLine host → IsField (or_default host)
or_default-IsField host h = elim (Bool-cases (is_empty_text (trim_space host))) [
  | inl e ↦ rw e (literal _ refl)
  | inr e ↦ rw e (IsLine-IsField host h)
]

for_clause-IsField : (rcpt : Bytes) → IsField (for_clause rcpt)
for_clause-IsField rcpt = elim (Bool-cases (is_empty_text (trim_space rcpt))) [
  | inl e ↦ rw e (literal _ refl)
  | inr e ↦ rw e (sprint-IsField _ (literal _ refl ⊹ literal _ refl ⊹ safe _ ⊹ literal _ refl ⊹ tt))
]

proto-IsField : (b : Bool) → IsField (if b then codes "ESMTPS" else codes "ESMTP")
proto-IsField true = literal _ refl
proto-IsField false = literal _ refl

authentication_results-IsField :
    (host : Bytes) (res : AuthResults)
    → IsLine host
    → IsField (build_authentication_results_header host res)
unfolding build_authentication_results_header
authentication_results-IsField host res h = sprint-IsField _ (
    literal _ refl
    ⊹ or_default-IsField host h
    ⊹ literal _ refl
    ⊹ safe _
    ⊹ literal _ refl
    ⊹ safe _
    ⊹ literal _ refl
    ⊹ safe _
    ⊹ literal _ refl
    ⊹ safe _
    ⊹ literal _ refl
    ⊹ safe _
    ⊹ literal _ refl
    ⊹ safe _
    ⊹ tt)

received_spf-IsField :
    (host : Bytes) (rm : ReceivedMail) (r : SpfResult)
    → IsField (build_received_spf_header host rm r)
unfolding build_received_spf_header
received_spf-IsField host rm r = sprint-IsField _ (
    literal _ refl
    ⊹ safe _
    ⊹ literal _ refl
    ⊹ safe _
    ⊹ literal _ refl
    ⊹ safe _
    ⊹ literal _ refl
    ⊹ safe _
    ⊹ literal _ refl
    ⊹ safe _
    ⊹ tt)

received-IsField :
    (now host : Bytes) (rm : ReceivedMail)
    → IsLine now
    → IsField (build_received_header now host rm)
unfolding build_received_header
received-IsField now host rm h = sprint-IsField _ (
    literal _ refl
    ⊹ safe _
    ⊹ literal _ refl
    ⊹ safe _
    ⊹ literal _ refl
    ⊹ literal _ refl
    ⊹ literal _ refl
    ⊹ safe _
    ⊹ literal _ refl
    ⊹ proto-IsField (rm.tls)
    ⊹ literal _ refl
    ⊹ for_clause-IsField (rm.rcpt_to)
    ⊹ literal _ refl
    ⊹ IsLine-IsField now h
    ⊹ tt)

detail-IsField :
    (name detail : Bytes) → reads_field in_text name ≡ true → IsField (detail_header name detail)
detail-IsField name detail h = IsField-append name _ (literal name h) (safe _)

-- Whatever a client sends and whatever the checks found, each header line that the receiver writes
-- is one field: a line break in it is a CR LF with a tab behind it, and there is no other CR or LF.
-- The configured domain and the text of the time have no CR and no LF.
pub receiver_headers-IsField :
    (now host : Bytes) (rm : ReceivedMail) (res : AuthResults)
    → IsLine now
    → IsLine host
    → All IsField (receiver_headers now host rm res)
unfolding receiver_headers
receiver_headers-IsField now host rm res hn hh = (
  received-IsField now host rm hn,
  (
    authentication_results-IsField host res hh,
    (
      received_spf-IsField host rm (res.spf_result),
      (
        detail-IsField (codes "X-Sender-Report-SPF-Detail: ") (res.spf_detail) refl,
        (
          detail-IsField (codes "X-Sender-Report-DKIM-Detail: ") (res.dkim_detail) refl,
          (detail-IsField (codes "X-Sender-Report-DMARC-Detail: ") (res.dmarc_detail) refl, tt),
        ),
      ),
    ),
  ),
)
