-- ===== src/Auth/Kept.antt =====
-- What `stripReceiverHeaders` takes out of a header, and what it keeps, said by the names of the fields.
use sender_report.Base.{
  ◌≡◌, refl, ap, ◌∙◌, inl, inr, Bool, true, false, not, ◌&&◌, ◌||◌, List, [], ◌∷◌, ◌++◌, arith,
  Bool-cases, filter,
}
use sender_report.Text.{Bytes, codes, has_prefix, contains, bytes_eq, bytes_eq_sound, to_lower}
use sender_report.Auth.Strip.{
  field_name, flat_value, FieldKind, detail, authentication_results, received_spf, received, other,
  field_kind, strip_blocks,
}
use sender_report.Auth.Kinds.{
  is_dropped_of, is_dropped, is_received, is_own, drop_first, first_says, strip_blocks-kinds,
}

-- A result of an earlier check, by the name of its field and its value on one line: a detail field, whoever
-- wrote it, or a field that names this host.
abbrev pub is_result_named : Bytes → Bytes → Bytes → Bool
is_result_named host name value =
    has_prefix (codes "x-sender-report-") name
    || (bytes_eq name (codes "authentication-results") && has_prefix (host ++ codes ";") value)
    || (bytes_eq name (codes "received-spf") && contains (codes "receiver=" ++ host) value)

abbrev pub is_result : Bytes → Bytes → Bool
is_result host b = is_result_named host (field_name b) (flat_value b)

-- A Received field that this host wrote.
abbrev pub is_own_received : Bytes → Bytes → Bool
is_own_received host b =
    bytes_eq (field_name b) (codes "received")
    && contains (codes " by " ++ (host ++ codes " with ")) (flat_value b)

-- What a Received field says of the encryption of the delivery.
abbrev pub is_encrypted_by : Bytes → Bool
is_encrypted_by b = contains (codes " with esmtps") (to_lower (flat_value b))

-- What the name of a field says of its kind, test by test.
abbrev IsKind : Bytes → Bool → Bool → Bool → Bool → FieldKind → Type 0
IsKind name d a s r kind =
    (field_kind name ≡ kind)
    × (has_prefix (codes "x-sender-report-") name ≡ d)
    × (bytes_eq name (codes "authentication-results") ≡ a)
    × (bytes_eq name (codes "received-spf") ≡ s)
    × (bytes_eq name (codes "received") ≡ r)

data KindOf (name : Bytes) : Type 0 where
  as_detail : IsKind name true false false false detail → KindOf name
  as_results : IsKind name false true false false authentication_results → KindOf name
  as_spf : IsKind name false false true false received_spf → KindOf name
  as_received : IsKind name false false false true received → KindOf name
  as_other : IsKind name false false false false other → KindOf name

-- A name that has a prefix which a literal lacks is not the literal.
not_literal :
    (name literal : Bytes)
    → has_prefix (codes "x-sender-report-") name ≡ true
    → has_prefix (codes "x-sender-report-") literal ≡ false
    → bytes_eq name literal ≡ false
not_literal name literal h k = elim (Bool-cases (bytes_eq name literal)) [
  | inr e ↦ e
  | inl e ↦ let same : name ≡ literal = bytes_eq_sound name literal e in absurd (cc (same, h, k))
]

kind_of : (name : Bytes) → KindOf name
unfolding field_kind
kind_of name = elim (Bool-cases (has_prefix (codes "x-sender-report-") name)) [
  | inl d ↦ as_detail (
    rw d refl,
    d,
    not_literal name (codes "authentication-results") d refl,
    not_literal name (codes "received-spf") d refl,
    not_literal name (codes "received") d refl,
  )
  | inr d ↦ elim (Bool-cases (bytes_eq name (codes "authentication-results"))) [
    | inl a ↦
        rw (bytes_eq_sound name (codes "authentication-results") a)
          (as_results (refl, refl, refl, refl, refl))
    | inr a ↦ elim (Bool-cases (bytes_eq name (codes "received-spf"))) [
      | inl s ↦
          rw (bytes_eq_sound name (codes "received-spf") s) (as_spf (refl, refl, refl, refl, refl))
      | inr s ↦ elim (Bool-cases (bytes_eq name (codes "received"))) [
        | inl r ↦
            rw (bytes_eq_sound name (codes "received") r)
              (as_received (refl, refl, refl, refl, refl))
        | inr r ↦ as_other (rw (d, a, s, r) refl, d, a, s, r)
      ]
    ]
  ]
]

or_nothing : (a c : Bool) → a ≡ (true && a || false && c)
or_nothing a c = ground arith

dropped_named :
    (host name value : Bytes)
    → is_dropped_of host (field_kind name) value ≡ is_result_named host name value
dropped_named host name value = elim (kind_of name) [
  | as_detail (k, d, a, s, r) ↦ rw (k, d) refl
  | as_results (k, d, a, s, r) ↦
      rw (k, d, a, s)
        (or_nothing (has_prefix (host ++ codes ";") value)
          (contains (codes "receiver=" ++ host) value))
  | as_spf (k, d, a, s, r) ↦ rw (k, d, a, s) refl
  | as_received (k, d, a, s, r) ↦ rw (k, d, a, s) refl
  | as_other (k, d, a, s, r) ↦ rw (k, d, a, s) refl
]

received_named : (name : Bytes) → is_received (field_kind name) ≡ bytes_eq name (codes "received")
received_named name = elim (kind_of name) [
  | as_detail (k, d, a, s, r) ↦ rw (k, r) refl
  | as_results (k, d, a, s, r) ↦ rw (k, r) refl
  | as_spf (k, d, a, s, r) ↦ rw (k, r) refl
  | as_received (k, d, a, s, r) ↦ rw (k, r) refl
  | as_other (k, d, a, s, r) ↦ rw (k, r) refl
]

own_named : (host b : Bytes) → is_own host b ≡ is_own_received host b
own_named host b =
    ap (λ q. q && contains (codes " by " ++ (host ++ codes " with ")) (flat_value b))
      (received_named (field_name b))

-- Tests that agree on every element.
module _ (p q : Bytes → Bool) (same : (b : Bytes) → p b ≡ q b) where
  filter-not : (bs : List Bytes) → filter (λ b. not (p b)) bs ≡ filter (λ b. not (q b)) bs
  filter-not [] = refl
  filter-not (b ∷ bs) = ground (arith, same b, filter-not bs)

  drop_first-same : (bs : List Bytes) → drop_first p bs ≡ drop_first q bs
  drop_first-same [] = refl
  drop_first-same (b ∷ bs) = ground (arith, same b, drop_first-same bs)

  first_says-same :
      (says : Bytes → Bool) (bs : List Bytes) → first_says p says bs ≡ first_says q says bs
  first_says-same says [] = refl
  first_says-same says (b ∷ bs) = ground (arith, same b, first_says-same says bs)

-- Taken out are the first Received field that names this host, every X-Sender-Report field whoever wrote it,
-- and the Authentication-Results and Received-SPF fields that name this host. All other fields are kept, in
-- order, and the encryption is what that Received field says, or none.
pub strip_blocks-kept :
    (host : Bytes) (bs : List Bytes)
    → ((strip_blocks host false false bs).kept
        ≡ filter (λ b. not (is_result host b)) (drop_first (is_own_received host) bs))
      × ((strip_blocks host false false bs).tls
          ≡ first_says (is_own_received host) is_encrypted_by bs)
strip_blocks-kept host bs =
    let (kept, says) = strip_blocks-kinds host bs in
    let named = λ (b : Bytes). dropped_named host (field_name b) (flat_value b) in
    (
      kept
          ∙ filter-not (is_dropped host) (is_result host) named (drop_first (is_own host) bs)
          ∙ ap (filter (λ b. not (is_result host b)))
              (drop_first-same (is_own host) (is_own_received host) (own_named host) bs),
      says
          ∙ first_says-same (is_own host) (is_own_received host) (own_named host) is_encrypted_by
              bs,
    )
