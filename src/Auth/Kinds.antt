-- ===== src/Auth/Kinds.antt =====
-- What the loop of `stripReceiverHeaders` does by the kind of each field.
use sender_report.Base.{
  ◌≡◌, refl, Bool, true, false, not, ◌&&◌, List, [], ◌∷◌, ◌++◌, arith, filter, if◌then◌else◌,
}
use sender_report.Text.{Bytes, codes, has_prefix, contains}
use sender_report.Auth.Strip.{
  field_name, flat_value, FieldKind, detail, authentication_results, received_spf, received, other,
  field_kind, names_receiver, over_esmtps, strip_blocks,
}

-- A field that the switch takes out.
abbrev pub is_dropped_of : Bytes → FieldKind → Bytes → Bool
is_dropped_of host detail flat = true
is_dropped_of host authentication_results flat = has_prefix (host ++ codes ";") flat
is_dropped_of host received_spf flat = contains (codes "receiver=" ++ host) flat
is_dropped_of host received flat = false
is_dropped_of host other flat = false

abbrev pub is_dropped : Bytes → Bytes → Bool
is_dropped host b = is_dropped_of host (field_kind (field_name b)) (flat_value b)

abbrev pub is_received : FieldKind → Bool
is_received received = true
is_received k = false

-- A Received field that this host wrote.
abbrev pub is_own : Bytes → Bytes → Bool
is_own host b = is_received (field_kind (field_name b)) && names_receiver host (flat_value b)

-- The list without the first element that passes a test.
abbrev pub drop_first : (Bytes → Bool) → List Bytes → List Bytes
drop_first p [] = []
drop_first p (b ∷ bs) = let rest = drop_first p bs in if p b then bs else b ∷ rest

-- What the first element that passes a test says.
abbrev pub first_says : (Bytes → Bool) → (Bytes → Bool) → List Bytes → Bool
first_says p says [] = false
first_says p says (b ∷ bs) = let rest = first_says p says bs in if p b then says b else rest

strip_blocks-dropped :
    (host : Bytes) (tls : Bool) (bs : List Bytes)
    → ((strip_blocks host true tls bs).kept ≡ filter (λ b. not (is_dropped host b)) bs)
      × ((strip_blocks host true tls bs).tls ≡ tls)
unfolding strip_blocks
strip_blocks-dropped host tls [] = (refl, refl)
strip_blocks-dropped host tls (b ∷ bs) =
    let rest = strip_blocks-dropped host tls bs in (ground (arith, rest.0), ground (arith, rest.1))

-- By the kinds of the fields: what is kept, and what the encryption is.
pub strip_blocks-kinds :
    (host : Bytes) (bs : List Bytes)
    → ((strip_blocks host false false bs).kept
        ≡ filter (λ b. not (is_dropped host b)) (drop_first (is_own host) bs))
      × ((strip_blocks host false false bs).tls
          ≡ first_says (is_own host) (λ b. over_esmtps (flat_value b)) bs)
unfolding strip_blocks
strip_blocks-kinds host [] = (refl, refl)
strip_blocks-kinds host (b ∷ bs) =
    let rest = strip_blocks-kinds host bs in
    let dropped = strip_blocks-dropped host (over_esmtps (flat_value b)) bs in
    (ground (arith, rest.0, dropped.0), ground (arith, rest.1, dropped.1))
