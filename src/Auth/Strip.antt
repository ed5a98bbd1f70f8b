-- ===== src/Auth/Strip.antt =====
-- `stripReceiverHeaders`: the header lines of an earlier check are taken out again.
use sender_report.Base.{
  Bool, true, false, not, ◌&&◌, ◌||◌, List, [], ◌∷◌, ◌++◌, none, some, if◌then◌else◌,
}
use sender_report.Text.{
  Bytes, codes, split, bytes_eq, has_prefix, contains, cut, to_lower, trim_space, fields,
}
use sender_report.Auth.Dkim.{join}
use sender_report.Auth.Headers.{from_crlf, to_crlf, blank_line}

abbrev is_continuation : Bytes → Bool
is_continuation line = has_prefix (codes " ") line || has_prefix (9 ∷ []) line

-- The fields with their continuation lines; `cur` is the field that is being read.
blocks_from : Bytes → List Bytes → List Bytes
blocks_from cur [] = cur ∷ []
blocks_from cur (l ∷ ls) =
    let longer = blocks_from (cur ++ 10 ∷ l) ls in
    let ended = blocks_from l ls in if is_continuation l then longer else cur ∷ ended

unfoldable pub blocks : List Bytes → List Bytes
unfolding blocks_from
blocks [] = []
blocks (l ∷ ls) = blocks_from l ls

-- The name of a field in lower case, and its value on one line.
abbrev pub field_name : Bytes → Bytes
field_name b = elim (cut (codes ":") b) [
  | none ↦ to_lower (trim_space b)
  | some (n, v) ↦ to_lower (trim_space n)
]

abbrev pub flat_value : Bytes → Bytes
flat_value b = elim (cut (codes ":") b) [
  | none ↦ join (codes " ") (fields [])
  | some (n, v) ↦ join (codes " ") (fields v)
]

-- The cases of the switch.
pub data FieldKind : Type 0 where
  detail authentication_results received_spf received other : FieldKind

unfoldable pub field_kind : Bytes → FieldKind
field_kind name =
    if has_prefix (codes "x-sender-report-") name
    then detail
    else if bytes_eq name (codes "authentication-results")
    then authentication_results
    else if bytes_eq name (codes "received-spf")
    then received_spf
    else if bytes_eq name (codes "received")
    then received
    else other

abbrev pub names_receiver : Bytes → Bytes → Bool
names_receiver host flat = contains (codes " by " ++ (host ++ codes " with ")) flat

abbrev pub over_esmtps : Bytes → Bool
over_esmtps flat = contains (codes " with esmtps") (to_lower flat)

pub record Stripping : Type 0 where
  pub kept : List Bytes
  pub tls : Bool

abbrev keep_block : Bytes → Stripping → Stripping
keep_block b r = record r { kept = b ∷ r.kept }

abbrev keep_unless : Bool → Bytes → Stripping → Stripping
keep_unless drop b r = if drop then r else keep_block b r

-- The loop; `dropped` says that a Received field has been taken out, and `tls` what it said.
unfoldable pub strip_blocks : Bytes → Bool → Bool → List Bytes → Stripping
strip_blocks host dropped tls [] = record { kept = []; tls = tls }
strip_blocks host dropped tls (b ∷ bs) =
    let flat = flat_value b in
    let rest = strip_blocks host dropped tls bs in
    let first = strip_blocks host true (over_esmtps flat) bs in
    elim (field_kind (field_name b)) [
      | detail ↦ rest
      | authentication_results ↦ keep_unless (has_prefix (host ++ codes ";") flat) b rest
      | received_spf ↦ keep_unless (contains (codes "receiver=" ++ host) flat) b rest
      | received ↦ if not dropped && names_receiver host flat then first else keep_block b rest
      | other ↦ keep_block b rest
    ]

abbrev pub strip_head : Bytes → Bytes → Stripping
strip_head head host = strip_blocks host false false (blocks (split 10 head))

-- The message without them, and whether the delivery was encrypted.
unfoldable pub strip_receiver_headers : Bytes → Bytes → Bytes × Bool
strip_receiver_headers raw host = elim (cut blank_line (from_crlf raw)) [
  | none ↦ let r = strip_head (from_crlf raw) host in (to_crlf (join (10 ∷ []) r.kept), r.tls)
  | some (head, body) ↦
      let r = strip_head head host in
      (to_crlf (join (10 ∷ []) r.kept ++ (blank_line ++ body)), r.tls)
]
