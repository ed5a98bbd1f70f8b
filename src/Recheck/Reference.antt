-- ===== src/Recheck/Reference.antt =====
-- Messages that are named by a reference: a hash of the mailbox's token and the message's id.
use sender_report.Base.{ℕ, Bool, not, Option, none, some, List, [], ◌∷◌, ◌++◌, if◌then◌else◌, take}
use sender_report.Text.{Bytes, codes, bytes_eq, decimal, trim_space}
use sender_report.Store.Tables.{Message, Report}

pub record Codecs : Type 0 where
  pub sha256 : Bytes → Bytes
  pub encode_hex : Bytes → Bytes
  pub decode_base64 : Bytes → Option Bytes

module _ (codecs : Codecs) where
  unfoldable pub message_reference : Bytes → ℕ → Bytes
  message_reference token k =
      codecs.encode_hex (take 8 (codecs.sha256 (token ++ (codes ":" ++ decimal k))))

  -- The first message of a list with a reference.
  abbrev pub select_message : Bytes → Bytes → List Message → Option Message
  select_message token ref [] = none
  select_message token ref (m ∷ ms) =
      let later = select_message token ref ms in
      if bytes_eq (message_reference token m.id) ref then some m else later

  abbrev pub first_with :
      Bytes → Bytes → List (Message × Option Report) → Option (Message × Option Report)
  first_with token ref [] = none
  first_with token ref (m ∷ ms) =
      let later = first_with token ref ms in
      if bytes_eq (message_reference token m.0.id) ref then some m else later

  unfoldable pub select_message_with_report :
      Bytes → List (Message × Option Report) → Bytes → Option (Message × Option Report)
  select_message_with_report token ms ref =
      if bytes_eq (trim_space ref) [] then none else first_with token (trim_space ref) ms

unfoldable pub is_encrypted : Message → Bool
is_encrypted m = not (bytes_eq m.payload_enc [])
