-- ===== src/Smtp/Overlong.antt =====
-- What becomes of a message that is longer than the server allows.
use sender_report.Base.{
  ℕ, suc, ◌+◌, ◌≤◌, ◌<◌, ◌≡◌, ◌≢◌, refl, List, [], ◌∷◌, ◌++◌, Option, arith, length, map, false,
}
use sender_report.Text.{Bytes, codes, bytes_eq_sound, to_upper, trim_space}
use sender_report.Smtp.Session.{Server, Session, reply, continue, on_data, command, is_empty, say}
use sender_report.Smtp.Serve.{behind, serve}
use sender_report.Smtp.Stuffing.{stuff, concat, read_data_too_long}

abbrev pub data_line : Bytes
data_line = codes "DATA" ++ 13 ∷ 10 ∷ []

is_empty-ne {ℓ} : {A : Type ℓ} (xs : List A) → xs ≢ [] → is_empty xs ≡ false
is_empty-ne [] h = absurd (h refl)
is_empty-ne (x ∷ xs) h = refl

on_data_too_long :
    (sv : Server) (ip : Bytes) (s : Session) (lines : List Bytes) (line : Bytes) (more : List Bytes)
    → s.mail_from ≢ []
    → s.rcpt_to ≢ []
    → length (concat lines) ≤ sv.max_message_bytes
    → sv.max_message_bytes < length (concat lines) + length line
    → on_data sv ip s (map stuff lines ++ stuff line ∷ more)
      ≡ continue s
          (reply (codes "354 Daten senden, Ende mit <CR><LF>.<CR><LF>")
            ∷ say (codes "552 5.3.4 Nachricht zu groß oder fehlerhaft"))
          more
unfolding on_data
on_data_too_long sv ip s lines line more p q h k =
    rw (read_data_too_long sv.max_message_bytes lines line more h k)
      (ground (arith, bytes_eq_sound s.mail_from [], is_empty-ne s.rcpt_to q))

-- A message is refused at the first line with which it is too long, and the lines of the message
-- behind that one, which the client goes on sending, are then run as commands of the session.
pub serve_too_long :
    (fuel : ℕ) (sv : Server) (ip : Bytes) (tls : Option (List Bytes)) (s : Session)
    (lines : List Bytes) (line : Bytes) (more : List Bytes)
    → s.mail_from ≢ []
    → s.rcpt_to ≢ []
    → length (concat lines) ≤ sv.max_message_bytes
    → sv.max_message_bytes < length (concat lines) + length line
    → serve (suc fuel) sv ip tls s (data_line ∷ (map stuff lines ++ stuff line ∷ more))
      ≡ behind
          (reply (codes "354 Daten senden, Ende mit <CR><LF>.<CR><LF>")
            ∷ say (codes "552 5.3.4 Nachricht zu groß oder fehlerhaft"))
          (serve fuel sv ip tls s more)
unfolding serve command to_upper trim_space
serve_too_long fuel sv ip tls s lines line more p q h k =
    rw (on_data_too_long sv ip s lines line more p q h k)
