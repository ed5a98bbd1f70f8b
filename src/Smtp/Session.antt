-- ===== src/Smtp/Session.antt =====
-- The session of a connection and its commands: the `switch` in `handleConn`.
use sender_report.Base.{
  ℕ, ◌≡◌, refl, Bool, true, false, not, ◌&&◌, ◌||◌, List, [], ◌∷◌, ◌++◌, Option, none, some, map,
  drop, if◌then◌else◌, if_cases,
}
use sender_report.Text.{Bytes, codes, bytes_eq, has_prefix, to_lower, to_upper, trim_space, decimal}
use sender_report.Smtp.Wire.{extract_smtp_path, ReadResult, complete, failed, read_data}

pub record ReceivedMail : Type 0 where
  pub remote_ip : Bytes
  pub helo : Bytes
  pub mail_from : Bytes
  pub rcpt_to : Bytes
  pub body : Bytes
  pub tls : Bool

-- The configuration: `offers_tls` is `TLSConfig != nil`, and `handles_mail`, `notes_limit` say
-- whether the callbacks HandleMail and OnRateLimited are set. What the recipient validator answers
-- does not change while a connection lasts.
pub record Server : Type 0 where
  pub domain : Bytes
  pub max_message_bytes : ℕ
  pub offers_tls : Bool
  pub handles_mail : Bool
  pub notes_limit : Bool
  pub allow_recipient : Option (Bytes → Bool)

-- What a connection brings about: a line written to the client, a call of HandleMail, a call of
-- OnRateLimited. Log lines are left out.
pub data Event : Type 0 where
  reply : Bytes → Event
  deliver : ReceivedMail → Event
  limited : Bytes → Event

-- The variables of the loop.
pub record Session : Type 0 where
  pub helo : Bytes
  pub mail_from : Bytes
  pub rcpt_to : List Bytes
  pub is_tls : Bool

-- How a connection ends; `out_of_fuel` is not an end of the program.
pub data End : Type 0 where
  rate_limited hung_up quit handshake_failed out_of_fuel : End

-- The loop goes on, goes on behind a TLS handshake, or returns.
pub data Outcome : Type 0 where
  continue : Session → List Event → List Bytes → Outcome
  secure : Session → List Event → Outcome
  stop : List Event → End → Outcome

abbrev pub say : Bytes → List Event
say text = reply text ∷ []

unfoldable pub on_helo : Server → Session → Bytes → List Bytes → Outcome
on_helo sv s line rest =
    continue (record s { helo = trim_space (drop 5 line) })
      (reply (codes "250-" ++ sv.domain)
        ∷ ((if sv.offers_tls && not s.is_tls then say (codes "250-STARTTLS") else [])
            ++ say (codes "250 SIZE " ++ decimal sv.max_message_bytes)))
      rest

unfoldable pub on_starttls : Server → Session → List Bytes → Outcome
on_starttls sv s rest =
    if not sv.offers_tls
    then continue s (say (codes "502 5.5.1 STARTTLS nicht verfügbar")) rest
    else if s.is_tls
    then continue s (say (codes "503 5.5.1 TLS bereits aktiv")) rest
    else secure (record { helo = []; mail_from = []; rcpt_to = []; is_tls = true })
        (say (codes "220 2.0.0 bereit für TLS"))

unfoldable pub on_mail : Session → Bytes → List Bytes → Outcome
on_mail s line rest =
    continue (record s { mail_from = extract_smtp_path (drop 10 line); rcpt_to = [] })
      (say (codes "250 2.1.0 OK")) rest

-- `s.AllowRecipient != nil && !s.AllowRecipient(ctx, rcpt)`
abbrev pub rejects : Server → Bytes → Bool
rejects sv rcpt = elim sv.allow_recipient [ none ↦ false | some allow ↦ not (allow rcpt) ]

unfoldable pub on_rcpt : Server → Session → Bytes → List Bytes → Outcome
on_rcpt sv s line rest =
    let rcpt = extract_smtp_path (drop 8 line) in
    if bytes_eq rcpt []
    then continue s (say (codes "501 5.1.3 ungültiger Empfänger")) rest
    else if rejects sv rcpt
    then continue s (say (codes "550 5.1.1 Empfänger abgelehnt")) rest
    else continue (record s { rcpt_to = s.rcpt_to ++ to_lower rcpt ∷ [] })
        (say (codes "250 2.1.5 OK")) rest

-- One call of HandleMail for each recipient, in order; its error is only logged.
abbrev pub deliveries : Server → Bytes → Session → Bytes → List Event
deliveries sv ip s body =
    if sv.handles_mail
    then map
        (λ rcpt. deliver (record {
          remote_ip = ip;
          helo = s.helo;
          mail_from = s.mail_from;
          rcpt_to = rcpt;
          body = body;
          tls = s.is_tls;
        }))
        s.rcpt_to
    else []

abbrev pub is_empty {ℓ} : {A : Type ℓ} → List A → Bool
is_empty [] = true
is_empty (x ∷ xs) = false

abbrev pub after_data : Server → Bytes → Session → ReadResult → Outcome
after_data sv ip s (failed rest) =
    continue s
      (reply (codes "354 Daten senden, Ende mit <CR><LF>.<CR><LF>")
        ∷ say (codes "552 5.3.4 Nachricht zu groß oder fehlerhaft"))
      rest
after_data sv ip s (complete body rest) =
    continue s
      (reply (codes "354 Daten senden, Ende mit <CR><LF>.<CR><LF>")
        ∷ (deliveries sv ip s body ++ say (codes "250 2.0.0 eingereiht")))
      rest

unfoldable pub on_data : Server → Bytes → Session → List Bytes → Outcome
on_data sv ip s rest =
    if bytes_eq s.mail_from [] || is_empty s.rcpt_to
    then continue s (say (codes "503 5.5.1 ungültige Reihenfolge")) rest
    else after_data sv ip s (read_data sv.max_message_bytes [] rest)

-- One turn of the loop, on the line that was read and the lines behind it.
unfoldable pub command : Server → Bytes → Session → Bytes → List Bytes → Outcome
command sv ip s raw rest =
    let line = trim_space raw in
    let upper = to_upper line in
    if has_prefix (codes "EHLO ") upper || has_prefix (codes "HELO ") upper
    then on_helo sv s line rest
    else if bytes_eq upper (codes "STARTTLS")
    then on_starttls sv s rest
    else if has_prefix (codes "MAIL FROM:") upper
    then on_mail s line rest
    else if has_prefix (codes "RCPT TO:") upper
    then on_rcpt sv s line rest
    else if bytes_eq upper (codes "DATA")
    then on_data sv ip s rest
    else if bytes_eq upper (codes "RSET")
    then continue (record s { mail_from = []; rcpt_to = [] })
        (say (codes "250 2.0.0 zurückgesetzt")) rest
    else if bytes_eq upper (codes "NOOP")
    then continue s (say (codes "250 2.0.0 OK")) rest
    else if bytes_eq upper (codes "QUIT")
    then stop (say (codes "221 2.0.0 auf Wiedersehen")) quit
    else continue s (say (codes "500 5.5.2 Befehl nicht erkannt")) rest

-- The test of the `MAIL FROM:` case.
abbrev pub is_mail : Bytes → Bool
is_mail raw = has_prefix (codes "MAIL FROM:") (to_upper (trim_space raw))

-- What holds of every handler's outcome holds of a turn of the loop. Other replies are not the one to QUIT.
pub command_cases {ℓ} :
    (P : Outcome → Type ℓ) (sv : Server) (ip : Bytes) (s : Session) (raw : Bytes)
    (rest : List Bytes)
    → ((line : Bytes) → P (on_helo sv s line rest))
    → P (on_starttls sv s rest)
    → (is_mail raw ≡ true → P (on_mail s (trim_space raw) rest))
    → ((line : Bytes) → P (on_rcpt sv s line rest))
    → P (on_data sv ip s rest)
    → P (
        continue
          (record s { mail_from = []; rcpt_to = [] })
          (say (codes "250 2.0.0 zurückgesetzt"))
          rest)
    → ((text : Bytes) → has_prefix (codes "221") text ≡ false → P (continue s (say text) rest))
    → P (stop (say (codes "221 2.0.0 auf Wiedersehen")) quit)
    → P (command sv ip s raw rest)
unfolding command
command_cases P sv ip s raw rest helo starttls mail rcpt data_ reset other bye =
    let line = trim_space raw in
    let upper = to_upper line in
    if_cases P (has_prefix (codes "EHLO ") upper || has_prefix (codes "HELO ") upper)
      (λ _. helo line)
      λ _.
        if_cases P (bytes_eq upper (codes "STARTTLS")) (λ _. starttls)
          λ _. if_cases P (has_prefix (codes "MAIL FROM:") upper) mail λ _.
            if_cases P (has_prefix (codes "RCPT TO:") upper) (λ _. rcpt line)
              λ _.
                if_cases P (bytes_eq upper (codes "DATA")) (λ _. data_)
                  λ _.
                    if_cases P (bytes_eq upper (codes "RSET")) (λ _. reset)
                      λ _.
                        if_cases P (bytes_eq upper (codes "NOOP"))
                          (λ _. other (codes "250 2.0.0 OK") refl)
                          λ _.
                            if_cases P (bytes_eq upper (codes "QUIT")) (λ _. bye)
                              λ _. other (codes "500 5.5.2 Befehl nicht erkannt") refl
