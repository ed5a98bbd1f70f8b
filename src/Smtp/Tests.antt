-- ===== src/Smtp/Tests.antt =====
-- A connection at concrete input.
use sender_report.Base.{◌≡◌, refl, true, false, List, [], ◌∷◌, ◌++◌, none, some, arith, All, map}
use sender_report.Text.{Bytes, codes, bytes_eq, to_upper, to_lower, trim_space, decimal}
use sender_report.Smtp.Wire.{complete, read_data, read_lines, extract_smtp_path}
use sender_report.Smtp.Session.{
  Server, Session, reply, say, on_helo, on_starttls, on_mail, on_rcpt, on_data, command,
}
use sender_report.Smtp.Stuffing.{stuff, end_line, read_data-stuff}
use sender_report.Smtp.Overlong.{data_line, serve_too_long}
use sender_report.Smtp.Mails.{IsFine, handle_conn-IsFine}
use sender_report.Smtp.Tls.{Marks, over_tls, handle_conn-over_tls}
use sender_report.Smtp.Serve.{remote_ip, secured_lines, behind, Conn, Limits, handle_conn, serve}
use sender_report.Smtp.Order.{NoMail, mails, IsNullSender, null_sender-refused}

abbrev crlf : Bytes
crlf = 13 ∷ 10 ∷ []

abbrev server : Server
server = record {
  domain = codes "mx.test";
  max_message_bytes = 64;
  offers_tls = true;
  handles_mail = true;
  notes_limit = false;
  allow_recipient = some (λ r. bytes_eq r (codes "t@mx.test"));
}

abbrev transaction : Bytes
transaction =
    codes "MAIL FROM:<A@b.test> SIZE=9"
    ++ (crlf
        ++ (codes "RCPT TO:<T@mx.test>"
            ++ (crlf
                ++ (codes "RCPT TO:<x@mx.test>"
                    ++ (crlf
                        ++ (codes "data"
                            ++ (crlf
                                ++ (codes "..hi"
                                    ++ (crlf
                                        ++ (codes "." ++ (crlf ++ (codes "QUIT" ++ crlf))))))))))))

abbrev client : Conn
client = record {
  remote_host = codes "192.0.2.1";
  remote_addr = codes "192.0.2.1:99";
  plain =
      codes "EHLO c"
      ++ (crlf
          ++ (codes "MAIL FROM:<evil@x>" ++ (crlf ++ (codes "STARTTLS" ++ (crlf ++ transaction)))));
  secured = some transaction;
}

abbrev unlimited : Limits
unlimited = record { hour = none; burst = none }

mails_at_client :
    mails (handle_conn server unlimited client 5).1.events
    ≡ record {
      remote_ip = codes "192.0.2.1";
      helo = [];
      mail_from = codes "a@b.test";
      rcpt_to = codes "t@mx.test";
      body = codes ".hi" ++ crlf;
      tls = true;
    }
      ∷ []
unfolding handle_conn read_lines serve command on_helo on_starttls on_mail on_rcpt on_data to_upper
    to_lower trim_space decimal extract_smtp_path read_data
mails_at_client = refl

read_data-stuff_example :
    read_data 64 [] (map stuff ((codes ".a" ++ crlf) ∷ crlf ∷ []) ++ end_line true ∷ crlf ∷ [])
    ≡ complete (codes ".a" ++ (crlf ++ crlf)) (crlf ∷ [])
read_data-stuff_example =
    read_data-stuff 64 ((codes ".a" ++ crlf) ∷ crlf ∷ []) (crlf ∷ []) true (omega arith)

abbrev sending : Session
sending = record {
  helo = codes "c";
  mail_from = codes "a@b.test";
  rcpt_to = codes "t@mx.test" ∷ [];
  is_tls = false;
}

abbrev tiny : Server
tiny = record server { max_message_bytes = 4 }

-- A text line of the message that spells a command is run as one.
serve_too_long_example :
    serve 9 tiny (codes "192.0.2.1") none sending (
      data_line ∷ (map stuff [] ++ stuff (codes "long line" ++ crlf) ∷ (codes "RSET" ++ crlf) ∷ []))
    ≡ behind
        (reply (codes "354 Daten senden, Ende mit <CR><LF>.<CR><LF>")
          ∷ say (codes "552 5.3.4 Nachricht zu groß oder fehlerhaft"))
        (serve 8 tiny (codes "192.0.2.1") none sending ((codes "RSET" ++ crlf) ∷ []))
serve_too_long_example =
    serve_too_long 8 tiny (codes "192.0.2.1") none sending [] (codes "long line" ++ crlf)
      ((codes "RSET" ++ crlf) ∷ []) (cc) (cc) (omega arith) (omega arith)

handle_conn-IsFine_example :
    All (IsFine server (remote_ip client)) (handle_conn server unlimited client 5).1.events
handle_conn-IsFine_example = handle_conn-IsFine server unlimited client 5

handle_conn-over_tls_example :
    Marks server
      (remote_ip client)
      (secured_lines client)
      (over_tls (handle_conn server unlimited client 5).1.events)
handle_conn-over_tls_example = handle_conn-over_tls server unlimited client 5

abbrev bounce : List Bytes
bounce = (codes "RCPT TO:<t@mx.test>" ++ crlf) ∷ (codes "DATA" ++ crlf) ∷ []

bounce-NoMail : All NoMail bounce
unfolding to_upper trim_space
bounce-NoMail = (refl, (refl, tt))

-- In small letters, with a blank and the size of the message.
abbrev null_sender : Bytes
null_sender = codes "mail from: <> SIZE=1000" ++ crlf

null_sender-IsNullSender : IsNullSender null_sender
unfolding trim_space to_upper
null_sender-IsNullSender =
    (codes "mail from:", codes " ", codes " SIZE=1000", refl, refl, (refl, tt))

null_sender-refused_example :
    mails (serve 5 server (codes "192.0.2.1") none sending (null_sender ∷ bounce)).events ≡ []
null_sender-refused_example =
    null_sender-refused 5 server (codes "192.0.2.1") sending null_sender bounce
      null_sender-IsNullSender bounce-NoMail
