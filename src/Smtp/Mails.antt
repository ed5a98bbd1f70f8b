-- ===== src/Smtp/Mails.antt =====
-- What the receiver hands to HandleMail.
use sender_report.Base.{
  ℕ, zero, suc, ◌≤◌, ◌≡◌, ◌≢◌, false, List, [], ◌∷◌, ◌++◌, Option, none, some, arith, length, drop,
  All, All-append, if_cases, ◌||◌,
}
use sender_report.Text.{Bytes, codes, bytes_eq, to_lower, to_lower_idem}
use sender_report.Smtp.Wire.{ReadResult, complete, failed, read_data, read_lines, extract_smtp_path}
use sender_report.Smtp.Session.{
  Server, Session, ReceivedMail, Event, reply, deliver, limited, Outcome, continue, secure, stop,
  on_helo, on_starttls, on_mail, on_rcpt, on_data, command, command_cases, rejects, deliveries,
  after_data, is_empty,
}
use sender_report.Smtp.Serve.{
  Trace, proceed, serve, start, remote_ip, limits, enough, secured_lines, handle_conn, Conn, Limits,
}
use sender_report.Smtp.Stuffing.{Fits, read_data-Fits}

-- A recipient that the validator, if there is one, lets through.
abbrev pub IsAccepted : Server → Bytes → Type 0
IsAccepted sv rcpt = (rcpt ≢ []) × (rejects sv rcpt ≡ false)

-- A mail that the receiver may hand on.
pub record IsFit (sv : Server) (ip : Bytes) (m : ReceivedMail) : Type 0 where
  pub from_client : m.remote_ip ≡ ip
  pub has_sender : m.mail_from ≢ []
  pub accepted : IsAccepted sv m.rcpt_to
  pub small : length m.body ≤ sv.max_message_bytes

abbrev pub IsFine : Server → Bytes → Event → Type 0
IsFine sv ip (reply text) = Unit {0}
IsFine sv ip (deliver m) = IsFit sv ip m
IsFine sv ip (limited client) = Unit {0}

-- An outcome whose events are fine, from which the loop goes on with accepted recipients.
abbrev Good : Server → Bytes → Outcome → Type 0
Good sv ip (continue s ev rest) = All (IsAccepted sv) s.rcpt_to × All (IsFine sv ip) ev
Good sv ip (secure s ev) = All (IsAccepted sv) s.rcpt_to × All (IsFine sv ip) ev
Good sv ip (stop ev e) = All (IsFine sv ip) ev

-- The recipient is in lower case already when it is lowered again.
extract_smtp_path_lower : (s : Bytes) → to_lower (extract_smtp_path s) ≡ extract_smtp_path s
unfolding extract_smtp_path
extract_smtp_path_lower s = to_lower_idem _

-- One call for each recipient, all with one sender and one body.
deliveries-IsFine :
    (sv : Server) (ip : Bytes) (s : Session) (body : Bytes) (rcpts : List Bytes)
    → s.mail_from ≢ []
    → length body ≤ sv.max_message_bytes
    → All (IsAccepted sv) rcpts
    → All (IsFine sv ip) (deliveries sv ip (record s { rcpt_to = rcpts }) body)
deliveries-IsFine sv ip s body [] p small h = ground arith
deliveries-IsFine sv ip s body (r ∷ rs) p small h =
    ground (arith, deliveries-IsFine sv ip s body rs p small h.1)

module _ (sv : Server) (ip : Bytes) (s : Session) (h : All (IsAccepted sv) s.rcpt_to) where
  on_helo-Good : (line : Bytes) (rest : List Bytes) → Good sv ip (on_helo sv s line rest)
  unfolding on_helo
  on_helo-Good line rest = ground arith

  on_starttls-Good : (rest : List Bytes) → Good sv ip (on_starttls sv s rest)
  unfolding on_starttls
  on_starttls-Good rest = ground arith

  on_rcpt-Good : (line : Bytes) (rest : List Bytes) → Good sv ip (on_rcpt sv s line rest)
  unfolding on_rcpt
  on_rcpt-Good line rest = ground (
    arith,
    extract_smtp_path_lower (drop 8 line),
    All-append (IsAccepted sv) s.rcpt_to (extract_smtp_path (drop 8 line) ∷ []) h,
  )

  on_data-Good : (rest : List Bytes) → Good sv ip (on_data sv ip s rest)
  unfolding on_data
  on_data-Good rest =
      if_cases (Good sv ip) (bytes_eq s.mail_from [] || is_empty s.rcpt_to) (λ _. (h, (tt, tt)))
        (λ e.
          after (read_data sv.max_message_bytes [] rest) (read_data-Fits _ [] rest (omega arith))
            (ground (arith, e)))
    where
      after :
          (r : ReadResult)
          → Fits sv.max_message_bytes r
          → s.mail_from ≢ []
          → Good sv ip (after_data sv ip s r)
      after (failed left) fits p = (h, (tt, (tt, tt)))
      after (complete body left) fits p = (
        h,
        (
          tt,
          All-append (IsFine sv ip) (deliveries sv ip s body) _
              (deliveries-IsFine sv ip s body s.rcpt_to p fits h) (tt, tt),
        ),
      )

  command-Good : (raw : Bytes) (rest : List Bytes) → Good sv ip (command sv ip s raw rest)
  command-Good raw rest =
      command_cases (Good sv ip) sv ip s raw rest (λ line. on_helo-Good line rest)
        (on_starttls-Good rest) (λ _. unfold on_mail in (tt, (tt, tt)))
        (λ line. on_rcpt-Good line rest) (on_data-Good rest) (tt, (tt, tt))
        (λ text _. (h, (tt, tt))) (tt, tt)

proceed-IsFine :
    (sv : Server) (ip : Bytes) (next : Session → List Bytes → Trace) (tls : Option (List Bytes))
    (o : Outcome)
    → Good sv ip o
    → ((s : Session) (lines : List Bytes)
        → All (IsAccepted sv) s.rcpt_to
        → All (IsFine sv ip) (next s lines).events)
    → All (IsFine sv ip) (proceed next tls o).events
proceed-IsFine sv ip next tls (continue s ev rest) g ih =
    All-append (IsFine sv ip) ev _ g.1 (ih s rest g.0)
proceed-IsFine sv ip next none (secure s ev) g ih = g.1
proceed-IsFine sv ip next (some lines) (secure s ev) g ih =
    All-append (IsFine sv ip) ev _ g.1 (ih s lines g.0)
proceed-IsFine sv ip next tls (stop ev e) g ih = g

serve-IsFine :
    (fuel : ℕ) (sv : Server) (ip : Bytes) (tls : Option (List Bytes)) (s : Session)
    (lines : List Bytes)
    → All (IsAccepted sv) s.rcpt_to
    → All (IsFine sv ip) (serve fuel sv ip tls s lines).events
unfolding serve
serve-IsFine zero sv ip tls s lines h = tt
serve-IsFine (suc fuel) sv ip tls s [] h = tt
serve-IsFine (suc fuel) sv ip tls s (line ∷ rest) h =
    proceed-IsFine sv ip (serve fuel sv ip tls) tls (command sv ip s line rest)
      (command-Good sv ip s h line rest) (serve-IsFine fuel sv ip tls)

-- Whatever a client sends: every mail that is handed on has a sender, goes to one recipient that
-- is not empty and that the validator accepts, has at most the bytes that are allowed, and bears
-- the address of the connection.
pub handle_conn-IsFine :
    (sv : Server) (ls : Limits) (c : Conn) (now : ℕ)
    → All (IsFine sv (remote_ip c)) (handle_conn sv ls c now).1.events
unfolding handle_conn
handle_conn-IsFine sv ls c now =
    let ip = remote_ip c in
    let P = λ (r : Limits × Trace). All (IsFine sv ip) r.1.events in
    if_cases P (limits ls.hour (codes "smtp:hour:" ++ ip) now).1 (λ _. ground arith)
      λ _.
        if_cases P (limits ls.burst (codes "smtp:burst:" ++ ip) now).1 (λ _. ground arith)
          λ _. (tt, serve-IsFine (enough c) sv ip (secured_lines c) start (read_lines c.plain) tt)
