-- ===== src/Smtp/Tls.antt =====
-- STARTTLS: what was sent in the clear does not reach the session over TLS.
use sender_report.Base.{
  ℕ, zero, suc, ◌+◌, ◌≤◌, ◌<◌, ◌≡◌, ◌⊎◌, refl, sym, inl, inr, true, false, List, [], ◌∷◌, ◌++◌,
  Option, none, some, arith, length, ◌||◌, if◌then◌else◌, if_cases,
}
use sender_report.Text.{Bytes, codes, bytes_eq}
use sender_report.Smtp.Wire.{ReadResult, complete, failed, read_data, read_lines}
use sender_report.Smtp.Session.{
  Server, Session, ReceivedMail, Event, reply, deliver, limited, Outcome, continue, secure, stop,
  on_helo, on_starttls, on_mail, on_rcpt, on_data, after_data, command, command_cases, deliveries,
  is_empty,
}
use sender_report.Smtp.Serve.{
  Trace, proceed, serve, start, remote_ip, limits, enough, secured_lines, lines_of, refused,
  handle_conn, Conn, Limits,
}
use sender_report.Smtp.Ends.{serve_more_fuel}
use sender_report.Smtp.Stuffing.{left, read_data-left}

-- The mails of a connection that are marked as received over TLS, in order.
abbrev pub over_tls : List Event → List ReceivedMail
over_tls [] = []
over_tls (reply text ∷ ev) = over_tls ev
over_tls (limited ip ∷ ev) = over_tls ev
over_tls (deliver m ∷ ev) = let rest = over_tls ev in if m.tls then m ∷ rest else rest

over_tls-append : (xs ys : List Event) → over_tls (xs ++ ys) ≡ over_tls xs ++ over_tls ys
over_tls-append [] ys = refl
over_tls-append (reply text ∷ xs) ys = over_tls-append xs ys
over_tls-append (limited ip ∷ xs) ys = over_tls-append xs ys
over_tls-append (deliver m ∷ xs) ys = ground (arith, over_tls-append xs ys)

-- The session that starts behind the handshake, with nothing from before it.
abbrev pub secured_start : Session
secured_start = record { helo = []; mail_from = []; rcpt_to = []; is_tls = true }

abbrev pub secured_session : Server → Bytes → List Bytes → Trace
secured_session sv ip lines = serve (suc (length lines)) sv ip (some lines) secured_start lines

-- A turn of the loop before TLS: it marks no mail, and goes on behind TLS in the fresh session only.
abbrev Plain : List Bytes → Outcome → Type 0
Plain rest (continue s ev rest') =
    (s.is_tls ≡ false) × (over_tls ev ≡ []) × (length rest' ≤ length rest)
Plain rest (secure s ev) = (s ≡ secured_start) × (over_tls ev ≡ [])
Plain rest (stop ev e) = over_tls ev ≡ []

over_tls-deliveries :
    (sv : Server) (ip : Bytes) (s : Session) (body : Bytes) (rcpts : List Bytes)
    → s.is_tls ≡ false
    → over_tls (deliveries sv ip (record s { rcpt_to = rcpts }) body) ≡ []
over_tls-deliveries sv ip s body [] p = ground arith
over_tls-deliveries sv ip s body (r ∷ rs) p = ground (arith, over_tls-deliveries sv ip s body rs p)

module _ (sv : Server) (ip : Bytes) (s : Session) (clear : s.is_tls ≡ false)
    (rest : List Bytes) where
  on_helo-Plain : (line : Bytes) → Plain rest (on_helo sv s line rest)
  unfolding on_helo
  on_helo-Plain line = ground arith

  on_starttls-Plain : Plain rest (on_starttls sv s rest)
  unfolding on_starttls
  on_starttls-Plain = ground arith

  on_rcpt-Plain : (line : Bytes) → Plain rest (on_rcpt sv s line rest)
  unfolding on_rcpt
  on_rcpt-Plain line = ground arith

  after_data-Plain :
      (r : ReadResult) → length (left r) ≤ length rest → Plain rest (after_data sv ip s r)
  after_data-Plain (failed more) h = (clear, refl, h)
  after_data-Plain (complete body more) h = (
    clear,
    rw (
      over_tls-append (deliveries sv ip s body),
      over_tls-deliveries sv ip s body s.rcpt_to clear,
    ),
    h,
  )

  on_data-Plain : Plain rest (on_data sv ip s rest)
  unfolding on_data
  on_data-Plain =
      if_cases (Plain rest) (bytes_eq s.mail_from [] || is_empty s.rcpt_to)
        (λ _. (clear, refl, omega arith))
        (λ _.
          after_data-Plain (read_data sv.max_message_bytes [] rest)
            (read_data-left sv.max_message_bytes [] rest))

  command-Plain : (raw : Bytes) → Plain rest (command sv ip s raw rest)
  command-Plain raw =
      command_cases (Plain rest) sv ip s raw rest on_helo-Plain on_starttls-Plain
        (λ _. unfold on_mail in (clear, refl, omega arith)) on_rcpt-Plain on_data-Plain
        (clear, refl, omega arith) (λ text _. (clear, refl, omega arith)) refl

-- No mail is marked, or those of the fresh session on what came over TLS are.
abbrev pub Marks : Server → Bytes → Option (List Bytes) → List ReceivedMail → Type 0
Marks sv ip none mails = mails ≡ []
Marks sv ip (some lines) mails =
    (mails ≡ []) ⊎ (mails ≡ over_tls (secured_session sv ip lines).events)

Marks-nil : (sv : Server) (ip : Bytes) (tls : Option (List Bytes)) → Marks sv ip tls []
Marks-nil sv ip none = refl
Marks-nil sv ip (some lines) = inl refl

proceed-Marks :
    (sv : Server) (ip : Bytes) (next : Session → List Bytes → Trace) (tls : Option (List Bytes))
    (rest : List Bytes) (o : Outcome)
    → Plain rest o
    → ((s : Session) (lines : List Bytes)
        → s.is_tls ≡ false
        → length lines ≤ length rest
        → Marks sv ip tls (over_tls (next s lines).events))
    → ((lines : List Bytes)
        → tls ≡ some lines
        → next secured_start lines ≡ secured_session sv ip lines)
    → Marks sv ip tls (over_tls (proceed next tls o).events)
proceed-Marks sv ip next tls rest (continue s ev rest') g ih sec =
    rw (over_tls-append ev, g.1) (ih s rest' g.0 g.2)
proceed-Marks sv ip next none rest (secure s ev) g ih sec = g.1
proceed-Marks sv ip next (some lines) rest (secure s ev) g ih sec =
    inr (rw (over_tls-append ev, g.1, g.0, sec lines refl))
proceed-Marks sv ip next tls rest (stop ev e) g ih sec = rw g (Marks-nil sv ip tls)

serve-secured :
    (fuel : ℕ) (sv : Server) (ip : Bytes) (tls : Option (List Bytes)) (lines : List Bytes)
    → tls ≡ some lines
    → lines_of tls < fuel
    → serve fuel sv ip tls secured_start lines ≡ secured_session sv ip lines
serve-secured fuel sv ip tls lines e h =
    let enough_fuel : length lines < fuel = rw e at h in
    rw e (
      sym (
        serve_more_fuel (suc (length lines)) fuel sv ip (some lines) secured_start lines
          (omega arith) (omega arith)))

serve-Marks :
    (fuel : ℕ) (sv : Server) (ip : Bytes) (tls : Option (List Bytes)) (s : Session)
    (lines : List Bytes)
    → s.is_tls ≡ false
    → length lines + lines_of tls < fuel
    → Marks sv ip tls (over_tls (serve fuel sv ip tls s lines).events)
unfolding serve
serve-Marks zero sv ip tls s lines clear h = absurd (omega arith)
serve-Marks (suc fuel) sv ip tls s [] clear h = Marks-nil sv ip tls
serve-Marks (suc fuel) sv ip tls s (line ∷ rest) clear h =
    proceed-Marks sv ip (serve fuel sv ip tls) tls rest (command sv ip s line rest)
      (command-Plain sv ip s clear rest line)
      (λ s' lines' clear' le. serve-Marks fuel sv ip tls s' lines' clear' (omega arith))
      (λ lines' e. serve-secured fuel sv ip tls lines' e (omega arith))

refused-Marks :
    (sv : Server) (ip : Bytes) (tls : Option (List Bytes))
    → Marks sv ip tls (over_tls (refused sv ip).events)
refused-Marks sv ip tls =
    if_cases
      (λ (ev : List Event).
        Marks sv ip tls (over_tls (ev ++ reply (codes "451 4.7.1 rate limit exceeded") ∷ [])))
      sv.notes_limit (λ _. Marks-nil sv ip tls) (λ _. Marks-nil sv ip tls)

-- The mails of a connection that are marked as received over TLS are none, or exactly those of a
-- fresh session on the lines that came over TLS: nothing that the client, or anyone on the way,
-- sent in the clear has a part in them.
pub handle_conn-over_tls :
    (sv : Server) (ls : Limits) (c : Conn) (now : ℕ)
    → Marks sv (remote_ip c) (secured_lines c) (over_tls (handle_conn sv ls c now).1.events)
unfolding handle_conn
handle_conn-over_tls sv ls c now =
    let ip = remote_ip c in
    let P = λ (r : Limits × Trace). Marks sv ip (secured_lines c) (over_tls r.1.events) in
    if_cases P (limits ls.hour (codes "smtp:hour:" ++ ip) now).1
      (λ _. refused-Marks sv ip (secured_lines c))
      λ _.
        if_cases P (limits ls.burst (codes "smtp:burst:" ++ ip) now).1
          (λ _. refused-Marks sv ip (secured_lines c))
          λ _.
            serve-Marks (enough c) sv ip (secured_lines c) start (read_lines c.plain) refl
              (omega arith)
