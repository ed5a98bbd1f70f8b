-- ===== src/Smtp/Ends.antt =====
-- What a turn of the loop of `handleConn` takes: a line, or the start of TLS, which comes at most once.
use sender_report.Base.{
  ℕ, zero, suc, ◌+◌, ◌≤◌, ◌<◌, ◌≡◌, ◌≢◌, refl, true, false, List, [], ◌∷◌, Option, none, some,
  arith, length, if◌then◌else◌,
}
use sender_report.Text.{Bytes}
use sender_report.Smtp.Session.{
  Server, Session, Outcome, continue, secure, stop, out_of_fuel, on_helo, on_starttls, on_mail,
  on_rcpt, on_data, command, command_cases,
}
use sender_report.Smtp.Serve.{Trace, serve, proceed, lines_of}
use sender_report.Smtp.Stuffing.{read_data-left}

-- What a command does to the measure of the loop.
abbrev pub Advances : Session → List Bytes → Outcome → Type 0
Advances s rest (continue s' ev rest') = (length rest' ≤ length rest) × (s'.is_tls ≡ s.is_tls)
Advances s rest (secure s' ev) = (s.is_tls ≡ false) × (s'.is_tls ≡ true)
Advances s rest (stop ev e) = e ≢ out_of_fuel

on_helo-Advances :
    (sv : Server) (s : Session) (line : Bytes) (rest : List Bytes)
    → Advances s rest (on_helo sv s line rest)
unfolding on_helo
on_helo-Advances sv s line rest = (omega arith, refl)

on_starttls-Advances :
    (sv : Server) (s : Session) (rest : List Bytes) → Advances s rest (on_starttls sv s rest)
unfolding on_starttls
on_starttls-Advances sv s rest = ground arith

on_rcpt-Advances :
    (sv : Server) (s : Session) (line : Bytes) (rest : List Bytes)
    → Advances s rest (on_rcpt sv s line rest)
unfolding on_rcpt
on_rcpt-Advances sv s line rest = ground arith

on_data-Advances :
    (sv : Server) (ip : Bytes) (s : Session) (rest : List Bytes)
    → Advances s rest (on_data sv ip s rest)
unfolding on_data
on_data-Advances sv ip s rest = ground (arith, read_data-left sv.max_message_bytes [] rest)

pub command-Advances :
    (sv : Server) (ip : Bytes) (s : Session) (raw : Bytes) (rest : List Bytes)
    → Advances s rest (command sv ip s raw rest)
command-Advances sv ip s raw rest =
    command_cases (Advances s rest) sv ip s raw rest (λ line. on_helo-Advances sv s line rest)
      (on_starttls-Advances sv s rest) (λ _. unfold on_mail in (omega arith, refl))
      (λ line. on_rcpt-Advances sv s line rest) (on_data-Advances sv ip s rest) (omega arith, refl)
      (λ text _. (omega arith, refl)) cc

-- The lines that may still be read: those that TLS would bring count until it starts.
abbrev pub measure : Session → Option (List Bytes) → List Bytes → ℕ
measure s tls lines = if s.is_tls then length lines else length lines + lines_of tls

-- More fuel than lines changes nothing.
proceed-same :
    (f g : Session → List Bytes → Trace) (tls : Option (List Bytes)) (s : Session)
    (rest : List Bytes) (o : Outcome) (fuel : ℕ)
    → Advances s rest o
    → suc (measure s tls rest) ≤ fuel
    → ((s' : Session) (lines : List Bytes)
        → suc (measure s' tls lines) ≤ fuel
        → f s' lines ≡ g s' lines)
    → proceed f tls o ≡ proceed g tls o
proceed-same f g tls s rest (continue s' ev rest') fuel a h ih = rw (ih s' rest' (ground arith))
proceed-same f g none s rest (secure s' ev) fuel a h ih = refl
proceed-same f g (some lines) s rest (secure s' ev) fuel a h ih = rw (ih s' lines (ground arith))
proceed-same f g tls s rest (stop ev e) fuel a h ih = refl

pub serve_more_fuel :
    (fuel more : ℕ) (sv : Server) (ip : Bytes) (tls : Option (List Bytes)) (s : Session)
    (lines : List Bytes)
    → measure s tls lines < fuel
    → fuel ≤ more
    → serve fuel sv ip tls s lines ≡ serve more sv ip tls s lines
unfolding serve
serve_more_fuel zero more sv ip tls s lines h k = absurd (omega arith)
serve_more_fuel (suc fuel) zero sv ip tls s lines h k = absurd (omega arith)
serve_more_fuel (suc fuel) (suc more) sv ip tls s [] h k = refl
serve_more_fuel (suc fuel) (suc more) sv ip tls s (line ∷ rest) h k =
    proceed-same (serve fuel sv ip tls) (serve more sv ip tls) tls s rest
      (command sv ip s line rest) fuel (command-Advances sv ip s line rest) (ground arith)
      (λ s' lines' m. serve_more_fuel fuel more sv ip tls s' lines' m (omega arith))
