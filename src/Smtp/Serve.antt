-- ===== src/Smtp/Serve.antt =====
-- `handleConn`: the rate limit, the greeting and the loop over the lines of the client.
use sender_report.Base.{
  ℕ, zero, suc, ◌+◌, Bool, false, not, List, [], ◌∷◌, ◌++◌, Option, none, some, length,
  if◌then◌else◌,
}
use sender_report.Text.{Bytes, codes, bytes_eq}
use sender_report.RateLimit.{Limiter, allow}
use sender_report.Smtp.Wire.{read_lines}
use sender_report.Smtp.Session.{
  Server, Session, Event, reply, limited, End, rate_limited, hung_up, handshake_failed, out_of_fuel,
  Outcome, continue, secure, stop, command,
}

-- What a connection brought about, and how it ended.
pub record Trace : Type 0 where
  pub events : List Event
  pub end : End

abbrev pub behind : List Event → Trace → Trace
behind ev t = record { events = ev ++ t.events; end = t.end }

-- `next` is the loop on what is left; `tls` holds the lines that come over TLS, if the handshake
-- succeeds. The new `bufio.Reader` sees none of the lines that came before the handshake.
abbrev pub proceed : (Session → List Bytes → Trace) → Option (List Bytes) → Outcome → Trace
proceed next tls (continue s ev rest) = behind ev (next s rest)
proceed next none (secure s ev) = record { events = ev; end = handshake_failed }
proceed next (some lines) (secure s ev) = behind ev (next s lines)
proceed next tls (stop ev e) = record { events = ev; end = e }

-- A failed read, at the end of the input or of the deadline, ends the connection.
unfoldable pub serve : ℕ → Server → Bytes → Option (List Bytes) → Session → List Bytes → Trace
serve zero sv ip tls s lines = record { events = []; end = out_of_fuel }
serve (suc fuel) sv ip tls s [] = record { events = []; end = hung_up }
serve (suc fuel) sv ip tls s (line ∷ rest) =
    proceed (serve fuel sv ip tls) tls (command sv ip s line rest)

-- What the client sends in the clear, and over TLS if its handshake succeeds. `remote_host` is the
-- host that `net.SplitHostPort` finds in `remote_addr`, empty if it finds none.
pub record Conn : Type 0 where
  pub remote_host : Bytes
  pub remote_addr : Bytes
  pub plain : Bytes
  pub secured : Option Bytes

-- `l != nil && !l.Allow(key)`, and the limiter after it.
abbrev pub limits : Option Limiter → Bytes → ℕ → Option Limiter × Bool
limits none key now = (none, false)
limits (some l) key now = (some (allow l key now).0, not (allow l key now).1)

pub record Limits : Type 0 where
  pub hour : Option Limiter
  pub burst : Option Limiter

abbrev pub start : Session
start = record { helo = []; mail_from = []; rcpt_to = []; is_tls = false }

abbrev pub remote_ip : Conn → Bytes
remote_ip c = if bytes_eq c.remote_host [] then c.remote_addr else c.remote_host

abbrev pub secured_lines : Conn → Option (List Bytes)
secured_lines c = elim c.secured [ none ↦ none | some s ↦ some (read_lines s) ]

abbrev pub lines_of : Option (List Bytes) → ℕ
lines_of none = 0
lines_of (some lines) = length lines

-- Enough for every line that the client sends.
abbrev pub enough : Conn → ℕ
enough c = suc (length (read_lines c.plain) + lines_of (secured_lines c))

unfoldable pub converse : Server → Conn → Trace
converse sv c =
    behind (reply (codes "220 " ++ sv.domain ++ codes " Sender-Report SMTP") ∷ [])
      (serve (enough c) sv (remote_ip c) (secured_lines c) start (read_lines c.plain))

abbrev pub refused : Server → Bytes → Trace
refused sv ip = record {
  events =
      (if sv.notes_limit then limited ip ∷ [] else [])
      ++ reply (codes "451 4.7.1 rate limit exceeded") ∷ [];
  end = rate_limited;
}

-- The burst limiter is asked only if the hourly one lets the client through.
unfoldable pub handle_conn : Server → Limits → Conn → ℕ → Limits × Trace
unfolding converse
handle_conn sv ls c now =
    let ip = remote_ip c in
    let (hour, over) = limits ls.hour (codes "smtp:hour:" ++ ip) now in
    let (burst, over') = limits ls.burst (codes "smtp:burst:" ++ ip) now in
    if over
    then (record ls { hour = hour }, refused sv ip)
    else if over'
    then (record { hour = hour; burst = burst }, refused sv ip)
    else (record { hour = hour; burst = burst }, converse sv c)
