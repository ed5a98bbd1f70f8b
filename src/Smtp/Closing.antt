-- ===== src/Smtp/Closing.antt =====
-- How a connection ends, and what the client has been told by then.
use sender_report.Base.{◌≡◌, false, List, ◌++◌, All}
use sender_report.Text.{codes, has_prefix}
use sender_report.Smtp.Session.{
  Session, Event, reply, deliver, limited, End, rate_limited, hung_up, quit, handshake_failed,
  out_of_fuel, Outcome, continue, secure, stop, say,
}
use sender_report.Smtp.Serve.{Trace}

-- No reply with the code 221.
abbrev pub IsNoBye : Event → Type 0
IsNoBye (reply text) = has_prefix (codes "221") text ≡ false
IsNoBye (deliver m) = Unit
IsNoBye (limited ip) = Unit

-- No reply, and no mail.
abbrev pub IsNoTalk : Event → Type 0
IsNoTalk (reply text) = ⊥
IsNoTalk (deliver m) = ⊥
IsNoTalk (limited ip) = Unit

-- An end, and the events that it comes with: QUIT is answered, once and last; who fails to start TLS was told
-- that it may; who hangs up was never told goodbye; who is over a limit is told so, and nothing else.
abbrev pub Concludes : List Event → End → Type 0
Concludes ev quit =
    (pre : List Event) × (ev ≡ pre ++ say (codes "221 2.0.0 auf Wiedersehen")) × All IsNoBye pre
Concludes ev handshake_failed =
    (pre : List Event) × (ev ≡ pre ++ say (codes "220 2.0.0 bereit für TLS")) × All IsNoBye pre
Concludes ev hung_up = All IsNoBye ev
Concludes ev rate_limited =
    (pre : List Event) × (ev ≡ pre ++ say (codes "451 4.7.1 rate limit exceeded"))
    × All IsNoTalk pre
Concludes ev out_of_fuel = ⊥

-- An end of the loop.
abbrev IsLoopEnd : End → Type 0
IsLoopEnd rate_limited = ⊥
IsLoopEnd e = Unit

-- What a turn of the loop says.
abbrev Talks : Outcome → Type 0
Talks (continue s ev rest) = All IsNoBye ev
Talks (secure s ev) = ev ≡ say (codes "220 2.0.0 bereit für TLS")
Talks (stop ev e) = (ev ≡ say (codes "221 2.0.0 auf Wiedersehen")) × (e ≡ quit)

-- What was said before an end of the loop changes nothing but the events.
abbrev Closes : Trace → Type 0
Closes t = IsLoopEnd t.end × Concludes t.events t.end
