-- ===== src/Smtp/Order.antt =====
-- The order of commands: nothing is delivered before a `MAIL FROM:` that names a sender.
use sender_report.Base.{
  ℕ, zero, suc, ◌≡◌, refl, sym, ap, ◌∙◌, true, false, none, List, [], ◌∷◌, ◌++◌, arith, length,
  drop, All,
}
use sender_report.Text.{
  Bytes, codes, to_upper, to_lower, trim_space, trim, trim_left, trim_right, is_space, upper_byte,
}
use sender_report.Smtp.Wire.{extract_smtp_path}
use sender_report.Smtp.Session.{
  Server, Session, ReceivedMail, Event, say, reply, deliver, limited, Outcome, continue, secure,
  stop, on_helo, on_starttls, on_mail, on_rcpt, on_data, command, command_cases, is_mail,
}
use sender_report.Smtp.Serve.{Trace, proceed, serve}

-- The mails that are handed on, in order.
abbrev pub mails : List Event → List ReceivedMail
mails [] = []
mails (reply text ∷ ev) = mails ev
mails (limited ip ∷ ev) = mails ev
mails (deliver m ∷ ev) = m ∷ mails ev

mails-append : (xs ys : List Event) → mails xs ≡ [] → mails (xs ++ ys) ≡ mails ys
mails-append [] ys e = refl
mails-append (reply text ∷ xs) ys e = mails-append xs ys e
mails-append (limited ip ∷ xs) ys e = mails-append xs ys e
mails-append (deliver m ∷ xs) ys e = cc

abbrev pub NoMail : Bytes → Type 0
NoMail raw = is_mail raw ≡ false

-- The outcome of a turn without a sender: none is set, nothing is handed on, and the lines left
-- are the lines behind the command.
abbrev Idle : List Bytes → Outcome → Type 0
Idle rest (continue s ev rest') = (s.mail_from ≡ []) × (mails ev ≡ []) × (rest' ≡ rest)
Idle rest (secure s ev) = mails ev ≡ []
Idle rest (stop ev e) = mails ev ≡ []

module _ (sv : Server) (ip : Bytes) (s : Session) (unset : s.mail_from ≡ [])
    (rest : List Bytes) where
  on_helo-Idle : (line : Bytes) → Idle rest (on_helo sv s line rest)
  unfolding on_helo
  on_helo-Idle line = ground arith

  on_starttls-Idle : Idle rest (on_starttls sv s rest)
  unfolding on_starttls
  on_starttls-Idle = ground arith

  on_rcpt-Idle : (line : Bytes) → Idle rest (on_rcpt sv s line rest)
  unfolding on_rcpt
  on_rcpt-Idle line = ground arith

  on_data-Idle : Idle rest (on_data sv ip s rest)
  unfolding on_data
  on_data-Idle = ground (arith, unset)

  command-Idle : (raw : Bytes) → NoMail raw → Idle rest (command sv ip s raw rest)
  command-Idle raw other =
      command_cases (Idle rest) sv ip s raw rest on_helo-Idle on_starttls-Idle (λ e. cc)
        on_rcpt-Idle on_data-Idle (refl, refl, refl) (λ text _. (unset, refl, refl)) refl

proceed-Idle :
    (next : Session → List Bytes → Trace) (rest : List Bytes) (o : Outcome)
    → Idle rest o
    → ((s : Session) → s.mail_from ≡ [] → mails (next s rest).events ≡ [])
    → mails (proceed next none o).events ≡ []
proceed-Idle next rest (continue s ev rest') g ih = rw (mails-append ev _ g.1, g.2) (ih s g.0)
proceed-Idle next rest (secure s ev) g ih = g
proceed-Idle next rest (stop ev e) g ih = g

-- Without a sender, nothing is handed on until a `MAIL FROM:` line comes, whatever else does.
-- (The client starts no TLS session here.)
pub serve-NoMail :
    (fuel : ℕ) (sv : Server) (ip : Bytes) (s : Session) (lines : List Bytes)
    → s.mail_from ≡ []
    → All NoMail lines
    → mails (serve fuel sv ip none s lines).events ≡ []
unfolding serve
serve-NoMail zero sv ip s lines unset h = refl
serve-NoMail (suc fuel) sv ip s [] unset h = refl
serve-NoMail (suc fuel) sv ip s (line ∷ rest) unset h =
    proceed-Idle (serve fuel sv ip none) rest (command sv ip s line rest)
      (command-Idle sv ip s unset rest line h.0)
      (λ s' unset'. serve-NoMail fuel sv ip s' rest unset' h.1)

-- A line for a null reverse path: MAIL FROM: in any case, white space, `<>`, and parameters.
abbrev pub IsNullSender : Bytes → Type 0
IsNullSender raw =
    (word : Bytes) × (blanks : Bytes) × (params : Bytes) × (trim_space raw
      ≡ word ++ (blanks ++ (codes "<>" ++ params)))
    × (to_upper word ≡ codes "MAIL FROM:")
    × All (λ c. is_space c ≡ true) blanks

to_upper-append : (s t : Bytes) → to_upper (s ++ t) ≡ to_upper s ++ to_upper t
unfolding to_upper
to_upper-append [] t = refl
to_upper-append (c ∷ s) t = ap (λ x. upper_byte c ∷ x) (to_upper-append s t)

length-to_upper : (s : Bytes) → length (to_upper s) ≡ length s
unfolding to_upper
length-to_upper [] = refl
length-to_upper (c ∷ s) = ap suc (length-to_upper s)

drop_front : (s t : Bytes) (n : ℕ) → length s ≡ n → drop n (s ++ t) ≡ t
drop_front [] t zero e = refl
drop_front [] t (suc n) e = absurd (omega arith)
drop_front (c ∷ s) t zero e = absurd (omega arith)
drop_front (c ∷ s) t (suc n) e = drop_front s t n (omega arith)

trim_left_blanks :
    (blanks s : Bytes)
    → All (λ c. is_space c ≡ true) blanks
    → trim_left is_space (blanks ++ s) ≡ trim_left is_space s
trim_left_blanks [] s h = refl
trim_left_blanks (c ∷ blanks) s h = rw (h.0) (trim_left_blanks blanks s h.1)

trim_right_cons :
    (c : ℕ) (s : Bytes)
    → is_space c ≡ false
    → trim_right is_space (c ∷ s) ≡ c ∷ trim_right is_space s
trim_right_cons c s h = ground (arith, h)

trim_right_path :
    (params : Bytes)
    → trim_right is_space (codes "<>" ++ params) ≡ codes "<>" ++ trim_right is_space params
trim_right_path params =
    trim_right_cons 60 (62 ∷ params) refl ∙ ap (λ x. 60 ∷ x) (trim_right_cons 62 params refl)

null_path_lem :
    (blanks params : Bytes)
    → All (λ c. is_space c ≡ true) blanks
    → extract_smtp_path (blanks ++ (codes "<>" ++ params)) ≡ []
unfolding extract_smtp_path
null_path_lem blanks params h =
    let whole : trim_space (blanks ++ (codes "<>" ++ params))
        ≡ codes "<>" ++ trim_right is_space params =
      unfold trim_space trim in
      ap (trim_right is_space) (trim_left_blanks blanks (codes "<>" ++ params) h)
      ∙ trim_right_path params in
    rw whole (unfold trim_space trim to_lower in refl)

-- The turn of the loop on such a line leaves no sender.
command-null :
    (sv : Server) (ip : Bytes) (s : Session) (raw : Bytes) (rest : List Bytes)
    → IsNullSender raw
    → command sv ip s raw rest
      ≡ continue (record s { mail_from = []; rcpt_to = [] }) (say (codes "250 2.1.0 OK")) rest
unfolding command on_mail
command-null sv ip s raw rest (word, blanks, params, e, upper, h) =
    let size : length word ≡ 10 = sym (length-to_upper word) ∙ ap length upper in
    let path = blanks ++ (codes "<>" ++ params) in
    let letters : to_upper (word ++ path) ≡ codes "MAIL FROM:" ++ to_upper path =
      to_upper-append word path ∙ ap (λ w. w ++ to_upper path) upper in
    rw (e, letters, drop_front word path 10 size, null_path_lem blanks params h) refl

-- After a MAIL FROM: line for the null reverse path, however it is spaced and spelled and whatever parameters
-- it has, no mail is handed on until another MAIL FROM: line comes, in any session and with any
-- recipients, where no TLS session starts.
pub null_sender-refused :
    (fuel : ℕ) (sv : Server) (ip : Bytes) (s : Session) (raw : Bytes) (lines : List Bytes)
    → IsNullSender raw
    → All NoMail lines
    → mails (serve fuel sv ip none s (raw ∷ lines)).events ≡ []
unfolding serve
null_sender-refused zero sv ip s raw lines null h = refl
null_sender-refused (suc fuel) sv ip s raw lines null h =
    rw (command-null sv ip s raw lines null)
      (serve-NoMail fuel sv ip (record s { mail_from = []; rcpt_to = [] }) lines refl h)
