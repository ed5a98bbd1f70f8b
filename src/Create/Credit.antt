-- ===== src/Create/Credit.antt =====
-- A handler creates a mailbox only after it has seen both counts below their limits.
use sender_report.Base.{
  ℕ, zero, suc, ◌≡◌, refl, inl, inr, Bool, true, Option, none, some, List, arith, ltb, leb, ◌==◌,
  if◌then◌else◌, Bool-cases, Option-cases, length, if_cases,
}
use sender_report.Text.{Bytes, codes, bytes_eq}
use sender_report.Sealed.{Crypto, identifier}
use sender_report.Store.Tables.{Mailbox, Answer, ok, not_found, constraint}
use sender_report.Store.Mailboxes.{NewMailbox}
use sender_report.Web.Proxy.{NetText, WebConfig, client_ip, request_smtp_domain}
use sender_report.Create.Program.{
  CreateReply, Program, reply, ask_active_by_ip, ask_active, ask_token, ask_address, ask_if_valid,
  insert, mark_seen, remove, choose,
}
use sender_report.Create.Handler.{
  CreateConfig, CreateBody, CreateRequest, HexText, as_json, as_redirect, with_choices,
  replace_or_create, unless_taken, try_addresses, generate_mailbox_address, for_client, at_address,
  for_body, after_limits, within_limits, handle_create_mailbox,
}

-- A count below its limit earns the right to one creation.
abbrev pub earned : ℕ → ℕ → ℕ → ℕ
earned limit n held = if ltb n limit then 1 else held

-- A program for one address that has earned `a` and `b` of the two limits: a creation uses both up.
pub data Within (cfg : CreateConfig) (ip : Bytes) : ℕ → ℕ → Program → Type 0 where
  replies : {a b : ℕ} {r : CreateReply} → Within cfg ip a b (reply r)
  asks_by_ip :
      {a b : ℕ} {next : ℕ → Program}
      → ((n : ℕ) → Within cfg ip (earned cfg.max_active_per_ip n a) b (next n))
      → Within cfg ip a b (ask_active_by_ip ip next)
  asks :
      {a b : ℕ} {next : ℕ → Program}
      → ((n : ℕ) → Within cfg ip a (earned cfg.max_active_global n b) (next n))
      → Within cfg ip a b (ask_active next)
  asks_token :
      {a b : ℕ} {token : Bytes} {next : Answer Mailbox → Program}
      → ((x : Answer Mailbox) → Within cfg ip a b (next x))
      → Within cfg ip a b (ask_token token next)
  asks_address :
      {a b : ℕ} {address : Bytes} {next : Answer Mailbox → Program}
      → ((x : Answer Mailbox) → Within cfg ip a b (next x))
      → Within cfg ip a b (ask_address address next)
  asks_if_valid :
      {a b expires : ℕ} {next : Bool → Program}
      → ((v : Bool) → Within cfg ip a b (next v))
      → Within cfg ip a b (ask_if_valid expires next)
  inserts :
      {n : NewMailbox} {next : Answer Mailbox → Program}
      → n.ip ≡ ip
      → ((x : Answer Mailbox) → Within cfg ip 0 0 (next x))
      → Within cfg ip 1 1 (insert n next)
  marks :
      {a b k : ℕ} {next : Program} → Within cfg ip a b next → Within cfg ip a b (mark_seen k next)
  removes :
      {a b : ℕ} {token : Bytes} {next : Program}
      → Within cfg ip a b next
      → Within cfg ip a b (remove token next)
  chooses :
      {a b : ℕ} {token : Bytes} {age blocklist broken : Bool} {next : Program}
      → Within cfg ip a b next
      → Within cfg ip a b (choose token age blocklist broken next)

module _ (cfg : CreateConfig) (ip : Bytes) where
  as_json-Within : (x : Answer Mailbox) → Within cfg ip 0 0 (as_json x)
  as_json-Within (ok mb) = replies
  as_json-Within not_found = replies
  as_json-Within constraint = replies

  as_redirect-Within : (x : Answer Mailbox) → Within cfg ip 0 0 (as_redirect x)
  as_redirect-Within (ok mb) = replies
  as_redirect-Within not_found = replies
  as_redirect-Within constraint = replies

  with_choices-Within : (b : CreateBody) (x : Answer Mailbox) → Within cfg ip 0 0 (with_choices b x)
  with_choices-Within b (ok mb) =
      if_cases (Within cfg ip 0 0) _ (λ e. chooses replies) (λ e. replies)
  with_choices-Within b not_found = replies
  with_choices-Within b constraint = replies

  replace_or_create-Within :
      (b : CreateBody) (n : NewMailbox) (x : Answer Mailbox)
      → n.ip ≡ ip
      → Within cfg ip 1 1 (replace_or_create b n x)
  replace_or_create-Within b n (ok mb) e = asks_if_valid (λ v.
      if_cases (Within cfg ip 1 1) v (λ t. marks replies)
        (λ f. removes (inserts e (with_choices-Within b))))
  replace_or_create-Within b n not_found e = inserts e (with_choices-Within b)
  replace_or_create-Within b n constraint e = inserts e (with_choices-Within b)

  unless_taken-Within :
      (names : Bytes × Bytes) (next : Option (Bytes × Bytes) → Program) (again : Program)
      → (x : Answer Mailbox) → ((o : Option (Bytes × Bytes)) → Within cfg ip 1 1 (next o))
      → Within cfg ip 1 1 again
      → Within cfg ip 1 1 (unless_taken names next again x)
  unless_taken-Within names next again not_found h k = h _
  unless_taken-Within names next again (ok mb) h k = k
  unless_taken-Within names next again constraint h k = h _

  try_addresses-Within :
      (hex : HexText) (random : ℕ → Option Bytes) (i n : ℕ) (domain : Bytes)
      → (next : Option (Bytes × Bytes) → Program)
      → ((o : Option (Bytes × Bytes)) → Within cfg ip 1 1 (next o))
      → Within cfg ip 1 1 (try_addresses hex random i n domain next)
  try_addresses-Within hex random i zero domain next h = h none
  try_addresses-Within hex random i (suc n) domain next h = elim (Option-cases (random i)) [
    | inl e ↦ rw (e, try_addresses) (h none)
    | inr (bytes, e) ↦
        let again = try_addresses-Within hex random (suc i) n domain next h in
        rw (e, try_addresses) (asks_address (λ x. unless_taken-Within _ next _ x h again))
  ]

  module _ (hex : HexText) (net : NetText) where
    generate-Within :
        (random : ℕ → Option Bytes) (domain : Bytes) (next : Option (Bytes × Bytes) → Program)
        → ((o : Option (Bytes × Bytes)) → Within cfg ip 1 1 (next o))
        → Within cfg ip 1 1 (generate_mailbox_address hex net random domain next)
    unfolding generate_mailbox_address
    generate-Within random domain next h = try_addresses-Within hex random 0 8 _ next h

    module _ (crypto : Crypto) where
      at_address-Within :
          (next : Answer Mailbox → Program)
          → ((x : Answer Mailbox) → Within cfg ip 0 0 (next x))
          → (o : Option (Bytes × Bytes))
          → Within cfg ip 1 1 (at_address hex net crypto cfg ip next o)
      at_address-Within next h none = replies
      at_address-Within next h (some (token, address)) = inserts refl h

      for_client-Within :
          (domain : Bytes) (b : CreateBody) (o : Option Bytes)
          → Within cfg ip 1 1 (for_client hex net crypto cfg ip domain b o)
      for_client-Within domain b none = replies
      for_client-Within domain b (some key) = elim (Bool-cases (length key == 32)) [
        | inr e ↦ rw e replies
        | inl e ↦ elim (Bool-cases (bytes_eq (identifier crypto key) b.identifier)) [
          | inr f ↦ rw (e, f) replies
          | inl f ↦ rw (e, f) (asks_token (λ x. replace_or_create-Within b _ x refl))
        ]
      ]

      for_body-Within :
          (domain : Bytes) (random : ℕ → Option Bytes) (o : Option CreateBody)
          → Within cfg ip 1 1 (for_body hex net crypto cfg ip domain random o)
      for_body-Within domain random none =
          generate-Within random domain _ (at_address-Within as_json as_json-Within)
      for_body-Within domain random (some b) =
          if_cases (Within cfg ip 1 1) _
            (λ e. generate-Within random domain _ (at_address-Within as_json as_json-Within))
            (λ e. for_client-Within domain b (hex.decode_hex b.public_key))

      after_limits-Within :
          (domain : Bytes) (r : CreateRequest)
          → Within cfg ip 1 1 (after_limits hex net crypto cfg ip domain r)
      after_limits-Within domain r =
          if_cases (Within cfg ip 1 1) _ (λ e. for_body-Within domain r.random r.body)
            (λ e.
              generate-Within r.random domain _ (at_address-Within as_redirect as_redirect-Within))

      within_limits-Within :
          (domain : Bytes) (r : CreateRequest)
          → Within cfg ip 0 0 (within_limits hex net crypto cfg ip domain r)
      within_limits-Within domain r = asks_by_ip (λ n.
          elim (Bool-cases (leb cfg.max_active_per_ip n)) [
            | inl e ↦ rw e replies
            | inr e ↦
                let below : ltb n cfg.max_active_per_ip ≡ true = ground (arith, e) in
                rw (e, below)
                  (asks (λ all. elim (Bool-cases (leb cfg.max_active_global all)) [
                    | inl f ↦ rw f replies
                    | inr f ↦
                        let below' : ltb all cfg.max_active_global ≡ true = ground (arith, f) in
                        rw (f, below') (after_limits-Within domain r)
                  ]))
          ])

-- The handler has earned nothing when it starts.
pub handle_create_mailbox-Within :
    (hex : HexText) (net : NetText) (crypto : Crypto) (cfg : CreateConfig)
    (trusted : List (net.Ip → Bool)) (web : WebConfig) (r : CreateRequest)
    → Within cfg
        (client_ip net trusted r.origin)
        0
        0
        (handle_create_mailbox hex net crypto cfg trusted web r)
unfolding handle_create_mailbox
handle_create_mailbox-Within hex net crypto cfg trusted web r =
    let rest =
      within_limits-Within cfg (client_ip net trusted r.origin) hex net crypto
        (request_smtp_domain net trusted web r.origin) r in
    elim (Bool-cases (bytes_eq r.method (codes "POST"))) [
      | inr e ↦ rw e replies
      | inl e ↦ rw e rest
    ]
