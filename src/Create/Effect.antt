-- ===== src/Create/Effect.antt =====
-- What one call of a program does to the active mailboxes and to what the program has earned.
use sender_report.Base.{
  ℕ, ◌+◌, ◌≤◌, ◌≡◌, refl, sym, ◌⊎◌, inl, inr, Bool, arith, ltb, if◌then◌else◌, ltb→lt, Bool-cases,
}
use sender_report.Text.{Bytes, bytes_eq, bytes_eq_sound}
use sender_report.Store.Tables.{Db}
use sender_report.Store.Mailboxes.{NewMailbox, create_mailbox}
use sender_report.Store.Operations.{set_checks, touch, delete, run}
use sender_report.Create.Program.{
  Program, reply, ask_active_by_ip, ask_active, ask_token, ask_address, ask_if_valid, insert,
  mark_seen, remove, choose, exec,
}
use sender_report.Create.Handler.{CreateConfig}
use sender_report.Create.Measure.{
  measure, active_by, active_at, measure_by_later, measure_at_later, run-measure,
  create_mailbox-measure, count_active_mailboxes_by_ip-measure, count_active_mailboxes-measure,
}
use sender_report.Create.Credit.{
  earned, Within, replies, asks_by_ip, asks, asks_token, asks_address, asks_if_valid, inserts,
  marks, removes, chooses,
}

-- What a program for `owner` takes of the limit of an address.
abbrev pub share : Bytes → Bytes → ℕ → ℕ
share owner ip a = if bytes_eq owner ip then a else 0

-- A number that does not grow, or ends within a limit.
abbrev pub Held : ℕ → ℕ → ℕ → Type 0
Held limit x x' = (x' ≤ x) ⊎ (x' ≤ limit)

-- A call of a program keeps the active mailboxes and what it has earned within the limits.
pub record Effect (cfg : CreateConfig) (owner : Bytes) (now a b : ℕ) (p : Program) (d : Db)
    : Type 0 where
  pub a' : ℕ
  pub b' : ℕ
  pub goes_on : Within cfg owner a' b' (exec now p d).0
  pub a'_small : a' ≤ 1
  pub b'_small : b' ≤ 1
  pub by_ip :
      (t : ℕ) (ip : Bytes)
      → now ≤ t
      → Held cfg.max_active_per_ip
          (measure (active_by t ip) d + share owner ip a)
          (measure (active_by t ip) (exec now p d).1 + share owner ip a')
  pub in_all :
      (t : ℕ)
      → now ≤ t
      → Held cfg.max_active_global
          (measure (active_at t) d + b)
          (measure (active_at t) (exec now p d).1 + b')

module _ (cfg : CreateConfig) (owner : Bytes) (now : ℕ) (d : Db) where
  -- A call that earns nothing and adds no mailbox.
  plain :
      (a b : ℕ) (p : Program)
      → a ≤ 1
      → b ≤ 1
      → Within cfg owner a b (exec now p d).0
      → ((g : Bytes → ℕ → Bool) → measure g (exec now p d).1 ≤ measure g d)
      → Effect cfg owner now a b p d
  plain a b p ha hb w le = record {
    a' = a;
    b' = b;
    goes_on = w;
    a'_small = ha;
    b'_small = hb;
    by_ip = λ t ip h. inl (omega (arith, le (active_by t ip)));
    in_all = λ t h. inl (omega (arith, le (active_at t)));
  }

  earned_small : (limit n held : ℕ) → held ≤ 1 → earned limit n held ≤ 1
  earned_small limit n held h = ground (arith, h)

  earn_by_ip :
      (a t : ℕ) (ip : Bytes)
      → now ≤ t
      → Held cfg.max_active_per_ip (measure (active_by t ip) d + share owner ip a) (
          measure (active_by t ip) d
          + share owner ip (earned cfg.max_active_per_ip (measure (active_by now owner) d) a))
  earn_by_ip a t ip h = elim (Bool-cases (bytes_eq owner ip)) [
    | inr e ↦ rw e (inl (omega arith))
    | inl e ↦
        let later = measure_by_later now t owner d h in
        let same = bytes_eq_sound owner ip e in
        elim (Bool-cases (ltb (measure (active_by now owner) d) cfg.max_active_per_ip)) [
          | inl f ↦ inr (rw (e, f) (rw (sym same) (omega (arith, later, ltb→lt _ _ f))))
          | inr f ↦ rw (e, f) (inl (omega arith))
        ]
  ]

  earn_in_all :
      (b t : ℕ)
      → now ≤ t
      → Held cfg.max_active_global
          (measure (active_at t) d + b)
          (measure (active_at t) d + earned cfg.max_active_global (measure (active_at now) d) b)
  earn_in_all b t h =
      let later = measure_at_later now t d h in
      elim (Bool-cases (ltb (measure (active_at now) d) cfg.max_active_global)) [
        | inl f ↦ rw f (inr (omega (arith, later, ltb→lt _ _ f)))
        | inr f ↦ rw f (inl (omega arith))
      ]

  made_by_ip :
      (n : NewMailbox) (t : ℕ) (ip : Bytes)
      → n.ip ≡ owner
      → measure (active_by t ip) (create_mailbox now n d).1 + share owner ip 0
        ≤ measure (active_by t ip) d + share owner ip 1
  made_by_ip n t ip e =
      let made = create_mailbox-measure (active_by t ip) now n d in
      rw (sym e) (ground (arith, made))

  made_in_all :
      (n : NewMailbox) (t : ℕ)
      → measure (active_at t) (create_mailbox now n d).1 + 0 ≤ measure (active_at t) d + 1
  made_in_all n t = ground (arith, create_mailbox-measure (active_at t) now n d)

  pub exec-Effect :
      (a b : ℕ) (p : Program)
      → a ≤ 1
      → b ≤ 1
      → Within cfg owner a b p
      → Effect cfg owner now a b p d
  unfolding exec run
  exec-Effect a b (reply r) ha hb replies = plain a b _ ha hb replies (λ g. omega arith)
  exec-Effect a b (ask_active_by_ip ip next) ha hb (asks_by_ip h) = record {
    a' = earned cfg.max_active_per_ip (measure (active_by now owner) d) a;
    b' = b;
    goes_on = rw (count_active_mailboxes_by_ip-measure now owner d) (h _);
    a'_small = earned_small _ _ a ha;
    b'_small = hb;
    by_ip = earn_by_ip a;
    in_all = λ t later. inl (omega arith);
  }
  exec-Effect a b (ask_active next) ha hb (asks h) = record {
    a' = a;
    b' = earned cfg.max_active_global (measure (active_at now) d) b;
    goes_on = rw (count_active_mailboxes-measure now d) (h _);
    a'_small = ha;
    b'_small = earned_small _ _ b hb;
    by_ip = λ t ip later. inl (omega arith);
    in_all = earn_in_all b;
  }
  exec-Effect a b (ask_token token next) ha hb (asks_token h) =
      plain a b _ ha hb (h _) (λ g. omega arith)
  exec-Effect a b (ask_address address next) ha hb (asks_address h) =
      plain a b _ ha hb (h _) (λ g. omega arith)
  exec-Effect a b (ask_if_valid expires next) ha hb (asks_if_valid h) =
      plain a b _ ha hb (h _) (λ g. omega arith)
  exec-Effect a b (insert n next) ha hb (inserts e h) = record {
    a' = 0;
    b' = 0;
    goes_on = h _;
    a'_small = omega arith;
    b'_small = omega arith;
    by_ip = λ t ip later. inl (made_by_ip n t ip e);
    in_all = λ t later. inl (made_in_all n t);
  }
  exec-Effect a b (mark_seen k next) ha hb (marks h) =
      plain a b _ ha hb h (λ g. run-measure g (touch now k) d refl)
  exec-Effect a b (remove token next) ha hb (removes h) =
      plain a b _ ha hb h (λ g. run-measure g (delete token) d refl)
  exec-Effect a b (choose token age blocklist broken next) ha hb (chooses h) =
      plain a b _ ha hb h (λ g. run-measure g (set_checks token age blocklist broken) d refl)
