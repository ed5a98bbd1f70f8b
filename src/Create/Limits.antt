-- ===== src/Create/Limits.antt =====
-- The limits on active mailboxes, with requests that are handled at the same time.
use sender_report.Base.{
  ℕ, ◌+◌, ◌≤◌, ◌≡◌, inl, inr, Bool, false, List, [], ◌∷◌, ◌++◌, arith, length, length-append,
}
use sender_report.Text.{Bytes}
use sender_report.Sealed.{Crypto}
use sender_report.Store.Tables.{Db}
use sender_report.Store.Sound.{IsSound}
use sender_report.Store.Operations.{Request, create, touch, delete, set_checks, run, run_all}
use sender_report.Store.Counts.{run_all-IsSound}
use sender_report.Web.Proxy.{NetText, WebConfig, client_ip}
use sender_report.Create.Program.{
  Program, reply, ask_active_by_ip, ask_active, ask_token, ask_address, ask_if_valid, insert,
  mark_seen, remove, choose, exec,
}
use sender_report.Create.Handler.{CreateConfig, CreateRequest, HexText, handle_create_mailbox}
use sender_report.Create.Traffic.{
  IsWithin, Traffic, begin, arrives, goes_on, ends, other, is_create,
}
use sender_report.Create.Measure.{
  measure, active_by, active_at, measure_by_later, measure_at_later, run-measure,
  count_active_mailboxes_by_ip-measure, count_active_mailboxes-measure,
}
use sender_report.Create.Credit.{Within, handle_create_mailbox-Within}
use sender_report.Create.Effect.{Effect, Held, share, exec-Effect}
use sender_report.Create.Pool.{Pool, empty, with_program, Focus, focus}

run-IsSound : (q : Request) (d : Db) → IsSound d → IsSound (run q d)
unfolding run_all
run-IsSound q d h = run_all-IsSound (q ∷ []) d h

exec-IsSound : (now : ℕ) (p : Program) (d : Db) → IsSound d → IsSound (exec now p d).1
unfolding exec run
exec-IsSound now (reply r) d h = h
exec-IsSound now (ask_active_by_ip ip next) d h = h
exec-IsSound now (ask_active next) d h = h
exec-IsSound now (ask_token token next) d h = h
exec-IsSound now (ask_address address next) d h = h
exec-IsSound now (ask_if_valid expires next) d h = h
exec-IsSound now (insert n next) d h = run-IsSound (create now n) d h
exec-IsSound now (mark_seen k next) d h = run-IsSound (touch now k) d h
exec-IsSound now (remove token next) d h = run-IsSound (delete token) d h
exec-IsSound now (choose token age blocklist broken next) d h =
    run-IsSound (set_checks token age blocklist broken) d h

-- What holds in every state: what is active and what is earned together stay within the limits.
record Kept (cfg : CreateConfig) (extra now : ℕ) (ps : List Program) (d : Db) : Type 0 where
  pub sound : IsSound d
  pub few : length ps ≤ extra + 1
  pub pools :
      (ip : Bytes)
      → (c : ℕ) × (e : ℕ) × Pool cfg ip c e ps
        × ((t : ℕ) → now ≤ t → measure (active_by t ip) d + c ≤ cfg.max_active_per_ip + extra)
        × ((t : ℕ) → now ≤ t → measure (active_at t) d + e ≤ cfg.max_active_global + extra)

-- The rest of the pool is small, so the sum stays within the limit and the rest.
sum-Held :
    (limit extra n m m' x x' rest : ℕ)
    → Held limit (m + x) (m' + x')
    → m + (x + rest) ≤ limit + extra
    → rest + 1 ≤ n
    → n ≤ extra + 1
    → m' + (x' + rest) ≤ limit + extra
sum-Held limit extra n m m' x x' rest (inl h) k small few = omega arith
sum-Held limit extra n m m' x x' rest (inr h) k small few = omega arith

module _ (cfg : CreateConfig) (extra : ℕ) where
  goes_on-Kept :
      (now later : ℕ) (d : Db) (pre : List Program) (p : Program) (post : List Program)
      → now ≤ later
      → Kept cfg extra now (pre ++ p ∷ post) d
      → Kept cfg extra later (pre ++ (exec later p d).0 ∷ post) (exec later p d).1
  goes_on-Kept now later d pre p post le k = record {
    sound = exec-IsSound later p d k.sound;
    few =
        omega (
          arith,
          k.few,
          length-append pre (p ∷ post),
          length-append pre ((exec later p d).0 ∷ post),
        );
    pools = λ ip.
        let (c, e, pool, by_ip, in_all) = k.pools ip in
        let f : Focus cfg ip c e pre p post = focus cfg ip pre p post pool in
        let g : Effect cfg f.owner later f.a f.b p d =
          exec-Effect cfg f.owner later d f.a f.b p f.a_small f.b_small f.is_within in
        (
          share f.owner ip g.a' + f.c_rest,
          g.b' + f.e_rest,
          f.put g.a' g.b' _ g.goes_on g.a'_small g.b'_small,
          (λ t h.
              sum-Held cfg.max_active_per_ip extra (length (pre ++ p ∷ post))
                (measure (active_by t ip) d) (measure (active_by t ip) (exec later p d).1)
                (share f.owner ip f.a) (share f.owner ip g.a') f.c_rest (g.by_ip t ip h)
                (omega (arith, by_ip t (omega arith), f.c_sum)) f.c_small k.few),
          (λ t h.
              sum-Held cfg.max_active_global extra (length (pre ++ p ∷ post))
                (measure (active_at t) d) (measure (active_at t) (exec later p d).1) f.b g.b'
                f.e_rest (g.in_all t h) (omega (arith, in_all t (omega arith), f.e_sum)) f.e_small
                k.few),
        );
  }

  ends-Kept :
      (now : ℕ) (d : Db) (pre : List Program) (p : Program) (post : List Program)
      → Kept cfg extra now (pre ++ p ∷ post) d
      → Kept cfg extra now (pre ++ post) d
  ends-Kept now d pre p post k = record {
    sound = k.sound;
    few = omega (arith, k.few, length-append pre (p ∷ post), length-append pre post);
    pools = λ ip.
        let (c, e, pool, by_ip, in_all) = k.pools ip in
        let f : Focus cfg ip c e pre p post = focus cfg ip pre p post pool in
        (
          f.c_rest,
          f.e_rest,
          f.take_out,
          (λ t h. omega (arith, by_ip t h, f.c_sum)),
          (λ t h. omega (arith, in_all t h, f.e_sum)),
        );
  }

  other-Kept :
      (now later : ℕ) (d : Db) (ps : List Program) (q : Request)
      → is_create q ≡ false
      → now ≤ later
      → Kept cfg extra now ps d
      → Kept cfg extra later ps (run q d)
  other-Kept now later d ps q e le k = record {
    sound = run-IsSound q d k.sound;
    few = k.few;
    pools = λ ip.
        let (c, e', pool, by_ip, in_all) = k.pools ip in
        (
          c,
          e',
          pool,
          (λ t h. omega (arith, by_ip t (omega arith), run-measure (active_by t ip) q d e)),
          (λ t h. omega (arith, in_all t (omega arith), run-measure (active_at t) q d e)),
        );
  }

  module _ (Handler : Program → Type 0)
      (safe : (p : Program) → Handler p → (ip : Bytes) × Within cfg ip 0 0 p) where
    Traffic-Kept :
        {now : ℕ} {ps : List Program} {d : Db}
        → Traffic Handler cfg extra now ps d
        → Kept cfg extra now ps d
    Traffic-Kept (begin now d sound within) = record {
      sound = sound;
      few = omega arith;
      pools = λ ip. (
        0,
        0,
        empty,
        (λ t h. omega (
          arith,
          within.by_ip ip,
          count_active_mailboxes_by_ip-measure now ip d,
          measure_by_later now t ip d h,
        )),
        (λ t h. omega (
          arith,
          within.in_all,
          count_active_mailboxes-measure now d,
          measure_at_later now t d h,
        )),
      );
    }
    Traffic-Kept (arrives p handler room r) =
        let k = Traffic-Kept r in
        let (owner, w) = safe p handler in
        record {
          sound = k.sound;
          few = omega (arith, room);
          pools = λ ip.
              let (c, e, pool, by_ip, in_all) = k.pools ip in
              (
                c,
                e,
                with_program owner w (omega arith) (omega arith) (ground arith) (omega arith) pool,
                by_ip,
                in_all,
              );
        }
    Traffic-Kept (goes_on later pre p post le r) =
        goes_on-Kept _ later _ pre p post le (Traffic-Kept r)
    Traffic-Kept (ends pre p post r) = ends-Kept _ _ pre p post (Traffic-Kept r)
    Traffic-Kept (other later q e le r) = other-Kept _ later _ _ q e le (Traffic-Kept r)

-- The programs of createMailbox.
abbrev pub IsCreateHandler :
    HexText
    → (net : NetText) → Crypto
    → CreateConfig
    → List (net.Ip → Bool)
    → WebConfig
    → Program
    → Type 0
IsCreateHandler hex net crypto cfg trusted web p =
    (r : CreateRequest) × (p ≡ handle_create_mailbox hex net crypto cfg trusted web r)

-- From a sound database within the limits, whatever requests for mailboxes come, whatever they hold and
-- in whatever order their calls and the other operations reach the store: the database is sound, and
-- where at most `extra + 1` of these requests are handled at a time, each address has at most `extra`
-- active mailboxes more than its limit, and all have at most `extra` more than theirs.
pub Traffic-IsWithin :
    (hex : HexText) (net : NetText) (crypto : Crypto) (cfg : CreateConfig)
    (trusted : List (net.Ip → Bool)) (web : WebConfig) (extra now : ℕ) (ps : List Program) (d : Db)
    → Traffic (IsCreateHandler hex net crypto cfg trusted web) cfg extra now ps d
    → IsSound d × IsWithin (cfg.max_active_per_ip + extra) (cfg.max_active_global + extra) now d
Traffic-IsWithin hex net crypto cfg trusted web extra now ps d r =
    let k =
      Traffic-Kept cfg extra (IsCreateHandler hex net crypto cfg trusted web)
        (λ p (q, e). (
          client_ip net trusted q.origin,
          rw e (handle_create_mailbox-Within hex net crypto cfg trusted web q),
        ))
        r in
    (
      k.sound,
      record {
        by_ip = λ ip.
            let (c, e, pool, by_ip, in_all) = k.pools ip in
            omega (arith, by_ip now (omega arith), count_active_mailboxes_by_ip-measure now ip d);
        in_all =
            let (c, e, pool, by_ip, in_all) = k.pools [] in
            omega (arith, in_all now (omega arith), count_active_mailboxes-measure now d);
      },
    )
