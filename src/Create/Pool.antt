-- ===== src/Create/Pool.antt =====
-- The programs that run at a time, with what each has earned of the limits.
use sender_report.Base.{ℕ, ◌+◌, ◌≤◌, ◌≡◌, refl, List, [], ◌∷◌, ◌++◌, arith, length}
use sender_report.Text.{Bytes}
use sender_report.Create.Program.{Program}
use sender_report.Create.Handler.{CreateConfig}
use sender_report.Create.Credit.{Within}
use sender_report.Create.Effect.{share}

-- `c` is what the programs have earned for one address, `e` what they have earned of the limit of all.
pub data Pool (cfg : CreateConfig) (ip : Bytes) : ℕ → ℕ → List Program → Type 0 where
  empty : Pool cfg ip 0 0 []
  with_program :
      {a b c e c' e' : ℕ} {p : Program} {ps : List Program} (owner : Bytes)
      → Within cfg owner a b p
      → a ≤ 1
      → b ≤ 1
      → c' ≡ share owner ip a + c
      → e' ≡ b + e
      → Pool cfg ip c e ps
      → Pool cfg ip c' e' (p ∷ ps)

-- One program among the others.
pub record Focus (cfg : CreateConfig) (ip : Bytes) (c e : ℕ) (pre : List Program) (p : Program)
    (post : List Program) : Type 0 where
  pub owner : Bytes
  pub a : ℕ
  pub b : ℕ
  pub c_rest : ℕ
  pub e_rest : ℕ
  pub is_within : Within cfg owner a b p
  pub a_small : a ≤ 1
  pub b_small : b ≤ 1
  pub c_sum : c ≡ share owner ip a + c_rest
  pub e_sum : e ≡ b + e_rest
  pub c_small : c_rest + 1 ≤ length (pre ++ p ∷ post)
  pub e_small : e_rest + 1 ≤ length (pre ++ p ∷ post)
  pub put :
      (a' b' : ℕ) (p' : Program)
      → Within cfg owner a' b' p'
      → a' ≤ 1
      → b' ≤ 1
      → Pool cfg ip (share owner ip a' + c_rest) (b' + e_rest) (pre ++ p' ∷ post)
  pub take_out : Pool cfg ip c_rest e_rest (pre ++ post)

module _ (cfg : CreateConfig) (ip : Bytes) where
  share_small : (owner : Bytes) (a : ℕ) → a ≤ 1 → share owner ip a ≤ 1
  share_small owner a h = ground (arith, h)

  Pool-bound :
      {c e : ℕ} {ps : List Program} → Pool cfg ip c e ps → (c ≤ length ps) × (e ≤ length ps)
  Pool-bound empty = (omega arith, omega arith)
  Pool-bound (with_program {a = a} owner w ha hb hc he rest) =
      let (small_c, small_e) = Pool-bound rest in
      (omega (arith, small_c, hc, share_small owner a ha), omega (arith, small_e, he, hb))

  pub focus :
      {c e : ℕ} (pre : List Program) (p : Program) (post : List Program)
      → Pool cfg ip c e (pre ++ p ∷ post)
      → Focus cfg ip c e pre p post
  focus [] p post (with_program {a = ax} {b = bx} {c = c} {e = e} owner w ha hb hc he rest) =
      let (small_c, small_e) = Pool-bound rest in
      record {
        owner = owner;
        a = ax;
        b = bx;
        c_rest = c;
        e_rest = e;
        is_within = w;
        a_small = ha;
        b_small = hb;
        c_sum = hc;
        e_sum = he;
        c_small = omega (arith, small_c);
        e_small = omega (arith, small_e);
        put = λ a' b' p' w' ha' hb'. with_program owner w' ha' hb' refl refl rest;
        take_out = rest;
      }
  focus (x ∷ pre) p post (with_program {a = ax} {b = bx} {c = c} {e = e} owner w ha hb hc he rest) =
      let f = focus pre p post rest in
      record {
        owner = f.owner;
        a = f.a;
        b = f.b;
        c_rest = share owner ip ax + f.c_rest;
        e_rest = bx + f.e_rest;
        is_within = f.is_within;
        a_small = f.a_small;
        b_small = f.b_small;
        c_sum = omega (arith, hc, f.c_sum);
        e_sum = omega (arith, he, f.e_sum);
        c_small = omega (arith, f.c_small, share_small owner ax ha);
        e_small = omega (arith, f.e_small, hb);
        put = λ a' b' p' w' ha' hb'.
            with_program owner w ha hb (omega arith) (omega arith) (f.put a' b' p' w' ha' hb');
        take_out = with_program owner w ha hb refl refl f.take_out;
      }
