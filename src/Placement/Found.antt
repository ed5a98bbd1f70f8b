-- ===== src/Placement/Found.antt =====
-- Rows that are found by a key.
use sender_report.Base.{
  ◌≡◌, sym, inl, inr, Bool, true, false, List, [], ◌∷◌, arith, Bool-cases, All, All-mono,
}
use mathlib.Core.Path.{subst}
use sender_report.Text.{Bytes, bytes_eq, bytes_eq_sound, bytes_eq_complete}
use sender_report.Store.Tables.{Mailbox, ok, find_row, any_row}
use sender_report.Store.Rows.{Distinct, any_row-none}
use sender_report.Store.Sound.{same_mailbox, same_token}
use sender_report.Placement.Rows.{find_row-All}

module _ {A : Type 0} where
  -- A row that was found by one test is there for any other that it passes.
  pub found_any_row :
      (q p : A → Bool) (rows : List A) (x : A)
      → find_row q rows ≡ ok x
      → p x ≡ true
      → any_row p rows ≡ true
  found_any_row q p [] x h e = absurd (cc)
  found_any_row q p (y ∷ rows) x h e = elim (Bool-cases (q y)) [
    | inl t ↦
        let same : x ≡ y = ground (arith, h, t) in
        let here : p y ≡ true = subst (λ z. p z ≡ true) same e in rw here
    | inr f ↦ ground (arith, found_any_row q p rows x (ground (arith, h, f)) e)
  ]

  -- The rows with the key of a found row are that row.
  pub Distinct-unique :
      (same : A → A → Bool)
      → ((x y : A) → same x y ≡ same y x)
      → (q : A → Bool) (rows : List A) (x : A) → Distinct same rows
      → find_row q rows ≡ ok x
      → All (λ y. same y x ≡ true → y ≡ x) rows
  Distinct-unique same turn q [] x h e = tt
  Distinct-unique same turn q (y ∷ rows) x h e =
      let others = any_row-none (same y) rows h.0 in
      elim (Bool-cases (q y)) [
        | inl t ↦
            let here : y ≡ x = ground (arith, t, e) in
            ((λ s. here), All-mono _ _ (λ z no s. absurd (cc (no, s, here, turn z x))) rows others)
        | inr f ↦
            let later : find_row q rows ≡ ok x = ground (arith, f, e) in
            let no = (find_row-All (λ z. same y z ≡ false) q rows x others later).0 in
            ((λ s. absurd (cc (no, s))), Distinct-unique same turn q rows x h.1 later)
      ]

bytes_eq_turn : (s t : Bytes) → bytes_eq s t ≡ bytes_eq t s
bytes_eq_turn s t = elim (Bool-cases (bytes_eq s t)) [
  | inl e ↦ cc (e, bytes_eq_complete t s (sym (bytes_eq_sound s t e)))
  | inr e ↦ elim (Bool-cases (bytes_eq t s)) [
    | inl f ↦ cc (f, bytes_eq_complete s t (sym (bytes_eq_sound t s f)))
    | inr f ↦ cc (e, f)
  ]
]

pub same_mailbox_turn : (x y : Mailbox) → same_mailbox x y ≡ same_mailbox y x
same_mailbox_turn x y = ground arith

pub same_token_turn : (x y : Mailbox) → same_token x y ≡ same_token y x
same_token_turn x y = bytes_eq_turn x.token y.token
