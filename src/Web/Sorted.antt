-- ===== src/Web/Sorted.antt =====
-- The sort of the checks of a report by their key.
use sender_report.Base.{
  ℕ, ◌≡◌, refl, ◌∙◌, inl, inr, Bool, true, false, ◌&&◌, List, [], ◌∷◌, arith, ◌==◌, Bool-cases,
  filter,
}
use sender_report.Text.{Bytes, bytes_eq, bytes_eq_sound}
use sender_report.Web.Checks.{
  ShownCheck, bytes_less, key_less, rank, less, insert_check, sort_checks,
}

-- No check comes behind one that it should be before.
abbrev pub IsSorted : List ShownCheck → Type 0
IsSorted [] = Unit
IsSorted (c ∷ []) = Unit
IsSorted (c ∷ d ∷ ds) = (less d c ≡ false) × IsSorted (d ∷ ds)

-- The checks of one rank and name.
abbrev pub has_key : ℕ → Bytes → ShownCheck → Bool
has_key r name c = rank c.status == r && bytes_eq c.name name

bytes_less_irreflexive : (s : Bytes) → bytes_less s s ≡ false
bytes_less_irreflexive [] = refl
bytes_less_irreflexive (c ∷ s) = ground (arith, bytes_less_irreflexive s)

bytes_less_asymmetric : (s t : Bytes) → bytes_less s t ≡ true → bytes_less t s ≡ false
bytes_less_asymmetric [] t h = refl
bytes_less_asymmetric (c ∷ s) [] h = absurd (cc)
bytes_less_asymmetric (c ∷ s) (d ∷ t) h = ground (arith, h, bytes_less_asymmetric s t)

key_less_asymmetric : (r q : ℕ) (a b : Bytes) → key_less r a q b ≡ true → key_less q b r a ≡ false
key_less_asymmetric r q a b h = ground (arith, h, bytes_less_asymmetric a b)

same_key-less :
    (r : ℕ) (name : Bytes) (a b : ShownCheck)
    → has_key r name a ≡ true
    → has_key r name b ≡ true
    → less a b ≡ false
same_key-less r name a b h k =
    let ranks : rank a.status ≡ rank b.status = ground (arith, h, k) in
    let first : a.name ≡ name = bytes_eq_sound a.name name (ground (arith, h)) in
    let second : b.name ≡ name = bytes_eq_sound b.name name (ground (arith, k)) in
    rw (first, second) (ground (arith, ranks, bytes_less_irreflexive name))

-- The first check of a list does not belong before another one.
abbrev IsBehind : ShownCheck → List ShownCheck → Type 0
IsBehind d [] = Unit
IsBehind d (x ∷ xs) = less x d ≡ false

IsSorted-cons :
    (d : ShownCheck) (xs : List ShownCheck) → IsBehind d xs → IsSorted xs → IsSorted (d ∷ xs)
IsSorted-cons d [] b h = tt
IsSorted-cons d (x ∷ xs) b h = (b, h)

IsSorted-head :
    (d : ShownCheck) (xs : List ShownCheck) → IsSorted (d ∷ xs) → IsBehind d xs × IsSorted xs
IsSorted-head d [] h = (tt, tt)
IsSorted-head d (x ∷ xs) h = h

insert_check-IsBehind :
    (d c : ShownCheck) (xs : List ShownCheck)
    → less c d ≡ false
    → IsBehind d xs
    → IsBehind d (insert_check c xs)
unfolding insert_check
insert_check-IsBehind d c [] h b = h
insert_check-IsBehind d c (x ∷ xs) h b = elim (Bool-cases (less x c)) [
  | inr e ↦ rw e h
  | inl e ↦ rw e b
]

insert_check-IsSorted :
    (c : ShownCheck) (ds : List ShownCheck) → IsSorted ds → IsSorted (insert_check c ds)
unfolding insert_check
insert_check-IsSorted c [] h = tt
insert_check-IsSorted c (d ∷ ds) h =
    let (behind, rest) = IsSorted-head d ds h in
    elim (Bool-cases (less d c)) [
      | inr e ↦ rw e (e, h)
      | inl e ↦
          let after = key_less_asymmetric (rank d.status) (rank c.status) d.name c.name e in
          rw e (
            IsSorted-cons d (insert_check c ds) (insert_check-IsBehind d c ds after behind)
              (insert_check-IsSorted c ds rest))
    ]

filter-insert_check :
    (r : ℕ) (name : Bytes) (c : ShownCheck) (ds : List ShownCheck)
    → filter (has_key r name) (insert_check c ds) ≡ filter (has_key r name) (c ∷ ds)
unfolding insert_check
filter-insert_check r name c [] = refl
filter-insert_check r name c (d ∷ ds) = elim (Bool-cases (less d c)) [
  | inr e ↦ rw e refl
  | inl e ↦ elim (Bool-cases (has_key r name c)) [
    | inr other ↦ rw (e, filter-insert_check r name c ds, other) refl
    | inl same ↦ elim (Bool-cases (has_key r name d)) [
      | inr other ↦ rw (e, filter-insert_check r name c ds, same, other) refl
      | inl here ↦ absurd (ground (arith, e, same_key-less r name d c here same))
    ]
  ]
]

pub sort_checks-IsSorted :
    (cs : List ShownCheck)
    → IsSorted (sort_checks cs)
      × ((r : ℕ) (name : Bytes)
          → filter (has_key r name) (sort_checks cs) ≡ filter (has_key r name) cs)
unfolding sort_checks
sort_checks-IsSorted [] = (tt, λ r name. refl)
sort_checks-IsSorted (c ∷ cs) =
    let (ordered, kept) = sort_checks-IsSorted cs in
    (
      insert_check-IsSorted c (sort_checks cs) ordered,
      λ r name. filter-insert_check r name c (sort_checks cs) ∙ rw (kept r name),
    )
