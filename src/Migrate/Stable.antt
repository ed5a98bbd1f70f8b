-- ===== src/Migrate/Stable.antt =====
-- A migration adds what is missing, changes nothing that is there, and has nothing to do a second time.
use mathlib.Core.Path.{subst}
use sender_report.Base.{
  ◌≡◌, refl, sym, ap, ◌∙◌, inl, inr, Bool, true, false, ◌||◌, List, [], ◌∷◌, ◌++◌, append-nil,
  arith, if◌then◌else◌, Bool-cases, filter, All, All-mono, filter-append,
}
use sender_report.Text.{Bytes, bytes_eq_refl}
use sender_report.Migrate.{
  VarDef, sets, is_set, header, begins_group, entry_lines, new_lines, added_keys, migrate_lines,
  with_added,
}
use sender_report.Migrate.Keys.{
  IsPlain, IsNote, key_of-note, no_key, is_set-append, is_set-notes, entry_lines-sets,
  new_lines-old,
}

-- `out` is the added keys with the lines of the file after the migration.
pub record IsMigrated (vars : List VarDef) (raw : List Bytes) (out : List Bytes × List Bytes)
    : Type 0 where
  pub added : out.0 ≡ added_keys (is_set raw) vars
  pub kept : (rest : List Bytes) × (out.1 ≡ raw ++ rest)
  pub untouched :
      (key : Bytes) → is_set raw key ≡ true → filter (sets key) out.1 ≡ filter (sets key) raw
  pub complete : All (λ v. is_set out.1 v.key ≡ true) vars
  pub settled : (version day : Bytes) → migrate_lines version day vars out.1 ≡ ([], out.1)

-- What none of the lines sets is filtered out.
filter-unset : (key : Bytes) (xs : List Bytes) → is_set xs key ≡ false → filter (sets key) xs ≡ []
filter-unset key [] h = refl
filter-unset key (x ∷ xs) h = ground (arith, h, filter-unset key xs)

none_added :
    (existing : Bytes → Bool) (vs : List VarDef)
    → All (λ v. existing v.key ≡ true) vs
    → added_keys existing vs ≡ []
none_added existing [] h = refl
none_added existing (v ∷ vs) h = rw (h.0) (none_added existing vs h.1)

nothing_missing :
    (existing : Bytes → Bool) (vs : List VarDef)
    → added_keys existing vs ≡ []
    → All (λ v. existing v.key ≡ true) vs
nothing_missing existing [] h = tt
nothing_missing existing (v ∷ vs) h = elim (Bool-cases (existing v.key)) [
  | inl e ↦ (e, nothing_missing existing vs (ground (arith, h, e)))
  | inr e ↦ absurd (ground (arith, h, e))
]

skip_entry :
    (existing : Bytes → Bool) (current : Bytes) (v : VarDef) (vs : List VarDef)
    → existing v.key ≡ true
    → new_lines existing current (v ∷ vs) ≡ new_lines existing current vs
unfolding new_lines
skip_entry existing current v vs e = rw e

take_entry :
    (existing : Bytes → Bool) (current : Bytes) (v : VarDef) (vs : List VarDef)
    → existing v.key ≡ false
    → new_lines existing current (v ∷ vs)
      ≡ entry_lines v current
        ++ new_lines existing (if begins_group v current then v.group else current) vs
unfolding new_lines
take_entry existing current v vs e = rw e

-- A variable is there or among some lines.
abbrev HasLine : (Bytes → Bool) → List Bytes → VarDef → Type 0
HasLine existing lines v = (existing v.key || is_set lines v.key) ≡ true

HasLine-behind :
    (existing : Bytes → Bool) (xs ys : List Bytes) (w : VarDef)
    → HasLine existing ys w
    → HasLine existing (xs ++ ys) w
HasLine-behind existing xs ys w h = ground (arith, h, is_set-append xs ys w.key)

HasLine-entry :
    (existing : Bytes → Bool) (current : Bytes) (v : VarDef) (ys : List Bytes)
    → IsPlain v
    → HasLine existing (entry_lines v current ++ ys) v
HasLine-entry existing current v ys h =
    let e = entry_lines-sets v current v.key h ∙ bytes_eq_refl v.key in
    ground (arith, e, is_set-append (entry_lines v current) ys v.key)

-- Each variable is there or is set by a new line.
new_lines-HasLine :
    (existing : Bytes → Bool) (current : Bytes) (vs : List VarDef)
    → All IsPlain vs
    → All (HasLine existing (new_lines existing current vs)) vs
new_lines-HasLine existing current [] h = tt
new_lines-HasLine existing current (v ∷ vs) h = elim (Bool-cases (existing v.key)) [
  | inl e ↦
      let rest = new_lines-HasLine existing current vs h.1 in
      subst (λ ls. All (HasLine existing ls) (v ∷ vs)) (sym (skip_entry existing current v vs e))
        (ground (arith, e), rest)
  | inr e ↦
      let next = if begins_group v current then v.group else current in
      let more = new_lines existing next vs in
      let rest = new_lines-HasLine existing next vs h.1 in
      subst (λ ls. All (HasLine existing ls) (v ∷ vs)) (sym (take_entry existing current v vs e))
        (
          HasLine-entry existing current v more h.0,
          All-mono (HasLine existing more) (HasLine existing (entry_lines v current ++ more))
              (HasLine-behind existing (entry_lines v current) more) vs rest,
        )
]

settled_lines :
    (version day : Bytes) (vars : List VarDef) (lines : List Bytes)
    → All (λ v. is_set lines v.key ≡ true) vars
    → migrate_lines version day vars lines ≡ ([], lines)
unfolding migrate_lines
settled_lines version day vars lines h =
    ap (with_added version day vars lines) (none_added (is_set lines) vars h)

header-IsNote : (version day : Bytes) → All IsNote (header version day)
header-IsNote version day = (
  no_key,
  (key_of-note _, (key_of-note _, (key_of-note _, (key_of-note _, (key_of-note _, tt))))),
)

-- The lines behind the old ones.
abbrev appended : Bytes → Bytes → List VarDef → List Bytes → List Bytes
appended version day vars raw = header version day ++ (new_lines (is_set raw) [] vars ++ [] ∷ [])

unset_append :
    (xs ys : List Bytes) (key : Bytes)
    → is_set xs key ≡ false
    → is_set ys key ≡ false
    → is_set (xs ++ ys) key ≡ false
unset_append xs ys key h k = is_set-append xs ys key ∙ rw (h, k)

set_between :
    (raw before fresh after : List Bytes) (key : Bytes)
    → (is_set raw key || is_set fresh key) ≡ true
    → is_set (raw ++ (before ++ (fresh ++ after))) key ≡ true
set_between raw before fresh after key h = ground (
  arith,
  h,
  is_set-append raw (before ++ (fresh ++ after)) key,
  is_set-append before (fresh ++ after) key,
  is_set-append fresh after key,
)

appended-old :
    (version day : Bytes) (vars : List VarDef) (raw : List Bytes) (key : Bytes)
    → All IsPlain vars
    → is_set raw key ≡ true
    → is_set (appended version day vars raw) key ≡ false
appended-old version day vars raw key h old =
    let fresh = new_lines (is_set raw) [] vars in
    unset_append (header version day) (fresh ++ [] ∷ []) key
      (is_set-notes (header version day) key (header-IsNote version day))
      (unset_append fresh ([] ∷ []) key (new_lines-old (is_set raw) key old [] vars h)
        (is_set-notes ([] ∷ []) key (no_key, tt)))

appended-HasLine :
    (version day : Bytes) (vars : List VarDef) (raw : List Bytes)
    → All IsPlain vars
    → All (λ v. is_set (raw ++ appended version day vars raw) v.key ≡ true) vars
appended-HasLine version day vars raw h =
    let fresh = new_lines (is_set raw) [] vars in
    All-mono (HasLine (is_set raw) fresh)
      (λ v. is_set (raw ++ appended version day vars raw) v.key ≡ true)
      (λ v. set_between raw (header version day) fresh ([] ∷ []) v.key) vars
      (new_lines-HasLine (is_set raw) [] vars h)

migrated :
    (version day : Bytes) (vars : List VarDef) (raw added : List Bytes)
    → All IsPlain vars
    → added_keys (is_set raw) vars ≡ added
    → IsMigrated vars raw (with_added version day vars raw added)
migrated version day vars raw [] h e =
    let there = nothing_missing (is_set raw) vars e in
    record {
      added = sym e;
      kept = ([], sym (append-nil raw));
      untouched = λ key old. refl;
      complete = there;
      settled = λ v d. settled_lines v d vars raw there;
    }
migrated version day vars raw (k ∷ ks) h e =
    let more = appended version day vars raw in
    let there = appended-HasLine version day vars raw h in
    record {
      added = sym e;
      kept = (more, refl);
      untouched = λ key old.
          filter-append (sets key) raw more
          ∙ (ap (filter (sets key) raw ++◌)
                (filter-unset key more (appended-old version day vars raw key h old))
              ∙ append-nil (filter (sets key) raw));
      complete = there;
      settled = λ v d. settled_lines v d vars (raw ++ more) there;
    }

-- For variables whose entries are read as setting them, the migration of a file adds exactly the variables that
-- no line sets, keeps every line of the file where it is, adds no line for a variable that
-- the file sets, sets all variables, and has nothing to do when it comes again, in any version on any day.
pub migrate_lines-IsMigrated :
    (version day : Bytes) (vars : List VarDef) (raw : List Bytes)
    → All IsPlain vars
    → IsMigrated vars raw (migrate_lines version day vars raw)
unfolding migrate_lines
migrate_lines-IsMigrated version day vars raw h =
    migrated version day vars raw (added_keys (is_set raw) vars) h refl
