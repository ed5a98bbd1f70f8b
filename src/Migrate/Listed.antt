-- ===== src/Migrate/Listed.antt =====
-- The variables of the table are read from their entries, so the migration keeps its promise for them.
use sender_report.Base.{
  ◌≡◌, refl, ap, Bool, true, ◌&&◌, Option, none, some, List, [], ◌∷◌, arith, All,
}
use sender_report.Text.{Bytes, bytes_eq_sound, trim, trim_space}
use sender_report.Migrate.{VarDef, key_of, same_key, entry, migrate_lines}
use sender_report.Migrate.Keys.{IsPlain}
use sender_report.Migrate.Stable.{IsMigrated, migrate_lines-IsMigrated}
use sender_report.Migrate.Table.{all_vars}

abbrev all_read : List VarDef → Bool
all_read [] = true
all_read (v ∷ vs) = same_key v.key (key_of (entry v)) && all_read vs

same_key_sound : (key : Bytes) (o : Option Bytes) → same_key key o ≡ true → o ≡ some key
same_key_sound key none h = absurd (cc)
same_key_sound key (some k) h = ap some (bytes_eq_sound k key h)

all_read-IsPlain : (vs : List VarDef) → all_read vs ≡ true → All IsPlain vs
all_read-IsPlain [] h = tt
all_read-IsPlain (v ∷ vs) h =
    let o = key_of (entry v) in
    (same_key_sound v.key o (ground (arith, h)), all_read-IsPlain vs (ground (arith, h)))

table_read : all_read all_vars ≡ true
unfolding key_of trim_space trim all_vars
table_read = refl

-- For the table of the program, the migration of a file adds exactly the variables that no line sets, keeps every
-- line of the file where it is, adds no line for a variable that the file sets, sets all
-- variables, and has nothing to do when it comes again, in any version on any day.
pub all_vars-IsMigrated :
    (version day : Bytes) (raw : List Bytes)
    → IsMigrated all_vars raw (migrate_lines version day all_vars raw)
all_vars-IsMigrated version day raw =
    migrate_lines-IsMigrated version day all_vars raw (all_read-IsPlain all_vars table_read)
