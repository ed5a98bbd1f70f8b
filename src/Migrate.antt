-- ===== src/Migrate.antt =====
-- MigrateFile of internal/envmigrate/migrate.go, on the lines of the file. Reading lines from a file and
-- writing them back are calls of the library; the version and the day are texts that are passed in.
mod Keys
mod Stable
mod Table
mod Listed
mod Tests
use sender_report.Base.{
  ℕ, zero, suc, ◌+◌, ◌-◌, ◌*◌, ◌/◌, ◌%◌, ◌≤◌, ◌<◌, ◌≡◌, refl, sym, ap, ◌∙◌, ◌≢◌, ◌↔◌, ◌⊎◌, inl, inr,
  Bool, true, false, not, ◌&&◌, ◌||◌, Option, none, some, List, [], ◌∷◌, ◌++◌, map, append-nil,
  append_assoc, arith, ltb, leb, ◌==◌, if◌then◌else◌, ltb→lt, lt→ltb, leb→le, ==_iff, Bool-cases,
  Option-cases, length, drop, take, filter, length-append, All, All-append, All-mono,
}
use sender_report.Text.{Bytes, codes, bytes_eq, has_prefix, cut, trim_space, trim_prefix}

pub record VarDef : Type 0 where
  pub key : Bytes
  pub default : Bytes
  pub comment : Bytes
  pub group : Bytes

abbrev pub before_equals : Bytes → Bytes
before_equals s = elim (cut (codes "=") s) [ none ↦ s | some (before, after) ↦ before ]

abbrev pub non_blank : Bytes → Option Bytes
non_blank key = if bytes_eq key [] then none else some key

-- The variable that a line of the file sets.
unfoldable pub key_of : Bytes → Option Bytes
key_of line =
    let trimmed = trim_space line in
    if bytes_eq trimmed [] || has_prefix (codes "#") trimmed
    then none
    else non_blank (trim_space (before_equals (trim_prefix (codes "export ") trimmed)))

abbrev pub same_key : Bytes → Option Bytes → Bool
same_key key none = false
same_key key (some k) = bytes_eq k key

abbrev pub sets : Bytes → Bytes → Bool
sets key line = same_key key (key_of line)

-- The keys that parseEnvFile collects, as a test.
abbrev pub is_set : List Bytes → Bytes → Bool
is_set [] key = false
is_set (line ∷ lines) key = sets key line || is_set lines key

abbrev pub entry : VarDef → Bytes
entry v = v.key ++ (codes "=" ++ v.default)

abbrev pub note : Bytes → Bytes
note text = codes "# " ++ text

abbrev pub comment_lines : VarDef → List Bytes
comment_lines v = if bytes_eq v.comment [] then [] else note v.comment ∷ []

abbrev pub begins_group : VarDef → Bytes → Bool
begins_group v current = not (bytes_eq v.group []) && not (bytes_eq v.group current)

abbrev pub group_lines : VarDef → Bytes → List Bytes
group_lines v current =
    if begins_group v current then [] ∷ note (codes "── " ++ (v.group ++ codes " ──")) ∷ [] else []

abbrev pub entry_lines : VarDef → Bytes → List Bytes
entry_lines v current = group_lines v current ++ (comment_lines v ++ entry v ∷ [])

-- The lines for the variables that are not set, by their groups.
unfoldable pub new_lines : (Bytes → Bool) → Bytes → List VarDef → List Bytes
new_lines existing current [] = []
new_lines existing current (v ∷ vs) =
    let skipped = new_lines existing current vs in
    let added =
      entry_lines v current
      ++ new_lines existing (if begins_group v current then v.group else current) vs in
    if existing v.key then skipped else added

abbrev pub added_keys : (Bytes → Bool) → List VarDef → List Bytes
added_keys existing vs = map (λ v. v.key) (filter (λ v. not (existing v.key)) vs)

abbrev pub rule : Bytes
rule = codes "# ══════════════════════════════════════════════════════════════════════════════"

abbrev pub header : Bytes → Bytes → List Bytes
header version day =
    []
    ∷ rule
    ∷ note (codes "Auto-added by Sender-Report " ++ (version ++ (codes " on " ++ day)))
    ∷ codes "# New variables were found that are not yet in this file."
    ∷ codes "# Review the values below and restart the container when done."
    ∷ rule
    ∷ []

abbrev pub with_added :
    Bytes → Bytes → List VarDef → List Bytes → List Bytes → List Bytes × List Bytes
with_added version day vars raw [] = ([], raw)
with_added version day vars raw (k ∷ ks) =
    (k ∷ ks, raw ++ (header version day ++ (new_lines (is_set raw) [] vars ++ [] ∷ [])))

-- The keys that were added and the lines of the file afterwards.
unfoldable pub migrate_lines : Bytes → Bytes → List VarDef → List Bytes → List Bytes × List Bytes
migrate_lines version day vars raw = with_added version day vars raw (added_keys (is_set raw) vars)
