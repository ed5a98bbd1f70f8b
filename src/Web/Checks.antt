-- ===== src/Web/Checks.antt =====
-- The order and the groups in which a report shows its checks, in internal/web/server.go, and the
-- texts for waiting times.
use sender_report.Base.{
  ℕ, ◌+◌, ◌/◌, Bool, true, false, not, ◌&&◌, ◌||◌, List, [], ◌∷◌, ◌++◌, ltb, ◌==◌, if◌then◌else◌,
  length, filter,
}
use sender_report.Text.{Bytes, codes, bytes_eq, trim_space, decimal}
use sender_report.Web.Paths.{Lang, de, en}

-- What the page reads of a check to order it; `details` stands for its other fields.
pub record ShownCheck : Type 0 where
  pub name : Bytes
  pub status : Bytes
  pub category : Bytes
  pub details : Bytes

-- The order of Go strings.
abbrev pub bytes_less : Bytes → Bytes → Bool
bytes_less s [] = false
bytes_less [] (d ∷ t) = true
bytes_less (c ∷ s) (d ∷ t) = ltb c d || (c == d && bytes_less s t)

-- A status that the map does not have is 0.
unfoldable pub rank : Bytes → ℕ
rank status =
    if bytes_eq status (codes "fail")
    then 0
    else if bytes_eq status (codes "warn")
    then 1
    else if bytes_eq status (codes "info")
    then 2
    else if bytes_eq status (codes "pass")
    then 3
    else 0

-- By rank, then by name.
abbrev pub key_less : ℕ → Bytes → ℕ → Bytes → Bool
key_less r name q other = if r == q then bytes_less name other else ltb r q

abbrev pub less : ShownCheck → ShownCheck → Bool
less a b = key_less (rank a.status) a.name (rank b.status) b.name

-- Behind the checks that come before it.
unfoldable pub insert_check : ShownCheck → List ShownCheck → List ShownCheck
insert_check c [] = c ∷ []
insert_check c (d ∷ ds) = let rest = insert_check c ds in if less d c then d ∷ rest else c ∷ d ∷ ds

-- The sort is stable: a check goes before the ones behind it that it is not behind.
unfoldable pub sort_checks : List ShownCheck → List ShownCheck
sort_checks [] = []
sort_checks (c ∷ cs) = insert_check c (sort_checks cs)

abbrev pub last_group : Bytes
last_group = codes "Header und Rohdaten"

abbrev pub group_order : List Bytes
group_order =
    codes "Authentifizierung"
    ∷ codes "DNS und Infrastruktur"
    ∷ codes "Spamfilter"
    ∷ codes "Format und Inhalt"
    ∷ last_group
    ∷ []

unfoldable pub category_of : ShownCheck → Bytes
category_of c =
    let category = trim_space c.category in if bytes_eq category [] then last_group else category

-- Without the hint, a text for each name.
pub record CheckGroup : Type 0 where
  pub title : Bytes
  pub checks : List ShownCheck
  pub pass_count : ℕ
  pub warn_count : ℕ
  pub fail_count : ℕ
  pub na_count : ℕ
  pub info_count : ℕ

abbrev pub has_status : Bytes → ShownCheck → Bool
has_status status c = bytes_eq c.status status

abbrev pub is_other : ShownCheck → Bool
is_other c = not (
    has_status (codes "pass") c
    || has_status (codes "warn") c
    || has_status (codes "fail") c
    || has_status (codes "na") c)

abbrev pub count : (ShownCheck → Bool) → List ShownCheck → ℕ
count p cs = length (filter p cs)

unfoldable pub group_title : Lang → Bytes → Bytes
group_title de name = name
group_title en name =
    if bytes_eq name (codes "Authentifizierung")
    then codes "Authentication"
    else if bytes_eq name (codes "DNS und Infrastruktur")
    then codes "DNS and infrastructure"
    else if bytes_eq name (codes "Spamfilter")
    then codes "Spam filters"
    else if bytes_eq name (codes "Format und Inhalt")
    then codes "Format and content"
    else if bytes_eq name last_group
    then codes "Headers and raw data"
    else name

abbrev pub check_group : Lang → Bytes → List ShownCheck → CheckGroup
check_group lang name cs = record {
  title = group_title lang name;
  checks = cs;
  pass_count = count (has_status (codes "pass")) cs;
  warn_count = count (has_status (codes "warn")) cs;
  fail_count = count (has_status (codes "fail")) cs;
  na_count = count (has_status (codes "na")) cs;
  info_count = count is_other cs;
}

abbrev pub in_group : Bytes → ShownCheck → Bool
in_group name c = bytes_eq (category_of c) name

-- The groups of the names that have a check.
abbrev pub groups_for : Lang → List ShownCheck → List Bytes → List CheckGroup
groups_for lang cs [] = []
groups_for lang cs (name ∷ names) =
    let rest = groups_for lang cs names in
    elim (filter (in_group name) cs) [ [] ↦ rest | x ∷ xs ↦ check_group lang name (x ∷ xs) ∷ rest ]

unfoldable pub group_report_checks : List ShownCheck → Lang → List CheckGroup
group_report_checks cs lang = groups_for lang cs group_order

-- Whole seconds, rounded up, at least 1, of a duration in nanoseconds.
unfoldable pub wait_seconds : ℕ → ℕ
wait_seconds d = let secs = (d + 999999999) / 1000000000 in if ltb secs 1 then 1 else secs

unfoldable pub count_noun : ℕ → Bytes → Bytes → Bytes
count_noun n one many = if n == 1 then codes "1 " ++ one else decimal n ++ (codes " " ++ many)

abbrev pub seconds_text : Lang → ℕ → Bytes
seconds_text en n = count_noun n (codes "second") (codes "seconds")
seconds_text de n = count_noun n (codes "Sekunde") (codes "Sekunden")

abbrev pub minutes_text : Lang → ℕ → Bytes
minutes_text en n = count_noun n (codes "minute") (codes "minutes")
minutes_text de n = count_noun n (codes "Minute") (codes "Minuten")

unfoldable pub wait_text : Lang → ℕ → Bytes
wait_text lang d =
    let secs = wait_seconds d in
    if ltb secs 60 then seconds_text lang secs else minutes_text lang ((secs + 59) / 60)
