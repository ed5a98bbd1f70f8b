-- ===== src/Seeds.antt =====
-- The seed accounts of internal/ipt/seeds.go: Validate, ProviderNames, Filter and Pick. The random
-- numbers are a parameter: a draw for each place in the list of providers.
use Prim.Native.Nat.{ℕ, suc}
use sender_report.Base.{
  Bool, true, false, not, ◌||◌, List, [], ◌∷◌, Option, none, some, map, filter, get_elem?, length,
  if◌then◌else◌,
}
use sender_report.Text.{Bytes, codes, bytes_eq, contains, to_lower, trim_space}
pub mod Picked
mod Tests

pub record Account : Type 0 where
  pub user : Bytes
  pub password : Bytes

pub record Provider : Type 0 where
  pub name : Bytes
  pub imap : Bytes
  pub accounts : List Account

pub record SeedInfo : Type 0 where
  pub provider : Bytes
  pub address : Bytes

pub data SeedError : Type 0 where
  no_providers : SeedError
  no_name : ℕ → SeedError
  bad_imap no_accounts : Bytes → SeedError
  no_credentials : Bytes → ℕ → SeedError

-- The first account without a user or a password, counted from `j`.
unfoldable pub check_accounts : Bytes → ℕ → List Account → Option SeedError
check_accounts name j [] = none
check_accounts name j (a ∷ as') =
    let rest = check_accounts name (suc j) as' in
    if bytes_eq a.user [] || bytes_eq a.password [] then some (no_credentials name j) else rest

abbrev or_else : Option SeedError → Option SeedError → Option SeedError
or_else (some e) later = some e
or_else none later = later

abbrev pub is_empty : List Account → Bool
is_empty [] = true
is_empty (a ∷ as') = false

unfoldable pub check_provider : ℕ → Provider → Option SeedError
check_provider i p =
    if bytes_eq (trim_space p.name) []
    then some (no_name i)
    else if not (contains (codes ":") p.imap)
    then some (bad_imap p.name)
    else if is_empty p.accounts
    then some (no_accounts p.name)
    else check_accounts p.name 0 p.accounts

unfoldable pub check_providers : ℕ → List Provider → Option SeedError
check_providers i [] = none
check_providers i (p ∷ ps) = or_else (check_provider i p) (check_providers (suc i) ps)

unfoldable pub validate : List Provider → Option SeedError
validate [] = some no_providers
validate (p ∷ ps) = check_providers 0 (p ∷ ps)

unfoldable pub provider_names : List Provider → List Bytes
provider_names ps = map (λ p. p.name) ps

unfoldable pub is_wanted : List Bytes → Bytes → Bool
is_wanted [] name = false
is_wanted (s ∷ ss) name = bytes_eq (to_lower s) (to_lower name) || is_wanted ss name

unfoldable pub filter_providers : List Provider → List Bytes → List Provider
filter_providers ps [] = ps
filter_providers ps (s ∷ ss) = filter (λ p. is_wanted (s ∷ ss) p.name) ps

abbrev pub picked_one :
    Provider → Account → Option (List (SeedInfo × Account)) → Option (List (SeedInfo × Account))
picked_one p a none = none
picked_one p a (some rest) = some ((record { provider = p.name; address = a.user }, a) ∷ rest)

-- The two parallel slices as one list of pairs. `rand i n` is the draw for the provider at place i, below `n`;
-- for 0 the code panics, which is `none` here.
unfoldable pub pick : (ℕ → ℕ → ℕ) → List Provider → Option (List (SeedInfo × Account))
pick rand [] = some []
pick rand (p ∷ ps) =
    let rest = pick (λ i. rand (suc i)) ps in
    elim (get_elem? p.accounts (rand 0 (length p.accounts))) [
      | none ↦ none
      | some a ↦ picked_one p a rest
    ]
