-- ===== src/Seeds/Tests.antt =====
-- Seeds of two providers.
use Prim.Native.Nat.{ℕ, zero, suc}
use sender_report.Base.{◌≡◌, refl, List, [], ◌∷◌, ◌++◌, none, some, arith}
use sender_report.Text.{codes, trim_space, trim, to_lower}
use sender_report.Seeds.{
  Account, Provider, SeedInfo, no_accounts, check_accounts, check_provider, check_providers,
  validate, provider_names, is_wanted, filter_providers, pick,
}
use sender_report.Seeds.Picked.{AreOf, IsInBounds, validated-AreOf}

abbrev first_account : Account
first_account = record { user = codes "a@x"; password = codes "p" }

abbrev second_account : Account
second_account = record { user = codes "b@x"; password = codes "q" }

abbrev two : List Provider
two =
    record {
      name = codes "Xmail";
      imap = codes "imap.x:993";
      accounts = first_account ∷ second_account ∷ [];
    }
    ∷ record { name = codes "Y"; imap = codes "y:1"; accounts = first_account ∷ [] }
    ∷ []

-- The first account, and then the last each time.
abbrev last : ℕ → ℕ → ℕ
last zero n = zero
last (suc i) zero = zero
last (suc i) (suc n) = n

last-IsInBounds : IsInBounds last
last-IsInBounds zero n = omega arith
last-IsInBounds (suc i) n = omega arith

validated : validate two ≡ none
unfolding validate check_providers check_provider check_accounts trim_space trim
validated = refl

-- Two draws for providers with as many accounts differ.
abbrev twice : List Provider
twice = filter_providers two (codes "XMAIL" ∷ []) ++ filter_providers two (codes "XMAIL" ∷ [])

picked :
    pick last twice
    ≡ some (
        (record { provider = codes "Xmail"; address = codes "a@x" }, first_account)
        ∷ (record { provider = codes "Xmail"; address = codes "b@x" }, second_account)
        ∷ [])
unfolding pick filter_providers is_wanted to_lower
picked = refl

named : provider_names two ≡ codes "Xmail" ∷ codes "Y" ∷ []
unfolding provider_names
named = refl

refused :
    validate (record { name = codes "Z"; imap = codes "z:1"; accounts = [] } ∷ [])
    ≡ some (no_accounts (codes "Z"))
unfolding validate check_providers check_provider check_accounts trim_space trim
refused = refl

validated-AreOf_example :
    (xs : List (SeedInfo × Account)) × (pick last (filter_providers two (codes "XMAIL" ∷ []))
      ≡ some xs)
    × AreOf (filter_providers two (codes "XMAIL" ∷ [])) xs
validated-AreOf_example = validated-AreOf last last-IsInBounds two (codes "XMAIL" ∷ []) validated
