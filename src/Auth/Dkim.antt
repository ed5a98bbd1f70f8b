-- ===== src/Auth/Dkim.antt =====
-- `evaluateDKIM`. The verification itself is the library's: the code gets its list, in which an
-- entry may be nil, and its error. How the errors are told apart is a parameter.
use sender_report.Base.{Bool, true, false, List, [], ◌∷◌, ◌++◌, Option, none, some, if◌then◌else◌}
use sender_report.Text.{Bytes, codes, to_lower, trim_space}
use sender_report.Spf.Parse.{SpfResult, pass, fail, no_result, permerror, temperror, empty_fallback}

pub record DkimOutcome : Type 0 where
  pub result : SpfResult
  pub domain : Bytes
  pub detail : Bytes

-- `strings.Join`
unfoldable pub join : Bytes → List Bytes → Bytes
join sep [] = []
join sep (a ∷ []) = a
join sep (a ∷ b ∷ rest) = a ++ (sep ++ join sep (b ∷ rest))

abbrev pub dkim_outcome : SpfResult → Bytes → Bytes → DkimOutcome
dkim_outcome r d t = record { result = r; domain = d; detail = t }

-- The errors of the library, and how the code tells them apart.
pub record DkimLibrary : Type 1 where
  pub Err : Type 0
  pub is_temp_fail : Err → Bool
  pub is_perm_fail : Err → Bool
  pub message : Err → Bytes

module _ (lib : DkimLibrary) where
  -- What the code reads of a signature's verification.
  pub record Verification : Type 0 where
    pub domain : Bytes
    pub err : Option lib.Err

  abbrev pub passed : Verification → Bool
  passed v = elim (v.err) [ none ↦ true | some e ↦ false ]

  abbrev pub failed_by : (lib.Err → Bool) → Verification → Bool
  failed_by test v = elim (v.err) [ none ↦ false | some e ↦ test e ]

  abbrev pub any_failure : Verification → Bool
  any_failure v = true

  abbrev chunk : Verification → Bytes
  chunk v = elim (v.err) [
    | none ↦ empty_fallback (v.domain) (codes "unknown") ++ codes "=pass"
    | some e ↦ empty_fallback (v.domain) (codes "unknown") ++ (codes "=" ++ lib.message e)
  ]

  abbrev pub signing_domain : Verification → Bytes
  signing_domain v = to_lower (trim_space (v.domain))

  -- One of the last three loops: the first entry that is not nil and passes a test.
  unfoldable pub find_entry :
      (Verification → Bool) → List (Option Verification) → Option Verification
  find_entry test [] = none
  find_entry test (none ∷ vs) = find_entry test vs
  find_entry test (some v ∷ vs) = let later = find_entry test vs in if test v then some v else later

  -- The parts of the detail up to the first signature that passed, or of all.
  unfoldable pub chunks : List (Option Verification) → List Bytes
  chunks [] = []
  chunks (none ∷ vs) = chunks vs
  chunks (some v ∷ vs) = let later = chunks vs in if passed v then chunk v ∷ [] else chunk v ∷ later

  unfoldable pub dkim_failure : List (Option Verification) → Bytes → DkimOutcome
  dkim_failure vs detail = elim (find_entry (failed_by lib.is_temp_fail) vs) [
    | some v ↦ dkim_outcome temperror (signing_domain v) detail
    | none ↦ elim (find_entry (failed_by lib.is_perm_fail) vs) [
      | some v ↦ dkim_outcome permerror (signing_domain v) detail
      | none ↦ elim (find_entry any_failure vs) [
        | some v ↦ dkim_outcome fail (signing_domain v) detail
        | none ↦ dkim_outcome fail [] detail
      ]
    ]
  ]

  abbrev dkim_no_entry : Option lib.Err → DkimOutcome
  dkim_no_entry none = dkim_outcome no_result [] (codes "no signature")
  dkim_no_entry (some e) =
      if lib.is_temp_fail e
      then dkim_outcome temperror [] (lib.message e)
      else if lib.is_perm_fail e
      then dkim_outcome permerror [] (lib.message e)
      else dkim_outcome fail [] (lib.message e)

  unfoldable pub evaluate_dkim : List (Option Verification) → Option lib.Err → DkimOutcome
  evaluate_dkim [] err = dkim_no_entry err
  evaluate_dkim (v ∷ vs) err =
      let detail = join (codes ", ") (chunks (v ∷ vs)) in
      elim (find_entry passed (v ∷ vs)) [
        | some w ↦ dkim_outcome pass (signing_domain w) detail
        | none ↦ dkim_failure (v ∷ vs) detail
      ]
