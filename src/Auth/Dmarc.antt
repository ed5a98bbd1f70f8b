-- ===== src/Auth/Dmarc.antt =====
-- `domainAligned` and `evaluateDMARC`. The record that the library looks up and its errors are
-- parameters, as is its name of the strict mode.
use sender_report.Base.{Bool, true, false, ◌&&◌, ◌||◌, ◌++◌, ◌⊎◌, inl, inr, if◌then◌else◌}
use sender_report.Text.{Bytes, codes, bytes_eq, has_suffix, to_lower, trim_space}
use sender_report.Spf.Parse.{SpfResult, pass, fail, no_result, permerror, temperror, is_empty_text}

abbrev pub plain_domain : Bytes → Bytes
plain_domain d = to_lower (trim_space d)

unfoldable pub domain_aligned : Bytes → Bytes → Bool → Bool
domain_aligned auth_domain from_domain strict =
    let a = plain_domain auth_domain in
    let f = plain_domain from_domain in
    if is_empty_text a || is_empty_text f
    then false
    else if strict
    then bytes_eq a f
    else bytes_eq a f || (has_suffix (codes "." ++ f) a || has_suffix (codes "." ++ a) f)

pub record DmarcOutcome : Type 0 where
  pub result : SpfResult
  pub detail : Bytes

-- `%t`
abbrev bool_text : Bool → Bytes
bool_text true = codes "true"
bool_text false = codes "false"

abbrev pub is_pass : SpfResult → Bool
is_pass pass = true
is_pass other = false

abbrev dmarc_outcome : SpfResult → Bytes → DmarcOutcome
dmarc_outcome r d = record { result = r; detail = d }

-- What the code reads of a record, and how it tells the errors of the lookup apart.
pub record DmarcLibrary : Type 1 where
  pub Rec : Type 0
  pub Err : Type 0
  pub lookup : Bytes → Rec ⊎ Err
  pub policy : Rec → Bytes
  pub spf_alignment : Rec → Bytes
  pub dkim_alignment : Rec → Bytes
  pub alignment_strict : Bytes
  pub is_no_policy : Err → Bool
  pub is_temp_fail : Err → Bool
  pub message : Err → Bytes

module _ (lib : DmarcLibrary) where
  -- Whether a check passed for a domain that is aligned, in the mode that the record asks for.
  abbrev pub mechanism_aligned : SpfResult → Bytes → Bytes → Bytes → Bool
  mechanism_aligned result domain from_domain mode =
      is_pass result && domain_aligned domain from_domain (bytes_eq mode lib.alignment_strict)

  abbrev dmarc_error : lib.Err → DmarcOutcome
  dmarc_error e =
      if lib.is_no_policy e
      then dmarc_outcome no_result (codes "no policy")
      else if lib.is_temp_fail e
      then dmarc_outcome temperror (lib.message e)
      else dmarc_outcome permerror (lib.message e)

  abbrev dmarc_detail : lib.Rec → Bool → Bool → Bytes
  dmarc_detail rec spf_aligned dkim_aligned =
      codes "policy="
      ++ (lib.policy rec
          ++ (codes " spf_aligned="
              ++ (bool_text spf_aligned
                  ++ (codes " dkim_aligned="
                      ++ (bool_text dkim_aligned
                          ++ (codes " adkim="
                              ++ (lib.dkim_alignment rec
                                  ++ (codes " aspf=" ++ lib.spf_alignment rec))))))))

  abbrev dmarc_checked : lib.Rec → Bool → Bool → DmarcOutcome
  dmarc_checked rec spf_aligned dkim_aligned =
      dmarc_outcome (if spf_aligned || dkim_aligned then pass else fail)
        (dmarc_detail rec spf_aligned dkim_aligned)

  unfoldable pub evaluate_dmarc : Bytes → SpfResult → Bytes → SpfResult → Bytes → DmarcOutcome
  evaluate_dmarc from_domain spf_result spf_domain dkim_result dkim_domain =
      if is_empty_text (trim_space from_domain)
      then dmarc_outcome no_result (codes "missing from domain")
      else elim (lib.lookup from_domain) [
        | inr e ↦ dmarc_error e
        | inl rec ↦
            dmarc_checked rec
              (mechanism_aligned spf_result spf_domain from_domain (lib.spf_alignment rec))
              (mechanism_aligned dkim_result dkim_domain from_domain (lib.dkim_alignment rec))
      ]
