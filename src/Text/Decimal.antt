-- ===== src/Text/Decimal.antt =====
-- Decimal print (`%d`) and strconv.Atoi.
use sender_report.Base.{
  ℕ, zero, suc, ◌+◌, ◌-◌, ◌*◌, ◌/◌, ◌%◌, ◌^◌, ◌&&◌, [], ◌∷◌, Option, none, some, ltb, leb, ◌==◌,
  if◌then◌else◌,
}
use sender_report.Text.Search.{Bytes}

-- The digits of `n` in front of `out`, at most `k` of them.
abbrev digits : ℕ → ℕ → Bytes → Bytes
digits zero n out = out
digits (suc k) n out =
    let more = digits k (n / 10) ((b'0' + n % 10) ∷ out) in
    if ltb n 10 then (b'0' + n % 10) ∷ out else more

-- An int64 has at most 19 digits.
unfoldable pub decimal : ℕ → Bytes
decimal n = digits 19 n []

-- The number that decimal digits spell behind `n`, none for no digit.
abbrev digits_value : ℕ → Bytes → Option ℕ
digits_value n [] = some n
digits_value n (c ∷ s) =
    let more = digits_value (n * 10 + (c - b'0')) s in
    if leb b'0' c && leb c b'9' then more else none

abbrev max_int : ℕ
max_int = 2 ^ 63 - 1

abbrev at_most : ℕ → Option ℕ → Option ℕ
at_most bound none = none
at_most bound (some n) = if leb n bound then some n else none

unsigned : Bytes → Option ℕ
unsigned [] = none
unsigned (c ∷ s) = digits_value 0 (c ∷ s)

-- strconv.Atoi where only the numbers from zero up count: `none` for an error and for a negative
-- number.
unfoldable pub atoi : Bytes → Option ℕ
unfolding unsigned
atoi [] = none
atoi (c ∷ s) =
    if c == b'-'
    then at_most 0 (unsigned s)
    else if c == b'+'
    then at_most max_int (unsigned s)
    else at_most max_int (unsigned (c ∷ s))
