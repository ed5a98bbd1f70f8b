-- ===== src/Text/Case.antt =====
-- ToLower and ToUpper on ASCII text.
use sender_report.Base.{ℕ, ◌+◌, ◌-◌, ◌&&◌, [], ◌∷◌, ◌≡◌, refl, arith, leb, if◌then◌else◌}
use sender_report.Text.Search.{Bytes}

abbrev pub lower_byte : ℕ → ℕ
lower_byte c = if leb b'A' c && leb c b'Z' then c + 32 else c

abbrev pub upper_byte : ℕ → ℕ
upper_byte c = if leb b'a' c && leb c b'z' then c - 32 else c

unfoldable pub to_lower : Bytes → Bytes
to_lower [] = []
to_lower (c ∷ s) = lower_byte c ∷ to_lower s

unfoldable pub to_upper : Bytes → Bytes
to_upper [] = []
to_upper (c ∷ s) = upper_byte c ∷ to_upper s

pub to_lower_idem : (s : Bytes) → to_lower (to_lower s) ≡ to_lower s
unfolding to_lower
to_lower_idem [] = refl
to_lower_idem (c ∷ s) = ground (arith, to_lower_idem s)
