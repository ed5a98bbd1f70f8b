-- ===== src/Web/Language.antt =====
-- The language of a response, in internal/i18n/i18n.go. The translations are parameters.
use sender_report.Base.{Option, none, some, List, [], ◌∷◌, if◌then◌else◌}
use sender_report.Text.{Bytes, codes, bytes_eq, cut, split, trim_space, to_lower}
use sender_report.Web.Paths.{Lang, de, en}

-- The text before the first separator.
abbrev pub before_first : Bytes → Bytes → Bytes
before_first sep s = elim (cut sep s) [ none ↦ s | some (before, after) ↦ before ]

-- The primary tag of a part of Accept-Language.
abbrev pub primary_tag : Bytes → Bytes
primary_tag part = before_first (codes "-") (to_lower (trim_space (before_first (codes ";") part)))

abbrev pub lang_in : List Bytes → Lang
lang_in [] = en
lang_in (part ∷ parts) =
    let later = lang_in parts in
    if bytes_eq (primary_tag part) (codes "de")
    then de
    else if bytes_eq (primary_tag part) (codes "en")
    then en
    else later

unfoldable pub detect_from_header : Bytes → Lang
detect_from_header header = lang_in (split 44 header)

-- The cookie, if it names a language, before the header.
unfoldable pub detect : Option Bytes → Bytes → Lang
detect none header = detect_from_header header
detect (some value) header =
    if bytes_eq value (codes "de")
    then de
    else if bytes_eq value (codes "en")
    then en
    else detect_from_header header

abbrev pub or_else : Option Bytes → Bytes → Bytes
or_else none other = other
or_else (some text) other = text

-- The text of the language, the English one, or the key itself.
unfoldable pub translate : (Lang → Bytes → Option Bytes) → Lang → Bytes → Bytes
translate table lang key = or_else (table lang key) (or_else (table en key) key)
