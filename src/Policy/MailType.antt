-- ===== src/Policy/MailType.antt =====
-- The type of a mail by its headers, in internal/analyzer/analyzer.go. A header is given by its name, as
-- Header.Get gives it.
use Prim.Native.String.{String}
use sender_report.Base.{
  ℕ, Bool, false, not, ◌&&◌, ◌||◌, Option, none, some, List, [], ◌∷◌, ◌++◌, ◌==◌, if◌then◌else◌,
}
use sender_report.Text.{
  Bytes, codes, bytes_eq, contains, split, to_lower, trim_space, trim_right, has_prefix, has_suffix,
  trim_suffix, trim_prefix,
}

pub data MailType : Type 0 where
  personal transactional bulk : MailType

abbrev pub any_word : (String → Bool) → List String → Bool
any_word p [] = false
any_word p (w ∷ ws) = p w || any_word p ws

-- The text behind the last at sign.
abbrev pub after_last_at : Bytes → Option Bytes
after_last_at [] = none
after_last_at (c ∷ s) =
    let here : Option Bytes = if c == 64 then some s else none in
    elim (after_last_at s) [ none ↦ here | some t ↦ some t ]

abbrev pub ends_address : ℕ → Bool
ends_address c = c == 62 || c == 32 || c == 9 || c == 13 || c == 10

-- The last two labels, or the whole name if it has one.
abbrev pub last_two : List Bytes → Option Bytes
last_two [] = none
last_two (a ∷ []) = none
last_two (a ∷ b ∷ []) = some (a ++ (codes "." ++ b))
last_two (a ∷ b ∷ c ∷ ls) = last_two (b ∷ c ∷ ls)

abbrev pub webmail_names : List String
webmail_names =
    "gmail.com" ∷ "googlemail.com" ∷ "outlook.com" ∷ "hotmail.com" ∷ "hotmail.de" ∷ "hotmail.fr"
    ∷ "live.com" ∷ "live.de" ∷ "live.fr" ∷ "msn.com" ∷ "yahoo.com" ∷ "yahoo.de" ∷ "yahoo.fr"
    ∷ "yahoo.co.uk" ∷ "yahoo.es" ∷ "yahoo.it" ∷ "ymail.com" ∷ "icloud.com" ∷ "me.com" ∷ "mac.com"
    ∷ "gmx.de" ∷ "gmx.net" ∷ "gmx.com" ∷ "gmx.at" ∷ "gmx.ch" ∷ "web.de" ∷ "t-online.de"
    ∷ "freenet.de" ∷ "arcor.de" ∷ "protonmail.com" ∷ "proton.me" ∷ "tutanota.com" ∷ "tutanota.de"
    ∷ "tuta.io" ∷ "skiff.com" ∷ "fastmail.com" ∷ "fastmail.fm" ∷ "pm.me" ∷ "aol.com" ∷ "aol.de"
    ∷ "aim.com" ∷ "zoho.com" ∷ "mail.com" ∷ "yandex.com" ∷ "yandex.ru" ∷ []

abbrev pub webmail_domain : Bytes → Bytes
webmail_domain after =
    let domain = trim_right ends_address after in
    elim (last_two (split 46 domain)) [ none ↦ domain | some d ↦ d ]

unfoldable pub is_consumer_webmail : Bytes → Bool
is_consumer_webmail from_header = elim (after_last_at from_header) [
  | none ↦ false
  | some after ↦ any_word (λ w. bytes_eq (webmail_domain after) (codes w)) webmail_names
]

abbrev pub list_headers : List String
list_headers =
    "List-Unsubscribe" ∷ "List-ID" ∷ "List-Id" ∷ "List-Archive" ∷ "List-Post" ∷ "Feedback-ID"
    ∷ "X-Feedback-ID" ∷ []

abbrev pub mua_words : List String
mua_words =
    "outlook" ∷ "thunderbird" ∷ "apple mail" ∷ "airmail" ∷ "evolution" ∷ "lotus notes" ∷ "the bat"
    ∷ "mutt" ∷ "emclient" ∷ "yahoo mail" ∷ "gmail" ∷ []

abbrev pub is_bulk : (Bytes → Bytes) → Bool
is_bulk header =
    let prec = to_lower (trim_space (header (codes "Precedence"))) in
    any_word (λ w. bytes_eq prec (codes w)) ("bulk" ∷ "list" ∷ "junk" ∷ [])
    || any_word (λ w. not (bytes_eq (trim_space (header (codes w))) [])) list_headers

abbrev pub is_automatic : (Bytes → Bytes) → Bool
is_automatic header =
    let auto_sub = to_lower (trim_space (header (codes "Auto-Submitted"))) in
    not (bytes_eq auto_sub []) && not (bytes_eq auto_sub (codes "no"))

-- What is neither bulk nor automatic is personal, whatever program wrote it.
unfoldable pub detect_mail_type : (Bytes → Bytes) → MailType
detect_mail_type header =
    let mua =
      to_lower (trim_space (header (codes "X-Mailer")))
      ++ (codes " " ++ to_lower (trim_space (header (codes "User-Agent")))) in
    if is_bulk header
    then bulk
    else if is_automatic header
    then transactional
    else if any_word (λ w. contains (codes w) mua) mua_words
    then personal
    else if is_consumer_webmail (to_lower (trim_space (header (codes "From"))))
    then personal
    else personal

-- `is_ip` is a parse by net.ParseIP.
unfoldable pub is_ip_literal_helo : (Bytes → Bool) → Bytes → Bool
is_ip_literal_helo is_ip helo =
    let h = trim_space helo in
    let inner = trim_suffix (codes "]") (trim_prefix (codes "[") h) in
    let address = trim_prefix (codes "ipv6:") (trim_prefix (codes "IPv6:") inner) in
    is_ip h || (has_prefix (codes "[") h && (has_suffix (codes "]") h && is_ip address))
