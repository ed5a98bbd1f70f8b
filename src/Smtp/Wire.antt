-- ===== src/Smtp/Wire.antt =====
-- What the receiver reads: `bufio.Reader.ReadString('\n')`, `extractSMTPPath` and `readData`.
use sender_report.Base.{
  ℕ, ◌+◌, Bool, true, false, ◌||◌, List, [], ◌∷◌, ◌++◌, none, some, ltb, ◌==◌, length, drop,
  if◌then◌else◌,
}
use sender_report.Text.{Bytes, codes, bytes_eq, has_prefix, cut, to_lower, trim_space}

-- The lines that end in a line feed, which each keeps. Bytes behind the last one are never
-- returned: `ReadString` gives an error there.
lines_from : Bytes → Bytes → List Bytes
lines_from cur [] = []
lines_from cur (c ∷ s) = elim (c == 10) [
  | true ↦ (cur ++ c ∷ []) ∷ lines_from [] s
  | false ↦ lines_from (cur ++ c ∷ []) s
]

unfoldable pub read_lines : Bytes → List Bytes
unfolding lines_from
read_lines s = lines_from [] s

-- `if i := strings.Index(s, " "); i > 0 { s = s[:i] }`
before_blank : Bytes → Bytes
before_blank s = elim (cut (codes " ") s) [
  | none ↦ s
  | some (a, b) ↦ if bytes_eq a [] then s else a
]

-- The text between `<` and the first `>`, or all behind `<`.
unquote : Bytes → Bytes
unquote s =
    if has_prefix (codes "<") s
    then elim (cut (codes ">") s) [ none ↦ drop 1 s | some (a, b) ↦ drop 1 a ]
    else s

unfoldable pub extract_smtp_path : Bytes → Bytes
unfolding before_blank unquote
extract_smtp_path s = to_lower (trim_space (before_blank (unquote (trim_space s))))

-- The message and the lines behind it, or the lines that a failure leaves unread.
pub data ReadResult : Type 0 where
  complete : Bytes → List Bytes → ReadResult
  failed : List Bytes → ReadResult

abbrev pub is_end : Bytes → Bool
is_end line = bytes_eq line (b'.' ∷ 13 ∷ 10 ∷ []) || bytes_eq line (b'.' ∷ 10 ∷ [])

abbrev pub unstuff : Bytes → Bytes
unstuff line = if has_prefix (b'.' ∷ b'.' ∷ []) line then drop 1 line else line

-- The loop of `readData`; `out` is what has been written so far.
unfoldable pub read_data : ℕ → Bytes → List Bytes → ReadResult
read_data max_bytes out [] = failed []
read_data max_bytes out (line ∷ rest) =
    let more = read_data max_bytes (out ++ unstuff line) rest in
    if is_end line
    then complete out rest
    else if ltb max_bytes (length out + length (unstuff line))
    then failed rest
    else more
