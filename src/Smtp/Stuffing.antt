-- ===== src/Smtp/Stuffing.antt =====
-- `readData` against the dot-stuffing of RFC 5321 section 4.5.2.
use sender_report.Base.{
  ℕ, ◌+◌, ◌≤◌, ◌<◌, ◌≡◌, refl, Bool, true, false, List, [], ◌∷◌, ◌++◌, append-nil, append_assoc,
  arith, ◌==◌, length, length-append, map, if◌then◌else◌,
}
use sender_report.Text.{Bytes}
use sender_report.Smtp.Wire.{ReadResult, complete, failed, is_end, unstuff, read_data}

-- What a client writes for a line of the message: a leading dot is doubled.
abbrev pub stuff : Bytes → Bytes
stuff [] = []
stuff (c ∷ s) = if c == b'.' then b'.' ∷ c ∷ s else c ∷ s

abbrev pub concat : List Bytes → Bytes
concat [] = []
concat (l ∷ ls) = l ++ concat ls

unstuff-stuff : (line : Bytes) → unstuff (stuff line) ≡ line
unstuff-stuff [] = refl
unstuff-stuff (c ∷ []) = ground arith
unstuff-stuff (c ∷ d ∷ s) = ground arith

is_end-stuff : (line : Bytes) → is_end (stuff line) ≡ false
is_end-stuff [] = refl
is_end-stuff (c ∷ []) = ground arith
is_end-stuff (c ∷ d ∷ s) = ground arith

-- The lines of a message that fits go through, whatever comes behind them.
read_data-lines :
    (max_bytes : ℕ) (out : Bytes) (lines rest : List Bytes)
    → length out + length (concat lines) ≤ max_bytes
    → read_data max_bytes out (map stuff lines ++ rest)
      ≡ read_data max_bytes (out ++ concat lines) rest
unfolding read_data
read_data-lines max_bytes out [] rest h = rw append-nil
read_data-lines max_bytes out (line ∷ lines) rest h = ground (
  arith,
  is_end-stuff line,
  unstuff-stuff line,
  length-append line (concat lines),
  length-append out line,
  read_data-lines max_bytes (out ++ line) lines rest,
  append_assoc out line (concat lines),
)

-- Both lines that end a message.
abbrev pub end_line : Bool → Bytes
end_line true = b'.' ∷ 13 ∷ 10 ∷ []
end_line false = b'.' ∷ 10 ∷ []

-- A message that fits, sent by lines with leading dots doubled, is read back byte for byte, and
-- the lines behind its end are left unread.
pub read_data-stuff :
    (max_bytes : ℕ) (lines rest : List Bytes) (crlf : Bool)
    → length (concat lines) ≤ max_bytes
    → read_data max_bytes [] (map stuff lines ++ end_line crlf ∷ rest)
      ≡ complete (concat lines) rest
unfolding read_data
read_data-stuff max_bytes lines rest true h =
    rw (read_data-lines max_bytes [] lines _ (omega arith))
read_data-stuff max_bytes lines rest false h =
    rw (read_data-lines max_bytes [] lines _ (omega arith))

-- A message is given up at the first line with which it is too long; the lines of the message
-- behind that one are left unread, before its end.
pub read_data_too_long :
    (max_bytes : ℕ) (lines : List Bytes) (line : Bytes) (more : List Bytes)
    → length (concat lines) ≤ max_bytes
    → max_bytes < length (concat lines) + length line
    → read_data max_bytes [] (map stuff lines ++ stuff line ∷ more) ≡ failed more
unfolding read_data
read_data_too_long max_bytes lines line more h k =
    rw (read_data-lines max_bytes [] lines (stuff line ∷ more) (omega arith))
      (ground (arith, is_end-stuff line, unstuff-stuff line))

-- The lines that are left behind `readData` are fewer than those that it was given.
abbrev pub left : ReadResult → List Bytes
left (complete body rest) = rest
left (failed rest) = rest

pub read_data-left :
    (max_bytes : ℕ) (out : Bytes) (lines : List Bytes)
    → length (left (read_data max_bytes out lines)) ≤ length lines
unfolding read_data
read_data-left max_bytes out [] = omega arith
read_data-left max_bytes out (line ∷ rest) =
    ground (arith, read_data-left max_bytes (out ++ unstuff line) rest)

-- A message that is read has at most the bytes that are allowed.
abbrev pub Fits : ℕ → ReadResult → Type 0
Fits max_bytes (complete body rest) = length body ≤ max_bytes
Fits max_bytes (failed rest) = Unit {0}

pub read_data-Fits :
    (max_bytes : ℕ) (out : Bytes) (lines : List Bytes)
    → length out ≤ max_bytes
    → Fits max_bytes (read_data max_bytes out lines)
unfolding read_data
read_data-Fits max_bytes out [] h = tt
read_data-Fits max_bytes out (line ∷ rest) h =
    ground
      (arith, length-append out (unstuff line), read_data-Fits max_bytes (out ++ unstuff line) rest)
