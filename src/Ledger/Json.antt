-- ===== src/Ledger/Json.antt =====
-- encoding/json, as far as the ledger uses it: strings with the escapes of `json.Marshal`, numbers
-- that are not negative, and objects with fields in declaration order.
use vigia.Prelude.{
  ℕ, zero, suc, ◌+◌, ◌*◌, ◌-◌, ◌/◌, ◌%◌, ◌<◌, ◌≡◌, ◌≢◌, refl, sym, ap, Bool, true, [], ◌∷◌, ◌||◌,
  Option, some, none, arith, ltb, nat_eq, if◌then◌else◌,
}
use vigia.Ledger.Encoding.{Text, Writer, PrefixFree}

-- A hexadecimal digit in lower case.
abbrev pub nibble : ℕ → ℕ
nibble n = if ltb n 10 then n + 48 else n + 87

-- `\u` and four hexadecimal digits
abbrev unicode_escape : ℕ → Text → Text
unicode_escape c rest =
    92
    ∷ 117
    ∷ nibble (c / 4096)
    ∷ nibble (c / 256 % 16)
    ∷ nibble (c / 16 % 16)
    ∷ nibble (c % 16)
    ∷ rest

-- The characters that are escaped for HTML or by number: controls, `<`, `>`, `&`, U+2028, U+2029.
abbrev by_number : ℕ → Bool
by_number c =
    ltb c 32 || nat_eq c 60 || nat_eq c 62 || nat_eq c 38 || nat_eq c 8232 || nat_eq c 8233

-- One character of a string.
escape : Writer ℕ
escape c rest =
    if nat_eq c 34
    then 92 ∷ 34 ∷ rest
    else if nat_eq c 92
    then 92 ∷ 92 ∷ rest
    else if nat_eq c 8
    then 92 ∷ 98 ∷ rest
    else if nat_eq c 12
    then 92 ∷ 102 ∷ rest
    else if nat_eq c 10
    then 92 ∷ 110 ∷ rest
    else if nat_eq c 13
    then 92 ∷ 114 ∷ rest
    else if nat_eq c 9
    then 92 ∷ 116 ∷ rest
    else if by_number c
    then unicode_escape c rest
    else c ∷ rest

escapes : Writer Text
escapes [] rest = 34 ∷ rest
escapes (c ∷ s) rest = escape c (escapes s rest)

-- A string in quotes.
unfoldable pub string : Writer Text
unfolding escapes escape
string s rest = 34 ∷ escapes s rest

unnibble : ℕ → ℕ
unnibble d = if ltb d 58 then d - 48 else d - 87

unescape_number : Text → Option (ℕ × Text)
unescape_number (d ∷ e ∷ f ∷ g ∷ rest) =
    some (unnibble d * 4096 + unnibble e * 256 + unnibble f * 16 + unnibble g, rest)
unescape_number _ = none

unescape_rest : Text → Option (ℕ × Text)
unescape_rest [] = none
unescape_rest (b ∷ rest) =
    if nat_eq b 34
    then some (34, rest)
    else if nat_eq b 92
    then some (92, rest)
    else if nat_eq b 98
    then some (8, rest)
    else if nat_eq b 102
    then some (12, rest)
    else if nat_eq b 110
    then some (10, rest)
    else if nat_eq b 114
    then some (13, rest)
    else if nat_eq b 116
    then some (9, rest)
    else unescape_number rest

-- Reads one character back; `none` at the closing quote.
unescape : Text → Option (ℕ × Text)
unescape [] = none
unescape (a ∷ rest) =
    if nat_eq a 34 then none else if nat_eq a 92 then unescape_rest rest else some (a, rest)

unnibble-nibble : (n : ℕ) → n < 16 → unnibble (nibble n) ≡ n
unfolding unnibble
unnibble-nibble n h = ground arith

digits_sum : (c : ℕ) → c / 4096 * 4096 + c / 256 % 16 * 256 + c / 16 % 16 * 16 + c % 16 ≡ c
digits_sum c = omega arith

unescape-number :
    (c : ℕ) (rest : Text) → c < 65536 → unescape (unicode_escape c rest) ≡ some (c, rest)
unfolding unescape unescape_rest unescape_number
unescape-number c rest h = rw (
  unnibble-nibble (c / 4096) (omega arith),
  unnibble-nibble (c / 256 % 16) (omega arith),
  unnibble-nibble (c / 16 % 16) (omega arith),
  unnibble-nibble (c % 16) (omega arith),
  digits_sum c,
)

by_number-lt : (c : ℕ) → by_number c ≡ true → c < 65536
by_number-lt c h = ground arith

unescape-escape : (c : ℕ) (rest : Text) → unescape (escape c rest) ≡ some (c, rest)
unfolding unescape unescape_rest escape
unescape-escape c rest = ground (arith, unescape-number c rest, by_number-lt c)

escape-PrefixFree : PrefixFree escape
escape-PrefixFree = record {
  reads = λ c d r s e.
      let read = ap unescape e in ground (arith, unescape-escape c r, unescape-escape d s, read);
}

-- No escape begins like the closing quote.
unescape_quote : (c : ℕ) (r s : Text) → escape c r ≢ 34 ∷ s
unfolding unescape
unescape_quote c r s e = ground (arith, ap unescape e, unescape-escape c r)

escapes-reads : (a b : Text) (r s : Text) → escapes a r ≡ escapes b s → (a ≡ b) × (r ≡ s)
unfolding escapes
escapes-reads [] [] r s e = (refl, cc)
escapes-reads [] (d ∷ b) r s e = absurd (unescape_quote d (escapes b s) r (sym e))
escapes-reads (c ∷ a) [] r s e = absurd (unescape_quote c (escapes a r) s e)
escapes-reads (c ∷ a) (d ∷ b) r s e =
    let first = escape-PrefixFree.reads c d (escapes a r) (escapes b s) e in
    let rest = escapes-reads a b r s first.1 in (cc (first.0, rest.0), rest.1)

pub string-PrefixFree : PrefixFree string
unfolding string
string-PrefixFree = record { reads = λ a b r s e. escapes-reads a b r s (cc) }

-- A number that is not negative, and the comma behind it.
decimal : ℕ → Writer ℕ
decimal zero n rest = rest
decimal (suc fuel) n rest =
    let more = decimal fuel (n / 10) ((n % 10 + 48) ∷ rest) in
    if ltb n 10 then (n + 48) ∷ rest else more

unfoldable pub number_comma : Writer ℕ
unfolding decimal
number_comma n rest = decimal (suc n) n (44 ∷ rest)

read_number : Text → ℕ → ℕ × Text
read_number [] n = (n, [])
read_number (c ∷ rest) n = if nat_eq c 44 then (n, rest) else read_number rest (n * 10 + (c - 48))

read_number-decimal :
    (fuel n : ℕ) (rest : Text) → n < fuel → read_number (decimal fuel n rest) 0 ≡ read_number rest n
unfolding decimal read_number
read_number-decimal zero n rest h = absurd (omega arith)
read_number-decimal (suc fuel) n rest h =
    ground (arith, read_number-decimal fuel (n / 10) ((n % 10 + 48) ∷ rest))

pub number_comma-PrefixFree : PrefixFree number_comma
unfolding number_comma read_number
number_comma-PrefixFree = record {
  reads = λ a b r s e.
      let read = ap (λ (t : Text). read_number t 0) e in
      ground (
        arith,
        read,
        read_number-decimal (suc a) a (44 ∷ r) (omega arith),
        read_number-decimal (suc b) b (44 ∷ s) (omega arith),
      );
}
