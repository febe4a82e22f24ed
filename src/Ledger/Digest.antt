-- ===== src/Ledger/Digest.antt =====
-- SHA-256 and its text. The digest is a parameter with its documented shape; UTF-8 and the
-- hexadecimal text are as in the standard library.
use mathlib.Core.List.{Memᴰ}
use vigia.Prelude.{
  ℕ, ◌+◌, ◌/◌, ◌%◌, ◌<◌, ◌≡◌, ◌≢◌, refl, List, [], ◌∷◌, ◌++◌, All, arith, length, ltb,
  if◌then◌else◌,
}
use vigia.Ledger.Encoding.{Text}
use vigia.Ledger.Json.{nibble}

abbrev pub Bytes : Type 0
Bytes = List ℕ

pub record Sha256 : Type 0 where
  pub digest : Bytes → Bytes
  pub digest_length : (b : Bytes) → length (digest b) ≡ 32
  pub digest_bytes : (b : Bytes) → All (λ x. x < 256) (digest b)

-- Two of the given inputs that are different and have one digest.
pub record Collision (sha : Sha256) (hashed : List Bytes) : Type 0 where
  pub first : Bytes
  pub second : Bytes
  pub first_hashed : Memᴰ first hashed
  pub second_hashed : Memᴰ second hashed
  pub differ : first ≢ second
  pub same : sha.digest first ≡ sha.digest second

-- The UTF-8 bytes of a text, for code points below 2 ^ 21.
utf8_char : ℕ → Bytes → Bytes
utf8_char c rest =
    if ltb c 128
    then c ∷ rest
    else if ltb c 2048
    then (c / 64 + 192) ∷ (c % 64 + 128) ∷ rest
    else if ltb c 65536
    then (c / 4096 + 224) ∷ (c / 64 % 64 + 128) ∷ (c % 64 + 128) ∷ rest
    else (c / 262144 + 240) ∷ (c / 4096 % 64 + 128) ∷ (c / 64 % 64 + 128) ∷ (c % 64 + 128) ∷ rest

unfoldable pub utf8 : Text → Bytes
unfolding utf8_char
utf8 [] = []
utf8 (c ∷ s) = utf8_char c (utf8 s)

utf8_char-reads : (c d : ℕ) (r s : Bytes) → utf8_char c r ≡ utf8_char d s → (c ≡ d) × (r ≡ s)
unfolding utf8_char
utf8_char-reads c d r s e = ground arith

utf8_char-ne-nil : (c : ℕ) (r : Bytes) → utf8_char c r ≢ []
unfolding utf8_char
utf8_char-ne-nil c r e = ground arith

pub utf8-injective : (s t : Text) → utf8 s ≡ utf8 t → s ≡ t
unfolding utf8
utf8-injective [] [] e = refl
utf8-injective [] (d ∷ t) e = absurd (utf8_char-ne-nil d (utf8 t) (cc))
utf8-injective (c ∷ s) [] e = absurd (utf8_char-ne-nil c (utf8 s) e)
utf8-injective (c ∷ s) (d ∷ t) e =
    let (same, rest) = utf8_char-reads c d (utf8 s) (utf8 t) e in
    let tails = utf8-injective s t rest in cc (same, tails)

utf8_char-append : (c : ℕ) (r s : Bytes) → utf8_char c r ++ s ≡ utf8_char c (r ++ s)
unfolding utf8_char
utf8_char-append c r s = ground arith

pub utf8-append : (s t : Text) → utf8 (s ++ t) ≡ utf8 s ++ utf8 t
unfolding utf8
utf8-append [] t = refl
utf8-append (c ∷ s) t = rw (utf8_char-append, utf8-append s t)

-- `hex.EncodeToString`
unfoldable pub hex : Bytes → Text
hex [] = []
hex (b ∷ bs) = nibble (b / 16) ∷ nibble (b % 16) ∷ hex bs

hex_byte : (a b : ℕ) → nibble (a / 16) ≡ nibble (b / 16) → nibble (a % 16) ≡ nibble (b % 16) → a ≡ b
hex_byte a b h k = ground arith

pub hex-injective : (a b : Bytes) → hex a ≡ hex b → a ≡ b
unfolding hex
hex-injective [] [] e = refl
hex-injective [] (d ∷ b) e = absurd (cc)
hex-injective (c ∷ a) [] e = absurd (cc)
hex-injective (c ∷ a) (d ∷ b) e =
    let byte = hex_byte c d (cc) (cc) in let rest = hex-injective a b (cc) in cc (byte, rest)
