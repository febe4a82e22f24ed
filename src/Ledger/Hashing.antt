-- ===== src/Ledger/Hashing.antt =====
-- What the hash of a record commits to (ledger.go, `Hash`).
use native.Mathlib.Decide.{ℕ_discrete}
use mathlib.Core.List.{Memᴰ}
use vigia.Prelude.{
  List, ℕ, ◌+◌, ◌/◌, ◌%◌, ◌<◌, ◌≡◌, ◌≢◌, refl, sym, ap, ◌∙◌, ◌⊎◌, inl, inr, true, [], ◌∷◌, ◌++◌,
  All, arith, length, all,
}
use vigia.Ledger.Encoding.{Text, span_cancel}
use vigia.Ledger.Json.{nibble}
use vigia.Ledger.Digest.{
  Bytes, Sha256, Collision, utf8, utf8-append, utf8-injective, hex, hex-injective,
}
use vigia.Ledger.Record.{CanonicalBody, write_body, is_hex_char, is_valid_prev_hash, hash_text}
use vigia.Ledger.Canonical.{write_body-PrefixFree}

pub Bytes-discrete : Discrete Bytes
Bytes-discrete = hlevel ℕ_discrete

hex_chars : (s : Text) → all is_hex_char s ≡ true → All (λ c. c ≢ 123) s
hex_chars [] h = tt
hex_chars (c ∷ s) h = (ground arith, hex_chars s (ground arith))

valid_chars : (p : Text) → is_valid_prev_hash p ≡ true → All (λ c. c ≢ 123) p
unfolding is_valid_prev_hash
valid_chars [] h = tt
valid_chars (c ∷ p) h = hex_chars (c ∷ p) (ground arith)

body_opens : (b : CanonicalBody) → (t : Text) × (write_body b [] ≡ 123 ∷ t)
unfolding write_body
body_opens b = (_, refl)

-- A previous hash and the text of a body can be told apart in their concatenation.
split_input :
    (p q : Text) (a b : CanonicalBody)
    → is_valid_prev_hash p ≡ true
    → is_valid_prev_hash q ≡ true
    → utf8 p ++ utf8 (write_body a []) ≡ utf8 q ++ utf8 (write_body b [])
    → (p ≡ q) × (a ≡ b)
split_input p q a b hp hq e =
    let texts : p ++ write_body a [] ≡ q ++ write_body b [] =
      utf8-injective _ _ (utf8-append p _ ∙ e ∙ sym (utf8-append q _)) in
    let (s, opens) = body_opens a in
    let (t, opens') = body_opens b in
    let read =
      span_cancel 123 p q s t (valid_chars p hp) (valid_chars q hq)
        (ap (λ (u : Text). p ++ u) (sym opens) ∙ texts ∙ ap (λ (u : Text). q ++ u) opens') in
    let same = opens ∙ ap (λ (u : Text). 123 ∷ u) read.1 ∙ sym opens' in
    (read.0, (write_body-PrefixFree.reads a b [] [] same).0)

-- What `Hash` hands to SHA-256.
abbrev pub hash_input : Text → CanonicalBody → Bytes
hash_input p b = utf8 p ++ utf8 (write_body b [])

-- Two inputs among `hashed` with one digest are one, or collide.
pub digest-binding :
    (sha : Sha256) (hashed : List Bytes) (a b : Bytes)
    → Memᴰ a hashed
    → Memᴰ b hashed
    → sha.digest a ≡ sha.digest b
    → Collision sha hashed ⊎ (a ≡ b)
digest-binding sha hashed a b m n e = elim (Bytes-discrete a b) [
  | yes same ↦ inr same
  | no differ ↦ inl (record {
    first = a;
    second = b;
    first_hashed = m;
    second_hashed = n;
    differ = differ;
    same = e;
  })
]

-- Two records whose previous hashes are valid and that have one hash have the
-- same previous hash and canonical body, or their inputs collide.
pub hash_text-binding :
    (sha : Sha256) (hashed : List Bytes) (p q : Text) (a b : CanonicalBody)
    → Memᴰ (hash_input p a) hashed
    → Memᴰ (hash_input q b) hashed
    → is_valid_prev_hash p ≡ true
    → is_valid_prev_hash q ≡ true
    → hash_text sha p a ≡ hash_text sha q b
    → Collision sha hashed ⊎ ((p ≡ q) × (a ≡ b))
hash_text-binding sha hashed p q a b m n hp hq e =
    elim (digest-binding sha hashed _ _ m n (hex-injective _ _ e)) [
      | inl broken ↦ inl broken
      | inr same ↦ inr (split_input p q a b hp hq same)
    ]

length-hex : (b : Bytes) → length (hex b) ≡ length b + length b
unfolding hex
length-hex [] = refl
length-hex (x ∷ b) = omega (arith, length-hex b)

nibble-hex : (n : ℕ) → n < 16 → is_hex_char (nibble n) ≡ true
nibble-hex n h = ground arith

hex-hex : (b : Bytes) → All (λ x. x < 256) b → all is_hex_char (hex b) ≡ true
unfolding hex
hex-hex [] h = refl
hex-hex (x ∷ b) h =
    ground
      (arith, nibble-hex (x / 16) (omega arith), nibble-hex (x % 16) (omega arith), hex-hex b h.1)

valid_of_shape : (t : Text) → length t ≡ 64 → all is_hex_char t ≡ true → is_valid_prev_hash t ≡ true
unfolding is_valid_prev_hash
valid_of_shape [] l h = refl
valid_of_shape (c ∷ t) l h = ground arith

-- The hash of any record can stand as a previous hash.
pub hash_text-valid :
    (sha : Sha256) (p : Text) (b : CanonicalBody) → is_valid_prev_hash (hash_text sha p b) ≡ true
hash_text-valid sha p b =
    valid_of_shape _ (omega (arith, length-hex _, sha.digest_length _))
      (hex-hex _ (sha.digest_bytes _))
