-- ===== src/Ledger/Encoding.antt =====
-- Writers of self-delimiting text. A writer puts its value in front of what follows; it is
-- prefix-free when value and rest can be read back from the whole.
use Prim.Native.Char.{code}
use vigia.Prelude.{
  ℕ, ◌≡◌, ◌≢◌, refl, sym, ap, String, Option, none, some, List, [], ◌∷◌, ◌++◌, All, arith,
}

-- The code points of a text.
abbrev pub Text : Type 0
Text = List ℕ

abbrev pub codes : String → Text
codes String.[] = []
codes (String.◌∷◌ c s) = code c ∷ codes s

abbrev pub Writer {ℓ} : Type ℓ → Type ℓ
Writer A = A → Text → Text

pub record PrefixFree {ℓ} {A : Type ℓ} (w : Writer A) : Type ℓ where
  pub reads : (a b : A) (r s : Text) → w a r ≡ w b s → (a ≡ b) × (r ≡ s)

pub append_cancel : (p : Text) {r s : Text} → p ++ r ≡ p ++ s → r ≡ s
append_cancel [] h = h
append_cancel (c ∷ p) h = append_cancel p (cc)

-- Two texts that stop at their first `k` are told from what follows.
pub span_cancel :
    (k : ℕ) (p q r s : Text)
    → All (λ c. c ≢ k) p
    → All (λ c. c ≢ k) q
    → p ++ k ∷ r ≡ q ++ k ∷ s
    → (p ≡ q) × (r ≡ s)
span_cancel k [] [] r s hp hq h = (refl, cc)
span_cancel k [] (d ∷ q) r s hp hq h = absurd (hq.0 (cc))
span_cancel k (c ∷ p) [] r s hp hq h = absurd (hp.0 (cc))
span_cancel k (c ∷ p) (d ∷ q) r s hp hq h = ground (arith, span_cancel k p q r s hp.1 hq.1)

-- A fixed text in front, and one writer behind another.
Σ_pair {ℓ κ} :
    {A : Type ℓ} {B : Type κ} {a a' : A} {b b' : B}
    → a ≡ a'
    → b ≡ b'
    → ◌≡◌ {A = A × B} (a, b) (a', b')
Σ_pair p q = λ i. (p i, q i)

abbrev pub field {ℓ} : {A : Type ℓ} → String → Writer A → Writer A
field name w a rest = codes name ++ w a rest

abbrev pub pair {ℓ κ} : {A : Type ℓ} {B : Type κ} → Writer A → Writer B → Writer (A × B)
pair v w (a, b) rest = v a (w b rest)

pub field-PrefixFree {ℓ} :
    {A : Type ℓ} (name : String) (w : Writer A) → PrefixFree w → PrefixFree (field name w)
field-PrefixFree name w h = record {
  reads = λ a b r s e. h.reads a b r s (append_cancel (codes name) e);
}

pub pair-PrefixFree {ℓ κ} :
    {A : Type ℓ} {B : Type κ} (v : Writer A) (w : Writer B)
    → PrefixFree v
    → PrefixFree w
    → PrefixFree (pair v w)
pair-PrefixFree v w hv hw = record {
  reads = λ (a, b) (a', b') r s e.
      let first = hv.reads a a' (w b r) (w b' s) e in
      let second = hw.reads b b' r s first.1 in (Σ_pair first.0 second.0, second.1);
}

-- An optional last part, and the brace that closes its object.
unfoldable pub optional {ℓ} : {A : Type ℓ} → Writer A → Writer (Option A)
optional w none rest = 125 ∷ rest
optional w (some a) rest = w a (125 ∷ rest)

optional-reads {ℓ} :
    {A : Type ℓ} (w : Writer A)
    → PrefixFree w
    → ((a : A) (r s : Text) → w a r ≢ 125 ∷ s)
    → (a b : Option A) (r s : Text) → optional w a r ≡ optional w b s
    → (a ≡ b) × (r ≡ s)
unfolding optional
optional-reads w h apart none none r s e = (refl, cc)
optional-reads w h apart none (some b) r s e = absurd (apart b (125 ∷ s) r (sym e))
optional-reads w h apart (some a) none r s e = absurd (apart a (125 ∷ r) s e)
optional-reads w h apart (some a) (some b) r s e =
    let read = h.reads a b (125 ∷ r) (125 ∷ s) e in (ap some read.0, cc read.1)

pub optional-PrefixFree {ℓ} :
    {A : Type ℓ} (w : Writer A)
    → PrefixFree w
    → ((a : A) (r s : Text) → w a r ≢ 125 ∷ s)
    → PrefixFree (optional w)
optional-PrefixFree w h apart = record { reads = optional-reads w h apart }
