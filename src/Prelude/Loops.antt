-- ===== src/Prelude/Loops.antt =====
-- Loops over a slice that carry a state.
use mathlib.Core.Path.{◌≡◌, refl, ap, ◌∙◌}
use mathlib.Core.List.{List, [], ◌∷◌}

module _ {ℓ κ} {A : Type ℓ} {S : Type κ} where
  -- `for _, x := range xs { s = body(s, x) }`
  abbrev pub for_each : (S → A → S) → S → List A → S
  for_each body s [] = s
  for_each body s (x ∷ xs) = for_each body (body s x) xs

  -- An invariant of the body is one of the loop.
  pub for_each_inv {μ} :
      (P : S → Type μ) (body : S → A → S)
      → ((s : S) (x : A) → P s → P (body s x))
      → (s : S) (xs : List A) → P s
      → P (for_each body s xs)
  for_each_inv P body keep s [] h = h
  for_each_inv P body keep s (x ∷ xs) h = for_each_inv P body keep (body s x) xs (keep s x h)

-- A view of the state that the body acts on through `act` is folded by `act`.
module _ {ℓ κ μ} {A : Type ℓ} {S : Type κ} {B : Type μ} where
  pub for_each_view :
      (view : S → B) (body : S → A → S) (act : B → A → B)
      → ((s : S) (x : A) → view (body s x) ≡ act (view s) x)
      → (s : S) (xs : List A) → view (for_each body s xs) ≡ for_each act (view s) xs
  for_each_view view body act acts s [] = refl
  for_each_view view body act acts s (x ∷ xs) =
      for_each_view view body act acts (body s x) xs ∙ ap (λ b. for_each act b xs) (acts s x)
