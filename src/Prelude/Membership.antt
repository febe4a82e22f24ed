-- ===== src/Prelude/Membership.antt =====
-- Membership in appended lists.
use mathlib.Core.List.{Memᴰ}
use mathlib.Core.List.Memᴰ
use mathlib.Core.Logic.{◌⊎◌, inl, inr}
use mathlib.Core.List.{List, [], ◌∷◌, ◌++◌}

module _ {A : Type 0} where
  pub Mem-append : (x : A) (xs ys : List A) → Memᴰ x (xs ++ ys) → Memᴰ x xs ⊎ Memᴰ x ys
  Mem-append x [] ys m = inr m
  Mem-append x (y ∷ xs) ys (Memᴰ.head e) = inl (Memᴰ.head e)
  Mem-append x (y ∷ xs) ys (Memᴰ.tail m) = elim (Mem-append x xs ys m) [
    | inl n ↦ inl (Memᴰ.tail n)
    | inr n ↦ inr n
  ]

  pub append-Mem : (x : A) (xs ys : List A) → Memᴰ x xs ⊎ Memᴰ x ys → Memᴰ x (xs ++ ys)
  append-Mem x [] ys (inl m) = absurd (Memᴰ.not-nil m)
  append-Mem x [] ys (inr m) = m
  append-Mem x (y ∷ xs) ys (inl (Memᴰ.head e)) = Memᴰ.head e
  append-Mem x (y ∷ xs) ys (inl (Memᴰ.tail m)) = Memᴰ.tail (append-Mem x xs ys (inl m))
  append-Mem x (y ∷ xs) ys (inr m) = Memᴰ.tail (append-Mem x xs ys (inr m))
