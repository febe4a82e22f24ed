-- ===== src/Complaints/Polling/Listed.antt =====
-- Membership in the listings of complaint_store.go.
use mathlib.Core.Path.{subst}
use mathlib.Core.List.{Memᴰ}
use mathlib.Core.List.Memᴰ
use vigia.Prelude.{
  ℕ, zero, suc, ◌≤◌, ◌≡◌, refl, sym, ap, ◌∙◌, ◌⊎◌, inl, inr, Bool, true, false, List, [], ◌∷◌,
  arith, take, filter, length, Bool-cases, any, map, if◌then◌else◌,
}
use vigia.Time.{Time, before}
use vigia.Complaints.Cases.{insert_by, order_by}

module _ {A : Type 0} where
  pub Mem-take : (n : ℕ) (x : A) (xs : List A) → Memᴰ x (take n xs) → Memᴰ x xs
  Mem-take zero x xs m = absurd (Memᴰ.not-nil m)
  Mem-take (suc n) x [] m = m
  Mem-take (suc n) x (y ∷ ys) (Memᴰ.head e) = Memᴰ.head e
  Mem-take (suc n) x (y ∷ ys) (Memᴰ.tail m) = Memᴰ.tail (Mem-take n x ys m)

  pub take-whole : (n : ℕ) (xs : List A) → length xs ≤ n → take n xs ≡ xs
  take-whole zero [] h = refl
  take-whole zero (x ∷ xs) h = absurd (omega arith)
  take-whole (suc n) [] h = refl
  take-whole (suc n) (x ∷ xs) h = ap (λ ys. x ∷ ys) (take-whole n xs (omega arith))

  kept :
      (p : A → Bool) {x : A} (y : A) (ys : List A)
      → p y ≡ true
      → Memᴰ x (filter p (y ∷ ys))
      → Memᴰ x (y ∷ filter p ys)
  kept p {x = x} y ys e m = subst (λ b. Memᴰ x (if b then y ∷ filter p ys else filter p ys)) e m

  dropped :
      (p : A → Bool) {x : A} (y : A) (ys : List A)
      → p y ≡ false
      → Memᴰ x (filter p (y ∷ ys))
      → Memᴰ x (filter p ys)
  dropped p {x = x} y ys e m = subst (λ b. Memᴰ x (if b then y ∷ filter p ys else filter p ys)) e m

  pub Mem-filter :
      (p : A → Bool) (x : A) (xs : List A) → Memᴰ x (filter p xs) → (p x ≡ true) × Memᴰ x xs
  Mem-filter p x [] m = absurd (Memᴰ.not-nil m)
  Mem-filter p x (y ∷ ys) m = elim (Bool-cases (p y)) [
    | inl e ↦ elim (Memᴰ.cases_cons (kept p y ys e m)) [
      | inl same ↦ (ap p same ∙ e, Memᴰ.head same)
      | inr later ↦ let (holds, mem) = Mem-filter p x ys later in (holds, Memᴰ.tail mem)
    ]
    | inr e ↦ let (holds, mem) = Mem-filter p x ys (dropped p y ys e m) in (holds, Memᴰ.tail mem)
  ]

  pub filter-Mem :
      (p : A → Bool) (x : A) (xs : List A) → p x ≡ true → Memᴰ x xs → Memᴰ x (filter p xs)
  filter-Mem p x [] h m = absurd (Memᴰ.not-nil m)
  filter-Mem p x (y ∷ ys) h (Memᴰ.head same) = rw (ap p (sym same) ∙ h) (Memᴰ.head same)
  filter-Mem p x (y ∷ ys) h (Memᴰ.tail m) = elim (Bool-cases (p y)) [
    | inl e ↦ rw e (Memᴰ.tail (filter-Mem p x ys h m))
    | inr e ↦ rw e (filter-Mem p x ys h m)
  ]

  -- An insertion adds its element and keeps the others.
  insert_by-branch :
      (P : List A → Type 0) (key : A → Time) (y z : A) (ys : List A)
      → P (z ∷ insert_by key y ys)
      → P (y ∷ z ∷ ys)
      → P (insert_by key y (z ∷ ys))
  insert_by-branch P key y z ys later here = elim (Bool-cases (before (key z) (key y))) [
    | inl e ↦ rw e later
    | inr e ↦ rw e here
  ]

  insert-Mem :
      (key : A → Time) (x y : A) (ys : List A) → (x ≡ y) ⊎ Memᴰ x ys → Memᴰ x (insert_by key y ys)
  insert-Mem key x y [] (inl e) = Memᴰ.head e
  insert-Mem key x y [] (inr m) = Memᴰ.tail m
  insert-Mem key x y (z ∷ ys) (inl e) =
      insert_by-branch (λ zs. Memᴰ x zs) key y z ys (Memᴰ.tail (insert-Mem key x y ys (inl e)))
        (Memᴰ.head e)
  insert-Mem key x y (z ∷ ys) (inr (Memᴰ.head e)) =
      insert_by-branch (λ zs. Memᴰ x zs) key y z ys (Memᴰ.head e) (Memᴰ.tail (Memᴰ.head e))
  insert-Mem key x y (z ∷ ys) (inr (Memᴰ.tail m)) =
      insert_by-branch (λ zs. Memᴰ x zs) key y z ys (Memᴰ.tail (insert-Mem key x y ys (inr m)))
        (Memᴰ.tail (Memᴰ.tail m))

  Mem-insert :
      (key : A → Time) (x y : A) (ys : List A) → Memᴰ x (insert_by key y ys) → (x ≡ y) ⊎ Memᴰ x ys
  Mem-insert key x y [] m = Memᴰ.cases_cons m
  Mem-insert key x y (z ∷ ys) m =
      insert_by-branch (λ zs. Memᴰ x zs → (x ≡ y) ⊎ Memᴰ x (z ∷ ys)) key y z ys
        (λ later. elim (Memᴰ.cases_cons later) [
          | inl e ↦ inr (Memᴰ.head e)
          | inr n ↦ elim (Mem-insert key x y ys n) [ inl e ↦ inl e | inr k ↦ inr (Memᴰ.tail k) ]
        ])
        (λ here. Memᴰ.cases_cons here) m

  pub Mem-order : (key : A → Time) (x : A) (xs : List A) → Memᴰ x (order_by key xs) → Memᴰ x xs
  Mem-order key x [] m = m
  Mem-order key x (y ∷ ys) m = elim (Mem-insert key x y (order_by key ys) m) [
    | inl e ↦ Memᴰ.head e
    | inr n ↦ Memᴰ.tail (Mem-order key x ys n)
  ]

  pub order-Mem : (key : A → Time) (x : A) (xs : List A) → Memᴰ x xs → Memᴰ x (order_by key xs)
  order-Mem key x [] m = m
  order-Mem key x (y ∷ ys) (Memᴰ.head e) = insert-Mem key x y (order_by key ys) (inl e)
  order-Mem key x (y ∷ ys) (Memᴰ.tail m) =
      insert-Mem key x y (order_by key ys) (inr (order-Mem key x ys m))

  length-insert :
      (key : A → Time) (y : A) (ys : List A) → length (insert_by key y ys) ≡ suc (length ys)
  length-insert key y [] = refl
  length-insert key y (z ∷ ys) =
      insert_by-branch (λ zs. length zs ≡ suc (length (z ∷ ys))) key y z ys
        (ap suc (length-insert key y ys)) refl

  pub length-order : (key : A → Time) (xs : List A) → length (order_by key xs) ≡ length xs
  length-order key [] = refl
  length-order key (x ∷ xs) = length-insert key x (order_by key xs) ∙ ap suc (length-order key xs)

  pub Mem-any : (p : A → Bool) (xs : List A) → any p xs ≡ true → (x : A) × (p x ≡ true) × Memᴰ x xs
  Mem-any p [] h = absurd (cc)
  Mem-any p (x ∷ xs) h = elim (Bool-cases (p x)) [
    | inl e ↦ (x, e, Memᴰ.head refl)
    | inr e ↦
        let later : any p xs ≡ true = ground (arith, h, e) in
        let (y, holds, mem) = Mem-any p xs later in (y, holds, Memᴰ.tail mem)
  ]

pub Mem-map :
    {A B : Type 0} (f : A → B) (y : B) (xs : List A)
    → Memᴰ y (map f xs)
    → (x : A) × (y ≡ f x) × Memᴰ x xs
Mem-map f y [] m = absurd (Memᴰ.not-nil m)
Mem-map f y (x ∷ xs) m = elim (Memᴰ.cases_cons m) [
  | inl e ↦ (x, e, Memᴰ.head refl)
  | inr n ↦ let (z, e, mem) = Mem-map f y xs n in (z, e, Memᴰ.tail mem)
]

pub map-Mem : {A B : Type 0} (f : A → B) (x : A) (xs : List A) → Memᴰ x xs → Memᴰ (f x) (map f xs)
map-Mem f x [] m = absurd (Memᴰ.not-nil m)
map-Mem f x (y ∷ ys) (Memᴰ.head e) = Memᴰ.head (ap f e)
map-Mem f x (y ∷ ys) (Memᴰ.tail m) = Memᴰ.tail (map-Mem f x ys m)
