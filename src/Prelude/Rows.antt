-- ===== src/Prelude/Rows.antt =====
-- Tables as lists of rows: lookup by primary key, update by primary key, membership.
use Prim.Native.Nat.{ℕ, zero, suc, ◌+◌, ◌≤◌}
use mathlib.Core.Path.{◌≡◌, refl, ap}
use mathlib.Core.Bool.{false}
use mathlib.Core.Logic.{◌⊎◌, inl, inr}
use mathlib.Core.List.{List, [], ◌∷◌, ◌++◌, map}
use mathlib.Core.Option.{Option, none, some}
use native.Mathlib.Omega.{arith}
use database_alert_agent.Prelude.Tests.{◌==◌, if◌then◌else◌, ==_refl, Bool-cases}

-- The row is in the table.
abbrev pub In : {A : Type 0} → A → List A → Type 0
In x [] = ⊥
In x (y ∷ ys) = (x ≡ y) ⊎ In x ys

module _ {ℓ} {A : Type ℓ} where
  abbrev pub length : List A → ℕ
  length [] = 0
  length (x ∷ xs) = suc (length xs)

  pub length-append : (xs ys : List A) → length (xs ++ ys) ≡ length xs + length ys
  length-append [] ys = omega arith
  length-append (x ∷ xs) ys = omega (arith, length-append xs ys)

  -- `limit(n)`
  unfoldable pub take : ℕ → List A → List A
  take zero xs = []
  take (suc n) [] = []
  take (suc n) (x ∷ xs) = x ∷ take n xs

  pub length-take : (n : ℕ) (xs : List A) → length (take n xs) ≤ n
  unfolding take
  length-take zero xs = omega arith
  length-take (suc n) [] = omega arith
  length-take (suc n) (x ∷ xs) = omega (arith, length-take n xs)

module _ {A : Type 0} where
  pub In-take : (n : ℕ) (xs : List A) (x : A) → In x (take n xs) → In x xs
  unfolding take
  In-take zero xs x i = absurd i
  In-take (suc n) [] x i = absurd i
  In-take (suc n) (y ∷ ys) x (inl e) = inl e
  In-take (suc n) (y ∷ ys) x (inr i) = inr (In-take n ys x i)

module _ {A B : Type 0} where
  -- What is in a mapped list is the image of something.
  pub In-map : (f : A → B) (xs : List A) (y : B) → In y (map f xs) → (x : A) × In x xs × (y ≡ f x)
  In-map f [] y i = absurd i
  In-map f (x ∷ xs) y (inl e) = (x, inl refl, e)
  In-map f (x ∷ xs) y (inr i) = let (z, j, e) = In-map f xs y i in (z, inr j, e)

  pub map-In : (f : A → B) (xs : List A) (x : A) → In x xs → In (f x) (map f xs)
  map-In f [] x i = absurd i
  map-In f (y ∷ ys) x (inl e) = inl (ap f e)
  map-In f (y ∷ ys) x (inr i) = inr (map-In f ys x i)

module _ {A : Type 0} where
  -- `session.get(Row, k)`
  unfoldable pub find : (A → ℕ) → ℕ → List A → Option A
  find key k [] = none
  find key k (x ∷ xs) = if key x == k then some x else find key k xs

  -- One row, by its primary key, is given new values.
  unfoldable pub modify : (A → ℕ) → ℕ → (A → A) → List A → List A
  modify key k f [] = []
  modify key k f (x ∷ xs) = (if key x == k then f x else x) ∷ modify key k f xs

  pub find-In : (key : A → ℕ) (k : ℕ) (xs : List A) (x : A) → find key k xs ≡ some x → In x xs
  unfolding find
  find-In key k [] x h = cc
  find-In key k (y ∷ ys) x h = ground (arith, find-In key k ys x)

  pub find-key : (key : A → ℕ) (k : ℕ) (xs : List A) (x : A) → find key k xs ≡ some x → key x ≡ k
  unfolding find
  find-key key k [] x h = cc
  find-key key k (y ∷ ys) x h = ground (arith, find-key key k ys x)

  -- What is in the table is found, up to the key.
  pub find_of_In :
      (key : A → ℕ) (xs : List A) (x : A) → In x xs → (y : A) × (find key (key x) xs ≡ some y)
  unfolding find
  find_of_In key [] x i = absurd i
  find_of_In key (z ∷ zs) x (inl e) = (z, ground (arith, ap key e))
  find_of_In key (z ∷ zs) x (inr i) =
      let (y, p) = find_of_In key zs x i in
      elim (Bool-cases (key z == key x)) [ inl t ↦ (z, rw t) | inr t ↦ (y, rw t p) ]

  -- A row of an updated table is a row of the table, updated or not.
  pub In-modify :
      (key : A → ℕ) (k : ℕ) (f : A → A) (xs : List A) (x : A)
      → In x (modify key k f xs)
      → (y : A) × In y xs × (x ≡ (if key y == k then f y else y))
  unfolding modify
  In-modify key k f [] x h = absurd h
  In-modify key k f (y ∷ ys) x (inl e) = (y, inl refl, e)
  In-modify key k f (y ∷ ys) x (inr i) = let (z, j, e) = In-modify key k f ys x i in (z, inr j, e)

  module _ (key : A → ℕ) (k : ℕ) (f : A → A) (keeps : (x : A) → key (f x) ≡ key x) where
    pub find-modify :
        (j : ℕ) (xs : List A) (x : A)
        → find key j xs ≡ some x
        → find key j (modify key k f xs) ≡ some (if key x == k then f x else x)
    unfolding find modify
    find-modify j [] x h = cc
    find-modify j (y ∷ ys) x h = ground (arith, find-modify j ys x, keeps y)

    pub find-modify-none :
        (j : ℕ) (xs : List A) → find key j xs ≡ none → find key j (modify key k f xs) ≡ none
    unfolding find modify
    find-modify-none j [] h = refl
    find-modify-none j (y ∷ ys) h = ground (arith, find-modify-none j ys, keeps y)

    pub find-modify_other :
        (j : ℕ) (xs : List A) → (j == k) ≡ false → find key j (modify key k f xs) ≡ find key j xs
    unfolding find modify
    find-modify_other j [] h = refl
    find-modify_other j (y ∷ ys) h = ground (arith, find-modify_other j ys h, keeps y, h)

    pub find-modify_self :
        (xs : List A) (x : A) → find key k xs ≡ some x → find key k (modify key k f xs) ≡ some (f x)
    find-modify_self xs x h = rw (find-modify k xs x h, find-key key k xs x h, ==_refl k)

  pub find-map :
      (key : A → ℕ) (g : A → A) (k : ℕ) (xs : List A) (x : A)
      → ((y : A) → key (g y) ≡ key y)
      → find key k xs ≡ some x
      → find key k (map g xs) ≡ some (g x)
  unfolding find
  find-map key g k [] x keeps h = cc
  find-map key g k (y ∷ ys) x keeps h = ground (arith, find-map key g k ys x keeps, keeps y)

  pub modify-map :
      (key : A → ℕ) (k : ℕ) (f : A → A) (xs : List A)
      → modify key k f xs ≡ map (λ x. if key x == k then f x else x) xs
  unfolding modify
  modify-map key k f [] = refl
  modify-map key k f (x ∷ xs) =
      ap (λ ys. (if key x == k then f x else x) ∷ ys) (modify-map key k f xs)
