-- ===== src/Base/Find.antt =====
-- The first item of a list that passes a test: `next((x for x in xs if p(x)), None)`, and a change of it
-- in place.
use phantasm.Base.Tests.{Bool-cases, if◌then◌else◌}
use mathlib.Core.Path.{◌≡◌, refl}
use mathlib.Core.Logic.{inl, inr}
use mathlib.Core.Bool.{Bool, true, false, ◌&&◌}
use mathlib.Core.Option.{Option, none, some}
use mathlib.Core.List.{List, [], ◌∷◌, ◌++◌}
use native.Mathlib.Omega.{arith}

module _ {ℓ} {A : Type ℓ} where
  unfoldable pub find_first : (A → Bool) → List A → Option A
  find_first p [] = none
  find_first p (x ∷ xs) = if p x then some x else find_first p xs

  unfoldable pub change_first : (A → Bool) → (A → A) → List A → List A
  change_first p f [] = []
  change_first p f (x ∷ xs) = if p x then f x ∷ xs else x ∷ change_first p f xs

  unfoldable pub filter : (A → Bool) → List A → List A
  filter p [] = []
  filter p (x ∷ xs) = let rest = filter p xs in if p x then x ∷ rest else rest

  pub find_first_sound :
      (p : A → Bool) (xs : List A) (a : A) → find_first p xs ≡ some a → p a ≡ true
  unfolding find_first
  find_first_sound p [] a h = cc
  find_first_sound p (x ∷ xs) a h = ground (arith, find_first_sound p xs a)

  pub find_first-append :
      (p : A → Bool) (xs ys : List A)
      → find_first p xs ≡ none
      → find_first p (xs ++ ys) ≡ find_first p ys
  unfolding find_first
  find_first-append p [] ys h = refl
  find_first-append p (x ∷ xs) ys h = ground (arith, find_first-append p xs ys)

  pub find_first-append_found :
      (p : A → Bool) (xs ys : List A) (a : A)
      → find_first p xs ≡ some a
      → find_first p (xs ++ ys) ≡ some a
  unfolding find_first
  find_first-append_found p [] ys a h = cc
  find_first-append_found p (x ∷ xs) ys a h = ground (arith, find_first-append_found p xs ys a)

  -- The change is found where it keeps the item under the test.
  pub find_first-change_first :
      (p : A → Bool) (f : A → A) (xs : List A) (a : A)
      → find_first p xs ≡ some a
      → p (f a) ≡ true
      → find_first p (change_first p f xs) ≡ some (f a)
  unfolding find_first change_first
  find_first-change_first p f [] a h k = cc
  find_first-change_first p f (x ∷ xs) a h k =
      let rest = find_first-change_first p f xs a in
      elim (Bool-cases (p x)) [ inl t ↦ ground (arith, t) | inr t ↦ ground (arith, t, rest) ]

  -- Another test does not see the change.
  pub find_first-change_first_other :
      (p q : A → Bool) (f : A → A)
      → ((x : A) → p x ≡ true → q x ≡ false)
      → ((x : A) → p x ≡ true → q (f x) ≡ false)
      → (xs : List A) → find_first q (change_first p f xs) ≡ find_first q xs
  unfolding find_first change_first
  find_first-change_first_other p q f apart kept [] = refl
  find_first-change_first_other p q f apart kept (x ∷ xs) =
      let rest = find_first-change_first_other p q f apart kept xs in
      elim (Bool-cases (p x)) [
        | inl t ↦ ground (arith, t, apart x t, kept x t)
        | inr t ↦ ground (arith, t, rest)
      ]

  pub find_first-change_first_absent :
      (p q : A → Bool) (f : A → A)
      → ((x : A) → q (f x) ≡ q x)
      → (xs : List A) → find_first q xs ≡ none
      → find_first q (change_first p f xs) ≡ none
  unfolding find_first change_first
  find_first-change_first_absent p q f kept [] h = refl
  find_first-change_first_absent p q f kept (x ∷ xs) h =
      ground (arith, kept x, find_first-change_first_absent p q f kept xs)

  pub find_first-filter_absent :
      (p q : A → Bool) (xs : List A) → find_first q xs ≡ none → find_first q (filter p xs) ≡ none
  unfolding find_first filter
  find_first-filter_absent p q [] h = refl
  find_first-filter_absent p q (x ∷ xs) h = ground (arith, find_first-filter_absent p q xs)

  -- `all(p(x) for x in xs)`
  unfoldable pub all : (A → Bool) → List A → Bool
  all p [] = true
  all p (x ∷ xs) = p x && all p xs

  pub filter_whole : (p : A → Bool) (xs : List A) → all p xs ≡ true → filter p xs ≡ xs
  unfolding filter all
  filter_whole p [] h = refl
  filter_whole p (x ∷ xs) h = ground (arith, filter_whole p xs)

  pub all-filter : (p : A → Bool) (xs : List A) → all p (filter p xs) ≡ true
  unfolding filter all
  all-filter p [] = refl
  all-filter p (x ∷ xs) = ground (arith, all-filter p xs)

  pub all-append :
      (p : A → Bool) (xs ys : List A) → all p xs ≡ true → all p ys ≡ true → all p (xs ++ ys) ≡ true
  unfolding all
  all-append p [] ys h k = k
  all-append p (x ∷ xs) ys h k = ground (arith, all-append p xs ys)

  pub all-change_first :
      (p q : A → Bool) (f : A → A)
      → ((x : A) → q (f x) ≡ q x)
      → (xs : List A) → all q xs ≡ true
      → all q (change_first p f xs) ≡ true
  unfolding all change_first
  all-change_first p q f kept [] h = refl
  all-change_first p q f kept (x ∷ xs) h = ground (arith, kept x, all-change_first p q f kept xs)

  pub change_first_here :
      (p : A → Bool) (f : A → A) (x : A) (xs : List A)
      → p x ≡ true
      → change_first p f (x ∷ xs) ≡ f x ∷ xs
  unfolding change_first
  change_first_here p f x xs h = rw h

  pub change_first_later :
      (p : A → Bool) (f : A → A) (x : A) (xs : List A)
      → p x ≡ false
      → change_first p f (x ∷ xs) ≡ x ∷ change_first p f xs
  unfolding change_first
  change_first_later p f x xs h = rw h

  pub filter_here :
      (p : A → Bool) (x : A) (xs : List A) → p x ≡ true → filter p (x ∷ xs) ≡ x ∷ filter p xs
  unfolding filter
  filter_here p x xs h = rw h

  pub filter_later :
      (p : A → Bool) (x : A) (xs : List A) → p x ≡ false → filter p (x ∷ xs) ≡ filter p xs
  unfolding filter
  filter_later p x xs h = rw h

  pub find_first-append_none :
      (p : A → Bool) (xs ys : List A)
      → find_first p ys ≡ none
      → find_first p (xs ++ ys) ≡ find_first p xs
  unfolding find_first
  find_first-append_none p [] ys h = h
  find_first-append_none p (x ∷ xs) ys h = ground (arith, find_first-append_none p xs ys)
