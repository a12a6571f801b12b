-- ===== src/Prelude/Tables.antt =====
-- Database tables as lists of rows in insertion order: the statements that the program's queries
-- use. It models no code of its own.

use mathlib.Core.Path.{◌≡◌, refl}
use mathlib.Core.Bool.{Bool, true, false}
use mathlib.Core.Option.{Option, none, some}
use mathlib.Core.List.{List, [], ◌∷◌}
use native.Mathlib.Omega.{arith}
use meraipo.Prelude.Tests.{if◌then◌else◌}
use meraipo.Prelude.Lists.{length, any_of}

module _ {ℓ} {A : Type ℓ} where
  -- `UPDATE … WHERE p SET f`.
  abbrev pub update_where : (A → Bool) → (A → A) → List A → List A
  update_where p f [] = []
  update_where p f (x ∷ xs) = (if p x then f x else x) ∷ update_where p f xs

  -- A write to the row that `SELECT … WHERE p LIMIT 1` gives.
  abbrev pub update_first : (A → Bool) → (A → A) → List A → List A
  update_first p f [] = []
  update_first p f (x ∷ xs) = let rest = update_first p f xs in if p x then f x ∷ xs else x ∷ rest

  -- `SELECT … WHERE p LIMIT 1`.
  abbrev pub first_where : (A → Bool) → List A → Option A
  first_where p [] = none
  first_where p (x ∷ xs) = let rest = first_where p xs in if p x then some x else rest

  -- `DELETE … WHERE p`.
  abbrev pub delete_where : (A → Bool) → List A → List A
  delete_where p [] = []
  delete_where p (x ∷ xs) = let rest = delete_where p xs in if p x then rest else x ∷ rest

  pub length-update_where :
      (p : A → Bool) (f : A → A) (xs : List A) → length (update_where p f xs) ≡ length xs
  length-update_where p f [] = refl
  length-update_where p f (x ∷ xs) = omega (arith, length-update_where p f xs)

  pub first_where-holds :
      (p : A → Bool) (xs : List A) (a : A) → first_where p xs ≡ some a → p a ≡ true
  first_where-holds p [] a h = ground arith
  first_where-holds p (x ∷ xs) a h = ground (arith, first_where-holds p xs a)

  pub first_where-none :
      (p : A → Bool) (xs : List A) → first_where p xs ≡ none → any_of p xs ≡ false
  first_where-none p [] h = refl
  first_where-none p (x ∷ xs) h = ground (arith, first_where-none p xs)
