-- ===== src/Prelude/Lists.antt =====
-- Lists measured by native numbers, and Boolean predicates over lists. It models no code.
use Prim.Native.Nat.{ℕ, zero, suc, ◌+◌, ◌≤◌}
use mathlib.Core.Path.{◌≡◌, refl}
use mathlib.Core.Bool.{Bool, true, false, ◌||◌, ◌&&◌}
use mathlib.Core.List.{List, [], ◌∷◌, ◌++◌}
use native.Mathlib.Omega.{arith}
use meraipo.Prelude.Tests.{if◌then◌else◌, &&_true}

module _ {ℓ} {A : Type ℓ} where
  abbrev pub length : List A → ℕ
  length [] = 0
  length (x ∷ xs) = suc (length xs)

  abbrev pub take : ℕ → List A → List A
  take zero xs = []
  take (suc n) [] = []
  take (suc n) (x ∷ xs) = x ∷ take n xs

  -- `any(p(x) for x in xs)` and `all(p(x) for x in xs)`.
  abbrev pub any_of : (A → Bool) → List A → Bool
  any_of p [] = false
  any_of p (x ∷ xs) = p x || any_of p xs

  abbrev pub all_of : (A → Bool) → List A → Bool
  all_of p [] = true
  all_of p (x ∷ xs) = p x && all_of p xs

  -- How many elements pass the test.
  abbrev pub count_where : (A → Bool) → List A → ℕ
  count_where p [] = 0
  count_where p (x ∷ xs) = let rest = count_where p xs in if p x then suc rest else rest

  -- `[x for x in xs if p(x)]`.
  abbrev pub rows_where : (A → Bool) → List A → List A
  rows_where p [] = []
  rows_where p (x ∷ xs) = let rest = rows_where p xs in if p x then x ∷ rest else rest

  pub length-append : (xs ys : List A) → length (xs ++ ys) ≡ length xs + length ys
  length-append [] ys = omega arith
  length-append (x ∷ xs) ys = omega (arith, length-append xs ys)

  pub length-rows_where : (p : A → Bool) (xs : List A) → length (rows_where p xs) ≡ count_where p xs
  length-rows_where p [] = refl
  length-rows_where p (x ∷ xs) = ground (arith, length-rows_where p xs)

  pub count_where-le : (p : A → Bool) (xs : List A) → count_where p xs ≤ length xs
  count_where-le p [] = omega arith
  count_where-le p (x ∷ xs) = ground (arith, count_where-le p xs)

  pub count_where-append :
      (p : A → Bool) (xs ys : List A)
      → count_where p (xs ++ ys) ≡ count_where p xs + count_where p ys
  count_where-append p [] ys = omega arith
  count_where-append p (x ∷ xs) ys = ground (arith, count_where-append p xs ys)

  pub any_of-append :
      (p : A → Bool) (xs ys : List A) → any_of p (xs ++ ys) ≡ (any_of p xs || any_of p ys)
  any_of-append p [] ys = refl
  any_of-append p (x ∷ xs) ys = ground (arith, any_of-append p xs ys)

module _ {ℓ κ} {A : Type ℓ} (P : A → Type κ) where
  -- Every element of the list satisfies the predicate.
  abbrev pub All : List A → Type κ
  All [] = Unit
  All (x ∷ xs) = P x × All xs

  pub All-at : (xs ys : List A) (x : A) → All (xs ++ x ∷ ys) → P x
  All-at [] ys x (p, q) = p
  All-at (y ∷ xs) ys x (p, q) = All-at xs ys x q

  pub All-remove : (xs ys : List A) (x : A) → All (xs ++ x ∷ ys) → All (xs ++ ys)
  All-remove [] ys x (p, q) = q
  All-remove (y ∷ xs) ys x (p, q) = (p, All-remove xs ys x q)

  pub All-update : (xs ys : List A) (x y : A) → P y → All (xs ++ x ∷ ys) → All (xs ++ y ∷ ys)
  All-update [] ys x y h (p, q) = (h, q)
  All-update (z ∷ xs) ys x y h (p, q) = (p, All-update xs ys x y h q)

module _ {ℓ κ ι} {A : Type ℓ} (P : A → Type κ) (Q : A → Type ι) where
  pub All-map : ((x : A) → P x → Q x) → (xs : List A) → All P xs → All Q xs
  All-map f [] h = tt
  All-map f (x ∷ xs) (p, h) = (f x p, All-map f xs h)

  -- The same for a list whose elements all pass a test.
  pub All-map_where :
      (q : A → Bool)
      → ((x : A) → q x ≡ true → P x → Q x)
      → (xs : List A) → all_of q xs ≡ true
      → All P xs
      → All Q xs
  All-map_where q f [] e h = tt
  All-map_where q f (x ∷ xs) e (p, h) =
      let both = &&_true (q x) (all_of q xs) e in (f x both.0 p, All-map_where q f xs both.1 h)
