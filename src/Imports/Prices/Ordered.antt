-- ===== src/Imports/Prices/Ordered.antt =====
-- Prices in the order of their dates, and their extremes: lemmas on `by_date`, `greatest` and `least`.
use meraipo.Prelude.{
  ℕ, ◌≤◌, ◌≡◌, refl, inl, inr, Bool, true, false, not, ◌&&◌, ◌||◌, List, [], ◌∷◌, leb, ◌==◌, any_of,
  all_of, rows_where, Bool-cases, arith,
}
use meraipo.Imports.Prices.{Price, insert_by_date, by_date, last_of, greatest, least}

-- The order of the rows does not matter to a test of all or of any.
all_of-insert :
    (q : Price → Bool) (p : Price) (xs : List Price)
    → all_of q (insert_by_date p xs) ≡ (q p && all_of q xs)
all_of-insert q p [] = refl
all_of-insert q p (x ∷ xs) = ground (arith, all_of-insert q p xs)

pub all_of-by_date : (q : Price → Bool) (xs : List Price) → all_of q (by_date xs) ≡ all_of q xs
all_of-by_date q [] = refl
all_of-by_date q (x ∷ xs) = ground (arith, all_of-insert q x (by_date xs), all_of-by_date q xs)

any_of-insert :
    (q : Price → Bool) (p : Price) (xs : List Price)
    → any_of q (insert_by_date p xs) ≡ (q p || any_of q xs)
any_of-insert q p [] = refl
any_of-insert q p (x ∷ xs) = ground (arith, any_of-insert q p xs)

pub any_of-by_date : (q : Price → Bool) (xs : List Price) → any_of q (by_date xs) ≡ any_of q xs
any_of-by_date q [] = refl
any_of-by_date q (x ∷ xs) = ground (arith, any_of-insert q x (by_date xs), any_of-by_date q xs)

abbrev pub is_empty : List Price → Bool
is_empty [] = true
is_empty (x ∷ xs) = false

abbrev pub is_ordered : List Price → Bool
is_ordered [] = true
is_ordered (x ∷ xs) = all_of (λ p. leb x.date p.date) xs && is_ordered xs

all_of-leb :
    (a b : ℕ) (xs : List Price)
    → a ≤ b
    → all_of (λ p. leb b p.date) xs ≡ true
    → all_of (λ p. leb a p.date) xs ≡ true
all_of-leb a b [] l h = refl
all_of-leb a b (x ∷ xs) l h = ground (arith, all_of-leb a b xs)

insert_by_date-ordered :
    (p : Price) (xs : List Price) → is_ordered xs ≡ true → is_ordered (insert_by_date p xs) ≡ true
insert_by_date-ordered p [] h = refl
insert_by_date-ordered p (x ∷ xs) h = ground (
  arith,
  insert_by_date-ordered p xs,
  all_of-insert (λ y. leb x.date y.date) p xs,
  all_of-leb p.date x.date xs,
)

pub by_date-ordered : (xs : List Price) → is_ordered (by_date xs) ≡ true
by_date-ordered [] = refl
by_date-ordered (x ∷ xs) = insert_by_date-ordered x (by_date xs) (by_date-ordered xs)

all_of-last :
    (q : Price → Bool) (x : Price) (xs : List Price)
    → all_of q (x ∷ xs) ≡ true
    → q (last_of x xs) ≡ true
all_of-last q x [] h = ground arith
all_of-last q x (y ∷ ys) h = all_of-last q y ys (ground arith)

pub last_latest :
    (x : Price) (xs : List Price)
    → is_ordered (x ∷ xs) ≡ true
    → all_of (λ p. leb p.date (last_of x xs).date) (x ∷ xs) ≡ true
last_latest x [] h = ground arith
last_latest x (y ∷ ys) h =
    ground (arith, last_latest y ys, all_of-last (λ p. leb x.date p.date) y ys)

pub any_of-last :
    (q : Price → Bool) (x : Price) (xs : List Price)
    → q (last_of x xs) ≡ true
    → any_of q (x ∷ xs) ≡ true
any_of-last q x [] h = ground arith
any_of-last q x (y ∷ ys) h = ground (arith, any_of-last q y ys)

module _ (f : Price → ℕ) where
  pub greatest_bounds :
      (n : ℕ) (x : Price) (xs : List Price)
      → greatest f x xs ≤ n
      → all_of (λ p. leb (f p) n) (x ∷ xs) ≡ true
  greatest_bounds n x [] h = ground arith
  greatest_bounds n x (y ∷ ys) h = ground (arith, greatest_bounds n y ys)

  pub greatest_reached :
      (n : ℕ) (x : Price) (xs : List Price)
      → greatest f x xs ≡ n
      → any_of (λ p. f p == n) (x ∷ xs) ≡ true
  greatest_reached n x [] h = ground arith
  greatest_reached n x (y ∷ ys) h = elim (Bool-cases (leb (f x) (greatest f y ys))) [
    | inl l ↦ ground (arith, greatest_reached n y ys)
    | inr g ↦ ground arith
  ]

  pub least_bounds :
      (n : ℕ) (x : Price) (xs : List Price)
      → n ≤ least f x xs
      → all_of (λ p. leb n (f p)) (x ∷ xs) ≡ true
  least_bounds n x [] h = ground arith
  least_bounds n x (y ∷ ys) h = ground (arith, least_bounds n y ys)

  pub least_reached :
      (n : ℕ) (x : Price) (xs : List Price)
      → least f x xs ≡ n
      → any_of (λ p. f p == n) (x ∷ xs) ≡ true
  least_reached n x [] h = ground arith
  least_reached n x (y ∷ ys) h = elim (Bool-cases (leb (least f y ys) (f x))) [
    | inl l ↦ ground (arith, least_reached n y ys)
    | inr g ↦ ground arith
  ]

pub all_of-rows_where :
    (r q : Price → Bool) (xs : List Price)
    → all_of q (rows_where r xs) ≡ all_of (λ p. not (r p) || q p) xs
all_of-rows_where r q [] = refl
all_of-rows_where r q (x ∷ xs) = ground (arith, all_of-rows_where r q xs)

pub any_of-rows_where :
    (r q : Price → Bool) (xs : List Price)
    → any_of q (rows_where r xs) ≡ any_of (λ p. r p && q p) xs
any_of-rows_where r q [] = refl
any_of-rows_where r q (x ∷ xs) = ground (arith, any_of-rows_where r q xs)
