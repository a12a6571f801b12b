-- ===== src/Schedule/Slots/First.antt =====
-- The loops of `next_slot` and the sorting of its slots, as facts about all the slots and days.
use meraipo.Prelude.{
  ap, if_some-eq, if_some-none, ==_iff, sym, ◌∙◌, leb→le, ℕ, ◌≤◌, ◌≡◌, refl, true, false, none,
  some, List, [], ◌∷◌, arith, leb, ◌==◌, Bool-cases, inl, inr, ◌||◌, All,
}
use mathlib.Core.Path.{subst}
use mathlib.Core.Bool.{false≢true}
use meraipo.Schedule.Clock.{Local, earlier, at_slot}
use meraipo.Schedule.Slots.{insert_sorted, sorted, has_slot, first_slot}

abbrev pub IsSorted : List ℕ → Type 0
IsSorted [] = Unit
IsSorted (x ∷ xs) = All (λ y. x ≤ y) xs × IsSorted xs

has_slot-insert_sorted :
    (m x : ℕ) (xs : List ℕ) → has_slot m (insert_sorted x xs) ≡ (x == m || has_slot m xs)
unfolding insert_sorted
has_slot-insert_sorted m x [] = refl
has_slot-insert_sorted m x (y ∷ ys) = ground (arith, has_slot-insert_sorted m x ys)

-- Sorting keeps the slots.
pub has_slot-sorted : (m : ℕ) (xs : List ℕ) → has_slot m (sorted xs) ≡ has_slot m xs
unfolding sorted
has_slot-sorted m [] = refl
has_slot-sorted m (x ∷ xs) =
    has_slot-insert_sorted m x (sorted xs) ∙ ap (λ b. x == m || b) (has_slot-sorted m xs)

All-le : {a b : ℕ} (xs : List ℕ) → a ≤ b → All (λ y. b ≤ y) xs → All (λ y. a ≤ y) xs
All-le [] h all = tt
All-le (x ∷ xs) h all = (omega arith, All-le xs h all.1)

All-insert_sorted :
    (a x : ℕ) (xs : List ℕ) → a ≤ x → All (λ y. a ≤ y) xs → All (λ y. a ≤ y) (insert_sorted x xs)
unfolding insert_sorted
All-insert_sorted a x [] h all = (h, tt)
All-insert_sorted a x (y ∷ ys) h all = elim (Bool-cases (leb x y)) [
  | inl e ↦ rw e (h, (all.0, all.1))
  | inr e ↦ rw e (all.0, All-insert_sorted a x ys h all.1)
]

insert_sorted-IsSorted : (x : ℕ) (xs : List ℕ) → IsSorted xs → IsSorted (insert_sorted x xs)
unfolding insert_sorted
insert_sorted-IsSorted x [] s = (tt, tt)
insert_sorted-IsSorted x (y ∷ ys) s = elim (Bool-cases (leb x y)) [
  | inl e ↦ rw e ((leb→le x y e, All-le ys (leb→le x y e) s.0), (s.0, s.1))
  | inr e ↦ rw e (All-insert_sorted y x ys (ground arith) s.0, insert_sorted-IsSorted x ys s.1)
]

pub sorted-IsSorted : (xs : List ℕ) → IsSorted (sorted xs)
unfolding sorted
sorted-IsSorted [] = tt
sorted-IsSorted (x ∷ xs) = insert_sorted-IsSorted x (sorted xs) (sorted-IsSorted xs)

-- A slot `m` of a sorted list is not below its first element.
head_le : (m x : ℕ) (xs : List ℕ) → All (λ y. x ≤ y) xs → has_slot m xs ≡ true → x ≤ m
head_le m x [] all h = absurd (ground arith)
head_le m x (y ∷ ys) all h = elim (Bool-cases (y == m)) [
  | inl e ↦ ground arith
  | inr e ↦ head_le m x ys all.1 (ground arith)
]

-- What the inner loop finds: a slot of the day, after `at`, and none of the day's is earlier.
pub record IsFirst (slots : List ℕ) (day : ℕ) (at c : Local) : Type 0 where
  pub on_day : c ≡ at_slot day c.minute
  pub listed : has_slot c.minute slots ≡ true
  pub later : earlier at c ≡ true
  pub least : (m : ℕ) → has_slot m slots ≡ true → earlier at (at_slot day m) ≡ true → c.minute ≤ m

pub first_slot-IsFirst :
    (slots : List ℕ) (day : ℕ) (at c : Local)
    → IsSorted slots
    → first_slot slots day at ≡ some c
    → IsFirst slots day at c
unfolding first_slot
first_slot-IsFirst [] day at c s h = absurd (cc)
first_slot-IsFirst (t ∷ ts) day at c s h =
    elim (if_some-eq (earlier at (at_slot day t)) (at_slot day t) (first_slot ts day at) h) [
      | inl (e, q) ↦ subst (IsFirst (t ∷ ts) day at) q (record {
        on_day = refl;
        listed = ground arith;
        later = e;
        least = λ m k _. head_le m t (t ∷ ts) (omega arith, s.0) k;
      })
      | inr (e, r) ↦
          let f = first_slot-IsFirst ts day at c s.1 r in
          record {
            on_day = f.on_day;
            listed = ground (arith, f.listed);
            later = f.later;
            least = λ m k l. elim (Bool-cases (t == m)) [
              | inl same ↦ absurd (false≢true (sym e ∙ rw ((==_iff t m).0 same) l))
              | inr other ↦ f.least m (rw other at k) l
            ];
          }
    ]

-- If no slot is found, none of the slots is after `at`.
pub first_slot-none :
    (slots : List ℕ) (day : ℕ) (at : Local) (m : ℕ)
    → first_slot slots day at ≡ none
    → has_slot m slots ≡ true
    → earlier at (at_slot day m) ≡ false
unfolding first_slot
first_slot-none [] day at m h k = absurd (false≢true k)
first_slot-none (t ∷ ts) day at m h k =
    let (e, r) =
      if_some-none (earlier at (at_slot day t)) (at_slot day t) (first_slot ts day at) h in
    elim (Bool-cases (t == m)) [
      | inl same ↦ rw (← (==_iff t m).0 same) e
      | inr other ↦ first_slot-none ts day at m r (rw other at k)
    ]
