-- ===== src/Market/Feed/Distinct.antt =====
-- The branch of results of `ingest_record` (apps/worker/market.py).
use meraipo.Prelude.{
  ℕ, ◌≤◌, ◌<◌, ◌≡◌, ◌∙◌, ap, refl, sym, inl, inr, Bool, true, false, ◌&&◌, ◌||◌, Option, none, some,
  List, [], ◌∷◌, ◌++◌, ◌==◌, max, any_of, any_of-append, rows_where, first_where, count_where,
  count_where-append, Bool-cases, arith,
}
use meraipo.Market.Match.{Outcome, raised, returned, Provider}
use meraipo.Market.Feed.{
  Filed, ResultData, is_of, insert_newest, newest_first, has_hash, last_revision, filed_of,
  filed_over, ingest_result, is_from, is_after, has_statement,
}

-- The table that a call leaves.
abbrev pub rows_after : List Filed → Outcome (List Filed × Bool) → List Filed
rows_after rs (raised e) = rs
rows_after rs (returned (q, b)) = q

-- A company's row of a period, with its revision or its fingerprint.
abbrev pub at_revision : ℕ → ℕ → ℕ → Filed → Bool
at_revision c t k r = is_of c t r && r.revision == k

abbrev pub at_hash : ℕ → ℕ → ℕ → Filed → Bool
at_hash c t h r = is_of c t r && has_hash h r

-- A company's rows of a period have different revisions and different fingerprints.
abbrev pub IsDistinct : List Filed → Type 0
IsDistinct rs =
    ((c t k : ℕ) → count_where (at_revision c t k) rs ≤ 1)
    × ((c t h : ℕ) → count_where (at_hash c t h) rs ≤ 1)

any_of-insert :
    (q : Filed → Bool) (r : Filed) (xs : List Filed)
    → any_of q (insert_newest r xs) ≡ (q r || any_of q xs)
any_of-insert q r [] = refl
any_of-insert q r (x ∷ xs) = ground (arith, any_of-insert q r xs)

any_of-newest : (q : Filed → Bool) (xs : List Filed) → any_of q (newest_first xs) ≡ any_of q xs
any_of-newest q [] = refl
any_of-newest q (x ∷ xs) = ground (arith, any_of-insert q x (newest_first xs), any_of-newest q xs)

last_revision-insert :
    (r : Filed) (xs : List Filed)
    → last_revision (insert_newest r xs) ≡ max r.revision (last_revision xs)
last_revision-insert r [] = refl
last_revision-insert r (x ∷ xs) = ground (arith, last_revision-insert r xs)

last_revision-newest : (xs : List Filed) → last_revision (newest_first xs) ≡ last_revision xs
last_revision-newest [] = refl
last_revision-newest (x ∷ xs) =
    ground (arith, last_revision-insert x (newest_first xs), last_revision-newest xs)

-- No row has a revision above the last, nor a fingerprint that none has.
above_last :
    (c t k : ℕ) (rs : List Filed)
    → last_revision (rows_where (is_of c t) rs) < k
    → count_where (at_revision c t k) rs ≡ 0
above_last c t k [] h = refl
above_last c t k (r ∷ rs) h = elim (Bool-cases (is_of c t r)) [
  | inl y ↦ ground (arith, above_last c t k rs)
  | inr n ↦ ground (arith, above_last c t k rs)
]

no_hash :
    (c t h : ℕ) (rs : List Filed)
    → any_of (has_hash h) (rows_where (is_of c t) rs) ≡ false
    → count_where (at_hash c t h) rs ≡ 0
no_hash c t h [] e = refl
no_hash c t h (r ∷ rs) e = elim (Bool-cases (is_of c t r)) [
  | inl y ↦ ground (arith, no_hash c t h rs)
  | inr n ↦ ground (arith, no_hash c t h rs)
]

same_revision :
    (c t k s r : ℕ) (rs : List Filed)
    → (c == k) ≡ true
    → (t == s) ≡ true
    → count_where (at_revision k s r) rs ≡ count_where (at_revision c t r) rs
same_revision c t k s r rs a b =
    let x : k ≡ c = ground arith in
    let y : s ≡ t = ground arith in
    ap (λ z. count_where (at_revision z s r) rs) x ∙ ap (λ z. count_where (at_revision c z r) rs) y

same_hash :
    (c t k s h g : ℕ) (rs : List Filed)
    → (c == k) ≡ true
    → (t == s) ≡ true
    → (g == h) ≡ true
    → count_where (at_hash k s h) rs ≡ count_where (at_hash c t g) rs
same_hash c t k s h g rs a b e =
    let x : k ≡ c = ground arith in
    let y : s ≡ t = ground arith in
    let z : h ≡ g = ground arith in
    ap (λ w. count_where (at_hash w s h) rs) x
    ∙ ap (λ w. count_where (at_hash c w h) rs) y
    ∙ ap (λ w. count_where (at_hash c t w) rs) z

extend-IsDistinct :
    (c : ℕ) (provider : Provider) (d : ResultData) (rs prior : List Filed)
    → IsDistinct rs
    → prior ≡ newest_first (rows_where (is_of c d.period) rs)
    → any_of (has_hash d.digest) prior ≡ false
    → IsDistinct (rs ++ filed_of c provider d prior ∷ [])
extend-IsDistinct c provider d rs prior (v, u) e n =
    let last : last_revision prior ≡ last_revision (rows_where (is_of c d.period) rs) =
      ap last_revision e ∙ last_revision-newest (rows_where (is_of c d.period) rs) in
    let fresh : any_of (has_hash d.digest) (rows_where (is_of c d.period) rs) ≡ false =
      sym (any_of-newest (has_hash d.digest) (rows_where (is_of c d.period) rs))
      ∙ ap (any_of (has_hash d.digest)) (sym e)
      ∙ n in
    let q = filed_of c provider d prior in
    (
      λ k t r.
          rw (count_where-append (at_revision k t r) rs (q ∷ []))
            (elim (Bool-cases (at_revision k t r q)) [
              | inr m ↦ ground (arith, v k t r)
              | inl y ↦
                  ground (arith, same_revision c d.period k t r rs, above_last c d.period r rs)
            ]),
      λ k t h.
          rw (count_where-append (at_hash k t h) rs (q ∷ [])) (elim (Bool-cases (at_hash k t h q)) [
            | inr m ↦ ground (arith, u k t h)
            | inl y ↦
                ground
                  (arith, same_hash c d.period k t h d.digest rs, no_hash c d.period d.digest rs)
          ]),
    )

filed-IsDistinct :
    (c : ℕ) (provider : Provider) (d : ResultData) (rs prior : List Filed) (o : Option Filed)
    → IsDistinct rs
    → IsDistinct (rs ++ filed_of c provider d prior ∷ [])
    → IsDistinct (rows_after rs (filed_over c provider d prior rs o))
filed-IsDistinct c provider d rs prior none v w = w
filed-IsDistinct c provider d rs prior (some r) v w =
    elim (Bool-cases (is_from provider r.source_provider)) [
      | inr n ↦ rw n v
      | inl y ↦ elim (Bool-cases (is_after d.source_timestamp r.source_timestamp)) [
        | inl a ↦ rw (y, a) v
        | inr b ↦ rw (y, b) w
      ]
    ]

-- A record of results keeps a company's rows of a period apart, by their revisions and by the
-- fingerprints of what they hold, whether it is written, known, older or refused.
pub ingest_result-IsDistinct :
    (c : ℕ) (provider : Provider) (d : ResultData) (rs : List Filed)
    → IsDistinct rs
    → IsDistinct (rows_after rs (ingest_result c provider d rs))
unfolding ingest_result
ingest_result-IsDistinct c provider d rs v =
    let prior = newest_first (rows_where (is_of c d.period) rs) in
    elim (Bool-cases (any_of (has_hash d.digest) prior)) [
      | inl y ↦ rw (ingest_result, y) v
      | inr n ↦
          rw (ingest_result, n)
            (filed-IsDistinct c provider d rs prior (first_where (has_statement d.statement) prior)
              v (extend-IsDistinct c provider d rs prior v refl n))
    ]

-- A record that comes again.
abbrev called_twice :
    ℕ → Provider → ResultData → Outcome (List Filed × Bool) → Outcome (List Filed × Bool)
called_twice c provider d (raised e) = raised e
called_twice c provider d (returned (rs, b)) = ingest_result c provider d rs

abbrev known : Outcome (List Filed × Bool) → Outcome (List Filed × Bool)
known (raised e) = raised e
known (returned (rs, b)) = returned (rs, false)

hash_known :
    (c : ℕ) (provider : Provider) (d : ResultData) (rs : List Filed)
    → any_of (has_hash d.digest) (newest_first (rows_where (is_of c d.period) rs)) ≡ true
    → ingest_result c provider d rs ≡ returned (rs, false)
unfolding ingest_result
hash_known c provider d rs h = rw (ingest_result, h) refl

any_of-rows_where :
    (r q : Filed → Bool) (xs : List Filed)
    → any_of q (rows_where r xs) ≡ any_of (λ x. r x && q x) xs
any_of-rows_where r q [] = refl
any_of-rows_where r q (x ∷ xs) = ground (arith, any_of-rows_where r q xs)

hash_added :
    (c : ℕ) (provider : Provider) (d : ResultData) (rs prior : List Filed)
    → any_of
        (has_hash d.digest)
        (newest_first (rows_where (is_of c d.period) (rs ++ filed_of c provider d prior ∷ [])))
      ≡ true
hash_added c provider d rs prior =
    any_of-newest (has_hash d.digest)
      (rows_where (is_of c d.period) (rs ++ filed_of c provider d prior ∷ []))
    ∙ any_of-rows_where (is_of c d.period) (has_hash d.digest)
        (rs ++ filed_of c provider d prior ∷ [])
    ∙ any_of-append (at_hash c d.period d.digest) rs (filed_of c provider d prior ∷ [])
    ∙ ground arith

filed_again :
    (c : ℕ) (provider : Provider) (d : ResultData) (rs : List Filed) (o : Option Filed)
    → (any_of (has_hash d.digest) (newest_first (rows_where (is_of c d.period) rs)) ≡ false)
    → first_where (has_statement d.statement) (newest_first (rows_where (is_of c d.period) rs)) ≡ o
    → called_twice c provider d
        (filed_over c provider d (newest_first (rows_where (is_of c d.period) rs)) rs o)
      ≡ known (filed_over c provider d (newest_first (rows_where (is_of c d.period) rs)) rs o)
unfolding ingest_result
filed_again c provider d rs none n e =
    hash_known c provider d
      (rs ++ filed_of c provider d (newest_first (rows_where (is_of c d.period) rs)) ∷ [])
      (hash_added c provider d rs (newest_first (rows_where (is_of c d.period) rs)))
filed_again c provider d rs (some r) n e = elim (Bool-cases (is_from provider r.source_provider)) [
  | inr m ↦ rw m refl
  | inl y ↦ elim (Bool-cases (is_after d.source_timestamp r.source_timestamp)) [
    | inl a ↦ rw (y, a, ingest_result, n, e, y, a) refl
    | inr b ↦
        rw (y, b)
          (hash_known c provider d
            (rs ++ filed_of c provider d (newest_first (rows_where (is_of c d.period) rs)) ∷ [])
            (hash_added c provider d rs (newest_first (rows_where (is_of c d.period) rs))))
  ]
]

-- A record of results that comes again, after it was not refused, writes nothing.
ingest_result_again :
    (c : ℕ) (provider : Provider) (d : ResultData) (rs : List Filed)
    → called_twice c provider d (ingest_result c provider d rs)
      ≡ known (ingest_result c provider d rs)
unfolding ingest_result
ingest_result_again c provider d rs =
    let prior = newest_first (rows_where (is_of c d.period) rs) in
    elim (Bool-cases (any_of (has_hash d.digest) prior)) [
      | inl y ↦ rw (ingest_result, y, ingest_result, y) refl
      | inr n ↦
          rw (ingest_result, n)
            (filed_again c provider d rs (first_where (has_statement d.statement) prior) n refl)
    ]
