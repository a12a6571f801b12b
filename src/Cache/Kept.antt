-- ===== src/Cache/Kept.antt =====
-- apps/api/cache.py: what every step of readers and writers keeps.
use meraipo.Prelude.{
  ℕ, ◌+◌, ◌≤◌, ◌≡◌, refl, sym, ◌∙◌, Bool, true, false, not, ◌==◌, if◌then◌else◌, all_of, All,
  All-at, All-remove, All-update, All-map, All-map_where, &&_true, arith,
}
use meraipo.Cache.{
  Reader, began, cleared, located, bypassed, loaded, answered, Writer, idle, locked, marked,
  committed, advanced, Site, Turn, looks, bypasses, gives_up, gives_up_located, gets, hits, loads,
  loads_past, loses, Step, begins, turns, stores, expires, locks, marks, commits_data, advances,
  clears, quits, forgets, in_past, is_idle,
}
use mathlib.Core.Bool.{false≢true}
use mathlib.Core.Path.{subst}

-- Whether the data of the current generation may be served: no marker, or the generation is new.
abbrev pub served_by : Writer → Bool → Bool
served_by advanced dirty = true
served_by _ dirty = not dirty

abbrev pub is_served : Site → Bool
is_served s = served_by s.writer s.dirty

served_by-false : (w : Writer) → served_by w false ≡ true
served_by-false idle = refl
served_by-false locked = refl
served_by-false marked = refl
served_by-false committed = refl
served_by-false advanced = refl

-- Whether the writer has set the marker.
abbrev pub has_marked : Writer → Bool
has_marked idle = false
has_marked locked = false
has_marked _ = true

module _ (f : ℕ → ℕ) (commits generation : ℕ) where
  abbrev pub EntryFits : ℕ × ℕ → Type 0
  EntryFits e = (f e.0 ≤ e.1) × (e.1 ≤ commits) × (e.0 ≤ generation)

  abbrev pub ReaderFits : Reader → Type 0
  ReaderFits (began n) = n ≤ commits
  ReaderFits (cleared n) = n ≤ f generation
  ReaderFits (located n g) = (n ≤ f g) × (g ≤ generation)
  ReaderFits (bypassed n) = n ≤ commits
  ReaderFits (loaded n g d) = (n ≤ d) × (f g ≤ d) × (d ≤ commits) × (g ≤ generation)
  ReaderFits (answered n d) = (n ≤ d) × (d ≤ commits)

-- `f` gives each generation the oldest data that its entries may hold.
pub record Fits (f : ℕ → ℕ) (s : Site) : Type 0 where
  pub floors : (g : ℕ) → f g ≤ s.commits
  pub settled : is_served s ≡ true → f s.generation ≡ s.commits
  pub guarded : has_marked s.writer ≡ true → s.dirty ≡ true
  pub held : All (EntryFits f s.commits s.generation) s.entries
  pub moving : All (ReaderFits f s.commits s.generation) s.readers

clean_served : (s : Site) → s.dirty ≡ false → is_served s ≡ true
clean_served s e = rw e (served_by-false s.writer)

Turn-ReaderFits :
    (f : ℕ → ℕ) (s : Site) (r r' : Reader)
    → Fits f s
    → ReaderFits f s.commits s.generation r
    → Turn s r r'
    → ReaderFits f s.commits s.generation r'
Turn-ReaderFits f s _ _ k h (looks n e) = omega (arith, k.settled (clean_served s e))
Turn-ReaderFits f s _ _ k h (bypasses n) = h
Turn-ReaderFits f s _ _ k h (gives_up n) = omega (arith, k.floors s.generation)
Turn-ReaderFits f s _ _ k h (gives_up_located n g) = omega (arith, h.0, k.floors g)
Turn-ReaderFits f s _ _ k h (gets n) = (h, omega arith)
Turn-ReaderFits f s _ _ k h (hits n g d before after e) =
    let fit =
      All-at (EntryFits f s.commits s.generation) before after (g, d)
        (subst (All (EntryFits f s.commits s.generation)) e k.held) in
    (omega (arith, h.0, fit.0), fit.1)
Turn-ReaderFits f s _ _ k h (loads n g) =
    (omega (arith, h.0, k.floors g), k.floors g, omega arith, h.1)
Turn-ReaderFits f s _ _ k h (loads_past n) = (h, omega arith)
Turn-ReaderFits f s _ _ k h (loses n g d) = (h.0, h.2)

-- The floors after generation `g` is given the floor `n`.
abbrev pub raise : (ℕ → ℕ) → ℕ → ℕ → ℕ → ℕ
raise f g n x = if x == g then n else f x

-- More commits, a later generation and floors that agree below it keep what fits.
module _ (f f' : ℕ → ℕ) (c c' g g' : ℕ) (more : c ≤ c') (later : g ≤ g')
    (agree : (x : ℕ) → x ≤ g → f' x ≡ f x) (current : f g ≤ f' g') where
  grow-EntryFits : (e : ℕ × ℕ) → EntryFits f c g e → EntryFits f' c' g' e
  grow-EntryFits e (a, b, d) = (omega (arith, agree e.0 d), omega arith, omega arith)

  grow-ReaderFits : (r : Reader) → ReaderFits f c g r → ReaderFits f' c' g' r
  grow-ReaderFits (began n) h = omega arith
  grow-ReaderFits (cleared n) h = omega arith
  grow-ReaderFits (located n x) (a, b) = (omega (arith, agree x b), omega arith)
  grow-ReaderFits (bypassed n) h = omega arith
  grow-ReaderFits (loaded n x d) (a, b, e, l) =
      (a, omega (arith, agree x l), omega arith, omega arith)
  grow-ReaderFits (answered n d) (a, b) = (a, omega arith)

not-true : (b : Bool) → not b ≡ true → b ≡ false
not-true true h = absurd (false≢true h)
not-true false h = refl

idle_unmarked : (w : Writer) → is_idle w ≡ true → has_marked w ≡ true → false ≡ true
idle_unmarked idle i h = h
idle_unmarked locked i h = i
idle_unmarked marked i h = i
idle_unmarked committed i h = i
idle_unmarked advanced i h = i

forget-EntryFits :
    (f : ℕ → ℕ) (s : Site) (e : ℕ × ℕ)
    → not (e.0 == s.generation) ≡ true
    → EntryFits f s.commits s.generation e
    → EntryFits (raise f s.generation s.commits) s.commits s.generation e
forget-EntryFits f s (g, d) h (a, b, c) = (ground arith, b, c)

forget-ReaderFits :
    (f : ℕ → ℕ) (s : Site) (r : Reader)
    → not (in_past r) ≡ true
    → ReaderFits f s.commits s.generation r
    → ReaderFits (raise f s.generation s.commits) s.commits s.generation r
forget-ReaderFits f s (began n) h k = k
forget-ReaderFits f s (cleared n) h k = absurd (false≢true h)
forget-ReaderFits f s (located n g) h k = absurd (false≢true h)
forget-ReaderFits f s (bypassed n) h k = k
forget-ReaderFits f s (loaded n g d) h k = absurd (false≢true h)
forget-ReaderFits f s (answered n d) h k = k

pub Step-Fits : (f : ℕ → ℕ) (s s' : Site) → Fits f s → Step s s' → (f' : ℕ → ℕ) × Fits f' s'
Step-Fits f _ _ k (begins s) = (
  f,
  record {
    floors = k.floors;
    settled = k.settled;
    guarded = k.guarded;
    held = k.held;
    moving = (omega arith, k.moving);
  },
)
Step-Fits f _ _ k (turns s xs ys r r' e t) =
    let all = subst (All (ReaderFits f s.commits s.generation)) e k.moving in
    let moved = Turn-ReaderFits f s r r' k (All-at _ xs ys r all) t in
    (
      f,
      record {
        floors = k.floors;
        settled = k.settled;
        guarded = k.guarded;
        held = k.held;
        moving = All-update _ xs ys r r' moved all;
      },
    )
Step-Fits f _ _ k (stores s xs ys n g d e) =
    let all = subst (All (ReaderFits f s.commits s.generation)) e k.moving in
    let fit = All-at _ xs ys (loaded n g d) all in
    (
      f,
      record {
        floors = k.floors;
        settled = k.settled;
        guarded = k.guarded;
        held = ((fit.1, fit.2, fit.3), k.held);
        moving = All-update _ xs ys (loaded n g d) (answered n d) (fit.0, omega (arith, fit.2)) all;
      },
    )
Step-Fits f _ _ k (expires s before after x e) = (
  f,
  record {
    floors = k.floors;
    settled = k.settled;
    guarded = k.guarded;
    held = All-remove _ before after x (subst (All (EntryFits f s.commits s.generation)) e k.held);
    moving = k.moving;
  },
)
Step-Fits f _ _ k (locks s e) = (
  f,
  record {
    floors = k.floors;
    settled = λ h. k.settled (clean_served s (not-true s.dirty h));
    guarded = λ h. absurd (false≢true h);
    held = k.held;
    moving = k.moving;
  },
)
Step-Fits f _ _ k (marks s e) = (
  f,
  record {
    floors = k.floors;
    settled = λ h. absurd (false≢true h);
    guarded = λ h. refl;
    held = k.held;
    moving = k.moving;
  },
)
Step-Fits f _ _ k (commits_data s e) = (
  f,
  record {
    floors = λ g. omega (arith, k.floors g);
    settled = λ h. absurd (false≢true (sym (not-true s.dirty h) ∙ k.guarded (rw e refl)));
    guarded = λ h. k.guarded (rw e refl);
    held =
        All-map _ _
          (grow-EntryFits f f s.commits (s.commits + 1) s.generation s.generation (omega arith)
            (omega arith) (λ x l. refl) (omega arith))
          s.entries k.held;
    moving =
        All-map _ _
          (grow-ReaderFits f f s.commits (s.commits + 1) s.generation s.generation (omega arith)
            (omega arith) (λ x l. refl) (omega arith))
          s.readers k.moving;
  },
)
Step-Fits f _ _ k (advances s e) = (
  raise f (s.generation + 1) s.commits,
  record {
    floors = λ g. ground (arith, k.floors g);
    settled = λ h. ground arith;
    guarded = λ h. k.guarded (rw e refl);
    held =
        All-map _ _
          (grow-EntryFits f (raise f (s.generation + 1) s.commits) s.commits s.commits s.generation
            (s.generation + 1) (omega arith) (omega arith) (λ x l. ground arith)
            (ground (arith, k.floors s.generation)))
          s.entries k.held;
    moving =
        All-map _ _
          (grow-ReaderFits f (raise f (s.generation + 1) s.commits) s.commits s.commits s.generation
            (s.generation + 1) (omega arith) (omega arith) (λ x l. ground arith)
            (ground (arith, k.floors s.generation)))
          s.readers k.moving;
  },
)
Step-Fits f _ _ k (clears s e) = (
  f,
  record {
    floors = k.floors;
    settled = λ h. k.settled (rw e refl);
    guarded = λ h. absurd (false≢true h);
    held = k.held;
    moving = k.moving;
  },
)
Step-Fits f _ _ k (quits s) = (
  f,
  record {
    floors = k.floors;
    settled = λ h. k.settled (clean_served s (not-true s.dirty h));
    guarded = λ h. absurd (false≢true h);
    held = k.held;
    moving = k.moving;
  },
)
Step-Fits f _ _ k (forgets s e) =
    let (idles, rest) = &&_true (is_idle s.writer) _ e in
    let (old, past) = &&_true (all_of (λ x. not (x.0 == s.generation)) s.entries) _ rest in
    (
      raise f s.generation s.commits,
      record {
        floors = λ g. ground (arith, k.floors g);
        settled = λ h. ground arith;
        guarded = λ h. idle_unmarked s.writer idles h;
        held = All-map_where _ _ _ (forget-EntryFits f s) s.entries old k.held;
        moving = All-map_where _ _ _ (forget-ReaderFits f s) s.readers past k.moving;
      },
    )
