-- ===== src/Cache.antt =====
-- apps/api/cache.py: readers (`cached`) and writers (`commit_with_invalidation`) of the public cache, as
-- a step relation. A step is one call of Redis or of the database; steps of any number of readers and
-- of writers interleave. The data of a key is the number of its last commit.
pub mod Kept
pub mod Fresh
mod Tests
use meraipo.Prelude.{
  ℕ, ◌+◌, ◌≡◌, Bool, true, false, not, ◌&&◌, ◌||◌, Option, none, some, List, [], ◌∷◌, ◌++◌, ltb,
  leb, ◌==◌, if◌then◌else◌, all_of, any_of,
}

-- A reader, with the number of the last commit when its request began: before it looked at the dirty
-- marker; after it found none; with the generation that it was given; with the data that it loaded and
-- is to store; and with its answer. A reader that bypasses the cache loads too, and stores nothing.
pub data Reader : Type 0 where
  began cleared : ℕ → Reader
  located : ℕ → ℕ → Reader
  bypassed : ℕ → Reader
  loaded : ℕ → ℕ → ℕ → Reader
  answered : ℕ → ℕ → Reader

-- The writer that holds the lock `cache:writer`: before it sets the marker, after that, after its
-- commit, and after the generation was advanced.
pub data Writer : Type 0 where
  idle locked marked committed advanced : Writer

-- The number of commits; the generation and the dirty marker in Redis; the entries, as the generation
-- they are stored under and the data; the readers; the writer.
pub record Site : Type 0 where
  pub commits : ℕ
  pub generation : ℕ
  pub dirty : Bool
  pub entries : List (ℕ × ℕ)
  pub readers : List Reader
  pub writer : Writer

abbrev pub in_past : Reader → Bool
in_past (cleared n) = true
in_past (located n g) = true
in_past (loaded n g d) = true
in_past _ = false

-- One step of a reader that changes nothing but the reader. A failure of Redis sends it past the cache.
pub data Turn (s : Site) : Reader → Reader → Type 0 where
  looks : (n : ℕ) → s.dirty ≡ false → Turn s (began n) (cleared n)
  bypasses : (n : ℕ) → Turn s (began n) (bypassed n)
  gives_up : (n : ℕ) → Turn s (cleared n) (bypassed n)
  gives_up_located : (n g : ℕ) → Turn s (located n g) (bypassed n)
  gets : (n : ℕ) → Turn s (cleared n) (located n s.generation)
  hits :
      (n g d : ℕ) (before after : List (ℕ × ℕ))
      → s.entries ≡ before ++ (g, d) ∷ after
      → Turn s (located n g) (answered n d)
  loads : (n g : ℕ) → Turn s (located n g) (loaded n g s.commits)
  loads_past : (n : ℕ) → Turn s (bypassed n) (answered n s.commits)
  loses : (n g d : ℕ) → Turn s (loaded n g d) (answered n d)

abbrev pub is_idle : Writer → Bool
is_idle idle = true
is_idle _ = false

-- The marker outlives every entry that is older than it, and every reader that had looked before it
-- was set: it is kept for twice the time that an entry is.
abbrev pub outlived : Site → Bool
outlived s =
    is_idle s.writer
    && (all_of (λ e. not (e.0 == s.generation)) s.entries
        && all_of (λ r. not (in_past r)) s.readers)

pub data Step : Site → Site → Type 0 where
  begins : (s : Site) → Step s (record s { readers = began s.commits ∷ s.readers })
  turns :
      (s : Site) (xs ys : List Reader) (r r' : Reader)
      → s.readers ≡ xs ++ r ∷ ys
      → Turn s r r'
      → Step s (record s { readers = xs ++ r' ∷ ys })
  stores :
      (s : Site) (xs ys : List Reader) (n g d : ℕ)
      → s.readers ≡ xs ++ loaded n g d ∷ ys
      → Step s (record s { entries = (g, d) ∷ s.entries; readers = xs ++ answered n d ∷ ys })
  expires :
      (s : Site) (before after : List (ℕ × ℕ)) (e : ℕ × ℕ)
      → s.entries ≡ before ++ e ∷ after
      → Step s (record s { entries = before ++ after })
  locks : (s : Site) → s.writer ≡ idle → Step s (record s { writer = locked })
  marks : (s : Site) → s.writer ≡ locked → Step s (record s { dirty = true; writer = marked })
  commits_data :
      (s : Site)
      → s.writer ≡ marked
      → Step s (record s { commits = s.commits + 1; writer = committed })
  advances :
      (s : Site)
      → s.writer ≡ committed
      → Step s (record s { generation = s.generation + 1; writer = advanced })
  clears : (s : Site) → s.writer ≡ advanced → Step s (record s { dirty = false; writer = idle })
  quits : (s : Site) → Step s (record s { writer = idle })
  forgets : (s : Site) → outlived s ≡ true → Step s (record s { dirty = false })

pub data Reaches (first : Site) : Site → Type 0 where
  here : Reaches first first
  step : (mid last : Site) → Reaches first mid → Step mid last → Reaches first last
