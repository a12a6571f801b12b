-- ===== src/Cache/Fresh.antt =====
-- apps/api/cache.py: how old an answer can be.
use meraipo.Prelude.{ℕ, ◌≤◌, ◌≡◌, refl, true, [], All, All-map, arith}
use meraipo.Cache.{
  Reader, began, cleared, located, bypassed, loaded, answered, idle, Site, Reaches, here, step,
}
use mathlib.Core.Bool.{false≢true}
use mathlib.Core.Path.{subst}
use meraipo.Cache.Kept.{has_marked, ReaderFits, Fits, Step-Fits}

reached-Fits :
    (f : ℕ → ℕ) (first last : Site) → Fits f first → Reaches first last → (g : ℕ → ℕ) × Fits g last
reached-Fits f first _ k here = (f, k)
reached-Fits f first _ k (step mid last path s) =
    let (g, j) = reached-Fits f first mid k path in Step-Fits g mid last j s

-- An answer holds data that is at least as new as the last commit before its request, and committed.
abbrev pub IsFresh : ℕ → Reader → Type 0
IsFresh commits (answered n d) = (n ≤ d) × (d ≤ commits)
IsFresh commits _ = Unit

fits-IsFresh : (f : ℕ → ℕ) (c g : ℕ) (r : Reader) → ReaderFits f c g r → IsFresh c r
fits-IsFresh f c g (began n) h = tt
fits-IsFresh f c g (cleared n) h = tt
fits-IsFresh f c g (located n x) h = tt
fits-IsFresh f c g (bypassed n) h = tt
fits-IsFresh f c g (loaded n x d) h = tt
fits-IsFresh f c g (answered n d) h = h

-- From a site with no entry, no reader and no writer at work, however the steps of readers, writers and
-- Redis interleave, failures of Redis and of a commit at any point included, every answer of every
-- reachable site holds data that was committed, and none older than the last commit before the answer's
-- request began.
pub reached-IsFresh :
    (first last : Site)
    → first.entries ≡ []
    → first.readers ≡ []
    → first.writer ≡ idle
    → Reaches first last
    → All (IsFresh last.commits) last.readers
reached-IsFresh first last no_entries no_readers no_writer path =
    let (g, fit) =
      reached-Fits (λ g. first.commits) first last
        record {
          floors = λ g. omega arith;
          settled = λ h. refl;
          guarded = λ h. absurd (false≢true (subst (λ w. has_marked w ≡ true) no_writer h));
          held = rw no_entries tt;
          moving = rw no_readers tt;
        }
        path in
    All-map _ _ (fits-IsFresh g last.commits last.generation) last.readers fit.moving
