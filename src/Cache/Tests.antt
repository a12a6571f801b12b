-- ===== src/Cache/Tests.antt =====
-- A run of the public cache: a reader that loads before a commit and stores after it.
use meraipo.Prelude.{refl, true, false, [], ◌∷◌, All}
use meraipo.Cache.{
  Reader, began, cleared, located, loaded, answered, idle, locked, marked, committed, Site, looks,
  gets, loads, begins, turns, stores, locks, marks, commits_data, Reaches, here, step,
}
use meraipo.Cache.Fresh.{IsFresh, reached-IsFresh}

abbrev quiet : Site
quiet = record {
  commits = 4;
  generation = 1;
  dirty = false;
  entries = [];
  readers = [];
  writer = idle;
}

abbrev asked : Reader → Site
asked r = record quiet { readers = r ∷ [] }

abbrev busy : Site
busy = record (asked (loaded 4 1 4)) { dirty = true; writer = marked }

abbrev late : Site
late = record busy {
  commits = 5;
  writer = committed;
  entries = (1, 4) ∷ [];
  readers = answered 4 4 ∷ [];
}

late_path : Reaches quiet late
late_path =
    step _ _
      (step _ _
        (step _ _
          (step _ _
            (step _ _
              (step _ _
                (step _ _ (step _ _ here (begins quiet))
                  (turns (asked (began 4)) [] [] _ _ refl (looks 4 refl)))
                (turns (asked (cleared 4)) [] [] _ _ refl (gets 4)))
              (turns (asked (located 4 1)) [] [] _ _ refl (loads 4 1)))
            (locks (asked (loaded 4 1 4)) refl))
          (marks (record (asked (loaded 4 1 4)) { writer = locked }) refl))
        (commits_data busy refl))
      (stores (record busy { commits = 5; writer = committed }) [] [] 4 1 4 refl)

reached-IsFresh_example : All (IsFresh 5) (answered 4 4 ∷ [])
reached-IsFresh_example = reached-IsFresh quiet late refl refl refl late_path
