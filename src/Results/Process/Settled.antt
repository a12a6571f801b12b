-- ===== src/Results/Process/Settled.antt =====
-- What `process` of apps/worker/results.py leaves behind.
use mathlib.Core.Path.{subst}
use mathlib.Core.Bool.{false≢true}
use meraipo.Prelude.{
  ℕ, ◌+◌, ◌≡◌, refl, sym, ◌∙◌, ap, inl, inr, Bool, true, false, not, ◌||◌, Option, none, some, List,
  [], ◌∷◌, arith, Bool-cases, all_of,
}
use meraipo.Results.Store.{
  Result, Filing, FilingError, Item, Attempt, raised, returned, ◌>>=◌, Published, publish,
}
use meraipo.Results.Store.Versions.{IsVersioned}
use meraipo.Results.Store.Refined.{publish_refines}
use meraipo.Results.Process.{
  Content, Link, Work, is_awaiting, preview, fail, content_of, count_download, finish_link,
  read_content, process_links, conclude, start_work, process,
}

conclude_settled :
    (w : Work) → w.parsed_any ≡ false → is_awaiting (conclude w).filing.status ≡ false
conclude_settled w h = ground arith

conclude_results : (w : Work) → (conclude w).results ≡ w.results
conclude_results w = ground arith

-- Where some attachment was published, the filing is no longer awaiting.
abbrev Sound : Work → Type 0
Sound w = (not w.parsed_any || not (is_awaiting w.filing.status)) ≡ true

-- The results have one current version of each period, and a filing with published results is not
-- awaiting.
abbrev Good : Work → Type 0
Good w = IsVersioned w.results × Sound w

fail-Good :
    (now : ℕ) (retry : Option ℕ) (e : FilingError) (w : Work) → Good w → Good (fail now retry e w)
fail-Good now retry e w (v, s) = (v, ground arith)

count_download-Good : (o : Option Content) (w : Work) → Good w → Good (count_download o w)
count_download-Good none w g = g
count_download-Good (some c) w g = g

abbrev Returns : Work → Attempt Published → Type 0
Returns w a = (q : Published) → a ≡ returned q → IsVersioned q.results

finish_link-Good :
    (now : ℕ) (retry : Option ℕ) (w : Work) (a : Attempt Published)
    → Good w
    → Returns w a
    → Good (finish_link now retry w a).1
finish_link-Good now retry w (raised e) g r = fail-Good now retry e w g
finish_link-Good now retry w (returned q) g r = (r q refl, refl)

publish-Returns :
    (filings : List Filing) (w : Work) (a : Attempt (List Item))
    → Good w
    → Returns w (a >>= (λ items. publish filings w.filing items w.results))
publish-Returns filings w (raised e) g q h = absurd (ground arith)
publish-Returns filings w (returned items) g q h =
    (publish_refines filings w.filing items w.results q g.0 h).0

read_content-Good :
    (restricted : ℕ → Bool) (filings : List Filing) (now : ℕ) (l : Link) (w : Work)
    (a : Attempt Content)
    → Good w
    → Good (read_content restricted filings now l w a).1
unfolding read_content preview
read_content-Good restricted filings now l w (raised e) g = fail-Good now l.retry_after e w g
read_content-Good restricted filings now l w (returned c) g = elim (Bool-cases c.xml) [
  | inr n ↦ rw (read_content, n) (count_download-Good l.stored w g)
  | inl y ↦
      rw (read_content, y)
        (finish_link-Good now l.retry_after (count_download l.stored w) _
          (count_download-Good l.stored w g)
          (publish-Returns filings w (preview restricted w.filing c) g))
]

pub process_links-Good :
    (restricted : ℕ → Bool) (filings : List Filing) (now : ℕ) (ls : List Link) (w : Work)
    → Good w
    → Good (process_links restricted filings now ls w)
unfolding process_links
process_links-Good restricted filings now [] w g = g
process_links-Good restricted filings now (l ∷ ls) w g =
    let turn = read_content restricted filings now l w (content_of l) in
    let g' = read_content-Good restricted filings now l w (content_of l) g in
    elim (Bool-cases turn.0) [
      | inl stop ↦ rw (process_links, stop) g'
      | inr go ↦ rw (process_links, go) (process_links-Good restricted filings now ls turn.1 g')
    ]

conclude-Good :
    (w : Work)
    → Good w
    → IsVersioned (conclude w).results × (is_awaiting (conclude w).filing.status ≡ false)
conclude-Good w (v, s) = (subst IsVersioned (sym (conclude_results w)) v, ground arith)

-- Whatever the downloads and the parser give, `process` ends with a filing that is not awaiting any
-- more, and with one current result at most of each period.
pub process_settles :
    (restricted : ℕ → Bool) (filings : List Filing) (now : ℕ) (f : Filing) (links : List Link)
    (results : List Result)
    → IsVersioned results
    → IsVersioned (process restricted filings now f links results).results
      × (is_awaiting (process restricted filings now f links results).filing.status ≡ false)
unfolding process
process_settles restricted filings now f [] results v = (v, refl)
process_settles restricted filings now f (l ∷ ls) results v =
    let w = start_work (record f { attempts = f.attempts + 1 }) results in
    conclude-Good (process_links restricted filings now (l ∷ ls) w)
      (process_links-Good restricted filings now (l ∷ ls) w (v, refl))

-- An attachment that is at hand and is no XML.
abbrev pub is_opaque : Link → Bool
is_opaque l = elim (content_of l) [ raised e ↦ false | returned c ↦ not c.xml ]

opaque_turn :
    (restricted : ℕ → Bool) (filings : List Filing) (now : ℕ) (l : Link) (w : Work)
    (a : Attempt Content)
    → elim a [ raised e ↦ false | returned c ↦ not c.xml ] ≡ true
    → read_content restricted filings now l w a ≡ (false, count_download l.stored w)
unfolding read_content
opaque_turn restricted filings now l w (raised e) h = absurd (false≢true h)
opaque_turn restricted filings now l w (returned c) h = rw (read_content, h) refl

count_download_filing : (o : Option Content) (w : Work) → (count_download o w).filing ≡ w.filing
count_download_filing none w = refl
count_download_filing (some c) w = refl

count_download_any :
    (o : Option Content) (w : Work) → (count_download o w).parsed_any ≡ w.parsed_any
count_download_any none w = refl
count_download_any (some c) w = refl

opaque_links :
    (restricted : ℕ → Bool) (filings : List Filing) (now : ℕ) (ls : List Link) (w : Work)
    → all_of is_opaque ls ≡ true
    → ((process_links restricted filings now ls w).filing ≡ w.filing)
      × ((process_links restricted filings now ls w).parsed_any ≡ w.parsed_any)
unfolding process_links
opaque_links restricted filings now [] w h = (refl, refl)
opaque_links restricted filings now (l ∷ ls) w h =
    let (p, q) =
      opaque_links restricted filings now ls (count_download l.stored w) (ground arith) in
    rw (opaque_turn restricted filings now l w (content_of l) (ground arith))
      (p ∙ count_download_filing l.stored w, q ∙ count_download_any l.stored w)

unawaiting : (w : Work) → is_awaiting w.filing.status ≡ false → (conclude w).filing ≡ w.filing
unawaiting w k = ground arith

conclude_keeps :
    (w : Work) (f : Filing) → w.filing ≡ f → is_awaiting f.status ≡ false → (conclude w).filing ≡ f
conclude_keeps w f e n = elim (Bool-cases (is_awaiting w.filing.status)) [
  | inl y ↦ absurd (false≢true (sym n ∙ ap (λ g. is_awaiting g.status) (sym e) ∙ y))
  | inr k ↦ unawaiting w k ∙ e
]

-- A filing that was not awaiting, whose attachments can all be read and of which none is XML, keeps its
-- status, its error and its time to retry: one that is to be retried because a download failed before
-- stays to be retried.
pub process_opaque :
    (restricted : ℕ → Bool) (filings : List Filing) (now : ℕ) (f : Filing) (l : Link)
    (ls : List Link) (results : List Result)
    → all_of is_opaque (l ∷ ls) ≡ true
    → is_awaiting f.status ≡ false
    → (process restricted filings now f (l ∷ ls) results).filing
      ≡ record f { attempts = f.attempts + 1 }
unfolding process
process_opaque restricted filings now f l ls results h n =
    let w = start_work (record f { attempts = f.attempts + 1 }) results in
    conclude_keeps (process_links restricted filings now (l ∷ ls) w) w.filing
      (opaque_links restricted filings now (l ∷ ls) w h).0 n
