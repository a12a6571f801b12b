-- ===== src/Results/Queue/Numbers.antt =====
-- `process` of apps/worker/results.py keeps the number of a filing.
use meraipo.Prelude.{
  Bool, ℕ, ◌≡◌, refl, ◌∙◌, inl, inr, not, ◌&&◌, Option, none, some, List, [], ◌∷◌, Bool-cases,
}
use meraipo.Results.Store.{Result, Filing, Attempt, raised, returned, Published}
use meraipo.Results.Process.{
  Content, Link, Work, is_awaiting, content_of, count_download, finish_link, read_content,
  process_links, conclude, process,
}

-- A filing keeps its number.
count_download-id : (o : Option Content) (w : Work) → (count_download o w).filing.id ≡ w.filing.id
count_download-id none w = refl
count_download-id (some c) w = refl

finish_link-id :
    (now : ℕ) (retry : Option ℕ) (w : Work) (a : Attempt Published)
    → (finish_link now retry w a).1.filing.id ≡ w.filing.id
finish_link-id now retry w (raised e) = refl
finish_link-id now retry w (returned q) = refl

read_content-id :
    (restricted : ℕ → Bool) (filings : List Filing) (now : ℕ) (l : Link) (w : Work)
    (a : Attempt Content)
    → (read_content restricted filings now l w a).1.filing.id ≡ w.filing.id
unfolding read_content
read_content-id restricted filings now l w (raised e) = refl
read_content-id restricted filings now l w (returned c) = elim (Bool-cases c.xml) [
  | inr n ↦ rw (read_content, n) (count_download-id l.stored w)
  | inl y ↦
      rw (read_content, y)
        (finish_link-id now l.retry_after (count_download l.stored w) _
          ∙ count_download-id l.stored w)
]

pub process_links-id :
    (restricted : ℕ → Bool) (filings : List Filing) (now : ℕ) (ls : List Link) (w : Work)
    → (process_links restricted filings now ls w).filing.id ≡ w.filing.id
unfolding process_links
process_links-id restricted filings now [] w = refl
process_links-id restricted filings now (l ∷ ls) w =
    let turn = read_content restricted filings now l w (content_of l) in
    let one = read_content-id restricted filings now l w (content_of l) in
    elim (Bool-cases turn.0) [
      | inl stop ↦ rw (process_links, stop) one
      | inr go ↦ rw (process_links, go) (process_links-id restricted filings now ls turn.1 ∙ one)
    ]

conclude-id : (w : Work) → (conclude w).filing.id ≡ w.filing.id
conclude-id w = elim (Bool-cases (not w.parsed_any && is_awaiting w.filing.status)) [
  | inl y ↦ rw y refl
  | inr n ↦ rw n refl
]

pub process-id :
    (restricted : ℕ → Bool) (filings : List Filing) (now : ℕ) (f : Filing) (ls : List Link)
    (results : List Result)
    → (process restricted filings now f ls results).filing.id ≡ f.id
unfolding process
process-id restricted filings now f [] results = refl
process-id restricted filings now f (l ∷ ls) results =
    conclude-id _ ∙ process_links-id restricted filings now (l ∷ ls) _
