-- ===== src/Web/Paging.antt =====
-- The pages of runs in `GetPipelineRunsPage` and `GetPipelineRunsList` of
-- `internal/handler/pipelines.go`.
use simple_ci.Base.{
  ◌≡◌, ℕ, suc, ◌+◌, ◌-◌, ◌*◌, ◌/◌, ◌%◌, ◌<◌, ◌≤◌, leb, ltb, ◌==◌, if◌then◌else◌, arith, max,
}

abbrev pub max_runs_per_page : ℕ
max_runs_per_page = 10

-- `maxPages`
unfoldable pub max_pages : ℕ → ℕ
max_pages count = let pages = count / max_runs_per_page in if leb 1 pages then suc pages else pages

-- The offset of the query; SQLite takes the negative one that page 0 gives for none.
unfoldable pub offset : ℕ → ℕ
offset page = (page - 1) * max_runs_per_page

-- The page that is shown as the current one.
unfoldable pub current_page : ℕ → ℕ
current_page page = max page 1

-- If run number `i`, counted from 0, is on a page, then that page has the number `i / 10`, counted
-- from 0.
pub run_on_page :
    (i page : ℕ)
    → 0 < page
    → offset page ≤ i
    → i < offset page + max_runs_per_page
    → page ≡ suc (i / max_runs_per_page)
unfolding offset
run_on_page i page pos low high = omega (arith, pos, low, high)

-- Up to nine runs have no page at all. From ten on there is a page for every ten runs begun, and
-- one more, which is empty, if the number of runs is a multiple of ten.
pub max_pages_lem :
    (count : ℕ)
    → max_pages count ≡ (
        if ltb count 10
        then 0
        else if count % 10 == 0
        then suc ((count + 9) / 10)
        else (count + 9) / 10)
unfolding max_pages
max_pages_lem count = ground arith
