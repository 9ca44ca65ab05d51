-- ===== src/Store/Jobs/Listing.antt =====
-- internal/store/queries.go: ListJobs. `lower` and LIKE are those of SQLite for bytes of ASCII; `_` is
-- taken to match one byte.
use recodarr.Prelude.{
  to_lower, lower, ℕ, zero, suc, ◌+◌, ◌-◌, ◌*◌, ◌/◌, ◌%◌, ◌≤◌, ◌<◌, ◌≡◌, ◌≢◌, refl, sym, ap, ◌∙◌,
  Bool, true, false, not, ◌&&◌, ◌||◌, Text, codes, text_eq, List, [], ◌∷◌, ◌++◌, Option, none, some,
  length, take, drop, keep, any_of, find_first, count_of, All, ltb, leb, ◌==◌, if◌then◌else◌, arith,
  Bool-cases, Option-cases, inl, inr, ◌⊎◌,
}
use recodarr.Store.Rows.{JobRow, Status, status_text}
use recodarr.Store.Jobs.Table.{Jobs}
use recodarr.Prelude.Order.{sort_by}
use recodarr.Prelude.Paths.{is_empty}
pub mod Search
pub mod Pages

pub record JobListOptions : Type 0 where
  pub statuses : List Text
  pub kinds : List Text
  pub profile : ℕ
  pub search : Text
  pub limit : ℕ
  pub offset : ℕ
  pub ascending : Bool
  pub sort_key : Text

abbrev pub any_suffix : (Text → Bool) → Text → Bool
any_suffix f [] = f []
any_suffix f (c ∷ s) = f (c ∷ s) || any_suffix f s

abbrev pub match_one : ℕ → (Text → Bool) → Text → Bool
match_one p f [] = false
match_one p f (c ∷ s) = (p == b'_' || lower p == lower c) && f s

-- `s LIKE pattern`
unfoldable pub like : Text → Text → Bool
unfolding lower
like [] s = is_empty s
like (p ∷ ps) s = if p == b'%' then any_suffix (like ps) s else match_one p (like ps) s

-- `title LIKE '%' || search || '%'`, in lower case.
abbrev pub search_pattern : Text → Text
search_pattern q = b'%' ∷ to_lower q ++ b'%' ∷ []

abbrev in_list : List Text → Text → Bool
in_list ts s = any_of (λ t. text_eq t s) ts

abbrev is_id : Option ℕ → ℕ → Bool
is_id none n = false
is_id (some p) n = p == n

-- The WHERE clause of jobsFilterClause.
unfoldable pub jobs_filter : JobListOptions → JobRow → Bool
unfolding status_text like
jobs_filter o j =
    (is_empty o.statuses || in_list o.statuses (status_text j.status))
    && (is_empty o.kinds || in_list o.kinds j.arr_kind)
    && (o.profile == 0 || is_id j.profile_id o.profile)
    && (is_empty o.search || like (search_pattern o.search) (to_lower j.title))

abbrev directed : Bool → ℕ → ℕ → Bool
directed true a b = ltb a b
directed false a b = ltb b a

-- The ORDER BY clause: the id, or the time of the last update and then the id.
unfoldable pub job_before : JobListOptions → JobRow → JobRow → Bool
job_before o a b =
    if text_eq o.sort_key (codes "updated")
    then directed o.ascending a.updated_at b.updated_at
      || a.updated_at == b.updated_at && directed o.ascending a.id b.id
    else directed o.ascending a.id b.id

abbrev pub page_limit : ℕ → ℕ
page_limit n = if n == 0 then 50 else if ltb 500 n then 500 else n

-- The rows that match, in the order of the listing.
unfoldable pub listing : JobListOptions → Jobs → List JobRow
unfolding jobs_filter job_before sort_by
listing o db = sort_by (job_before o) (keep (jobs_filter o) db.rows)

-- ListJobs: the page and the number of all that match.
unfoldable pub list_jobs : JobListOptions → Jobs → List JobRow × ℕ
unfolding listing
list_jobs o db =
    (take (page_limit o.limit) (drop o.offset (listing o db)), count_of (jobs_filter o) db.rows)
