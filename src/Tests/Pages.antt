-- ===== src/Tests/Pages.antt =====
-- The theorems on the listing of the jobs at concrete tables and searches.
use recodarr.Store.Jobs.Listing.{list_jobs}
use recodarr.Prelude.{to_lower, ◌≡◌, refl, true, codes, text_eq, [], ◌∷◌, arith}
use recodarr.Store.Rows.{ready}
use recodarr.Store.Jobs.Table.{Jobs}
use recodarr.Store.Jobs.Listing.{JobListOptions, listing}
use recodarr.Store.Jobs.Listing.Pages.{first_pages, first_pages-listing}
use recodarr.Tests.{sample_job}

abbrev two_jobs : Jobs
two_jobs = record {
  rows =
      record sample_job { id = 1; status = ready; updated_at = 9 }
      ∷ record sample_job { id = 2; status = ready; updated_at = 3 }
      ∷ [];
  next_id = 3;
}

abbrev one_by_one : JobListOptions
one_by_one = record {
  statuses = codes "ready" ∷ [];
  kinds = [];
  profile = 0;
  search = codes "FILM";
  limit = 1;
  offset = 0;
  ascending = true;
  sort_key = codes "updated";
}

first_pages-listing_example : first_pages 2 one_by_one two_jobs ≡ listing one_by_one two_jobs
unfolding list_jobs text_eq to_lower
first_pages-listing_example = first_pages-listing 2 one_by_one two_jobs refl (omega arith)
