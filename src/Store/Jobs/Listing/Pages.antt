-- ===== src/Store/Jobs/Listing/Pages.antt =====
-- internal/store/queries.go: the pages of ListJobs.
use recodarr.Prelude.{
  subst, ℕ, zero, suc, ◌+◌, ◌*◌, ◌≤◌, ◌≡◌, refl, sym, ap, ◌∙◌, Bool, List, [], ◌∷◌, ◌++◌, length,
  take, drop, keep, count_of, arith,
}
use recodarr.Prelude.Order.{sort_by, insert_by}
use recodarr.Store.Rows.{JobRow}
use recodarr.Store.Jobs.Table.{Jobs}
use recodarr.Store.Jobs.Listing.{
  JobListOptions, list_jobs, listing, page_limit, jobs_filter, job_before,
}

length-insert_by :
    (less : JobRow → JobRow → Bool) (x : JobRow) (ys : List JobRow)
    → length (insert_by less x ys) ≡ suc (length ys)
length-insert_by less x [] = refl
length-insert_by less x (y ∷ ys) = ground (arith, length-insert_by less x ys)

length-sort_by :
    (less : JobRow → JobRow → Bool) (xs : List JobRow) → length (sort_by less xs) ≡ length xs
unfolding sort_by
length-sort_by less [] = refl
length-sort_by less (x ∷ xs) =
    length-insert_by less x (sort_by less xs) ∙ ap suc (length-sort_by less xs)

length-keep : (p : JobRow → Bool) (xs : List JobRow) → length (keep p xs) ≡ count_of p xs
length-keep p [] = refl
length-keep p (x ∷ xs) = ground (arith, length-keep p xs)

drop_nil : (n : ℕ) → drop {A = JobRow} n [] ≡ []
drop_nil zero = refl
drop_nil (suc n) = refl

drop-drop : (m n : ℕ) (xs : List JobRow) → drop n (drop m xs) ≡ drop (m + n) xs
drop-drop zero n xs = let e : 0 + n ≡ n = omega arith in ap (λ k. drop k xs) (sym e)
drop-drop (suc m) n [] = drop_nil n ∙ sym (drop_nil (suc m + n))
drop-drop (suc m) n (x ∷ xs) =
    let e : suc m + n ≡ suc (m + n) = omega arith in
    drop-drop m n xs ∙ ap (λ k. drop k (x ∷ xs)) (sym e)

drop_all : (n : ℕ) (xs : List JobRow) → length xs ≤ n → drop n xs ≡ []
drop_all n [] h = drop_nil n
drop_all zero (x ∷ xs) h = absurd (omega arith)
drop_all (suc n) (x ∷ xs) h = drop_all n xs (omega arith)

take-append-drop : (n : ℕ) (xs : List JobRow) → take n xs ++ drop n xs ≡ xs
take-append-drop zero xs = refl
take-append-drop (suc n) [] = refl
take-append-drop (suc n) (x ∷ xs) = ap (λ l. x ∷ l) (take-append-drop n xs)

-- The first pages of a listing, one after the other.
pub first_pages : ℕ → JobListOptions → Jobs → List JobRow
first_pages zero o db = []
first_pages (suc n) o db =
    (list_jobs o db).0 ++ first_pages n (record o { offset = o.offset + page_limit o.limit }) db

one_page_less : (k a n l : ℕ) → k ≤ a + suc n * l → k ≤ a + l + n * l
one_page_less k a n l h = grind arith

-- The offset does not matter for what is listed.
listing_offset :
    (k : ℕ) (o : JobListOptions) (db : Jobs) → listing (record o { offset = k }) db ≡ listing o db
unfolding listing jobs_filter job_before
listing_offset k o db = refl

-- Enough pages from an offset are the listing from there on.
pages_from :
    (n : ℕ) (o : JobListOptions) (db : Jobs)
    → length (listing o db) ≤ o.offset + n * page_limit o.limit
    → first_pages n o db ≡ drop o.offset (listing o db)
unfolding first_pages list_jobs
pages_from zero o db h = sym (drop_all o.offset (listing o db) (omega arith))
pages_from (suc n) o db h =
    let l = page_limit o.limit in
    let rest = listing o db in
    ap (λ t. take l (drop o.offset rest) ++ t)
      (pages_from n (record o { offset = o.offset + l }) db
          (subst (λ t. length t ≤ o.offset + l + n * l) (sym (listing_offset (o.offset + l) o db))
            (one_page_less (length rest) o.offset n l h))
        ∙ ap (drop (o.offset + l)) (listing_offset (o.offset + l) o db)
        ∙ sym (drop-drop o.offset l rest))
    ∙ take-append-drop l (drop o.offset rest)

pub total-list_jobs : (o : JobListOptions) (db : Jobs) → (list_jobs o db).1 ≡ length (listing o db)
unfolding list_jobs listing
total-list_jobs o db = sym (
    length-sort_by (job_before o) (keep (jobs_filter o) db.rows)
    ∙ length-keep (jobs_filter o) db.rows)

-- The pages from the start, as many as the total asks for, are the whole listing.
pub first_pages-listing :
    (n : ℕ) (o : JobListOptions) (db : Jobs)
    → o.offset ≡ 0
    → (list_jobs o db).1 ≤ n * page_limit o.limit
    → first_pages n o db ≡ listing o db
first_pages-listing n o db z h =
    pages_from n o db (omega (arith, total-list_jobs o db)) ∙ ap (λ k. drop k (listing o db)) z
