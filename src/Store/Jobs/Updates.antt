-- ===== src/Store/Jobs/Updates.antt =====
-- Facts about every row of a table under UPDATE, DELETE and INSERT.
use recodarr.Prelude.{
  ℕ, suc, ◌≤◌, ◌<◌, ◌≡◌, refl, Bool, true, false, List, [], ◌∷◌, ◌++◌, arith, All, keep, count_of,
  find_first, Option, none, some, ◌==◌, if◌then◌else◌,
}
use recodarr.Store.Rows.{JobRow}
use recodarr.Store.Jobs.Table.{update_rows}

module _ (P : JobRow → Type 0) (p : JobRow → Bool) (f : JobRow → JobRow) where
  pub All-update_rows :
      ((j : JobRow) → P j → p j ≡ true → P (f j))
      → (js : List JobRow) → All P js
      → All P (update_rows p f js)
  unfolding update_rows
  All-update_rows step [] h = tt
  All-update_rows step (j ∷ js) (h, hs) = (ground (arith, step j), All-update_rows step js hs)

-- Ids ascend strictly from `lo`.
abbrev pub Ascending : ℕ → List JobRow → Type 0
Ascending lo [] = Unit
Ascending lo (j ∷ js) = (lo ≤ j.id) × Ascending (suc j.id) js

pub Ascending-weaken :
    (lo lo' : ℕ) (js : List JobRow) → lo' ≤ lo → Ascending lo js → Ascending lo' js
Ascending-weaken lo lo' [] h a = tt
Ascending-weaken lo lo' (j ∷ js) h a = (omega arith, a.1)

pub Ascending-update_rows :
    (p : JobRow → Bool) (f : JobRow → JobRow)
    → ((j : JobRow) → (f j).id ≡ j.id)
    → (lo : ℕ) (js : List JobRow) → Ascending lo js
    → Ascending lo (update_rows p f js)
unfolding update_rows
Ascending-update_rows p f same lo [] a = tt
Ascending-update_rows p f same lo (j ∷ js) a =
    ground (arith, same j, Ascending-update_rows p f same (suc j.id) js)

pub Ascending-keep :
    (p : JobRow → Bool) (lo : ℕ) (js : List JobRow) → Ascending lo js → Ascending lo (keep p js)
Ascending-keep p lo [] a = tt
Ascending-keep p lo (j ∷ js) a =
    ground (arith, Ascending-keep p (suc j.id) js, Ascending-weaken (suc j.id) lo (keep p js))

pub Ascending-snoc :
    (r : JobRow) (lo : ℕ) (js : List JobRow)
    → Ascending lo js
    → All (λ j. j.id < r.id) js
    → lo ≤ r.id
    → Ascending lo (js ++ r ∷ [])
Ascending-snoc r lo [] a h b = (b, tt)
Ascending-snoc r lo (j ∷ js) a h b = (a.0, Ascending-snoc r (suc j.id) js a.1 h.1 h.0)

-- The row of an id after an UPDATE.
abbrev pub find_id : ℕ → List JobRow → Option JobRow
find_id id = find_first (λ j. j.id == id)

abbrev pub updated : (JobRow → Bool) → (JobRow → JobRow) → Option JobRow → Option JobRow
updated p f none = none
updated p f (some j) = some (if p j then f j else j)

pub find_id-update_rows :
    (p : JobRow → Bool) (f : JobRow → JobRow)
    → ((j : JobRow) → (f j).id ≡ j.id)
    → (id : ℕ) (js : List JobRow) → find_id id (update_rows p f js) ≡ updated p f (find_id id js)
unfolding update_rows
find_id-update_rows p f same id [] = refl
find_id-update_rows p f same id (j ∷ js) =
    ground (arith, same j, find_id-update_rows p f same id js)

-- A row that a DELETE leaves.
abbrev pub kept : (JobRow → Bool) → Option JobRow → Option JobRow
kept p none = none
kept p (some j) = if p j then some j else none

pub find_id-absent :
    (id lo : ℕ) (js : List JobRow) → id < lo → Ascending lo js → find_id id js ≡ none
find_id-absent id lo [] h a = refl
find_id-absent id lo (j ∷ js) h a = ground (arith, find_id-absent id (suc j.id) js)

pub find_id-keep :
    (p : JobRow → Bool) (id lo : ℕ) (js : List JobRow)
    → Ascending lo js
    → find_id id (keep p js) ≡ kept p (find_id id js)
find_id-keep p id lo [] a = refl
find_id-keep p id lo (j ∷ js) a =
    ground (arith, find_id-keep p id (suc j.id) js, find_id-absent id (suc j.id) js)

pub find_id-snoc :
    (id : ℕ) (r : JobRow) (js : List JobRow) → id < r.id → find_id id (js ++ r ∷ []) ≡ find_id id js
find_id-snoc id r [] h = ground arith
find_id-snoc id r (j ∷ js) h = ground (arith, find_id-snoc id r js)

-- A statement on one id affects a row only if the row of that id passes the rest of its test.
pub count_of-none :
    (p : JobRow → Bool) (js : List JobRow) → All (λ j. p j ≡ false) js → count_of p js ≡ 0
count_of-none p [] h = refl
count_of-none p (j ∷ js) h = ground (arith, count_of-none p js)

pub count_of-update_rows :
    (p : JobRow → Bool) (f : JobRow → JobRow)
    → ((j : JobRow) → p j ≡ true → p (f j) ≡ false)
    → (js : List JobRow) → count_of p (update_rows p f js) ≡ 0
unfolding update_rows
count_of-update_rows p f out [] = refl
count_of-update_rows p f out (j ∷ js) = ground (arith, out j, count_of-update_rows p f out js)
