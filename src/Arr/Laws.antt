-- ===== src/Arr/Laws.antt =====
-- internal/arr/arr.go: which download a file is matched with.
use recodarr.Prelude.{
  subst, All-imp, Any, ◌≤◌, ◌≡◌, refl, sym, ap, ◌∙◌, Bool, true, false, Text, codes, text_eq, List,
  [], ◌∷◌, Option, none, some, find_first, All, arith, Bool-cases, inl, inr,
}
use recodarr.Prelude.Order.{
  Any-sort_by_back, All-if, Any-if, sort_by, sort_by-IsSorted, IsSorted, All-sort_by_back,
}
use recodarr.Arr.{get_json}
use recodarr.Arr.History.{
  id_or, HistoryRecord, ImportEvent, is_import, event_of, import_events, newer, import_history,
  matches, match_import_download_id,
}

newer-IsSorted : (es : List ImportEvent) → IsSorted newer (sort_by newer es)
newer-IsSorted = sort_by-IsSorted newer (λ a b h. ground arith) (λ a b c h k. ground arith)

-- The first match of a sorted history is the newest.
abbrev IsFirst : (ImportEvent → Bool) → List ImportEvent → Option ImportEvent → Type 0
IsFirst p es none = All (λ e. p e ≡ false) es
IsFirst p es (some f) =
    (p f ≡ true) × Any (λ e. e ≡ f) es × All (λ e. p e ≡ true → e.date ≤ f.date) es

IsFirst-cons :
    (p : ImportEvent → Bool) (e : ImportEvent) (es : List ImportEvent) (o : Option ImportEvent)
    → p e ≡ false
    → IsFirst p es o
    → IsFirst p (e ∷ es) o
IsFirst-cons p e es none h k = (h, k)
IsFirst-cons p e es (some f) h k = (k.0, inr k.1, ((λ t. cc), k.2))

find_first-IsFirst :
    (p : ImportEvent → Bool) (es : List ImportEvent)
    → IsSorted newer es
    → IsFirst p es (find_first p es)
find_first-IsFirst p [] s = tt
find_first-IsFirst p (e ∷ es) s = elim (Bool-cases (p e)) [
  | inl h ↦ rw h (
    h,
    inl refl,
    (
      (λ _. omega arith),
      All-imp (λ f. newer f e ≡ false) (λ f. p f ≡ true → f.date ≤ e.date) es
          (λ f k _. ground arith) s.0,
    ),
  )
  | inr h ↦ rw h (IsFirst-cons p e es (find_first p es) h (find_first-IsFirst p es s.1))
]

-- What is said of the events, said of the records.
All-import_events :
    (P : ImportEvent → Type 0) (rs : List HistoryRecord)
    → All P (import_events rs)
    → All (λ r. is_import r ≡ true → P (event_of r)) rs
unfolding import_events
All-import_events P [] h = tt
All-import_events P (r ∷ rs) h =
    let k = All-if P (is_import r) (event_of r) (import_events rs) h in
    (k.0, All-import_events P rs k.1)

record IsSource (rs : List HistoryRecord) (f : ImportEvent) : Type 0 where
  pub source : HistoryRecord
  pub in_history : Any (λ r. r ≡ source) rs
  pub imported : is_import source ≡ true
  pub event : event_of source ≡ f

Any-import_events :
    (f : ImportEvent) (rs : List HistoryRecord)
    → Any (λ e. e ≡ f) (import_events rs)
    → IsSource rs f
unfolding import_events
Any-import_events f [] h = absurd h
Any-import_events f (r ∷ rs) h =
    elim (Any-if (λ e. e ≡ f) (is_import r) (event_of r) (import_events rs) h) [
      | inl (i, e) ↦ record { source = r; in_history = inl refl; imported = i; event = e }
      | inr k ↦
          let s = Any-import_events f rs k in
          record {
            source = s.source;
            in_history = inr s.in_history;
            imported = s.imported;
            event = s.event;
          }
    ]

-- `d` is what a file is matched with: the download of the newest import that matches it, if one does.
pub data IsNewest (rs : List HistoryRecord) (p : HistoryRecord → Bool) (d : Text) : Type 0 where
  unmatched : All (λ r. is_import r ≡ true → p r ≡ false) rs → d ≡ [] → IsNewest rs p d
  newest :
      (r : HistoryRecord)
      → Any (λ q. q ≡ r) rs
      → is_import r ≡ true
      → p r ≡ true
      → All (λ q. is_import q ≡ true → p q ≡ true → q.date ≤ r.date) rs
      → d ≡ r.download_id
      → IsNewest rs p d

IsFirst-IsNewest :
    (p : ImportEvent → Bool) (rs : List HistoryRecord) (o : Option ImportEvent)
    → IsFirst p (sort_by newer (import_events rs)) o
    → IsNewest rs (λ r. p (event_of r)) (id_or o [])
IsFirst-IsNewest p rs none h =
    unmatched
      (All-import_events (λ e. p e ≡ false) rs
        (All-sort_by_back newer (λ e. p e ≡ false) (import_events rs) h))
      refl
IsFirst-IsNewest p rs (some f) h =
    let s = Any-import_events f rs (Any-sort_by_back newer (λ e. e ≡ f) (import_events rs) h.1) in
    newest s.source s.in_history s.imported (ap p s.event ∙ h.0)
      (All-imp (λ q. is_import q ≡ true → p (event_of q) ≡ true → q.date ≤ f.date)
        (λ q. is_import q ≡ true → p (event_of q) ≡ true → q.date ≤ s.source.date) rs
        (λ q k i m. subst (λ n. q.date ≤ n) (sym (ap (λ e. e.date) s.event)) (k i m))
        (All-import_events (λ e. p e ≡ true → e.date ≤ f.date) rs
          (All-sort_by_back newer (λ e. p e ≡ true → e.date ≤ f.date) (import_events rs) h.2)))
      (sym (ap (λ e. e.download_id) s.event))

abbrev events_or : Option (List ImportEvent) → List ImportEvent
events_or none = []
events_or (some es) = es

-- The download of a file of Sonarr is that of the newest import of the history whose path matches the
-- file, whatever the order of the history, and empty if no import matches.
pub match_import_download_id-IsNewest :
    (rs : List HistoryRecord) (es : List ImportEvent) (abs relative : Text)
    → import_history (codes "sonarr") (some (200, some rs)) ≡ some es
    → IsNewest rs
        (λ r. matches abs relative (event_of r))
        (match_import_download_id es (codes "sonarr") abs relative)
unfolding import_history get_json text_eq match_import_download_id
match_import_download_id-IsNewest rs es abs relative h =
    subst
      (λ l.
        IsNewest rs (λ r. matches abs relative (event_of r))
          (id_or (find_first (matches abs relative) l) []))
      (ap events_or h)
      (IsFirst-IsNewest (matches abs relative) rs _
        (find_first-IsFirst (matches abs relative) _ (newer-IsSorted (import_events rs))))
