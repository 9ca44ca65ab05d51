-- ===== src/Health/Notices.antt =====
-- internal/health/health.go: the notices tell which issues are open.
use recodarr.Prelude.{
  fun_ext, text_eq_iff, ◌≡◌, refl, sym, ap, ◌∙◌, Bool, true, false, not, ◌&&◌, ◌||◌, Text, text_eq,
  List, [], ◌∷◌, ◌++◌, any_of, if◌then◌else◌, arith, Bool-cases, inl, inr,
}
use recodarr.Prelude.Order.Sorting.{any_of-sort_by}
use recodarr.Notify.{Transition, opened, resolved}
use recodarr.Health.{
  Probes, Issue, Index, Notice, Checker, Event, ticked, requested, has_key, put_issue, index_from,
  index_issues, issue_key, missing_in, diff_and_notify, all_issues, probe, tick, current_snapshot,
  new_checker, handle, run, before,
}

abbrev is_opened : Transition → Bool
is_opened opened = true
is_opened resolved = false

-- Which keys a reader of the notices takes for open.
pub replay : List Notice → (Text → Bool) → Text → Bool
replay [] o k = o k
replay (n ∷ ns) o k = replay ns (λ j. if text_eq n.key j then is_opened n.transition else o j) k

replay-append :
    (ns ms : List Notice) (o : Text → Bool) (k : Text)
    → replay (ns ++ ms) o k ≡ replay ms (replay ns o) k
unfolding replay
replay-append [] ms o k = refl
replay-append (n ∷ ns) ms o k =
    replay-append ns ms (λ j. if text_eq n.key j then is_opened n.transition else o j) k

has_key_eq : (m : Index) (j k : Text) → text_eq j k ≡ true → has_key m j ≡ has_key m k
has_key_eq m j k h = ap (has_key m) ((text_eq_iff j k).0 h)

replay-missing_in :
    (other : Index) (t : Transition) (m : Index) (o : Text → Bool) (k : Text)
    → replay (missing_in other t m) o k
      ≡ (if has_key m k && not (has_key other k) then is_opened t else o k)
unfolding replay missing_in
replay-missing_in other t [] o k = refl
replay-missing_in other t ((j, i) ∷ m) o k = elim (Bool-cases (has_key other j)) [
  | inl e ↦ rw e (replay-missing_in other t m o k ∙ ground (arith, e, has_key_eq other j k))
  | inr e ↦ rw e (
      replay-missing_in other t m (λ l. if text_eq j l then is_opened t else o l) k
      ∙ ground (arith, e, has_key_eq other j k))
]

-- After the notices of a tick, the keys that are open are those of its index.
replay-diff :
    (prev curr : Index) (k : Text)
    → replay (diff_and_notify prev curr) (has_key prev) k ≡ has_key curr k
unfolding diff_and_notify
replay-diff prev curr k =
    replay-append (missing_in prev opened curr) (missing_in curr resolved prev) (has_key prev) k
    ∙ replay-missing_in curr resolved prev (replay (missing_in prev opened curr) (has_key prev)) k
    ∙ ground (arith, replay-missing_in prev opened curr (has_key prev) k)

replay_eq :
    (ns : List Notice) (o o' : Text → Bool)
    → ((k : Text) → o k ≡ o' k)
    → (k : Text) → replay ns o k ≡ replay ns o' k
replay_eq ns o o' h k = ap (λ f. replay ns f k) (fun_ext h)

prev-current_snapshot : (p : Probes) (c : Checker) → (current_snapshot p c).1.prev ≡ c.prev
unfolding current_snapshot
prev-current_snapshot p c = ground arith

replay-handle :
    (e : Event) (c : Checker) (k : Text)
    → replay (handle e c).0 (has_key c.prev) k ≡ has_key (handle e c).1.prev k
unfolding tick replay
replay-handle (ticked p) c k = replay-diff c.prev (index_issues (probe p).issues) k
replay-handle (requested p) c k = ap (λ m. has_key m k) (sym (prev-current_snapshot p c))

-- However ticks and requests follow each other, the open keys are those of the last tick.
replay-run :
    (es : List Event) (c : Checker) (k : Text)
    → replay (run es c).0 (has_key c.prev) k ≡ has_key (run es c).1.prev k
unfolding run replay
replay-run [] c k = refl
replay-run (e ∷ es) c k =
    replay-append (handle e c).0 (run es (handle e c).1).0 (has_key c.prev) k
    ∙ replay_eq (run es (handle e c).1).0 _ _ (replay-handle e c) k
    ∙ replay-run es (handle e c).1 k

has_key-put_issue :
    (i : Issue) (m : Index) (k : Text)
    → has_key (put_issue i m) k ≡ (text_eq (issue_key i) k || has_key m k)
unfolding put_issue
has_key-put_issue i [] k = refl
has_key-put_issue i ((j, l) ∷ m) k = elim (Bool-cases (text_eq j (issue_key i))) [
  | inl e ↦ rw e (ground (arith, ap (λ t. text_eq t k) ((text_eq_iff j (issue_key i)).0 e)))
  | inr e ↦ rw e (ground (arith, has_key-put_issue i m k))
]

has_key-index_from :
    (is : List Issue) (m : Index) (k : Text)
    → has_key (index_from m is) k ≡ (has_key m k || any_of (λ i. text_eq (issue_key i) k) is)
unfolding index_from
has_key-index_from [] m k = ground arith
has_key-index_from (i ∷ is) m k =
    has_key-index_from is (put_issue i m) k ∙ ground (arith, has_key-put_issue i m k)

prev-tick : (p : Probes) (c : Checker) → (tick p c).1.prev ≡ index_issues (probe p).issues
unfolding tick
prev-tick p c = refl

run-append :
    (es : List Event) (e : Event) (c : Checker)
    → (run (es ++ e ∷ []) c).1 ≡ (handle e (run es c).1).1
unfolding run
run-append [] e c = refl
run-append (d ∷ es) e c = run-append es e (handle d c).1

-- Whatever ticks and requests come before, a reader of the notices takes for open, after a tick,
-- exactly the keys of the issues that the tick found.
pub replay-run-tick :
    (es : List Event) (p : Probes) (k : Text)
    → replay (run (es ++ ticked p ∷ []) new_checker).0 (λ _. false) k
      ≡ any_of (λ i. text_eq (issue_key i) k) (all_issues p)
unfolding probe
replay-run-tick es p k =
    replay-run (es ++ ticked p ∷ []) new_checker k
    ∙ ap (λ c. has_key c.prev k) (run-append es (ticked p) new_checker)
    ∙ ap (λ m. has_key m k) (prev-tick p (run es new_checker).1)
    ∙ has_key-index_from (probe p).issues [] k
    ∙ any_of-sort_by before (λ i. text_eq (issue_key i) k) (all_issues p)
