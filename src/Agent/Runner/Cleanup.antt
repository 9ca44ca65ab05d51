-- ===== src/Agent/Runner/Cleanup.antt =====
-- internal/agent/runner.go: which jobs cleanupTerminal removes.
use recodarr.Agent.Store.Laws.{find_id-drop_other, find_id-drop_self}
use recodarr.Agent.Store.Restart.{Distinct}
use recodarr.Agent.Protocol.{
  AgentState, awaiting_source, queued, encoding, done, failed, cancelled, terminal,
}
use recodarr.Prelude.{
  if_true, if_false, Option-cases, sym, true, ◌+◌, ◌≤◌, ◌<◌, leb, ◌⊎◌, subst, text_eq_iff, ℕ, ◌≡◌,
  refl, ◌∙◌, Bool, false, ◌&&◌, Text, text_eq, List, [], ◌∷◌, Option, none, some, any_of,
  if◌then◌else◌, arith, Bool-cases, inl, inr,
}
use recodarr.Agent.Runner.{Snapshot, cleanup_from, cleanup_terminal, is_outdated}
use recodarr.Agent.Store.{AgentStore, find_id, delete}

abbrev removed_by : ℕ → Text → List Snapshot → Bool
removed_by now id = any_of (λ k. text_eq k.id id && is_outdated now k)

cleanup_from-find :
    (now : ℕ) (removes : Bool) (id : Text) (l : List Snapshot) (s : AgentStore)
    → find_id id (cleanup_from now removes l s).memory
      ≡ (if removed_by now id l then none else find_id id s.memory)
unfolding cleanup_from delete
cleanup_from-find now removes id [] s = refl
cleanup_from-find now removes id (js ∷ l) s = elim (Bool-cases (text_eq js.id id)) [
  | inl e ↦ ground (
    arith,
    (text_eq_iff js.id id).0 e,
    find_id-drop_self id s.memory,
    cleanup_from-find now removes id l s,
    cleanup_from-find now removes id l (delete js.id removes s).1,
  )
  | inr e ↦ ground (
    arith,
    find_id-drop_other js.id id s.memory e,
    cleanup_from-find now removes id l s,
    cleanup_from-find now removes id l (delete js.id removes s).1,
  )
]

-- The job, unless it is terminal and finished an hour ago or earlier.
abbrev pub unless_outdated : ℕ → Option Snapshot → Option Snapshot
unless_outdated now none = none
unless_outdated now (some js) = if is_outdated now js then none else some js

removed_by-absent :
    (now : ℕ) (id : Text) (l : List Snapshot) → find_id id l ≡ none → removed_by now id l ≡ false
removed_by-absent now id [] h = refl
removed_by-absent now id (k ∷ l) h = ground (arith, removed_by-absent now id l)

removed_by-find :
    (now : ℕ) (id : Text) (l : List Snapshot)
    → Distinct l
    → (if removed_by now id l then none else find_id id l) ≡ unless_outdated now (find_id id l)
removed_by-find now id [] d = refl
removed_by-find now id (k ∷ l) d = elim (Bool-cases (text_eq k.id id)) [
  | inl e ↦ ground (
    arith,
    removed_by-absent now id l (subst (λ x. find_id x l ≡ none) ((text_eq_iff k.id id).0 e) d.0),
  )
  | inr e ↦ ground (arith, removed_by-find now id l d.1)
]

-- A job has ended.
abbrev pub IsOver : AgentState → Type 0
IsOver s = (s ≡ done) ⊎ (s ≡ failed) ⊎ (s ≡ cancelled)

-- A job waits or is being encoded.
abbrev pub IsPending : AgentState → Type 0
IsPending s = (s ≡ awaiting_source) ⊎ (s ≡ queued) ⊎ (s ≡ encoding)

-- What the cleanup makes of a job, with times in seconds.
pub data IsSwept (now : ℕ) (before after : Option Snapshot) : Type 0 where
  absent : before ≡ none → after ≡ none → IsSwept now before after
  removed :
      (js : Snapshot) (t : ℕ)
      → before ≡ some js
      → IsOver js.state
      → js.finished_at ≡ some t
      → t + 3600 ≤ now
      → after ≡ none
      → IsSwept now before after
  pending :
      (js : Snapshot)
      → before ≡ some js
      → IsPending js.state
      → after ≡ some js
      → IsSwept now before after
  undated :
      (js : Snapshot)
      → before ≡ some js
      → js.finished_at ≡ none
      → after ≡ some js
      → IsSwept now before after
  recent :
      (js : Snapshot) (t : ℕ)
      → before ≡ some js
      → js.finished_at ≡ some t
      → now < t + 3600
      → after ≡ some js
      → IsSwept now before after

state-cases : (s : AgentState) → IsOver s × (terminal s ≡ true) ⊎ IsPending s × (terminal s ≡ false)
state-cases awaiting_source = inr (inl refl, refl)
state-cases queued = inr (inr (inl refl), refl)
state-cases encoding = inr (inr (inr refl), refl)
state-cases done = inl (inl refl, refl)
state-cases failed = inl (inr (inl refl), refl)
state-cases cancelled = inl (inr (inr refl), refl)

unless_outdated-IsSwept : (now : ℕ) (o : Option Snapshot) → IsSwept now o (unless_outdated now o)
unless_outdated-IsSwept now none = absent refl refl
unless_outdated-IsSwept now (some js) = elim (state-cases js.state) [
  | inr (p, e) ↦ pending js refl p (if_false (is_outdated now js) none (rw e refl) refl)
  | inl (p, e) ↦ elim (Option-cases js.finished_at) [
    | inl f ↦ undated js refl f (if_false (is_outdated now js) none (rw (e, f) refl) refl)
    | inr (t, f) ↦ elim (Bool-cases (leb (t + 3600) now)) [
      | inl l ↦
          removed js t refl p f (ground (arith, l))
            (if_true (is_outdated now js) (some js) (rw (e, f, l) refl) refl)
      | inr l ↦
          recent js t refl f (ground (arith, l))
            (if_false (is_outdated now js) none (rw (e, f, l) refl) refl)
    ]
  ]
]

-- The cleanup removes a job exactly if it is done, has failed or was cancelled, and this was an hour ago
-- or earlier: a job that waits or is being encoded stays as it is, however old it is. Each id has one
-- job.
pub cleanup_terminal-find :
    (now : ℕ) (removes : Bool) (id : Text) (s : AgentStore)
    → Distinct s.memory
    → IsSwept now (find_id id s.memory) (find_id id (cleanup_terminal now removes s).memory)
unfolding cleanup_terminal
cleanup_terminal-find now removes id s d =
    subst (IsSwept now (find_id id s.memory))
      (sym (cleanup_from-find now removes id s.memory s ∙ removed_by-find now id s.memory d))
      (unless_outdated-IsSwept now (find_id id s.memory))
