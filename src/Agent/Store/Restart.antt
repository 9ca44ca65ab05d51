-- ===== src/Agent/Store/Restart.antt =====
-- internal/agent/store.go: OpenStore on the manifests of an earlier process.
use recodarr.Agent.Store.Laws.{find_id-put_other, find_id-put_self, Agrees}
use recodarr.Prelude.{
  codes, ◌⊎◌, ◌≢◌, false, if_false, if_true, text_eq_iff, subst, ℕ, ◌≡◌, refl, sym, ap, ◌∙◌, true,
  Text, text_eq, List, [], ◌∷◌, Option, none, some, arith, Bool-cases, inl, inr,
}
use recodarr.Agent.Protocol.{
  AgentState, awaiting_source, queued, encoding, done, failed, cancelled, is_encoding, Snapshot,
}
use recodarr.Agent.Store.{
  AgentStore, find_id, put, recovered, scan_entries, open_store, write_manifest,
}

-- Each id has one manifest.
abbrev pub Distinct : List Snapshot → Type 0
Distinct [] = Unit
Distinct (js ∷ l) = (find_id js.id l ≡ none) × Distinct l

abbrev pub restored : ℕ → Option Snapshot → Option Snapshot
restored now none = none
restored now (some js) = some (recovered now js)

abbrev first_of : Option Snapshot → Option Snapshot → Option Snapshot
first_of none o = o
first_of (some js) o = some js

-- What the loop leaves in memory.
record Scanned (now : ℕ) (l : List Snapshot) (s : AgentStore) : Type 0 where
  pub store : AgentStore
  pub opens : scan_entries now true l s ≡ some store
  pub finds :
      (id : Text)
      → find_id id store.memory ≡ first_of (restored now (find_id id l)) (find_id id s.memory)

recovered-id : (now : ℕ) (js : Snapshot) → (recovered now js).id ≡ js.id
recovered-id now js = ground arith

scan_step :
    (now : ℕ) (js : Snapshot) (l : List Snapshot) (s s' : AgentStore)
    → s'.memory ≡ put (recovered now js) s.memory
    → find_id js.id l ≡ none
    → (sc : Scanned now l s') → (id : Text)
    → find_id id sc.store.memory
      ≡ first_of (restored now (find_id id (js ∷ l))) (find_id id s.memory)
scan_step now js l s s' m d sc id = elim (Bool-cases (text_eq js.id id)) [
  | inl e ↦ rw e (
      subst (λ y. find_id y sc.store.memory ≡ some (recovered now js)) ((text_eq_iff js.id id).0 e)
        here)
  | inr e ↦ rw e (
      sc.finds id
      ∙ rw m (
          ap (first_of (restored now (find_id id l)))
            (find_id-put_other (recovered now js) id s.memory (rw (recovered-id now js) e))))
]
  where
    stored : find_id js.id (put (recovered now js) s.memory) ≡ some (recovered now js)
    stored =
        subst (λ y. find_id y (put (recovered now js) s.memory) ≡ some (recovered now js))
          (recovered-id now js) (find_id-put_self (recovered now js) s.memory)

    here : find_id js.id sc.store.memory ≡ some (recovered now js)
    here = sc.finds js.id ∙ rw (d, m) stored

scan_entries-Scanned : (now : ℕ) (l : List Snapshot) (s : AgentStore) → Distinct l → Scanned now l s
unfolding scan_entries write_manifest
scan_entries-Scanned now [] s d = record { store = s; opens = refl; finds = λ id. refl }
scan_entries-Scanned now (js ∷ l) s d =
    let js' = recovered now js in
    let kept = record s { memory = put js' s.memory } in
    let rewritten = record kept { disk = put js' s.disk } in
    let old = scan_entries-Scanned now l kept d.1 in
    let new = scan_entries-Scanned now l rewritten d.1 in
    elim (Bool-cases (is_encoding js.state)) [
      | inl e ↦ record {
        store = new.store;
        opens = if_true (is_encoding js.state) _ e new.opens;
        finds = scan_step now js l s rewritten refl d.0 new;
      }
      | inr e ↦ record {
        store = old.store;
        opens = if_false (is_encoding js.state) _ e old.opens;
        finds = scan_step now js l s kept refl d.0 old;
      }
    ]

first_of-none : (o : Option Snapshot) → first_of o none ≡ o
first_of-none none = refl
first_of-none (some js) = refl

-- What a new process has of a job, or of an id with no job, of the old one.
pub data IsRestored (now : ℕ) (before after : Option Snapshot) : Type 0 where
  absent : before ≡ none → after ≡ none → IsRestored now before after
  kept :
      (js : Snapshot)
      → before ≡ some js
      → js.state ≢ encoding
      → after ≡ some js
      → IsRestored now before after
  interrupted :
      (js : Snapshot)
      → before ≡ some js
      → js.state ≡ encoding
      → after
        ≡ some (record js {
          state = failed;
          error = codes "agent restarted while encoding";
          finished_at = some now;
        })
      → IsRestored now before after

state-cases : (s : AgentState) → (s ≡ encoding) ⊎ (s ≢ encoding) × (is_encoding s ≡ false)
state-cases encoding = inl refl
state-cases awaiting_source = inr ((λ e. cc e), refl)
state-cases queued = inr ((λ e. cc e), refl)
state-cases done = inr ((λ e. cc e), refl)
state-cases failed = inr ((λ e. cc e), refl)
state-cases cancelled = inr ((λ e. cc e), refl)

restored-IsRestored : (now : ℕ) (o : Option Snapshot) → IsRestored now o (restored now o)
restored-IsRestored now none = absent refl refl
restored-IsRestored now (some js) = elim (state-cases js.state) [
  | inl e ↦
      interrupted js refl e
        (ap (λ o. some o) (if_true (is_encoding js.state) js (ap is_encoding e) refl))
  | inr (n, e) ↦ kept js refl n (ap (λ o. some o) (if_false (is_encoding js.state) _ e refl))
]

-- A new process finds every job of the old one: one that was being encoded has failed now, with the
-- error of a restart, and every other one is as it was. No job is lost and none is new, if memory and
-- disk agreed, each id had one manifest and the manifests can be written.
pub open_store-restored :
    (now : ℕ) (s : AgentStore)
    → Distinct s.disk
    → Agrees s
    → (s' : AgentStore) × (open_store now true s ≡ some s')
      × ((id : Text) → IsRestored now (find_id id s.memory) (find_id id s'.memory))
unfolding open_store
open_store-restored now s d v =
    let sc = scan_entries-Scanned now s.disk (record s { memory = [] }) d in
    (
      sc.store,
      sc.opens,
      λ id.
          subst (IsRestored now (find_id id s.memory))
            (sym (sc.finds id ∙ first_of-none _ ∙ ap (restored now) (sym (v.same id))))
            (restored-IsRestored now (find_id id s.memory)),
    )
