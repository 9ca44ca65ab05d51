-- ===== src/Agent/Store/Claim.antt =====
-- internal/agent/store.go: which job ClaimQueued takes.
use recodarr.Agent.Store.Laws.{find_id-put_other, find_id-put_self}
use recodarr.Prelude.{
  ltb→lt, ℕ, ◌≤◌, ◌<◌, ◌≡◌, refl, Bool, true, false, Text, text_eq, List, [], ◌∷◌, Option, none,
  some, All, ltb, arith, Bool-cases, inl, inr, ◌⊎◌,
}
use recodarr.Agent.Protocol.{Snapshot, is_queued}
use recodarr.Agent.Store.{AgentStore, find_id, pick_queued, claim_queued, claimed, write_manifest}

-- No queued job of the list was created before the time.
abbrev pub NoneBefore : ℕ → List Snapshot → Type 0
NoneBefore t = All (λ k. is_queued k.state ≡ true → t ≤ k.created_at)

-- The job was not created after the one that was picked before, if any.
abbrev NotAfter : Option Snapshot → ℕ → Type 0
NotAfter none t = Unit
NotAfter (some p) t = t ≤ p.created_at

-- What the loop picks, from `pick` on.
abbrev Picked : Option Snapshot → List Snapshot → Option Snapshot → Type 0
Picked pick l none = (pick ≡ none) × All (λ k. is_queued k.state ≡ false) l
Picked pick l (some js) =
    (is_queued js.state ≡ true) × NoneBefore js.created_at l × NotAfter pick js.created_at

skip-Picked :
    (pick : Option Snapshot) (k : Snapshot) (l : List Snapshot) (o : Option Snapshot)
    → is_queued k.state ≡ false
    → Picked pick l o
    → Picked pick (k ∷ l) o
skip-Picked pick k l none q h = (h.0, (q, h.1))
skip-Picked pick k l (some js) q h = (h.0, ((λ e. absurd (cc (q, e))), h.1), h.2)

take-Picked :
    (k : Snapshot) (l : List Snapshot) (o : Option Snapshot)
    → Picked (some k) l o
    → Picked none (k ∷ l) o
take-Picked k l none h = absurd (cc h.0)
take-Picked k l (some js) h = (h.0, ((λ e. h.2), h.1), tt)

replace-Picked :
    (p k : Snapshot) (l : List Snapshot) (o : Option Snapshot)
    → k.created_at < p.created_at
    → Picked (some k) l o
    → Picked (some p) (k ∷ l) o
replace-Picked p k l none t h = absurd (cc h.0)
replace-Picked p k l (some js) t h = (h.0, ((λ e. h.2), h.1), omega (arith, h.2))

stay-Picked :
    (p k : Snapshot) (l : List Snapshot) (o : Option Snapshot)
    → p.created_at ≤ k.created_at
    → Picked (some p) l o
    → Picked (some p) (k ∷ l) o
stay-Picked p k l none t h = absurd (cc h.0)
stay-Picked p k l (some js) t h = (h.0, ((λ e. omega (arith, h.2)), h.1), h.2)

abbrev queued_pick : Option Snapshot → Bool
queued_pick none = true
queued_pick (some p) = is_queued p.state

pick_queued-Picked :
    (pick : Option Snapshot) (l : List Snapshot)
    → queued_pick pick ≡ true
    → Picked pick l (pick_queued pick l)
unfolding pick_queued
pick_queued-Picked none [] q = (refl, tt)
pick_queued-Picked (some p) [] q = (q, tt, omega arith)
pick_queued-Picked none (k ∷ l) q = elim (Bool-cases (is_queued k.state)) [
  | inl e ↦ rw (e, pick_queued) (take-Picked k l _ (pick_queued-Picked (some k) l e))
  | inr e ↦ rw (e, pick_queued) (skip-Picked none k l _ e (pick_queued-Picked none l refl))
]
pick_queued-Picked (some p) (k ∷ l) q = elim (Bool-cases (is_queued k.state)) [
  | inl e ↦ elim (Bool-cases (ltb k.created_at p.created_at)) [
    | inl t ↦
        rw (e, t, pick_queued)
          (replace-Picked p k l _ (ltb→lt k.created_at p.created_at t)
            (pick_queued-Picked (some k) l e))
    | inr t ↦
        rw (e, t, pick_queued)
          (stay-Picked p k l _ (ground arith) (pick_queued-Picked (some p) l q))
  ]
  | inr e ↦ rw (e, pick_queued) (skip-Picked (some p) k l _ e (pick_queued-Picked (some p) l q))
]

-- The claim of a job before which no queued job was created; no other job changes.
pub record TakesOldest (now : ℕ) (s : AgentStore) : Type 0 where
  pub job : Snapshot
  pub result : (claim_queued now true s).0 ≡ some (claimed now job)
  pub was_queued : is_queued job.state ≡ true
  pub oldest : NoneBefore job.created_at s.memory
  pub stored : find_id job.id (claim_queued now true s).1.memory ≡ some (claimed now job)
  pub others :
      (id : Text)
      → text_eq job.id id ≡ false
      → find_id id (claim_queued now true s).1.memory ≡ find_id id s.memory

abbrev pub TakesNone : ℕ → AgentStore → Type 0
TakesNone now s =
    ((claim_queued now true s).0 ≡ none)
    × All (λ k. is_queued k.state ≡ false) s.memory
    × ((claim_queued now true s).1 ≡ s)

-- A claim takes a queued job before which no queued job was created, and changes no other; it takes
-- none only if none is queued. The manifests can be written.
pub claim_queued-oldest : (now : ℕ) (s : AgentStore) → TakesNone now s ⊎ TakesOldest now s
unfolding claim_queued write_manifest
claim_queued-oldest now s =
    go (pick_queued none s.memory) refl (pick_queued-Picked none s.memory refl)
  where
    go :
        (o : Option Snapshot)
        → pick_queued none s.memory ≡ o
        → Picked none s.memory o
        → TakesNone now s ⊎ TakesOldest now s
    go none e p = inl (rw (e, claim_queued) refl, p.1, rw (e, claim_queued) refl)
    go (some js) e p = inr (record {
      job = js;
      result = rw (e, claim_queued) refl;
      was_queued = p.0;
      oldest = p.1;
      stored = rw (e, claim_queued) (find_id-put_self (claimed now js) s.memory);
      others = λ id h. rw (e, claim_queued) (find_id-put_other (claimed now js) id s.memory h);
    })
