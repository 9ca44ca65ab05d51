-- ===== src/Agent/Runner/Slots.antt =====
-- internal/agent/runner.go: the slots of a tick.
use recodarr.Agent.Store.Claim.{claim_queued-oldest}
use recodarr.Agent.Protocol.{is_queued}
use recodarr.Prelude.{
  subst, ℕ, zero, suc, ◌≤◌, ◌<◌, ◌≡◌, sym, true, false, length, All, arith, inl, inr,
}
use recodarr.Agent.Runner.{tick}
use recodarr.Agent.Store.{AgentStore, claim_queued}

-- A tick claims no more jobs than slots are free, and leaves a slot free only if no job is queued. The
-- manifests can be written.
pub tick-slots :
    (now free : ℕ) (s : AgentStore)
    → (length (tick now true free s).0 ≤ free)
      × (length (tick now true free s).0 < free
          → All (λ k. is_queued k.state ≡ false) (tick now true free s).1.memory)
unfolding tick
tick-slots now zero s = (omega arith, λ h. absurd (omega arith))
tick-slots now (suc free) s = elim (claim_queued-oldest now s) [
  | inl v ↦
      rw (v.0, tick)
        (omega arith, λ h. subst (λ z. All (λ k. is_queued k.state ≡ false) z.memory) (sym v.2) v.1)
  | inr v ↦
      let (few, full) = tick-slots now free (claim_queued now true s).1 in
      rw (v.result, tick) (omega (arith, few), λ h. full (omega arith))
]
