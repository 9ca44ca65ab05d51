-- ===== src/Agent/Runner.antt =====
-- internal/agent/runner.go: the encode of one job of the agent, the slots and the removal of old jobs.
use recodarr.Files.{remove, rename, Files}
use recodarr.Prelude.{
  ℕ, zero, suc, ◌+◌, ◌-◌, ◌*◌, ◌/◌, ◌%◌, ◌≤◌, ◌<◌, ◌≡◌, ◌≢◌, refl, sym, ap, ◌∙◌, Bool, true, false,
  not, ◌&&◌, ◌||◌, Text, codes, text_eq, List, [], ◌∷◌, ◌++◌, Option, none, some, length, take,
  drop, keep, any_of, find_first, count_of, All, ltb, leb, ◌==◌, if◌then◌else◌, arith, Bool-cases,
  Option-cases, inl, inr, ◌⊎◌,
}
use recodarr.Agent.Protocol.{AgentState, done, failed, cancelled, terminal, Snapshot}
use recodarr.Agent.Store.{AgentStore, get, update, delete, claim_queued, source_path, output_path}
use recodarr.Handbrake.Run.{Process, RunError, RunOutcome, RunResult, run}
pub mod Encode
pub mod Slots
pub mod Cleanup

-- What an encode finds: whether its log opens, the process, whether it was cancelled, whether the
-- result can be moved to its place and the manifest be written.
pub record Surroundings : Type 0 where
  pub time : ℕ
  pub log_opens : Bool
  pub process : Process
  pub was_cancelled : Bool
  pub moves : Bool
  pub writes : Bool
  pub text_of : RunError → Text

abbrev pub finished : ℕ → AgentState → Text → ℕ → Text → Snapshot → Snapshot
finished now st msg size output js = record js {
  state = st;
  finished_at = some now;
  error = msg;
  output_size_bytes = size;
  local_output_path = output;
}

unfoldable pub finish : Surroundings → Text → AgentState → Text → ℕ → Text → AgentStore → AgentStore
unfolding update
finish x id st msg size output s = (update id (finished x.time st msg size output) x.writes s).1

abbrev pub input_of : AgentStore → Snapshot → Text
input_of s js = if js.local_source then js.request.source_path else source_path s js

-- After a run that succeeded: `local` results stay where they are.
unfoldable pub deliver :
    Surroundings → Snapshot → RunResult → AgentStore × Files → AgentStore × Files
unfolding finish
deliver x js r (s, fs) =
    if js.local_source
    then (finish x js.id done [] r.final_size r.temp_path_of s, fs)
    else if x.moves
    then (finish x js.id done [] r.final_size [] s, rename r.temp_path_of (output_path s js) fs)
    else (finish x js.id failed (codes "publish output") 0 [] s, remove r.temp_path_of fs)

unfoldable pub after_run :
    Surroundings → Snapshot → RunOutcome → AgentStore × Files → AgentStore × Files
unfolding deliver finish
after_run x js (r, none) st = deliver x js r st
after_run x js (r, some e) (s, fs) =
    if x.was_cancelled
    then (finish x js.id cancelled (codes "cancelled") 0 [] s, fs)
    else (finish x js.id failed (x.text_of e) 0 [] s, fs)

unfoldable pub encode_job : Surroundings → Snapshot → AgentStore × Files → AgentStore × Files
unfolding after_run finish
encode_job x js (s, fs) =
    let settings = record js.request.settings { no_commit = true } in
    let (outcome, fs') = run (input_of s js) settings x.process fs in
    if not x.log_opens
    then (finish x js.id failed (codes "open log") 0 [] s, fs)
    else after_run x js outcome (s, fs')

unfoldable pub encode : Surroundings → Text → AgentStore × Files → AgentStore × Files
unfolding encode_job
encode x id (s, fs) = elim (get id s) [ none ↦ (s, fs) | some js ↦ encode_job x js (s, fs) ]

-- The loop of tick: the ids that are claimed with `free` slots; each is encoded by a task of its own.
unfoldable pub tick : ℕ → Bool → ℕ → AgentStore → List Text × AgentStore
unfolding claim_queued
tick now writes zero s = ([], s)
tick now writes (suc free) s =
    let (job, s') = claim_queued now writes s in
    let (ids, s'') = tick now writes free s' in
    elim job [ none ↦ ([], s') | some js ↦ (js.id ∷ ids, s'') ]

abbrev pub terminal_ttl : ℕ
terminal_ttl = 3600

-- Not `FinishedAt == nil`, and not after the cutoff.
abbrev pub expired : ℕ → Option ℕ → Bool
expired now none = false
expired now (some t) = leb (t + terminal_ttl) now

abbrev pub is_outdated : ℕ → Snapshot → Bool
is_outdated now js = terminal js.state && expired now js.finished_at

-- The loop over a copy of the jobs.
unfoldable pub cleanup_from : ℕ → Bool → List Snapshot → AgentStore → AgentStore
unfolding delete
cleanup_from now removes [] s = s
cleanup_from now removes (js ∷ l) s =
    let gone = cleanup_from now removes l (delete js.id removes s).1 in
    let kept = cleanup_from now removes l s in if is_outdated now js then gone else kept

unfoldable pub cleanup_terminal : ℕ → Bool → AgentStore → AgentStore
unfolding cleanup_from
cleanup_terminal now removes s = cleanup_from now removes s.memory s
