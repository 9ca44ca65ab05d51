-- ===== src/Agent/Store.antt =====
-- internal/agent/store.go: the jobs of the agent, in memory and as one manifest for each on the disk.
-- Both are lists by id; `disk` has the manifests that can be read. That a manifest cannot be written is
-- a parameter of each call: the temporary file and the rename leave the old one then.
use recodarr.Prelude.Paths.{ext, join}
use recodarr.Prelude.{
  ℕ, zero, suc, ◌+◌, ◌-◌, ◌*◌, ◌/◌, ◌%◌, ◌≤◌, ◌<◌, ◌≡◌, ◌≢◌, refl, sym, ap, ◌∙◌, Bool, true, false,
  not, ◌&&◌, ◌||◌, Text, codes, text_eq, List, [], ◌∷◌, ◌++◌, Option, none, some, length, take,
  drop, keep, any_of, find_first, count_of, All, ltb, leb, ◌==◌, if◌then◌else◌, arith, Bool-cases,
  Option-cases, inl, inr, ◌⊎◌,
}
use recodarr.Agent.Protocol.{
  AgentState, awaiting_source, queued, encoding, done, failed, is_queued, is_encoding, JobRequest,
  Snapshot,
}
pub mod Laws
pub mod Restart
pub mod Claim

pub record AgentStore : Type 0 where
  pub root : Text
  pub memory : List Snapshot
  pub disk : List Snapshot

abbrev pub find_id : Text → List Snapshot → Option Snapshot
find_id id [] = none
find_id id (js ∷ l) = if text_eq js.id id then some js else find_id id l

abbrev pub drop_id : Text → List Snapshot → List Snapshot
drop_id id [] = []
drop_id id (js ∷ l) = if text_eq js.id id then drop_id id l else js ∷ drop_id id l

-- `m[js.ID] = js`
unfoldable pub put : Snapshot → List Snapshot → List Snapshot
put js [] = js ∷ []
put js (k ∷ l) = if text_eq k.id js.id then js ∷ l else k ∷ put js l

unfoldable pub get : Text → AgentStore → Option Snapshot
get id s = find_id id s.memory

unfoldable pub write_manifest : Bool → Snapshot → AgentStore → Bool × AgentStore
write_manifest true js s = (true, record s { disk = put js s.disk })
write_manifest false js s = (false, s)

-- A job that was being encoded failed with the restart.
abbrev pub recovered : ℕ → Snapshot → Snapshot
recovered now js =
    if is_encoding js.state
    then record js {
      state = failed;
      error = codes "agent restarted while encoding";
      finished_at = some now;
    }
    else js

-- The loop of scan over the directories, of which the first list is to come: `none` if a manifest
-- cannot be written.
unfoldable pub scan_entries : ℕ → Bool → List Snapshot → AgentStore → Option AgentStore
unfolding write_manifest put
scan_entries now writes [] s = some s
scan_entries now writes (js ∷ l) s =
    let js' = recovered now js in
    let kept = scan_entries now writes l (record s { memory = put js' s.memory }) in
    let (written, s') = write_manifest writes js' s in
    let rewritten = scan_entries now writes l (record s' { memory = put js' s'.memory }) in
    if is_encoding js.state then (if written then rewritten else none) else kept

-- The store of a new process: nothing of the memory is left.
unfoldable pub open_store : ℕ → Bool → AgentStore → Option AgentStore
unfolding scan_entries
open_store now writes s = scan_entries now writes s.disk (record s { memory = [] })

abbrev pub new_job : ℕ → Text → JobRequest → Bool → Snapshot
new_job now id req local = record {
  id = id;
  state = if local then queued else awaiting_source;
  created_at = now;
  started_at = none;
  finished_at = none;
  error = [];
  output_size_bytes = 0;
  request = req;
  local_source = local;
  local_output_path = [];
}

-- The new id is random.
unfoldable pub create :
    ℕ → Text → Bool → JobRequest → Bool → AgentStore → Option Snapshot × AgentStore
unfolding write_manifest put
create now id writes req local s =
    let (written, s') = write_manifest writes (new_job now id req local) s in
    if written
    then (
      some (new_job now id req local),
      record s' { memory = put (new_job now id req local) s'.memory },
    )
    else (none, record s' { disk = drop_id id s'.disk })

-- Whether the directory could be removed; the job leaves the memory in any case.
unfoldable pub delete : Text → Bool → AgentStore → Bool × AgentStore
delete id removes s = (
  removes,
  record s { memory = drop_id id s.memory; disk = if removes then drop_id id s.disk else s.disk },
)

-- The functions that the program passes do not fail and keep the id. The job in memory is changed even
-- if its manifest is not.
unfoldable pub update : Text → (Snapshot → Snapshot) → Bool → AgentStore → Bool × AgentStore
unfolding write_manifest put
update id f writes s = elim (find_id id s.memory) [
  | none ↦ (false, s)
  | some js ↦ write_manifest writes (f js) (record s { memory = put (f js) s.memory })
]

-- The loop of ClaimQueued; `pick` is the job that was created first so far.
unfoldable pub pick_queued : Option Snapshot → List Snapshot → Option Snapshot
pick_queued pick [] = pick
pick_queued pick (js ∷ l) =
    let skipped = pick_queued pick l in
    let taken = pick_queued (some js) l in
    if not (is_queued js.state) then skipped else elim pick [
      | none ↦ taken
      | some p ↦ if ltb js.created_at p.created_at then taken else skipped
    ]

abbrev pub claimed : ℕ → Snapshot → Snapshot
claimed now js = record js { state = encoding; started_at = some now }

unfoldable pub claim_queued : ℕ → Bool → AgentStore → Option Snapshot × AgentStore
unfolding pick_queued write_manifest put
claim_queued now writes s = elim (pick_queued none s.memory) [
  | none ↦ (none, s)
  | some js ↦
      let (written, s') = write_manifest writes (claimed now js) s in
      if written
      then (some (claimed now js), record s' { memory = put (claimed now js) s'.memory })
      else (
        none,
        record s' { memory = put (record js { state = queued; started_at = none }) s'.memory },
      )
]

-- filepath.Join of three elements, of which none is empty
abbrev pub job_dir : Text → Text → Text
job_dir root id = join (join root (codes "jobs")) id

abbrev or_ext : Text → Text → Text
or_ext [] d = d
or_ext (c ∷ s) d = c ∷ s

unfoldable pub source_path : AgentStore → Snapshot → Text
source_path s js =
    join (job_dir s.root js.id) (codes "source" ++ or_ext (ext js.request.filename) (codes ".mkv"))

unfoldable pub output_path : AgentStore → Snapshot → Text
output_path s js =
    join (job_dir s.root js.id)
      (codes "output." ++ or_ext js.request.output_container (codes "mkv"))

unfoldable pub log_path : AgentStore → Snapshot → Text
log_path s js = join (job_dir s.root js.id) (codes "handbrake.log")
