-- ===== src/Agent/Server.antt =====
-- internal/agent/server.go: the handlers of the agent. A request that is no JSON is `none`; what the
-- file system answers is an argument. A response is its status code.
use recodarr.Files.{remove, write, Files}
use recodarr.Prelude.{
  trim_prefix, ℕ, zero, suc, ◌+◌, ◌-◌, ◌*◌, ◌/◌, ◌%◌, ◌≤◌, ◌<◌, ◌≡◌, ◌≢◌, refl, sym, ap, ◌∙◌, Bool,
  true, false, not, ◌&&◌, ◌||◌, Text, codes, text_eq, List, [], ◌∷◌, ◌++◌, Option, none, some,
  length, take, drop, keep, any_of, find_first, count_of, All, ltb, leb, ◌==◌, if◌then◌else◌, arith,
  Bool-cases, Option-cases, inl, inr, ◌⊎◌,
}
use recodarr.Agent.Protocol.{
  AgentState, queued, done, awaiting_source, is_awaiting, terminal, JobRequest, Snapshot,
}
use recodarr.Agent.Store.{
  output_path, AgentStore, find_id, get, create, update, delete, source_path,
}
use recodarr.Prelude.Paths.{is_empty, is_abs, clean}
pub mod Laws

-- `TrimPrefix` of the header and the comparison of the tokens.
unfoldable pub bearer_auth : Text → Text → Bool
bearer_auth token header =
    let got = trim_prefix header (codes "Bearer ") in not (is_empty got) && text_eq got token

-- What the file system says of the path of a request: the size of a file that is no directory, and its
-- hash, if it can be read.
pub record LocalFile : Type 0 where
  pub stat_size : Option ℕ
  pub hash : Option Text

abbrev same_size : Option ℕ → ℕ → Bool
same_size none n = false
same_size (some k) n = k == n

abbrev same_hash : Option Text → Text → Bool
same_hash none h = false
same_hash (some g) h = text_eq g h

unfoldable pub can_encode_in_place : Bool → LocalFile → JobRequest → Bool
can_encode_in_place local_fs f req =
    if not local_fs || is_empty req.source_path || is_empty req.source_hash
    then false
    else if not (is_abs req.source_path)
        || any_of (λ c. c == 0) req.source_path
        || not (text_eq (clean req.source_path) req.source_path)
    then false
    else if not (same_size f.stat_size req.size_bytes)
    then false
    else same_hash f.hash req.source_hash

pub record Created : Type 0 where
  pub code : ℕ
  pub job_id : Option Text
  pub in_place : Bool

abbrev refused : ℕ → Created
refused code = record { code = code; job_id = none; in_place = false }

unfoldable pub create_job :
    ℕ → Text → Bool → Bool → LocalFile → Option JobRequest → AgentStore → Created × AgentStore
unfolding can_encode_in_place create
create_job now id writes local_fs f none s = (refused 400, s)
create_job now id writes local_fs f (some req) s =
    let local = can_encode_in_place local_fs f req in
    let (js, s') = create now id writes req local s in
    if req.size_bytes == 0
    then (refused 400, s)
    else if is_empty req.filename
    then (refused 400, s)
    else if not (text_eq req.output_container (codes "mkv"))
        && not (text_eq req.output_container (codes "mp4"))
    then (refused 400, s)
    else elim js [
      | none ↦ (refused 500, s')
      | some k ↦ (record { code = 201; job_id = some k.id; in_place = local }, s')
    ]

-- How the copy of the body to the file ends: whether the file opens, the bytes that were copied, and
-- whether the copy failed.
pub record Upload : Type 0 where
  pub content_length : ℕ
  pub opens : Bool
  pub copied : ℕ
  pub fails : Bool

abbrev pub make_queued : Snapshot → Snapshot
make_queued js = record js { state = queued }

-- After the guards of the handler.
unfoldable pub receive : Upload → Bool → Snapshot → AgentStore × Files → ℕ × AgentStore × Files
unfolding update
receive u writes js (s, fs) =
    let target = source_path s js in
    let (updated, s') = update js.id make_queued writes s in
    let written = write target (some u.copied) fs in
    if not u.opens
    then (500, s, fs)
    else if u.fails
    then (500, s, remove target written)
    else if not (u.copied == js.request.size_bytes)
    then (400, s, remove target written)
    else if updated
    then (202, s', written)
    else (500, s', written)

unfoldable pub upload_source : Upload → Bool → Text → AgentStore × Files → ℕ × AgentStore × Files
unfolding receive
upload_source u writes id (s, fs) = elim (get id s) [
  | none ↦ (404, s, fs)
  | some js ↦
      if not (is_awaiting js.state)
      then (409, s, fs)
      else if not (u.content_length == js.request.size_bytes)
      then (400, s, fs)
      else receive u writes js (s, fs)
]

-- The code, and whether the encode of the job is cancelled.
unfoldable pub delete_job : Text → Bool → AgentStore → ℕ × Bool × AgentStore
unfolding delete
delete_job id removes s = elim (get id s) [
  | none ↦ (204, false, s)
  | some js ↦
      let (ok, s') = delete id removes s in (if ok then 204 else 500, not (terminal js.state), s')
]

abbrev is_done : AgentState → Bool
is_done done = true
is_done _ = false

-- The code, and the path that is served.
unfoldable pub download_output : Text → AgentStore → ℕ × Option Text
download_output id s = elim (get id s) [
  | none ↦ (404, none)
  | some js ↦ if is_done js.state then (200, some (output_path s js)) else (409, none)
]
