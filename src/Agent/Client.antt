-- ===== src/Agent/Client.antt =====
-- internal/agent/client.go: the encode of a file by the agent, as the worker asks for it. What the agent
-- and the network answer is a parameter: `none` is a request that fails, otherwise an answer has a
-- status code. The JSON of an answer is `none` if it cannot be decoded.
use recodarr.Prelude.{
  has_prefix, trim_prefix, trim_space, to_lower, ℕ, zero, suc, ◌+◌, ◌-◌, ◌*◌, ◌/◌, ◌%◌, ◌≤◌, ◌<◌,
  ◌≡◌, ◌≢◌, refl, sym, ap, ◌∙◌, Bool, true, false, not, ◌&&◌, ◌||◌, Text, codes, text_eq, List, [],
  ◌∷◌, ◌++◌, Option, none, some, length, take, drop, keep, any_of, find_first, count_of, All, ltb,
  leb, ◌==◌, if◌then◌else◌, arith, Bool-cases, Option-cases, inl, inr, ◌⊎◌,
}
use recodarr.Agent.Protocol.{state_text, AgentState, JobRequest, Snapshot, terminal, done}
use recodarr.Agent.Events.{StatePayload}
use recodarr.Handbrake.Args.{Settings}
use recodarr.Handbrake.Run.{RunResult, RunError, no_result}
use recodarr.Handbrake.Temp.{temp_path}
use recodarr.Files.{Files, write, remove}
use recodarr.Prelude.Paths.{base, ext, is_empty}
pub mod Encode
pub mod Cleanup
pub mod Remote
pub mod Hosted
pub mod Stream

unfoldable pub container_for : Text → Settings → Text
container_for source s =
    let e = to_lower (ext source) in
    if text_eq s.container_format (codes "mp4")
    then codes "mp4"
    else if text_eq s.container_format (codes "mkv")
    then codes "mkv"
    else if text_eq e (codes ".mp4") || text_eq e (codes ".m4v")
    then codes "mp4"
    else codes "mkv"

pub data ClientError : Type 0 where
  stat_source request_failed bad_answer stream_broken no_output_path open_failed copy_failed :
      ClientError
  status : ℕ → ClientError
  remote_error : Text → ClientError
  ended_in : AgentState → Text → ClientError

abbrev pub is_done : AgentState → Bool
is_done done = true
is_done _ = false

-- What a state says to a client that waits: `none` to go on, otherwise the error, if there is one.
abbrev pub verdict : StatePayload → Option (Option ClientError)
verdict p =
    let msg = if is_empty p.error then state_text p.state else p.error in
    if not (terminal p.state)
    then none
    else if is_done p.state
    then some none
    else some (some (remote_error msg))

abbrev pub verdict_of : Option StatePayload → Option (Option ClientError)
verdict_of none = none
verdict_of (some p) = verdict p

abbrev pub or_go_on :
    Option (Option ClientError) → Option (Option ClientError) → Option (Option ClientError)
or_go_on none rest = rest
or_go_on (some r) rest = some r

module _ (decode : Text → Option StatePayload) where
  -- An event at the blank line that ends it.
  unfoldable pub judge_event : Text → Text → Option (Option ClientError)
  judge_event event payload =
      if text_eq event (codes "state") then verdict_of (decode payload) else none

  -- The loop over the lines, with the event and the payload read so far.
  unfoldable pub watch : Text → Text → List Text → Option (Option ClientError)
  unfolding judge_event
  watch event payload [] = none
  watch event payload (line ∷ ls) =
      let blank = watch [] [] ls in
      let named = watch (trim_space (trim_prefix line (codes "event:"))) payload ls in
      let filled = watch event (trim_space (trim_prefix line (codes "data:"))) ls in
      let other = watch event payload ls in
      if is_empty line
      then or_go_on (judge_event event payload) blank
      else if has_prefix line (codes "event:")
      then named
      else if has_prefix line (codes "data:")
      then filled
      else other

-- `none` is a request that fails.
abbrev pub Reply : Type 0 → Type 0
Reply A = Option (ℕ × A)

pub record JobCreateResponse : Type 0 where
  pub job_id : Text
  pub local_source : Bool

-- How the copy of a result ends: whether its file opens, the bytes that arrive, whether it breaks off.
pub record Download : Type 0 where
  pub opens : Bool
  pub copied : ℕ
  pub fails : Bool

pub record Wire : Type 0 where
  pub local_fs : Bool
  pub hashed : Option (Text × Text)  -- the absolute path of the source and its hash
  pub create : JobRequest → Reply (Option JobCreateResponse)
  pub opens : Bool
  pub upload : Option ℕ
  pub events : Reply (List Text × Bool)  -- the lines, and whether reading them fails
  pub decode : Text → Option StatePayload
  pub fallback : Reply (Option Snapshot)
  pub poll : Files → Reply (Option Snapshot)
  pub output : Reply Download
  pub log : Text  -- what fetchLog returns
  pub shared : Files → Files  -- what the agent does to files that it shares

-- The requests, in their order; a deletion is sent whether or not the agent takes it.
pub data Call : Type 0 where
  posted : JobRequest → Call
  uploaded watched polled downloaded log_fetched deleted : Text → Call

abbrev ended : AgentState → Text → Option ClientError
ended s e = if is_done s then none else some (ended_in s e)

-- `poll`, for what its snapshot has.
abbrev pub polled_as :
    {A : Type 0} → (Snapshot → A) → (ClientError → A) → Reply (Option Snapshot) → A
polled_as f g none = g request_failed
polled_as f g (some (code, none)) = if code == 200 then g bad_answer else g (status code)
polled_as f g (some (code, some js)) = if code == 200 then f js else g (status code)

-- After the last line: an error of the reader, or the answer to a poll.
abbrev pub after_lines :
    Wire → Text → Bool → Option (Option ClientError) → Option ClientError × List Call
after_lines w id fails (some r) = (r, watched id ∷ [])
after_lines w id true none = (some stream_broken, watched id ∷ [])
after_lines w id false none = (
  polled_as (λ js. ended js.state js.error) (λ e. some e) w.fallback,
  watched id ∷ polled id ∷ [],
)

abbrev pub from_events : Wire → Text → Reply (List Text × Bool) → Option ClientError × List Call
from_events w id none = (some request_failed, watched id ∷ [])
from_events w id (some (code, (lines, fails))) =
    if code == 200
    then after_lines w id fails (watch w.decode [] [] lines)
    else (some (status code), watched id ∷ [])

unfoldable pub watch_until_done : Wire → Text → Option ClientError × List Call
unfolding watch
watch_until_done w id = from_events w id w.events
