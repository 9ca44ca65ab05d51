-- ===== src/Agent/Protocol.antt =====
-- internal/agent/protocol.go: what the worker and the agent exchange. The progress of an encode, which
-- is floating point numbers, is left out.
use recodarr.Prelude.{ℕ, Bool, true, false, Text, codes, Option}
use recodarr.Handbrake.Args.{Settings}

pub data AgentState : Type 0 where
  awaiting_source queued encoding done failed cancelled : AgentState

abbrev pub state_text : AgentState → Text
state_text awaiting_source = codes "awaiting_source"
state_text queued = codes "queued"
state_text encoding = codes "encoding"
state_text done = codes "done"
state_text failed = codes "failed"
state_text cancelled = codes "cancelled"

abbrev pub terminal : AgentState → Bool
terminal done = true
terminal failed = true
terminal cancelled = true
terminal _ = false

abbrev pub is_queued : AgentState → Bool
is_queued queued = true
is_queued _ = false

abbrev pub is_encoding : AgentState → Bool
is_encoding encoding = true
is_encoding _ = false

abbrev pub is_awaiting : AgentState → Bool
is_awaiting awaiting_source = true
is_awaiting _ = false

-- A size that is not positive is 0.
pub record JobRequest : Type 0 where
  pub filename : Text
  pub size_bytes : ℕ
  pub settings : Settings
  pub output_container : Text
  pub source_path : Text
  pub source_hash : Text

pub record Snapshot : Type 0 where
  pub id : Text
  pub state : AgentState
  pub created_at : ℕ
  pub started_at : Option ℕ
  pub finished_at : Option ℕ
  pub error : Text
  pub output_size_bytes : ℕ
  pub request : JobRequest
  pub local_source : Bool
  pub local_output_path : Text
