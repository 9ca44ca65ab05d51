-- ===== src/Worker/Situation.antt =====
-- internal/job/job.go: what encodeOne reads and changes. What other services answer during one encode
-- is its `Situation`.
use recodarr.Worker.Guard.{Encoder}
use recodarr.Probe.{Probe}
use recodarr.Worker.Filters.{SkipReason}
use recodarr.Files.{Files}
use recodarr.Store.Rows.{ProfileRow, TagMappingRow}
use recodarr.Handbrake.Run.{RunError}
use recodarr.Store.Jobs.Table.{Jobs}
use recodarr.Prelude.{ℕ, Bool, Text, List, Option}

-- Why a job failed or was skipped; the column `error` holds the text that is made of it.
pub data Reason : Type 0 where
  no_profile profile_lookup cancelled : Reason
  encode_error : RunError → Reason
  no_space : ℕ → ℕ → Reason
  filtered : SkipReason → Reason
  larger : ℕ → ℕ → Reason
  larger_after : ℕ → ℕ → ℕ → Reason

pub record Situation : Type 0 where
  pub now : ℕ
  pub tags_json : Option (List Text)  -- json.Unmarshal of the tags of the job
  pub mappings : Option (List TagMappingRow)  -- ListTagMappingsByKind
  pub update_profile_fails : Bool
  pub profiles : ℕ → Option ProfileRow  -- GetProfile
  pub output_suffix_enabled : Bool
  pub output_suffix : Text
  pub probe_result : Option Probe
  pub bitrates_json : Option (List (Text × ℕ))  -- json.Unmarshal of AudioBitratesByChannels
  pub available : Option ℕ  -- Statfs
  pub encoder_of : Encoder
  pub cancelled_ctx : Bool  -- encCtx.Err() != nil
  pub requeue_asked : Bool  -- requeueOnCancel holds the job
  pub mark_fails : Bool  -- the statement that ends the encode fails
  pub instance_found : Bool  -- GetArrInstance
  pub refresh_error_text : Option Text  -- Refresh of the library
  pub text_of : Reason → Text
  pub sidecar_size : ℕ

-- A call of notify.Send: the status, and the final size.
pub record Notice : Type 0 where
  pub notice_status : Text
  pub notice_size : ℕ

pub record World : Type 0 where
  pub db : Jobs
  pub files : Files
  pub notices : List Notice
