-- ===== src/Notify.antt =====
-- internal/notify/notify.go: what is posted to the address of the notices, if anything. The formatting
-- of a size is a parameter, since it rounds a float.
use recodarr.Prelude.{
  ℕ, Bool, not, ◌&&◌, ◌||◌, Text, codes, text_eq, ◌++◌, Option, none, some, ltb, if◌then◌else◌,
}
use recodarr.Store.Settings.{AppSettings}
use recodarr.Prelude.Paths.{is_empty}
use recodarr.Prelude.Int.{ℤ, pos, sub_ℕ}

pub record Payload : Type 0 where
  pub message : Text
  pub status : Text
  pub file_path : Text
  pub saved_bytes : ℤ

-- The switch of the settings for a status.
unfoldable pub wants : AppSettings → Text → Bool
wants cfg status =
    if text_eq status (codes "done")
    then cfg.notify_on_done
    else text_eq status (codes "failed") && cfg.notify_on_fail

abbrev saved : ℕ → ℕ → ℤ
saved original final = if ltb 0 original && ltb 0 final then sub_ℕ original final else pos 0

abbrev done_message : (ℤ → Text) → Text → ℕ → ℕ → Text
done_message format_bytes title original final =
    if ltb 0 original && ltb 0 final
    then title ++ codes " encoded — saved " ++ format_bytes (sub_ℕ original final)
    else title ++ codes " encoded"

-- Send: the body of the request. `none` stands for settings that cannot be loaded.
unfoldable pub send : (ℤ → Text) → Option AppSettings → Text → Text → Text → ℕ → ℕ → Option Payload
unfolding wants
send format_bytes none title status path original final = none
send format_bytes (some cfg) title status path original final =
    if is_empty cfg.notify_url || not (wants cfg status)
    then none
    else if text_eq status (codes "done")
    then some (record {
      message = done_message format_bytes title original final;
      status = status;
      file_path = path;
      saved_bytes = saved original final;
    })
    else some (record {
      message = codes "Failed to encode " ++ title;
      status = status;
      file_path = path;
      saved_bytes = pos 0;
    })

pub data Transition : Type 0 where
  opened resolved : Transition

pub record HealthPayload : Type 0 where
  pub message : Text
  pub source : Text
  pub level : Text
  pub transition : Transition

abbrev health_message : Text → Text → Transition → Text
health_message title detail opened =
    if is_empty detail then title else title ++ codes " — " ++ detail
health_message title detail resolved = codes "Resolved: " ++ title

-- SendHealth
unfoldable pub send_health :
    Option AppSettings → Text → Text → Text → Text → Transition → Option HealthPayload
send_health none source title detail level t = none
send_health (some cfg) source title detail level t =
    if is_empty cfg.notify_url || not cfg.notify_on_health
    then none
    else some (record {
      message = health_message title detail t;
      source = source;
      level = level;
      transition = t;
    })
