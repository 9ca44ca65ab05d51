-- ===== src/Worker/Control.antt =====
-- internal/job/job.go: the running encodes of the worker, their cancellation and their progress. The map
-- of the encodes is a list of pairs, and a channel the events that wait in it. `F` is the type of the
-- floats of an event, which the worker only passes on.
use recodarr.Prelude.{
  map, ℕ, zero, suc, ◌+◌, ◌-◌, ◌*◌, ◌/◌, ◌%◌, ◌≤◌, ◌<◌, ◌≡◌, ◌≢◌, refl, sym, ap, ◌∙◌, Bool, true,
  false, not, ◌&&◌, ◌||◌, Text, codes, text_eq, List, [], ◌∷◌, ◌++◌, Option, none, some, length,
  take, drop, keep, any_of, find_first, count_of, All, ltb, leb, ◌==◌, if◌then◌else◌, arith,
  Bool-cases, Option-cases, inl, inr, ◌⊎◌,
}
use recodarr.Prelude.Order.{sort_by}
use recodarr.Store.Settings.{SettingsMap}
pub mod Entries
pub mod Tracked

pub record ProgressEvent (F : Type 0) : Type 0 where
  pub job_id : ℕ
  pub title : Text
  pub percent : F
  pub fps : F
  pub eta : Text

pub record ActiveEncode (F : Type 0) : Type 0 where
  pub cancelled : Bool
  pub title : Text
  pub last_progress : ProgressEvent F

pub record Channel (F : Type 0) : Type 0 where
  pub id : ℕ
  pub buffer : List (ProgressEvent F)

-- The state that `mu` guards; the ids of the channels stand for their addresses.
pub record Control (F : Type 0) : Type 0 where
  pub encoding : List (ℕ × ActiveEncode F)
  pub subscribers : List (Channel F)
  pub requeue_on_cancel : List ℕ
  pub next_channel : ℕ

abbrev pub channel_capacity : ℕ
channel_capacity = 16

module _ {A : Type 0} where
  abbrev pub find_key : ℕ → List (ℕ × A) → Option A
  find_key k [] = none
  find_key k ((i, a) ∷ m) = if i == k then some a else find_key k m

  abbrev pub has_key : ℕ → List (ℕ × A) → Bool
  has_key k m = any_of (λ e. e.0 == k) m

  -- `m[k] = a`
  unfoldable pub set_key : ℕ → A → List (ℕ × A) → List (ℕ × A)
  set_key k a [] = (k, a) ∷ []
  set_key k a ((i, b) ∷ m) = if i == k then (k, a) ∷ m else (i, b) ∷ set_key k a m

  -- A change of the value at a key.
  unfoldable pub change_key : ℕ → (A → A) → List (ℕ × A) → List (ℕ × A)
  change_key k f [] = []
  change_key k f ((i, a) ∷ m) = (if i == k then (i, f a) else (i, a)) ∷ change_key k f m

abbrev pub ascending : ℕ → ℕ → Bool
ascending a b = ltb a b

abbrev first_or_zero : List ℕ → ℕ
first_or_zero [] = 0
first_or_zero (i ∷ is) = i

abbrev pub add_id : ℕ → List ℕ → List ℕ
add_id i is = if any_of (λ j. j == i) is then is else i ∷ is

abbrev pub add_ids : List ℕ → List ℕ → List ℕ
add_ids [] is = is
add_ids (j ∷ js) is = add_id j (add_ids js is)

abbrev pub paused_text : Bool → Text
paused_text true = codes "true"
paused_text false = codes "false"

module _ {F : Type 0} where
  -- `select { case ch <- ev: default: }`
  unfoldable pub offer : ProgressEvent F → Channel F → Channel F
  offer ev ch =
      if ltb (length ch.buffer) channel_capacity
      then record ch { buffer = ch.buffer ++ ev ∷ [] }
      else ch

  abbrev pub offer_all : List (ProgressEvent F) → Channel F → Channel F
  offer_all [] ch = ch
  offer_all (ev ∷ evs) ch = offer_all evs (offer ev ch)

  -- The last events of the encodes that have one.
  unfoldable pub snapshots : List (ℕ × ActiveEncode F) → List (ProgressEvent F)
  snapshots [] = []
  snapshots ((i, ae) ∷ m) =
      if ae.last_progress.job_id == 0 then snapshots m else ae.last_progress ∷ snapshots m

  -- Subscribe: the new channel gets the snapshots.
  unfoldable pub subscribe : Control F → ℕ × Control F
  unfolding offer snapshots
  subscribe w = (
    w.next_channel,
    record w {
      subscribers =
          w.subscribers
          ++ offer_all (snapshots w.encoding) (record { id = w.next_channel; buffer = [] }) ∷ [];
      next_channel = suc w.next_channel;
    },
  )

  unfoldable pub unsubscribe : ℕ → Control F → Control F
  unsubscribe i w = record w { subscribers = keep (λ ch. not (ch.id == i)) w.subscribers }

  -- What a reader of a channel takes from it.
  abbrev pub take_first : Channel F → Channel F
  take_first ch = record ch { buffer = drop 1 ch.buffer }

  unfoldable pub receive : ℕ → Control F → Control F
  receive i w = record w {
    subscribers = map (λ ch. if ch.id == i then take_first ch else ch) w.subscribers;
  }

  abbrev pub ids_of : List (ℕ × ActiveEncode F) → List ℕ
  ids_of m = map (λ e. e.0) m

  unfoldable pub encoding_job_ids : Control F → List ℕ
  unfolding sort_by
  encoding_job_ids w = sort_by ascending (ids_of w.encoding)

  unfoldable pub encoding_job_id : Control F → ℕ
  unfolding encoding_job_ids
  encoding_job_id w = first_or_zero (encoding_job_ids w)

  abbrev pub by_job : ProgressEvent F → ProgressEvent F → Bool
  by_job a b = ltb a.job_id b.job_id

  unfoldable pub all_progress : Control F → List (ProgressEvent F)
  unfolding snapshots sort_by
  all_progress w = sort_by by_job (snapshots w.encoding)

  abbrev progress_of : Option (ActiveEncode F) → Option (ProgressEvent F)
  progress_of none = none
  progress_of (some ae) = some ae.last_progress

  -- `none` is the event of no job.
  unfoldable pub current_progress : Control F → Option (ProgressEvent F)
  unfolding encoding_job_ids
  current_progress w = progress_of (find_key (first_or_zero (encoding_job_ids w)) w.encoding)

  unfoldable pub broadcast : ProgressEvent F → Control F → Control F
  unfolding change_key offer
  broadcast ev w = record w {
    encoding = change_key ev.job_id (λ ae. record ae { last_progress = ev }) w.encoding;
    subscribers = map (offer ev) w.subscribers;
  }

  abbrev pub cancel : ActiveEncode F → ActiveEncode F
  cancel ae = record ae { cancelled = true }

  unfoldable pub cancel_encoding : ℕ → Control F → Bool × Control F
  unfolding change_key
  cancel_encoding i w =
      if has_key i w.encoding
      then (true, record w { encoding = change_key i cancel w.encoding })
      else (false, w)

  abbrev pub cancel_each : List (ℕ × ActiveEncode F) → List (ℕ × ActiveEncode F)
  cancel_each m = map (λ e. (e.0, cancel e.1)) m

  -- SetPaused: the number of cancelled encodes, or an error of the database.
  unfoldable pub set_paused :
      Bool → Bool → SettingsMap → Control F → Option ℕ × SettingsMap × Control F
  set_paused fails paused m w =
      let m' = λ (k : Text).
        if text_eq k (codes "encoding_paused") then some (paused_text paused) else m k in
      if fails then (none, m, w) else if not paused then (some 0, m', w) else (
        some (length w.encoding),
        m',
        record w {
          encoding = cancel_each w.encoding;
          requeue_on_cancel = add_ids (ids_of w.encoding) w.requeue_on_cancel;
        },
      )

  -- The start of startEncode; `nought` is the zero of the floats.
  unfoldable pub start_encode : F → ℕ → Text → Control F → Control F
  unfolding set_key
  start_encode nought i title w = record w {
    encoding =
        set_key i
          (record {
            cancelled = false;
            title = title;
            last_progress = record {
              job_id = i;
              title = title;
              percent = nought;
              fps = nought;
              eta = [];
            };
          })
          w.encoding;
  }

  -- The deferred end of startEncode.
  unfoldable pub end_encode : F → ℕ → Text → Control F → Control F
  unfolding broadcast
  end_encode nought i title w =
      broadcast (record { job_id = i; title = title; percent = nought; fps = nought; eta = [] })
        (record w {
          encoding = keep (λ e. not (e.0 == i)) w.encoding;
          requeue_on_cancel = keep (λ j. not (j == i)) w.requeue_on_cancel;
        })
