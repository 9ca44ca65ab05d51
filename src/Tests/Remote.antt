-- ===== src/Tests/Remote.antt =====
-- The theorems on the client of the agent at concrete answers.
use recodarr.Prelude.{
  List, is_space, trim_left, trim_right, map, trim_space, ℕ, ◌+◌, ◌-◌, ◌≡◌, refl, ap, ◌∙◌, true,
  false, Text, codes, text_eq, [], ◌∷◌, Option, none, some, ◌==◌, if◌then◌else◌, arith,
}
use recodarr.Prelude.Paths.{base}
use recodarr.Agent.Protocol.{AgentState, awaiting_source, queued, encoding, done, failed, cancelled}
use recodarr.Agent.Events.{
  StatePayload, progressed, changed, stream_events, stream_returns, StreamStep, subscribed, taken,
  closed, published,
}
use recodarr.Agent.Store.{get}
use recodarr.Agent.Client.{Wire, watch_until_done}
use recodarr.Agent.Client.Encode.{client_encode}
use recodarr.Agent.Client.Cleanup.{IsCleanedUp, client_encode-IsCleanedUp}
use recodarr.Agent.Client.Remote.{remote, remote-IsCareful, IsHonest}
use recodarr.Agent.Client.Hosted.{hosted, hosted-IsHonest}
use recodarr.Agent.Client.Stream.{IsJson}
use recodarr.Agent.Client.Stream.Delivery.{in_time}
use recodarr.Agent.Client.Stream.Ended.{EndsAs, watch_until_done-EndsAs}
use recodarr.Handbrake.Run.{start_failed}
use recodarr.Worker.Guard.Laws.{IsCareful}
use recodarr.Tests.{library, film_path, sample_settings}
use recodarr.Tests.Agent.{sample_agent_job, agent_with, surroundings}

abbrev letter : AgentState → ℕ
letter awaiting_source = 97
letter queued = 98
letter encoding = 99
letter done = 100
letter failed = 101
letter cancelled = 102

abbrev state_of : ℕ → AgentState
state_of n =
    if n == 97
    then awaiting_source
    else if n == 98
    then queued
    else if n == 99
    then encoding
    else if n == 100
    then done
    else if n == 101
    then failed
    else cancelled

-- In place of JSON: a letter for the state, and the bytes of the error out of the reach of blanks.
abbrev to_line : StatePayload → Text
to_line p = letter p.state ∷ map (λ c. c + 33) p.error

abbrev from_line : Text → Option StatePayload
from_line [] = none
from_line (c ∷ t) = some (record { state = state_of c; error = map (λ d. d - 33) t })

shift_back : (c : ℕ) → c + 33 - 33 ≡ c
shift_back c = omega arith

shifted_back : (t : Text) → map (λ d. d - 33) (map (λ c. c + 33) t) ≡ t
shifted_back [] = refl
shifted_back (c ∷ t) = λ i. shift_back c i ∷ shifted_back t i

trim_right_kept :
    (c : ℕ) (t : Text) → is_space c ≡ false → trim_right t ≡ t → trim_right (c ∷ t) ≡ c ∷ t
unfolding trim_right
trim_right_kept c [] h k = rw h
trim_right_kept c (d ∷ t) h k = rw k

trim_right_shifted : (t : Text) → trim_right (map (λ c. c + 33) t) ≡ map (λ c. c + 33) t
unfolding trim_right
trim_right_shifted [] = refl
trim_right_shifted (c ∷ t) =
    trim_right_kept (c + 33) (map (λ d. d + 33) t) (ground arith) (trim_right_shifted t)

state_read : (s : AgentState) → state_of (letter s) ≡ s
state_read awaiting_source = refl
state_read queued = refl
state_read encoding = refl
state_read done = refl
state_read failed = refl
state_read cancelled = refl

letter_shows : (s : AgentState) → is_space (letter s) ≡ false
letter_shows awaiting_source = refl
letter_shows queued = refl
letter_shows encoding = refl
letter_shows done = refl
letter_shows failed = refl
letter_shows cancelled = refl

trim_left_kept : (c : ℕ) (t : Text) → is_space c ≡ false → trim_left (c ∷ t) ≡ c ∷ t
unfolding trim_left
trim_left_kept c t h = rw h

to_line-IsJson : IsJson to_line from_line
unfolding trim_space trim_left trim_right
to_line-IsJson = record {
  reads = λ p i. some (record { state = state_read p.state i; error = shifted_back p.error i });
  tight = λ p.
      ap trim_right
        (trim_left_kept (letter p.state) (map (λ c. c + 33) p.error) (letter_shows p.state))
      ∙ trim_right_kept (letter p.state) (map (λ c. c + 33) p.error) (letter_shows p.state)
          (trim_right_shifted p.error);
}

abbrev done_payload : StatePayload
done_payload = record { state = done; error = [] }

-- The job ends before the handler has taken anything.
abbrev ending : List StreamStep
ending =
    taken
    ∷ subscribed
    ∷ published (progressed (codes "50"))
    ∷ published (changed done_payload)
    ∷ closed
    ∷ taken
    ∷ []

abbrev base_wire : Wire
base_wire = record {
  local_fs = true;
  hashed = some (film_path, codes "abc");
  create = λ req. some (201, some (record { job_id = codes "j1"; local_source = true }));
  opens = true;
  upload = some 202;
  events = some (
    (stream_events to_line (codes "j1") none ending (agent_with sample_agent_job)).0,
    ((stream_events to_line (codes "j1") none ending (agent_with sample_agent_job)).1, false),
  );
  decode = from_line;
  fallback = some (200, some (record sample_agent_job { state = done }));
  poll = λ fs. none;
  output = none;
  log = [];
  shared = λ fs. fs;
}

abbrev shared_wire : Wire
shared_wire = hosted base_wire surroundings sample_agent_job (agent_with sample_agent_job)

watch_until_done-EndsAs_example :
    (stream_returns (codes "j1") ending (agent_with sample_agent_job) ≡ true)
    × EndsAs done (watch_until_done base_wire (codes "j1")).0
unfolding get text_eq
watch_until_done-EndsAs_example =
    watch_until_done-EndsAs to_line from_line to_line-IsJson base_wire (codes "j1") none ending
      (agent_with sample_agent_job) sample_agent_job (record sample_agent_job { state = done })
      done_payload refl
      (in_time (taken ∷ []) (published (progressed (codes "50")) ∷ []) (taken ∷ []) refl (refl, tt)
        (refl, tt) refl refl)
      refl refl refl refl

hosted-IsHonest_example : IsHonest shared_wire film_path
unfolding text_eq base
hosted-IsHonest_example =
    hosted-IsHonest base_wire surroundings sample_agent_job (agent_with sample_agent_job) refl refl
      refl

remote-IsCareful_example :
    IsCareful (remote (λ n. shared_wire) (λ e. start_failed) (λ n. true) film_path) film_path
unfolding text_eq base
remote-IsCareful_example =
    remote-IsCareful (λ n. shared_wire) (λ e. start_failed) (λ n. true) film_path refl
      (λ n. hosted-IsHonest_example)

client_encode-IsCleanedUp_example :
    IsCleanedUp shared_wire film_path sample_settings library
      (client_encode shared_wire film_path sample_settings library)
client_encode-IsCleanedUp_example =
    client_encode-IsCleanedUp shared_wire film_path sample_settings library
