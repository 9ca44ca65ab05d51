-- ===== src/Agent/Events.antt =====
-- internal/agent/server.go and runner.go: the stream of the events of a job, and the channel on which the
-- runner publishes them to a listener. The JSON of a payload is a text.
use recodarr.Prelude.{
  Bool, true, false, any_of, ◌||◌, ℕ, Text, codes, List, [], ◌∷◌, ◌++◌, Option, none, some, ◌==◌,
  if◌then◌else◌, ltb, length,
}
use recodarr.Agent.Protocol.{AgentState, Snapshot, terminal}
use recodarr.Agent.Store.{AgentStore, get}

pub record StatePayload : Type 0 where
  pub state : AgentState
  pub error : Text

-- The runner publishes a progress or a state, never both.
pub data Event : Type 0 where
  progressed : Text → Event
  changed : StatePayload → Event

-- The channel of a listener with the events in its buffer: none before it subscribes, and shut by the
-- runner when the job ends.
pub data Listener : Type 0 where
  absent : Listener
  opened shut : List Event → Listener

unfoldable pub subscribe_listener : Listener → Listener
subscribe_listener absent = opened []
subscribe_listener (opened b) = opened b
subscribe_listener (shut b) = shut b

abbrev pub buffer_size : ℕ
buffer_size = 32

-- A full buffer drops the event.
unfoldable pub publish_event : Event → Listener → Listener
publish_event e absent = absent
publish_event e (opened b) = opened (if ltb (length b) buffer_size then b ++ e ∷ [] else b)
publish_event e (shut b) = shut b

unfoldable pub close_subscribers : Listener → Listener
close_subscribers absent = absent
close_subscribers (opened b) = shut b
close_subscribers (shut b) = shut b

-- What happens to the channel after the handler has read the job: the handler subscribes, and takes
-- events, and the runner publishes and closes.
pub data StreamStep : Type 0 where
  subscribed taken closed : StreamStep
  published : Event → StreamStep

-- A step of the channel, and the event that the handler takes at it, if there is one.
unfoldable pub move : StreamStep → Listener → Listener
unfolding subscribe_listener publish_event close_subscribers
move subscribed c = subscribe_listener c
move (published e) c = publish_event e c
move closed c = close_subscribers c
move taken (opened (e ∷ b)) = opened b
move taken (shut (e ∷ b)) = shut b
move taken c = c

abbrev pub next_event : StreamStep → Listener → List Event
next_event taken (opened (e ∷ b)) = e ∷ []
next_event taken (shut (e ∷ b)) = e ∷ []
next_event _ c = []

abbrev pub is_shut : Listener → Bool
is_shut (shut b) = true
is_shut _ = false

unfoldable pub listener_after : List StreamStep → Listener → Listener
unfolding move
listener_after [] c = c
listener_after (x ∷ steps) c = listener_after steps (move x c)

-- The events that the handler takes, in their order. Those that are left in a channel that is shut it
-- still takes; of one that is open at the end it takes no more.
unfoldable pub received : List StreamStep → Listener → List Event
unfolding move
received [] (shut b) = b
received [] _ = []
received (x ∷ steps) c = next_event x c ++ received steps (move x c)

abbrev pub is_last : Event → Bool
is_last (progressed payload) = false
is_last (changed p) = terminal p.state

-- Whether the handler returns before the client is gone: the job is not there or over, or the handler
-- takes its last state, or empties a channel that is shut.
abbrev pub returns_of : List StreamStep → Option Snapshot → Bool
returns_of steps none = true
returns_of steps (some js) =
    terminal js.state
    || any_of is_last (received steps absent)
    || is_shut (listener_after steps absent)

unfoldable pub stream_returns : Text → List StreamStep → AgentStore → Bool
unfolding received listener_after get
stream_returns id steps s = returns_of steps (get id s)

-- The lines of an event.
unfoldable pub write_sse : Text → Text → List Text
write_sse event payload = (codes "event: " ++ event) ∷ (codes "data: " ++ payload) ∷ [] ∷ []

unfoldable pub first_line : Text → Text
first_line [] = []
first_line (c ∷ s) = if c == 10 then [] else c ∷ first_line s

module _ (encode : StatePayload → Text) where
  abbrev pub state_event : StatePayload → List Text
  state_event p = write_sse (codes "state") (encode p)

  -- The loop of streamEvents.
  unfoldable pub stream_from : List Event → List Text
  unfolding write_sse
  stream_from [] = []
  stream_from (progressed payload ∷ es) = write_sse (codes "progress") payload ++ stream_from es
  stream_from (changed p ∷ es) =
      let rest = stream_from es in state_event p ++ (if terminal p.state then [] else rest)

  abbrev pub progress_event : Option Text → List Text
  progress_event none = []
  progress_event (some payload) = write_sse (codes "progress") payload

  abbrev pub stream_of : Option Text → List Event → Option Snapshot → ℕ × List Text
  stream_of progress es none = (404, [])
  stream_of progress es (some js) =
      let first = state_event (record { state = js.state; error = js.error }) in
      let rest = stream_from es in
      (200, first ++ (progress_event progress ++ (if terminal js.state then [] else rest)))

  -- streamEvents: the code and the lines. `progress` is the last progress, unless it is 0, and `steps` is
  -- what happens after the job is read.
  unfoldable pub stream_events : Text → Option Text → List StreamStep → AgentStore → ℕ × List Text
  unfolding stream_from get received
  stream_events id progress steps s = stream_of progress (received steps absent) (get id s)
