-- ===== src/Agent/Client/Stream/Ended.antt =====
-- internal/agent/runner.go, server.go and client.go: a client that waits for a job learns how it ended,
-- whether or not the channel delivers the last state.
use recodarr.Prelude.{
  ◌≡◌, ◌≢◌, refl, ap, ◌∙◌, true, false, Text, List, [], ◌∷◌, Option, none, some, arith, inl, inr,
  ◌⊎◌,
}
use recodarr.Agent.Protocol.{
  awaiting_source, queued, encoding, failed, cancelled, AgentState, Snapshot, terminal, done,
}
use recodarr.Agent.Store.{AgentStore, get}
use recodarr.Agent.Events.{
  stream_returns, returns_of, StatePayload, changed, absent, StreamStep, received, stream_events,
  stream_of,
}
use recodarr.Agent.Client.{
  sym, ended, ClientError, Wire, verdict, watch, watch_until_done, after_lines, is_done,
}
use recodarr.Agent.Client.Stream.{IsJson, first_verdict, watch-stream_of}
use recodarr.Agent.Client.Stream.Delivery.{Ends, ends_heard, ends_last, returns_at_end}

-- The end that a client reports of a job that is over.
abbrev pub EndsAs : AgentState → Option ClientError → Type 0
EndsAs done r = r ≡ none
EndsAs _ r = r ≢ none

ends_as :
    (s : AgentState) (r : Option ClientError)
    → (is_done s ≡ true → r ≡ none)
    → (is_done s ≡ false → r ≢ none)
    → EndsAs s r
ends_as awaiting_source r h k = k refl
ends_as queued r h k = k refl
ends_as encoding r h k = k refl
ends_as done r h k = h refl
ends_as failed r h k = k refl
ends_as cancelled r h k = k refl

verdict-EndsAs :
    (p : StatePayload) (r : Option ClientError)
    → terminal p.state ≡ true
    → verdict p ≡ some r
    → EndsAs p.state r
verdict-EndsAs p r h k =
    ends_as p.state r (λ d. ground (arith, h, k, d)) (λ d z. ground (arith, h, k, d, z))

polled-EndsAs : (s : AgentState) (error : Text) → EndsAs s (ended s error)
polled-EndsAs s error = ends_as s (ended s error) (λ d. rw d refl) (λ d z. ground (arith, d, z))

module _ (w : Wire) (id : Text) (p : StatePayload) (now : Snapshot)
    (stored : w.fallback ≡ some (200, some now)) (same : now.state ≡ p.state)
    (last : terminal p.state ≡ true) where
  lines-EndsAs :
      (v : Option (Option ClientError))
      → (v ≡ none) ⊎ (v ≡ verdict p)
      → EndsAs p.state (after_lines w id false v).0
  lines-EndsAs none h = rw (stored, same) (polled-EndsAs p.state now.error)
  lines-EndsAs (some r) (inl e) = cc e
  lines-EndsAs (some r) (inr e) = verdict-EndsAs p r last (sym e)

module _ (encode : StatePayload → Text) (decode : Text → Option StatePayload)
    (json : IsJson encode decode) where
  -- The handler of a stream returns, and the client that waits ends, and without an error exactly if the
  -- job is done, also when the full buffer of the channel drops the last state. The job is over when the
  -- handler reads it, or the handler subscribes before the runner publishes the last state and closes
  -- the channel; the connection holds, the poll after the stream is answered with the state of the job,
  -- and payloads are read as they are written.
  pub watch_until_done-EndsAs :
      (w : Wire) (id : Text) (progress : Option Text) (steps : List StreamStep) (s : AgentStore)
      (js now : Snapshot) (p : StatePayload)
      → get id s ≡ some js
      → Ends js steps p
      → w.decode ≡ decode
      → w.events
        ≡ some (
          (stream_events encode id progress steps s).0,
          ((stream_events encode id progress steps s).1, false),
        )
      → w.fallback ≡ some (200, some now)
      → now.state ≡ p.state
      → (stream_returns id steps s ≡ true) × EndsAs p.state (watch_until_done w id).0
  unfolding watch_until_done stream_events stream_returns
  watch_until_done-EndsAs w id progress steps s js now p there e reads sent stored same =
      let lines = (stream_of encode progress (received steps absent) (some js)).1 in
      let sent' : w.events ≡ some (200, (lines, false)) =
        sent
        ∙ ap
            (λ (k : Option Snapshot). some (
              (stream_of encode progress (received steps absent) k).0,
              ((stream_of encode progress (received steps absent) k).1, false),
            ))
            there in
      let read : watch w.decode [] [] lines
          ≡ first_verdict
              (changed (record { state = js.state; error = js.error }) ∷ received steps absent) =
        ap (λ (f : Text → Option StatePayload). watch f [] [] lines) reads
        ∙ watch-stream_of encode decode json progress (received steps absent) js in
      (
        ap (returns_of steps) there ∙ returns_at_end js steps p e,
        rw (sent', read)
            (lines-EndsAs w id p now stored same (ends_last js steps p e)
              (first_verdict
                (changed (record { state = js.state; error = js.error }) ∷ received steps absent))
              (ends_heard js steps p e)),
      )
