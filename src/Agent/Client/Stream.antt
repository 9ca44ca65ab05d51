-- ===== src/Agent/Client/Stream.antt =====
-- internal/agent/server.go and client.go: what the client understands of the events that the agent sends.
use recodarr.Prelude.{
  has_prefix, trim_prefix, trim_space, trim_left, trim_right, ◌≡◌, refl, ap, ◌∙◌, Bool, false, Text,
  codes, text_eq, List, [], ◌∷◌, ◌++◌, Option, none, some, if◌then◌else◌, arith, Bool-cases, inl,
  inr,
}
use recodarr.Agent.Protocol.{Snapshot, terminal}
use recodarr.Agent.Store.{AgentStore, get}
use recodarr.Agent.Events.{
  StatePayload, Event, progressed, changed, write_sse, stream_from, stream_events, stream_of,
  progress_event,
}
use recodarr.Agent.Client.{
  or_go_on, from_events, after_lines, ClientError, Wire, verdict, verdict_of, judge_event, watch,
  watch_until_done,
}
pub mod Delivery
pub mod Ended

-- What the first state that ends a job says.
abbrev pub first_verdict : List Event → Option (Option ClientError)
first_verdict [] = none
first_verdict (progressed payload ∷ es) = first_verdict es
first_verdict (changed p ∷ es) = if terminal p.state then verdict p else first_verdict es

-- What the client relies on of encoding/json: a payload is read as it was written, and its text has no
-- blanks around it.
pub record IsJson (encode : StatePayload → Text) (decode : Text → Option StatePayload)
    : Type 0 where
  pub reads : (p : StatePayload) → decode (encode p) ≡ some p
  pub tight : (p : StatePayload) → trim_space (encode p) ≡ encode p

module _ (encode : StatePayload → Text) (decode : Text → Option StatePayload)
    (json : IsJson encode decode) where
  watch-write_sse :
      (event payload e d : Text) (ls : List Text)
      → watch decode e d (write_sse event payload ++ ls)
        ≡ or_go_on
            (judge_event decode (trim_space event) (trim_space payload))
            (watch decode [] [] ls)
  unfolding watch write_sse has_prefix trim_prefix trim_space trim_left
  watch-write_sse event payload e d ls = refl

  state_read :
      (p : StatePayload)
      → judge_event decode (trim_space (codes "state")) (trim_space (encode p)) ≡ verdict p
  unfolding judge_event text_eq trim_space trim_left trim_right
  state_read p = ap (λ t. verdict_of (decode t)) (json.tight p) ∙ ap verdict_of (json.reads p)

  progress_skipped :
      (payload : Text) (rest : Option (Option ClientError))
      → or_go_on (judge_event decode (trim_space (codes "progress")) (trim_space payload)) rest
        ≡ rest
  unfolding judge_event text_eq trim_space trim_left trim_right
  progress_skipped payload rest = refl

  cut :
      (p : StatePayload) (ls : List Text)
      → or_go_on (verdict p) (watch decode [] [] (if terminal p.state then [] else ls))
        ≡ (if terminal p.state then verdict p else watch decode [] [] ls)
  unfolding watch
  cut p ls = ground arith

  -- The lines after a state that ends the job are never written, and do not matter.
  watch-stream_from :
      (es : List Event) (e d : Text) → watch decode e d (stream_from encode es) ≡ first_verdict es
  unfolding watch stream_from
  watch-stream_from [] e d = refl
  watch-stream_from (progressed payload ∷ es) e d =
      watch-write_sse (codes "progress") payload e d (stream_from encode es)
      ∙ progress_skipped payload (watch decode [] [] (stream_from encode es))
      ∙ watch-stream_from es [] []
  watch-stream_from (changed p ∷ es) e d =
      watch-write_sse (codes "state") (encode p) e d
        (if terminal p.state then [] else stream_from encode es)
      ∙ ap
          (λ r.
            or_go_on r
              (watch decode [] [] (if terminal p.state then [] else stream_from encode es)))
          (state_read p)
      ∙ cut p (stream_from encode es)
      ∙ ap (λ r. if terminal p.state then verdict p else r) (watch-stream_from es [] [])

  ends_at :
      (p : StatePayload) (x y : Option (Option ClientError))
      → (terminal p.state ≡ false → x ≡ y)
      → or_go_on (verdict p) x ≡ (if terminal p.state then verdict p else y)
  ends_at p x y h = elim (Bool-cases (terminal p.state)) [
    | inl e ↦ rw e (ground (arith, e))
    | inr e ↦ rw e (h e)
  ]

  watch-progress :
      (progress : Option Text) (es : List Event)
      → watch decode [] [] (progress_event encode progress ++ stream_from encode es)
        ≡ first_verdict es
  watch-progress none es = watch-stream_from es [] []
  watch-progress (some payload) es =
      watch-write_sse (codes "progress") payload [] [] (stream_from encode es)
      ∙ progress_skipped payload (watch decode [] [] (stream_from encode es))
      ∙ watch-stream_from es [] []

  pub watch-stream_of :
      (progress : Option Text) (es : List Event) (js : Snapshot)
      → watch decode [] [] (stream_of encode progress es (some js)).1
        ≡ first_verdict (changed (record { state = js.state; error = js.error }) ∷ es)
  watch-stream_of progress es js =
      let p : StatePayload = record { state = js.state; error = js.error } in
      let rest =
        progress_event encode progress
        ++ (if terminal js.state then [] else stream_from encode es) in
      watch-write_sse (codes "state") (encode p) [] [] rest
      ∙ ap (λ r. or_go_on r (watch decode [] [] rest)) (state_read p)
      ∙ ends_at p (watch decode [] [] rest) (first_verdict es) (λ e.
        ap
          (λ (b : Bool).
            watch decode [] []
              (progress_event encode progress ++ (if b then [] else stream_from encode es)))
          e
        ∙ watch-progress progress es)
