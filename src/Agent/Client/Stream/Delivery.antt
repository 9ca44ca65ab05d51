-- ===== src/Agent/Client/Stream/Delivery.antt =====
-- internal/agent/runner.go and server.go: what a listener hears of the end of a job.
use recodarr.Prelude.{
  All-append, on_if, ◌≡◌, refl, ap, ◌∙◌, Bool, true, false, not, List, [], ◌∷◌, ◌++◌, none, some,
  All, if◌then◌else◌, arith, inl, inr, ◌⊎◌, ltb, length,
}
use recodarr.Agent.Protocol.{Snapshot, terminal}
use recodarr.Agent.Events.{
  move, is_shut, listener_after, is_last, returns_of, StatePayload, Event, progressed, changed,
  absent, opened, shut, subscribe_listener, publish_event, close_subscribers, buffer_size,
  StreamStep, subscribed, taken, closed, published, received,
}
use recodarr.Agent.Client.{verdict}
use recodarr.Agent.Client.Stream.{first_verdict}

-- The steps while the job runs, besides the subscription.
abbrev pub is_running : StreamStep → Bool
is_running taken = true
is_running (published e) = not (is_last e)
is_running _ = false

-- How the job ends for a listener: it was over when the handler read it, or the handler had subscribed
-- before the runner published the last state and closed the channel.
pub data Ends (js : Snapshot) (steps : List StreamStep) (p : StatePayload) : Type 0 where
  over :
      terminal js.state ≡ true → p ≡ record { state = js.state; error = js.error } → Ends js steps p
  in_time :
      (before during after : List StreamStep)
      → terminal js.state ≡ false
      → All (λ x. is_running x ≡ true) before
      → All (λ x. is_running x ≡ true) during
      → steps ≡ before ++ (subscribed ∷ (during ++ (published (changed p) ∷ closed ∷ after)))
      → terminal p.state ≡ true
      → Ends js steps p

waits :
    (l rest : List StreamStep)
    → All (λ x. is_running x ≡ true) l
    → received (l ++ rest) absent ≡ received rest absent
unfolding received move publish_event
waits [] rest h = refl
waits (taken ∷ l) rest h = waits l rest h.1
waits (published e ∷ l) rest h = waits l rest h.1
waits (subscribed ∷ l) rest h = cc h.0
waits (closed ∷ l) rest h = cc h.0

drained : (b : List Event) (after : List StreamStep) → received after (shut b) ≡ b
unfolding received move subscribe_listener publish_event close_subscribers
drained b [] = refl
drained b (subscribed ∷ after) = drained b after
drained b (published e ∷ after) = drained b after
drained b (closed ∷ after) = drained b after
drained [] (taken ∷ after) = drained [] after
drained (e ∷ b) (taken ∷ after) = ap (λ l. e ∷ l) (drained b after)

quiet_first :
    (b es : List Event)
    → All (λ e. is_last e ≡ false) b
    → first_verdict (b ++ es) ≡ first_verdict es
quiet_first [] es h = refl
quiet_first (progressed t ∷ b) es h = quiet_first b es h.1
quiet_first (changed p ∷ b) es h = rw h.0 (quiet_first b es h.1)

quiet_none : (b : List Event) → All (λ e. is_last e ≡ false) b → first_verdict b ≡ none
quiet_none [] h = refl
quiet_none (progressed t ∷ b) h = quiet_none b h.1
quiet_none (changed p ∷ b) h = rw h.0 (quiet_none b h.1)

running_quiet : (e : Event) → is_running (published e) ≡ true → is_last e ≡ false
running_quiet (progressed t) h = refl
running_quiet (changed p) h = ground (arith, h)

skipped :
    (e : Event) (es : List Event) → is_last e ≡ false → first_verdict (e ∷ es) ≡ first_verdict es
skipped (progressed t) es h = refl
skipped (changed p) es h = rw h refl

-- The client hears nothing of the end, or the last state.
abbrev pub Hears : StatePayload → List Event → Type 0
Hears p es = (first_verdict es ≡ none) ⊎ (first_verdict es ≡ verdict p)

module _ (p : StatePayload) (after : List StreamStep) (last : terminal p.state ≡ true) where
  last_heard :
      (b : List Event)
      → All (λ e. is_last e ≡ false) b
      → Hears p (if ltb (length b) buffer_size then b ++ changed p ∷ [] else b)
  last_heard b h =
      on_if (Hears p) (ltb (length b) buffer_size)
        (inr (quiet_first b (changed p ∷ []) h ∙ rw last refl)) (inl (quiet_none b h))

  heard :
      (during : List StreamStep) (b : List Event)
      → All (λ x. is_running x ≡ true) during
      → All (λ e. is_last e ≡ false) b
      → Hears p (received (during ++ (published (changed p) ∷ closed ∷ after)) (opened b))
  unfolding received move publish_event close_subscribers
  heard [] b h k =
      rw (drained (if ltb (length b) buffer_size then b ++ changed p ∷ [] else b) after)
        (last_heard b k)
  heard (taken ∷ l) [] h k = heard l [] h.1 k
  heard (taken ∷ l) (e ∷ b) h k =
      rw (skipped e (received (l ++ (published (changed p) ∷ closed ∷ after)) (opened b)) k.0)
        (heard l b h.1 k.1)
  heard (published e ∷ l) b h k =
      heard l (if ltb (length b) buffer_size then b ++ e ∷ [] else b) h.1 (
        on_if (All (λ x. is_last x ≡ false)) (ltb (length b) buffer_size)
          (All-append (λ x. is_last x ≡ false) b (e ∷ []) k (running_quiet e h.0, tt)) k)
  heard (subscribed ∷ l) b h k = cc h.0
  heard (closed ∷ l) b h k = cc h.0

module _ (js : Snapshot) (steps : List StreamStep) (p : StatePayload) where
  pub ends_heard :
      Ends js steps p
      → Hears p (changed (record { state = js.state; error = js.error }) ∷ received steps absent)
  unfolding received move subscribe_listener
  ends_heard (over h e) = inr (rw (e, h) refl)
  ends_heard (in_time before during after h k l e last) =
      rw (h, e, waits before (subscribed ∷ (during ++ (published (changed p) ∷ closed ∷ after))) k)
        (heard p after last during [] l tt)

  pub ends_last : Ends js steps p → terminal p.state ≡ true
  ends_last (over h e) = rw e h
  ends_last (in_time before during after h k l e last) = last

shut_stays :
    (after : List StreamStep) (b : List Event) → is_shut (listener_after after (shut b)) ≡ true
unfolding listener_after move subscribe_listener publish_event close_subscribers
shut_stays [] b = refl
shut_stays (subscribed ∷ after) b = shut_stays after b
shut_stays (published e ∷ after) b = shut_stays after b
shut_stays (closed ∷ after) b = shut_stays after b
shut_stays (taken ∷ after) [] = shut_stays after []
shut_stays (taken ∷ after) (e ∷ b) = shut_stays after b

module _ (p : StatePayload) (after : List StreamStep) where
  shuts :
      (l : List StreamStep) (b : List Event)
      → All (λ x. is_running x ≡ true) l
      → is_shut (listener_after (l ++ (published (changed p) ∷ closed ∷ after)) (opened b)) ≡ true
  unfolding listener_after move publish_event close_subscribers
  shuts [] b h = shut_stays after (if ltb (length b) buffer_size then b ++ changed p ∷ [] else b)
  shuts (taken ∷ l) [] h = shuts l [] h.1
  shuts (taken ∷ l) (e ∷ b) h = shuts l b h.1
  shuts (published e ∷ l) b h = shuts l (if ltb (length b) buffer_size then b ++ e ∷ [] else b) h.1
  shuts (subscribed ∷ l) b h = cc h.0
  shuts (closed ∷ l) b h = cc h.0

  subscribed_shuts :
      (l during : List StreamStep)
      → All (λ x. is_running x ≡ true) l
      → All (λ x. is_running x ≡ true) during
      → is_shut (
          listener_after
            (l ++ (subscribed ∷ (during ++ (published (changed p) ∷ closed ∷ after))))
            absent)
        ≡ true
  unfolding listener_after move subscribe_listener publish_event
  subscribed_shuts [] during h k = shuts during [] k
  subscribed_shuts (taken ∷ l) during h k = subscribed_shuts l during h.1 k
  subscribed_shuts (published e ∷ l) during h k = subscribed_shuts l during h.1 k
  subscribed_shuts (subscribed ∷ l) during h k = cc h.0
  subscribed_shuts (closed ∷ l) during h k = cc h.0

pub returns_at_end :
    (js : Snapshot) (steps : List StreamStep) (p : StatePayload)
    → Ends js steps p
    → returns_of steps (some js) ≡ true
returns_at_end js steps p (over h e) = rw h refl
returns_at_end js steps p (in_time before during after h k l e last) =
    rw (h, e, subscribed_shuts p after before during k l) (ground arith)
