-- ===== src/Worker/Control/Tracked.antt =====
-- internal/job/job.go: what the operations on the running encodes keep.
use recodarr.Worker.Control.Entries.{
  All-ids_of, has_key-change_key, has_key-cancel_each, has_key-set_key, length-offer_all,
  All-add_ids, All-receive, All-offer, has_key-keep, All-cancel_each, All-set_key, All-change_key,
}
use recodarr.Prelude.{
  All-imp, All-keep, All-append, ℕ, ◌≤◌, ◌≡◌, refl, ◌∙◌, Bool, true, false, not, Text, List, [],
  ◌∷◌, length, keep, All, ◌==◌, arith, Bool-cases, inl, inr,
}
use recodarr.Store.Settings.{SettingsMap}
use recodarr.Worker.Control.{
  cancel, ProgressEvent, ActiveEncode, Control, channel_capacity, has_key, change_key, snapshots,
  subscribe, unsubscribe, receive, broadcast, cancel_encoding, set_paused, start_encode, end_encode,
  cancel_each, ids_of,
}

-- What happens to the worker, other than reads.
pub data Action (F : Type 0) : Type 0 where
  subscribed : Action F
  unsubscribed received cancelled : ℕ → Action F
  reported : ProgressEvent F → Action F
  pause_set : Bool → Bool → Action F
  started ended : ℕ → Text → Action F

module _ {F : Type 0} (nought : F) (m : SettingsMap) where
  unfoldable pub act : Action F → Control F → Control F
  unfolding subscribe unsubscribe receive broadcast cancel_encoding set_paused start_encode
      end_encode
  act subscribed w = (subscribe w).1
  act (unsubscribed i) w = unsubscribe i w
  act (received i) w = receive i w
  act (cancelled i) w = (cancel_encoding i w).1
  act (reported ev) w = broadcast ev w
  act (pause_set fails paused) w = (set_paused fails paused m w).2
  act (started i title) w = start_encode nought i title w
  act (ended i title) w = end_encode nought i title w

  -- Each encode has its own last event, no channel is over its capacity, and only encodes that run are
  -- to be queued again when they are cancelled.
  pub record IsTracked (w : Control F) : Type 0 where
    pub own_progress : All (λ e. e.1.last_progress.job_id ≡ e.0) w.encoding
    pub within : All (λ ch. length ch.buffer ≤ channel_capacity) w.subscribers
    pub requeued : All (λ i. has_key i w.encoding ≡ true) w.requeue_on_cancel

  broadcast-IsTracked :
      (ev : ProgressEvent F) (w : Control F) → IsTracked w → IsTracked (broadcast ev w)
  unfolding broadcast
  broadcast-IsTracked ev w h = record {
    own_progress =
        All-change_key (λ e. e.1.last_progress.job_id ≡ e.0) ev.job_id
          (λ ae. record ae { last_progress = ev }) w.encoding (λ a k. refl) h.own_progress;
    within = All-offer ev w.subscribers h.within;
    requeued =
        All-imp (λ i. has_key i w.encoding ≡ true)
          (λ i.
            has_key i (change_key ev.job_id (λ ae. record ae { last_progress = ev }) w.encoding)
            ≡ true)
          w.requeue_on_cancel
          (λ i k.
            has_key-change_key i ev.job_id (λ ae. record ae { last_progress = ev }) w.encoding ∙ k)
          h.requeued;
  }

  cancel_encoding-IsTracked :
      (i : ℕ) (w : Control F) → IsTracked w → IsTracked (cancel_encoding i w).1
  unfolding cancel_encoding
  cancel_encoding-IsTracked i w h = elim (Bool-cases (has_key i w.encoding)) [
    | inl e ↦ rw e (record {
      own_progress =
          All-change_key (λ e. e.1.last_progress.job_id ≡ e.0) i cancel w.encoding (λ a k. k)
            h.own_progress;
      within = h.within;
      requeued =
          All-imp (λ j. has_key j w.encoding ≡ true)
            (λ j. has_key j (change_key i cancel w.encoding) ≡ true) w.requeue_on_cancel
            (λ j k. has_key-change_key j i cancel w.encoding ∙ k) h.requeued;
    })
    | inr e ↦ rw e h
  ]

  set_paused-IsTracked :
      (fails paused : Bool) (w : Control F)
      → IsTracked w
      → IsTracked (set_paused fails paused m w).2
  unfolding set_paused
  set_paused-IsTracked true paused w h = h
  set_paused-IsTracked false false w h = h
  set_paused-IsTracked false true w h = record {
    own_progress = All-cancel_each w.encoding h.own_progress;
    within = h.within;
    requeued =
        All-add_ids (λ i. has_key i (cancel_each w.encoding) ≡ true) (ids_of w.encoding)
          w.requeue_on_cancel
          (All-imp (λ i. has_key i w.encoding ≡ true)
            (λ i. has_key i (cancel_each w.encoding) ≡ true) (ids_of w.encoding)
            (λ i k. has_key-cancel_each i w.encoding ∙ k) (All-ids_of w.encoding))
          (All-imp (λ i. has_key i w.encoding ≡ true)
            (λ i. has_key i (cancel_each w.encoding) ≡ true) w.requeue_on_cancel
            (λ i k. has_key-cancel_each i w.encoding ∙ k) h.requeued);
  }

  start_encode-IsTracked :
      (i : ℕ) (title : Text) (w : Control F)
      → IsTracked w
      → IsTracked (start_encode nought i title w)
  unfolding start_encode
  start_encode-IsTracked i title w h = record {
    own_progress =
        All-set_key (λ e. e.1.last_progress.job_id ≡ e.0) i _ w.encoding refl h.own_progress;
    within = h.within;
    requeued =
        All-imp (λ j. has_key j w.encoding ≡ true) _ w.requeue_on_cancel
          (λ j k. has_key-set_key j i _ w.encoding k) h.requeued;
  }

  -- The ids that stay after one is removed.
  requeue-kept :
      (i : ℕ) (l : List (ℕ × ActiveEncode F)) (js : List ℕ)
      → All (λ j. has_key j l ≡ true) js
      → All (λ j. has_key j (keep (λ e. not (e.0 == i)) l) ≡ true) (keep (λ j. not (j == i)) js)
  requeue-kept i l [] h = tt
  requeue-kept i l (j ∷ js) h = elim (Bool-cases (j == i)) [
    | inl e ↦ rw e (requeue-kept i l js h.1)
    | inr e ↦ rw e (has_key-keep j i l e h.0, requeue-kept i l js h.1)
  ]

  removed-IsTracked :
      (i : ℕ) (w : Control F)
      → IsTracked w
      → IsTracked (record w {
        encoding = keep (λ e. not (e.0 == i)) w.encoding;
        requeue_on_cancel = keep (λ j. not (j == i)) w.requeue_on_cancel;
      })
  removed-IsTracked i w h = record {
    own_progress =
        All-keep (λ e. e.1.last_progress.job_id ≡ e.0) (λ e. not (e.0 == i)) w.encoding
          h.own_progress;
    within = h.within;
    requeued = requeue-kept i w.encoding w.requeue_on_cancel h.requeued;
  }

  subscribe-IsTracked : (w : Control F) → IsTracked w → IsTracked (subscribe w).1
  unfolding subscribe
  subscribe-IsTracked w h = record {
    own_progress = h.own_progress;
    within =
        All-append (λ ch. length ch.buffer ≤ channel_capacity) w.subscribers _ h.within
          (
            length-offer_all (snapshots w.encoding) (record { id = w.next_channel; buffer = [] })
                (omega arith),
            tt,
          );
    requeued = h.requeued;
  }

  -- Whatever happens to the worker, each encode keeps its own last event, no channel is over its
  -- capacity, and only encodes that run are to be queued again, if this was so before.
  pub act-IsTracked : (a : Action F) (w : Control F) → IsTracked w → IsTracked (act a w)
  unfolding act unsubscribe receive end_encode
  act-IsTracked subscribed w h = subscribe-IsTracked w h
  act-IsTracked (unsubscribed i) w h = record {
    own_progress = h.own_progress;
    within =
        All-keep (λ ch. length ch.buffer ≤ channel_capacity) (λ ch. not (ch.id == i)) w.subscribers
          h.within;
    requeued = h.requeued;
  }
  act-IsTracked (received i) w h = record {
    own_progress = h.own_progress;
    within = All-receive i w.subscribers h.within;
    requeued = h.requeued;
  }
  act-IsTracked (cancelled i) w h = cancel_encoding-IsTracked i w h
  act-IsTracked (reported ev) w h = broadcast-IsTracked ev w h
  act-IsTracked (pause_set fails paused) w h = set_paused-IsTracked fails paused w h
  act-IsTracked (started i title) w h = start_encode-IsTracked i title w h
  act-IsTracked (ended i title) w h = broadcast-IsTracked _ _ (removed-IsTracked i w h)
