-- ===== src/Agent/Client/Hosted.antt =====
-- internal/agent/client.go and runner.go: a worker and an agent that share their files.
use recodarr.Prelude.{
  if_true, subst, ◌≡◌, refl, sym, ap, ◌∙◌, true, false, text_eq, [], ◌∷◌, Option, none, some, arith,
  inl, inr,
}
use recodarr.Agent.Protocol.{Snapshot}
use recodarr.Agent.Store.{AgentStore, find_id, get, output_path, source_path}
use recodarr.Agent.Runner.{Surroundings, encode_job}
use recodarr.Agent.Runner.Encode.{encode_job-source, encode_job-Delivered, Delivered}
use recodarr.Agent.Client.{Wire, Reply}
use recodarr.Agent.Client.Remote.{IsHonest}
use recodarr.Handbrake.Temp.{temp_path, temp_path-ne}
use recodarr.Files.{Files}
use recodarr.Prelude.Paths.{slash, base, is_empty}

-- The answer of the agent to a poll.
abbrev pub poll_answer : Option Snapshot → Reply (Option Snapshot)
poll_answer none = some (404, none)
poll_answer (some js) = some (200, some js)

-- A wire whose other end encodes a job of a shared file.
unfoldable pub hosted : Wire → Surroundings → Snapshot → AgentStore → Wire
unfolding get
hosted w x js s = record w {
  shared = λ fs. (encode_job x js (s, fs)).1;
  poll = λ fs. poll_answer (get js.id (encode_job x js (s, fs)).0);
}

abbrev polled_job : Snapshot → Reply (Option Snapshot) → Snapshot
polled_job k (some (code, some js)) = js
polled_job k _ = k

placed_at :
    (s s' : AgentStore) (js : Snapshot) (fs : Files) (d : Delivered s s' js fs)
    → js.local_source ≡ true
    → text_eq (base js.request.source_path) (slash ∷ []) ≡ false
    → is_empty d.after.local_output_path ≡ false
    → (fs d.after.local_output_path ≡ some d.after.output_size_bytes)
      × (text_eq d.after.local_output_path js.request.source_path ≡ false)
placed_at s s' js fs d local root named = elim d.named [
  | inl e ↦ ground (arith, sym named ∙ ap is_empty e)
  | inr (over, path) ↦ (
    subst (λ p. fs p ≡ some d.after.output_size_bytes)
        (if_true js.local_source (output_path s js) local refl) (d.result over),
    subst (λ p. text_eq p js.request.source_path ≡ false)
        (sym (
          path
          ∙ ap (λ i. temp_path i js.request.settings.container_format)
              (if_true js.local_source (source_path s js) local refl)))
        (temp_path-ne js.request.source_path js.request.settings.container_format root),
  )
]

-- The runner of the agent is honest: a job in its store whose source is a shared file that is not the
-- root directory leaves that file alone, and what it answers of the result is true.
pub hosted-IsHonest :
    (w : Wire) (x : Surroundings) (js : Snapshot) (s : AgentStore)
    → find_id js.id s.memory ≡ some js
    → js.local_source ≡ true
    → text_eq (base js.request.source_path) (slash ∷ []) ≡ false
    → IsHonest (hosted w x js s) js.request.source_path
unfolding hosted get
hosted-IsHonest w x js s there local root = record {
  keeps = λ fs. encode_job-source x js s fs local root;
  placed = λ fs k polled named.
      let d = encode_job-Delivered x js s there fs in
      let same : d.after ≡ k = ap (polled_job js) (ap poll_answer (sym d.found) ∙ polled) in
      subst
        (λ (j : Snapshot).
          ((encode_job x js (s, fs)).1 j.local_output_path ≡ some j.output_size_bytes)
          × (text_eq j.local_output_path js.request.source_path ≡ false))
        same
        (placed_at s (encode_job x js (s, fs)).0 js (encode_job x js (s, fs)).1 d local root
          (ap (λ (j : Snapshot). is_empty j.local_output_path) same ∙ named));
}
