-- ===== src/Agent/Client/Remote.antt =====
-- internal/job/job.go: the encode of the agent as an encoder of the size guard.
use recodarr.Prelude.{
  ==_iff, on_if, ℕ, ◌≡◌, refl, ap, ◌∙◌, Bool, true, false, not, ◌||◌, Text, text_eq, List, [], ◌∷◌,
  ◌++◌, Option, none, some, ◌==◌, Bool-cases, inl, inr, ◌⊎◌,
}
use recodarr.Agent.Protocol.{Snapshot}
use recodarr.Agent.Client.{
  ClientError, request_failed, bad_answer, no_output_path, open_failed, copy_failed, stat_source,
  status, Reply, polled_as, Download, Wire, Call, JobCreateResponse, polled, downloaded, uploaded,
  watch_until_done,
}
use recodarr.Agent.Client.Encode.{
  Ending, take_result, after_place, encode_in_place, download_from, download_to, after_download,
  after_watch, after_upload, after_create, after_stat, client_encode, give_up, created_as,
  upload_to, request_of,
}
use recodarr.Handbrake.Args.{Settings}
use recodarr.Handbrake.Run.{RunResult, RunError, no_result}
use recodarr.Handbrake.Temp.{temp_path, temp_path-ne}
use recodarr.Worker.Guard.{Encoder}
use recodarr.Worker.Guard.Laws.{IsCareful}
use recodarr.Files.{Files, write, remove, write_self, write_other}
use recodarr.Prelude.Paths.{slash, base, is_empty}

abbrev as_run_error : (ClientError → RunError) → Option ClientError → Option RunError
as_run_error f none = none
as_run_error f (some e) = some (f e)

-- The n-th call meets the n-th wire.
unfoldable pub remote : (ℕ → Wire) → (ClientError → RunError) → (ℕ → Bool) → Text → Encoder
unfolding client_encode
remote wires text_of renames source = record {
  remote = λ n. true;
  encode = λ n s fs.
      let (o, calls, fs') = client_encode (wires n) source s fs in
      ((o.0, as_run_error text_of o.1), fs');
  renames = renames;
}

-- The agent leaves the source alone, and where it says that a result is, the result is, of the size that
-- it names, and apart from the source.
pub record IsHonest (w : Wire) (source : Text) : Type 0 where
  pub keeps : (fs : Files) → w.shared fs source ≡ fs source
  pub placed :
      (fs : Files) (js : Snapshot)
      → w.poll fs ≡ some (200, some js)
      → is_empty js.local_output_path ≡ false
      → (w.shared fs js.local_output_path ≡ some js.output_size_bytes)
        × (text_eq js.local_output_path source ≡ false)

-- The contract of the guard for one ending.
record IsKept (source : Text) (before : Option ℕ) (e : Ending) : Type 0 where
  pub keeps : e.2 source ≡ before
  pub leaves : e.0.1 ≡ none → e.2 e.0.0.temp_path_of ≡ some e.0.0.final_size
  pub apart : e.0.1 ≡ none → text_eq e.0.0.temp_path_of source ≡ false

gave_up :
    (source : Text) (before : Option ℕ) (r : RunResult) (err : ClientError) (calls : List Call)
    (fs : Files)
    → fs source ≡ before
    → IsKept source before ((r, some err), calls, fs)
gave_up source before r err calls fs h = record { keeps = h; leaves = λ e. cc e; apart = λ e. cc e }

module _ (w : Wire) (source : Text) (fs : Files) where
  abbrev Kept : Ending → Type 0
  Kept = IsKept source (fs source)

  result-IsKept :
      (id : Text) (calls : List Call) (js : Snapshot)
      → IsHonest w source
      → w.poll fs ≡ some (200, some js)
      → Kept (take_result w id calls (w.shared fs) js)
  result-IsKept id calls js h p = elim (Bool-cases (is_empty js.local_output_path)) [
    | inl e ↦
        rw e (gave_up source (fs source) no_result no_output_path _ (w.shared fs) (h.keeps fs))
    | inr e ↦
        let (there, apart) = h.placed fs js p e in
        rw e (record { keeps = h.keeps fs; leaves = λ k. there; apart = λ k. apart })
  ]

  polled-IsKept :
      (id : Text) (calls : List Call) (r : Reply (Option Snapshot))
      → IsHonest w source
      → w.poll fs ≡ r
      → Kept (
          polled_as
            (take_result w id calls (w.shared fs))
            (λ e. give_up id no_result e calls (w.shared fs))
            r)
  polled-IsKept id calls none h p =
      gave_up source (fs source) no_result request_failed _ (w.shared fs) (h.keeps fs)
  polled-IsKept id calls (some (code, none)) h p =
      on_if Kept (code == 200)
        (gave_up source (fs source) no_result bad_answer _ (w.shared fs) (h.keeps fs))
        (gave_up source (fs source) no_result (status code) _ (w.shared fs) (h.keeps fs))
  polled-IsKept id calls (some (code, some js)) h p = elim (Bool-cases (code == 200)) [
    | inl e ↦ rw e (
        result-IsKept id calls js h (p ∙ ap (λ (n : ℕ). some (n, some js)) ((==_iff code 200).0 e)))
    | inr e ↦ rw e (gave_up source (fs source) no_result (status code) _ (w.shared fs) (h.keeps fs))
  ]

  place-IsKept :
      (id : Text) (calls : List Call) (o : Option ClientError)
      → IsHonest w source
      → Kept (after_place w id fs calls o)
  place-IsKept id calls (some e) h = gave_up source (fs source) _ e _ (w.shared fs) (h.keeps fs)
  place-IsKept id calls none h = polled-IsKept id (calls ++ polled id ∷ []) (w.poll fs) h refl

module _ (w : Wire) (source id tmp : Text) (calls : List Call) (before : Option ℕ)
    (n : text_eq tmp source ≡ false) where
  given_up :
      (e : ClientError) (files : Files)
      → files source ≡ before
      → IsKept source before (after_download w id tmp calls (inl e) files)
  unfolding remove
  given_up e files h =
      gave_up source before no_result e _ (remove tmp files)
        (write_other tmp source none files n ∙ h)

  written :
      (k : Option ℕ) (files : Files) → files source ≡ before → write tmp k files source ≡ before
  written k files h = write_other tmp source k files n ∙ h

  arrived :
      (d : Download) (files : Files)
      → files source ≡ before
      → IsKept source before
          (after_download w id tmp calls (inr d.copied) (write tmp (some d.copied) files))
  arrived d files h = record {
    keeps = written (some d.copied) files h;
    leaves = λ k. write_self tmp (some d.copied) files;
    apart = λ k. n;
  }

  download-IsKept :
      (files : Files) (r : Reply Download)
      → files source ≡ before
      → IsKept source before (
          after_download w id tmp calls (download_from tmp files r).0 (download_from tmp files r).1)
  download-IsKept files none h = given_up request_failed files h
  download-IsKept files (some (code, d)) h =
      let Q = λ (x : (ClientError ⊎ ℕ) × Files).
        IsKept source before (after_download w id tmp calls x.0 x.1) in
      on_if Q (not (code == 200 || code == 206)) (given_up (status code) files h) (
        on_if Q (not d.opens) (given_up open_failed files h) (
          on_if Q d.fails
            (given_up copy_failed (write tmp (some d.copied) files)
              (written (some d.copied) files h))
            (arrived d files h)))

module _ (w : Wire) (source : Text) (s : Settings) (fs : Files) (h : IsHonest w source)
    (n : text_eq (temp_path source s.container_format) source ≡ false) where
  watch-IsKept :
      (id : Text) (calls : List Call) (o : Option ClientError)
      → IsKept source
          (fs source)
          (after_watch w id (temp_path source s.container_format) (w.shared fs) calls o)
  unfolding download_to
  watch-IsKept id calls (some e) = gave_up source (fs source) _ e _ (w.shared fs) (h.keeps fs)
  watch-IsKept id calls none =
      download-IsKept w source id (temp_path source s.container_format)
        (calls ++ downloaded id ∷ []) (fs source) n (w.shared fs) w.output (h.keeps fs)

  upload-IsKept :
      (id : Text) (o : Option ClientError)
      → IsKept source (fs source) (after_upload w id (temp_path source s.container_format) fs o)
  upload-IsKept id (some e) = gave_up source (fs source) no_result e _ fs refl
  upload-IsKept id none =
      watch-IsKept id (uploaded id ∷ (watch_until_done w id).1) (watch_until_done w id).0

  create-IsKept :
      (o : ClientError ⊎ JobCreateResponse)
      → IsKept source (fs source) (after_create w source s fs o)
  unfolding encode_in_place
  create-IsKept (inl e) = gave_up source (fs source) no_result e [] fs refl
  create-IsKept (inr cr) =
      on_if (IsKept source (fs source)) cr.local_source
        (place-IsKept w source fs cr.job_id (watch_until_done w cr.job_id).1
          (watch_until_done w cr.job_id).0 h)
        (upload-IsKept cr.job_id (upload_to w))

  called :
      (l : List Call) (e : Ending)
      → IsKept source (fs source) e
      → IsKept source (fs source) (e.0, l, e.2)
  called l e k = record { keeps = k.keeps; leaves = k.leaves; apart = k.apart }

  stat-IsKept : (o : Option ℕ) → IsKept source (fs source) (after_stat w source s fs o)
  stat-IsKept none = gave_up source (fs source) no_result stat_source [] fs refl
  stat-IsKept (some size) =
      let o = created_as (w.create (request_of w source size s)) in
      called _ (after_create w source s fs o) (create-IsKept o)

no_error :
    (f : ClientError → RunError) (o : Option ClientError) → as_run_error f o ≡ none → o ≡ none
no_error f none h = refl
no_error f (some e) h = cc h

client_encode-IsKept :
    (w : Wire) (source : Text) (s : Settings) (fs : Files)
    → text_eq (base source) (slash ∷ []) ≡ false
    → IsHonest w source
    → IsKept source (fs source) (client_encode w source s fs)
unfolding client_encode
client_encode-IsKept w source s fs root h =
    stat-IsKept w source s fs h (temp_path-ne source s.container_format root) (fs source)

-- If the source is not the root directory and the agent is honest in every call, then the encoder that
-- asks the agent keeps to the contract.
pub remote-IsCareful :
    (wires : ℕ → Wire) (text_of : ClientError → RunError) (renames : ℕ → Bool) (source : Text)
    → text_eq (base source) (slash ∷ []) ≡ false
    → ((n : ℕ) → IsHonest (wires n) source)
    → IsCareful (remote wires text_of renames source) source
unfolding remote
remote-IsCareful wires text_of renames source root honest = record {
  keeps = λ n s fs c. (client_encode-IsKept (wires n) source s fs root (honest n)).keeps;
  leaves = λ n s fs c e.
      (client_encode-IsKept (wires n) source s fs root (honest n)).leaves (no_error text_of _ e);
  apart = λ n s fs c e.
      (client_encode-IsKept (wires n) source s fs root (honest n)).apart (no_error text_of _ e);
}
