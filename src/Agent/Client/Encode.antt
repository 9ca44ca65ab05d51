-- ===== src/Agent/Client/Encode.antt =====
-- internal/agent/client.go: Encode, with the requests that it sends and what it does to the files.
use recodarr.Prelude.{
  ℕ, Bool, true, false, not, ◌||◌, Text, List, [], ◌∷◌, ◌++◌, Option, none, some, ◌==◌,
  if◌then◌else◌, inl, inr, ◌⊎◌,
}
use recodarr.Agent.Protocol.{JobRequest, Snapshot}
use recodarr.Agent.Client.{
  ClientError, stat_source, request_failed, bad_answer, no_output_path, open_failed, copy_failed,
  status, Reply, JobCreateResponse, Download, Wire, Call, posted, uploaded, polled, downloaded,
  log_fetched, deleted, polled_as, watch_until_done, container_for,
}
use recodarr.Handbrake.Args.{Settings}
use recodarr.Handbrake.Run.{RunResult, no_result, log_only}
use recodarr.Handbrake.Temp.{temp_path}
use recodarr.Files.{Files, write, remove}
use recodarr.Prelude.Paths.{base, is_empty}

-- The result, the requests and the files.
abbrev pub Ending : Type 0
Ending = (RunResult × Option ClientError) × List Call × Files

-- An error after which the deferred function deletes the job.
abbrev pub give_up : Text → RunResult → ClientError → List Call → Files → Ending
give_up id r e calls fs = ((r, some e), calls ++ deleted id ∷ [], fs)

abbrev pub succeed : Text → RunResult → List Call → Files → Ending
succeed id r calls fs = ((r, none), (calls ++ log_fetched id ∷ []) ++ deleted id ∷ [], fs)

abbrev source_of : Bool → Option (Text × Text) → Text × Text
source_of true (some h) = h
source_of true none = ([], [])
source_of false h = ([], [])

unfoldable pub request_of : Wire → Text → ℕ → Settings → JobRequest
unfolding container_for base
request_of w source size s = record {
  filename = base source;
  size_bytes = size;
  settings = s;
  output_container = container_for source s;
  source_path = (source_of w.local_fs w.hashed).0;
  source_hash = (source_of w.local_fs w.hashed).1;
}

abbrev pub created_as : Reply (Option JobCreateResponse) → ClientError ⊎ JobCreateResponse
created_as none = inl request_failed
created_as (some (code, none)) = inl (if code == 201 then bad_answer else status code)
created_as (some (code, some cr)) = if code == 201 then inr cr else inl (status code)

-- uploadSource
unfoldable pub upload_to : Wire → Option ClientError
upload_to w = if not w.opens then some open_failed else elim w.upload [
  | none ↦ some request_failed
  | some code ↦ if code == 202 then none else some (status code)
]

abbrev pub copied_to : Text → Files → ℕ → Download → (ClientError ⊎ ℕ) × Files
copied_to dest fs code d =
    if not (code == 200 || code == 206)
    then (inl (status code), fs)
    else if not d.opens
    then (inl open_failed, fs)
    else if d.fails
    then (inl copy_failed, write dest (some d.copied) fs)
    else (inr d.copied, write dest (some d.copied) fs)

abbrev pub download_from : Text → Files → Reply Download → (ClientError ⊎ ℕ) × Files
download_from dest fs none = (inl request_failed, fs)
download_from dest fs (some (code, d)) = copied_to dest fs code d

-- downloadOutput
unfoldable pub download_to : Wire → Text → Files → (ClientError ⊎ ℕ) × Files
download_to w dest fs = download_from dest fs w.output

-- What encodeInPlace does with the last snapshot of the job.
abbrev pub take_result : Wire → Text → List Call → Files → Snapshot → Ending
take_result w id calls fs js =
    if is_empty js.local_output_path
    then give_up id no_result no_output_path calls fs
    else succeed id
        (record {
          final_size = js.output_size_bytes;
          temp_path_of = js.local_output_path;
          log = w.log;
        })
        calls fs

abbrev pub after_place : Wire → Text → Files → List Call → Option ClientError → Ending
after_place w id fs calls (some e) =
    give_up id (log_only w.log) e (calls ++ log_fetched id ∷ []) (w.shared fs)
after_place w id fs calls none =
    polled_as (take_result w id (calls ++ polled id ∷ []) (w.shared fs))
      (λ e. give_up id no_result e (calls ++ polled id ∷ []) (w.shared fs)) (w.poll fs)

unfoldable pub encode_in_place : Wire → Text → Files → Ending
unfolding watch_until_done
encode_in_place w id fs = let (e, calls) = watch_until_done w id in after_place w id fs calls e

abbrev pub after_download : Wire → Text → Text → List Call → (ClientError ⊎ ℕ) → Files → Ending
after_download w id tmp calls (inl e) fs = give_up id no_result e calls (remove tmp fs)
after_download w id tmp calls (inr size) fs =
    succeed id (record { final_size = size; temp_path_of = tmp; log = w.log }) calls fs

abbrev pub after_watch : Wire → Text → Text → Files → List Call → Option ClientError → Ending
after_watch w id tmp fs calls (some e) =
    give_up id (log_only w.log) e (calls ++ log_fetched id ∷ []) fs
after_watch w id tmp fs calls none =
    after_download w id tmp (calls ++ downloaded id ∷ []) (download_to w tmp fs).0
      (download_to w tmp fs).1

abbrev pub after_upload : Wire → Text → Text → Files → Option ClientError → Ending
after_upload w id tmp fs (some e) = give_up id no_result e (uploaded id ∷ []) fs
after_upload w id tmp fs none =
    after_watch w id tmp (w.shared fs) (uploaded id ∷ (watch_until_done w id).1)
      (watch_until_done w id).0

abbrev pub after_create :
    Wire → Text → Settings → Files → (ClientError ⊎ JobCreateResponse) → Ending
after_create w source s fs (inl e) = ((no_result, some e), [], fs)
after_create w source s fs (inr cr) =
    if cr.local_source
    then encode_in_place w cr.job_id fs
    else after_upload w cr.job_id (temp_path source s.container_format) fs (upload_to w)

-- With the size of the source, if it is there.
abbrev pub after_stat : Wire → Text → Settings → Files → Option ℕ → Ending
after_stat w source s fs none = ((no_result, some stat_source), [], fs)
after_stat w source s fs (some size) =
    let req = request_of w source size s in
    let (o, calls, fs') = after_create w source s fs (created_as (w.create req)) in
    (o, posted req ∷ calls, fs')

-- Encode
unfoldable pub client_encode : Wire → Text → Settings → Files → Ending
unfolding request_of encode_in_place upload_to download_to temp_path
client_encode w source s fs = after_stat w source s fs (fs source)
