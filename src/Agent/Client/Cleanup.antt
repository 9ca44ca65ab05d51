-- ===== src/Agent/Client/Cleanup.antt =====
-- internal/agent/client.go: the job that an encode creates is deleted, however it ends.
use recodarr.Prelude.{
  if◌then◌else◌, on_if, ℕ, ◌≡◌, ◌≢◌, refl, ap, Bool, true, false, Text, List, [], ◌∷◌, ◌++◌, Option,
  none, some, any_of, ◌==◌, arith, inl, inr, ◌⊎◌,
}
use recodarr.Agent.Protocol.{Snapshot}
use recodarr.Agent.Client.{
  Bool-cases, ClientError, Reply, JobCreateResponse, Wire, Call, posted, uploaded, polled,
  downloaded, log_fetched, deleted, polled_as, watch_until_done, request_failed, bad_answer, status,
}
use recodarr.Agent.Client.Encode.{
  after_stat, Ending, give_up, request_of, created_as, upload_to, download_to, take_result,
  after_place, encode_in_place, after_download, after_watch, after_upload, after_create,
  client_encode,
}
use recodarr.Handbrake.Args.{Settings}
use recodarr.Handbrake.Run.{no_result}
use recodarr.Handbrake.Temp.{temp_path}
use recodarr.Files.{Files}
use recodarr.Prelude.Paths.{is_empty}

abbrev pub is_deletion : Call → Bool
is_deletion (deleted id) = true
is_deletion _ = false

-- The last request deletes the job, and no other does.
pub record IsClosed (id : Text) (calls : List Call) : Type 0 where
  pub before : List Call
  pub last : calls ≡ before ++ deleted id ∷ []
  pub once : any_of is_deletion before ≡ false

-- How an encode ends; a job is created by an answer of 201 with a body that can be read.
pub data IsCleanedUp (w : Wire) (source : Text) (s : Settings) (fs : Files) (e : Ending)
    : Type 0 where
  missing : fs source ≡ none → e.1 ≡ [] → e.0.1 ≢ none → IsCleanedUp w source s fs e
  uncreated :
      (size : ℕ)
      → fs source ≡ some size
      → ((cr : JobCreateResponse) → w.create (request_of w source size s) ≢ some (201, some cr))
      → e.1 ≡ posted (request_of w source size s) ∷ []
      → e.0.1 ≢ none
      → IsCleanedUp w source s fs e
  closed :
      (size : ℕ) (cr : JobCreateResponse)
      → fs source ≡ some size
      → w.create (request_of w source size s) ≡ some (201, some cr)
      → (l : List Call) → e.1 ≡ posted (request_of w source size s) ∷ (l ++ deleted cr.job_id ∷ [])
      → any_of is_deletion l ≡ false
      → IsCleanedUp w source s fs e

-- How the answer to the request for a job is read.
data CreateEnds (r : Reply (Option JobCreateResponse))
    : ClientError ⊎ JobCreateResponse → Type 0 where
  refused :
      (err : ClientError)
      → ((cr : JobCreateResponse) → r ≢ some (201, some cr))
      → CreateEnds r (inl err)
  accepted : (cr : JobCreateResponse) → r ≡ some (201, some cr) → CreateEnds r (inr cr)

create_ends : (r : Reply (Option JobCreateResponse)) → CreateEnds r (created_as r)
create_ends none = refused request_failed (λ cr e. cc e)
create_ends (some (code, none)) =
    refused (if code == 201 then bad_answer else status code) (λ cr e. cc e)
create_ends (some (code, some cr)) = elim (Bool-cases (code == 201)) [
  | inl e ↦ rw e (accepted cr (ap (λ n. some (n, some cr)) (ground (arith, e))))
  | inr e ↦ rw e (refused (status code) (λ k h. ground (arith, e, h)))
]

any_of_none-append :
    (l m : List Call)
    → any_of is_deletion l ≡ false
    → any_of is_deletion m ≡ false
    → any_of is_deletion (l ++ m) ≡ false
any_of_none-append [] m h k = k
any_of_none-append (c ∷ l) m h k = ground (arith, any_of_none-append l m)

pub polled_as-all :
    {A : Type 0} (Q : A → Type 0) (f : Snapshot → A) (g : ClientError → A)
    → ((js : Snapshot) → Q (f js))
    → ((e : ClientError) → Q (g e))
    → (r : Reply (Option Snapshot)) → Q (polled_as f g r)
polled_as-all Q f g h k none = k request_failed
polled_as-all Q f g h k (some (code, none)) = on_if Q (code == 200) (k bad_answer) (k (status code))
polled_as-all Q f g h k (some (code, some js)) = on_if Q (code == 200) (h js) (k (status code))

watched_only : (w : Wire) (id : Text) → any_of is_deletion (watch_until_done w id).1 ≡ false
unfolding watch_until_done
watched_only w id = ground arith

module _ (id : Text) where
  given_up :
      (calls : List Call)
      → any_of is_deletion calls ≡ false
      → IsClosed id (calls ++ deleted id ∷ [])
  given_up calls h = record { before = calls; last = refl; once = h }

  succeeded :
      (calls : List Call)
      → any_of is_deletion calls ≡ false
      → IsClosed id ((calls ++ log_fetched id ∷ []) ++ deleted id ∷ [])
  succeeded calls h =
      given_up (calls ++ log_fetched id ∷ [])
        (any_of_none-append calls (log_fetched id ∷ []) h refl)

  take_result-IsClosed :
      (w : Wire) (calls : List Call) (fs : Files) (js : Snapshot)
      → any_of is_deletion calls ≡ false
      → IsClosed id (take_result w id calls fs js).1
  take_result-IsClosed w calls fs js h =
      on_if (λ (x : Ending). IsClosed id x.1) (is_empty js.local_output_path) (given_up calls h)
        (succeeded calls h)

  after_place-IsClosed :
      (w : Wire) (fs : Files) (calls : List Call) (o : Option ClientError)
      → any_of is_deletion calls ≡ false
      → IsClosed id (after_place w id fs calls o).1
  after_place-IsClosed w fs calls (some e) h =
      given_up (calls ++ log_fetched id ∷ [])
        (any_of_none-append calls (log_fetched id ∷ []) h refl)
  after_place-IsClosed w fs calls none h =
      let k = any_of_none-append calls (polled id ∷ []) h refl in
      polled_as-all (λ (x : Ending). IsClosed id x.1)
        (take_result w id (calls ++ polled id ∷ []) (w.shared fs))
        (λ e. give_up id no_result e (calls ++ polled id ∷ []) (w.shared fs))
        (λ js. take_result-IsClosed w (calls ++ polled id ∷ []) (w.shared fs) js k)
        (λ e. given_up (calls ++ polled id ∷ []) k) (w.poll fs)

  encode_in_place-IsClosed : (w : Wire) (fs : Files) → IsClosed id (encode_in_place w id fs).1
  unfolding encode_in_place
  encode_in_place-IsClosed w fs =
      after_place-IsClosed w fs (watch_until_done w id).1 (watch_until_done w id).0
        (watched_only w id)

  after_download-IsClosed :
      (w : Wire) (tmp : Text) (calls : List Call) (r : ClientError ⊎ ℕ) (fs : Files)
      → any_of is_deletion calls ≡ false
      → IsClosed id (after_download w id tmp calls r fs).1
  after_download-IsClosed w tmp calls (inl e) fs h = given_up calls h
  after_download-IsClosed w tmp calls (inr size) fs h = succeeded calls h

  after_watch-IsClosed :
      (w : Wire) (tmp : Text) (fs : Files) (calls : List Call) (o : Option ClientError)
      → any_of is_deletion calls ≡ false
      → IsClosed id (after_watch w id tmp fs calls o).1
  after_watch-IsClosed w tmp fs calls (some e) h =
      given_up (calls ++ log_fetched id ∷ [])
        (any_of_none-append calls (log_fetched id ∷ []) h refl)
  after_watch-IsClosed w tmp fs calls none h =
      after_download-IsClosed w tmp (calls ++ downloaded id ∷ []) (download_to w tmp fs).0
        (download_to w tmp fs).1 (any_of_none-append calls (downloaded id ∷ []) h refl)

  after_upload-IsClosed :
      (w : Wire) (tmp : Text) (fs : Files) (o : Option ClientError)
      → IsClosed id (after_upload w id tmp fs o).1
  after_upload-IsClosed w tmp fs (some e) = given_up (uploaded id ∷ []) refl
  after_upload-IsClosed w tmp fs none =
      after_watch-IsClosed w tmp (w.shared fs) (uploaded id ∷ (watch_until_done w id).1)
        (watch_until_done w id).0 (watched_only w id)

created-IsCleanedUp :
    (w : Wire) (source : Text) (s : Settings) (fs : Files) (size : ℕ)
    (o : ClientError ⊎ JobCreateResponse)
    → fs source ≡ some size
    → CreateEnds (w.create (request_of w source size s)) o
    → let (r, calls, fs') = after_create w source s fs o in
      IsCleanedUp w source s fs (r, posted (request_of w source size s) ∷ calls, fs')
created-IsCleanedUp w source s fs size (inl e) h (refused _ k) = uncreated size h k refl (λ e. cc e)
created-IsCleanedUp w source s fs size (inr cr) h (accepted _ k) =
    let tmp = temp_path source s.container_format in
    let c : IsClosed cr.job_id (after_create w source s fs (inr cr)).1 =
      on_if (λ (x : Ending). IsClosed cr.job_id x.1) cr.local_source
        (encode_in_place-IsClosed cr.job_id w fs)
        (after_upload-IsClosed cr.job_id w tmp fs (upload_to w)) in
    closed size cr h k c.before (ap (λ l. posted (request_of w source size s) ∷ l) c.last) c.once

stat-IsCleanedUp :
    (w : Wire) (source : Text) (s : Settings) (fs : Files) (o : Option ℕ)
    → fs source ≡ o
    → IsCleanedUp w source s fs (after_stat w source s fs o)
stat-IsCleanedUp w source s fs none h = missing h refl (λ e. cc e)
stat-IsCleanedUp w source s fs (some size) h =
    created-IsCleanedUp w source s fs size (created_as (w.create (request_of w source size s))) h
      (create_ends (w.create (request_of w source size s)))

-- An encode sends nothing if the source is not there. If the answer to the request for a job is not a
-- 201 with a body that can be read, it sends nothing more, so it deletes no job, and ends with an error.
-- If it is, the last request of the encode deletes the job that the answer names, and no other request
-- deletes one, however the encode ends.
pub client_encode-IsCleanedUp :
    (w : Wire) (source : Text) (s : Settings) (fs : Files)
    → IsCleanedUp w source s fs (client_encode w source s fs)
unfolding client_encode
client_encode-IsCleanedUp w source s fs = stat-IsCleanedUp w source s fs (fs source) refl
