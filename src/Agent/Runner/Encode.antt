-- ===== src/Agent/Runner/Encode.antt =====
-- internal/agent/runner.go: what an encode of the agent leaves behind.
use recodarr.Agent.Store.Laws.{find_id-put_self}
use recodarr.Handbrake.Temp.{temp_path, temp_path-ne}
use recodarr.Handbrake.Run.Safety.{run_no_commit_temp, run_no_commit}
use recodarr.Prelude.Paths.{slash, base}
use recodarr.Prelude.{
  if_false, if_true, text_eq_iff, subst, ℕ, ◌≡◌, ◌≢◌, refl, sym, ap, ◌∙◌, Bool, true, false, not,
  Text, codes, text_eq, List, [], ◌∷◌, none, some, if◌then◌else◌, arith, Bool-cases, inl, inr, ◌⊎◌,
}
use mathlib.Core.Option.{some-injective}
use recodarr.Agent.Protocol.{AgentState, done, failed, cancelled, terminal, Snapshot}
use recodarr.Files.{write, write_self, rename}
use recodarr.Agent.Runner.{
  remove, rename, Files, Surroundings, finished, finish, input_of, deliver, after_run, encode_job,
}
use recodarr.Handbrake.Run.{RunOutcome, RunResult, run}
use recodarr.Agent.Store.{AgentStore, find_id, put, update, write_manifest, output_path}

pub find_id-id :
    (id : Text) (l : List Snapshot) (js : Snapshot) → find_id id l ≡ some js → js.id ≡ id
find_id-id id [] js h = cc
find_id-id id (k ∷ l) js h = elim (Bool-cases (text_eq k.id id)) [
  | inl e ↦ subst (λ y. y.id ≡ id) (some-injective _ _ (rw e at h)) ((text_eq_iff k.id id).0 e)
  | inr e ↦ find_id-id id l js (rw e at h)
]

write_manifest-memory :
    (writes : Bool) (js : Snapshot) (s : AgentStore)
    → (write_manifest writes js s).1.memory ≡ s.memory
unfolding write_manifest
write_manifest-memory true js s = refl
write_manifest-memory false js s = refl

update-memory :
    (id : Text) (f : Snapshot → Snapshot) (writes : Bool) (s : AgentStore) (js : Snapshot)
    → find_id id s.memory ≡ some js
    → (update id f writes s).1.memory ≡ put (f js) s.memory
unfolding update
update-memory id f writes s js h =
    rw (h, update) (write_manifest-memory writes (f js) (record s { memory = put (f js) s.memory }))

finish-memory :
    (x : Surroundings) (id : Text) (st : AgentState) (msg output : Text) (size : ℕ) (s : AgentStore)
    (js : Snapshot)
    → find_id id s.memory ≡ some js
    → find_id id (finish x id st msg size output s).memory
      ≡ some (finished x.time st msg size output js)
unfolding finish
finish-memory x id st msg output size s js h =
    let js' = finished x.time st msg size output js in
    rw (update-memory id (finished x.time st msg size output) x.writes s js h) (
      subst (λ y. find_id y (put js' s.memory) ≡ some js') (find_id-id id s.memory js h)
        (find_id-put_self js' s.memory))

after_run-files :
    (x : Surroundings) (js : Snapshot) (o : RunOutcome) (s : AgentStore) (fs : Files)
    → js.local_source ≡ true
    → (after_run x js o (s, fs)).1 ≡ fs
unfolding after_run deliver
after_run-files x js (r, none) s fs local = rw local refl
after_run-files x js (r, some e) s fs local = ground arith

input_local :
    (s : AgentStore) (js : Snapshot)
    → js.local_source ≡ true
    → input_of s js ≡ js.request.source_path
input_local s js local = rw local refl

-- An encode of a job whose source is a shared file never changes that file, however it ends, if its
-- path is not the root directory.
pub encode_job-source :
    (x : Surroundings) (js : Snapshot) (s : AgentStore) (fs : Files)
    → js.local_source ≡ true
    → text_eq (base js.request.source_path) (slash ∷ []) ≡ false
    → (encode_job x js (s, fs)).1 js.request.source_path ≡ fs js.request.source_path
unfolding encode_job
encode_job-source x js s fs local root =
    let path = js.request.source_path in
    let settings = record js.request.settings { no_commit = true } in
    let inputs = input_local s js local in
    let kept =
      run_no_commit path path settings x.process fs refl
        (temp_path-ne path settings.container_format root) in
    elim (Bool-cases x.log_opens) [
      | inl o ↦
          rw (o, encode_job)
            (ap (λ f. f path)
                (after_run-files x js (run (input_of s js) settings x.process fs).0 s
                  (run (input_of s js) settings x.process fs).1 local)
              ∙ subst (λ i. (run i settings x.process fs).1 path ≡ fs path) (sym inputs) kept)
      | inr o ↦ rw (o, encode_job) refl
    ]

-- The path at which a run for a job writes.
abbrev pub target_of : AgentStore → Snapshot → Text
target_of s js = temp_path (input_of s js) js.request.settings.container_format

-- The job has ended, and a job that is done has its result where the worker looks for it; a path of a
-- result is named only for a job that is done, and is that of the temporary file beside the source.
pub record Delivered (s s' : AgentStore) (js : Snapshot) (fs' : Files) : Type 0 where
  pub after : Snapshot
  pub found : find_id js.id s'.memory ≡ some after
  pub over : terminal after.state ≡ true
  pub result :
      after.state ≡ done
      → fs' (if js.local_source then after.local_output_path else output_path s js)
        ≡ some after.output_size_bytes
  pub named :
      (after.local_output_path ≡ [])
      ⊎ (after.state ≡ done) × (after.local_output_path ≡ target_of s js)

moved : (a b : Text) (fs : Files) → rename a b fs b ≡ fs a
unfolding rename
moved a b fs = write_self b (fs a) (write a none fs)

not_done : failed ≢ done
not_done e = cc e

module _ (x : Surroundings) (js : Snapshot) (s : AgentStore)
    (there : find_id js.id s.memory ≡ some js) where
  abbrev Ends : AgentStore × Files → Type 0
  Ends st = Delivered s st.0 js st.1

  unfinished-Delivered :
      (st : AgentState) (msg : Text) (fs : Files)
      → terminal st ≡ true
      → st ≢ done
      → Delivered s (finish x js.id st msg 0 [] s) js fs
  unfinished-Delivered st msg fs t n = record {
    after = finished x.time st msg 0 [] js;
    found = finish-memory x js.id st msg [] 0 s js there;
    over = t;
    result = λ e. absurd (n e);
    named = inl refl;
  }

  deliver-Delivered :
      (r : RunResult) (fs : Files)
      → r.temp_path_of ≡ target_of s js
      → fs r.temp_path_of ≡ some r.final_size
      → Delivered s (deliver x js r (s, fs)).0 js (deliver x js r (s, fs)).1
  unfolding deliver
  deliver-Delivered r fs path left = elim (Bool-cases js.local_source) [
    | inl e ↦ subst Ends (sym (if_true js.local_source _ e refl)) (record {
      after = finished x.time done [] r.final_size r.temp_path_of js;
      found = finish-memory x js.id done [] r.temp_path_of r.final_size s js there;
      over = refl;
      result = λ d. rw (if_true js.local_source (output_path s js) e refl) left;
      named = inr (refl, path);
    })
    | inr e ↦ subst Ends (sym (if_false js.local_source _ e refl)) (elim (Bool-cases x.moves) [
      | inl m ↦ subst Ends (sym (if_true x.moves _ m refl)) (record {
        after = finished x.time done [] r.final_size [] js;
        found = finish-memory x js.id done [] [] r.final_size s js there;
        over = refl;
        result = λ d.
            subst (λ q. rename r.temp_path_of (output_path s js) fs q ≡ some r.final_size)
              (sym (if_false js.local_source [] {z = output_path s js} e refl))
              (moved r.temp_path_of (output_path s js) fs ∙ left);
        named = inl refl;
      })
      | inr m ↦ subst Ends (sym (if_false x.moves _ m refl)) (
          unfinished-Delivered failed (codes "publish output") (remove r.temp_path_of fs) refl
            not_done)
    ])
  ]

  after_run-Delivered :
      (o : RunOutcome) (fs : Files)
      → (o.1 ≡ none
          → (o.0.temp_path_of ≡ target_of s js) × (fs o.0.temp_path_of ≡ some o.0.final_size))
      → Ends (after_run x js o (s, fs))
  unfolding after_run
  after_run-Delivered (r, none) fs left = deliver-Delivered r fs (left refl).0 (left refl).1
  after_run-Delivered (r, some e) fs left = elim (Bool-cases x.was_cancelled) [
    | inl c ↦
        subst Ends (sym (if_true x.was_cancelled _ c refl))
          (unfinished-Delivered cancelled (codes "cancelled") fs refl (λ e. cc e))
    | inr c ↦
        subst Ends (sym (if_false x.was_cancelled _ c refl))
          (unfinished-Delivered failed (x.text_of e) fs refl not_done)
  ]

  -- However an encode of the agent ends, its job has ended; if it is done, its result is where the
  -- worker looks for it and has the size that the job names; a path of a result is named only then, and
  -- is that of the temporary file beside the source. The job is in the store.
  pub encode_job-Delivered :
      (fs : Files) → Delivered s (encode_job x js (s, fs)).0 js (encode_job x js (s, fs)).1
  unfolding encode_job
  encode_job-Delivered fs =
      let settings = record js.request.settings { no_commit = true } in
      let ran = run (input_of s js) settings x.process fs in
      elim (Bool-cases x.log_opens) [
        | inr c ↦
            subst Ends (sym (if_true (not x.log_opens) _ (ap not c) refl))
              (unfinished-Delivered failed (codes "open log") fs refl not_done)
        | inl c ↦ subst Ends (sym (if_false (not x.log_opens) _ (ap not c) refl)) (
            after_run-Delivered ran.0 ran.1 (λ e.
              let (path, size) = run_no_commit_temp (input_of s js) settings x.process fs refl e in
              (path, rw path size)))
      ]
