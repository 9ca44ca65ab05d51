-- ===== src/Agent/Server/Laws.antt =====
-- internal/agent/server.go: what the handlers accept and change.
use recodarr.Files.{write_self}
use recodarr.Agent.Store.Laws.{find_id-put_self}
use recodarr.Agent.Runner.Encode.{find_id-id}
use recodarr.Agent.Store.{write_manifest, put}
use recodarr.Prelude.{
  text_eq_iff, ==_iff, subst, has_prefix, ℕ, ◌≡◌, ◌≢◌, refl, sym, ap, ◌∙◌, Bool, true, not, ◌&&◌,
  Text, codes, text_eq, [], ◌∷◌, ◌++◌, some, length, drop, ◌==◌, arith, Bool-cases, Option-cases,
  inl, inr, ◌⊎◌,
}
use recodarr.Agent.Store.{update, get}
use recodarr.Prelude.{trim_prefix}
use recodarr.Agent.Server.{
  is_empty, get, trim_prefix, update, source_path, make_queued, is_awaiting, find_id, Snapshot,
  Files, AgentStore, bearer_auth, upload_source, receive, Upload,
}
-- internal/agent/server.go: what the handlers accept and change.
use recodarr.Prelude.{
  ℕ, ◌≡◌, ◌≢◌, refl, sym, ap, ◌∙◌, Bool, true, not, ◌&&◌, Text, codes, text_eq, [], ◌∷◌, ◌++◌, some,
  length, drop, ◌==◌, arith, Bool-cases, Option-cases, inl, inr, ◌⊎◌,
}
use recodarr.Agent.Store.{update, get}
use recodarr.Prelude.{trim_prefix}
use recodarr.Agent.Server.{
  source_path, make_queued, is_awaiting, find_id, Snapshot, Files, AgentStore, bearer_auth,
  upload_source, receive, Upload,
}

append-drop : (p h : Text) → has_prefix h p ≡ true → h ≡ p ++ drop (length p) h
unfolding has_prefix
append-drop [] h e = refl
append-drop (c ∷ p) [] e = cc
append-drop (c ∷ p) (d ∷ h) e = ground (arith, append-drop p h)

and_split : (a b : Bool) → (a && b) ≡ true → (a ≡ true) × (b ≡ true)
and_split a b h = ground arith

has_token : (got token : Text) → not (is_empty got) ≡ true → text_eq got token ≡ true → token ≢ []
has_token got token h e n =
    absurd (cc (subst (λ x. not (is_empty x) ≡ true) ((text_eq_iff got token).0 e ∙ n) h))

-- Only the token lets in, with or without the word before it, and without a token nobody is let in.
pub bearer_auth-token :
    (token header : Text)
    → bearer_auth token header ≡ true
    → (token ≢ []) × ((header ≡ token) ⊎ (header ≡ codes "Bearer " ++ token))
unfolding bearer_auth trim_prefix
bearer_auth-token token header h = elim (Bool-cases (has_prefix header (codes "Bearer "))) [
  | inl e ↦
      let (some_token, same) = and_split _ _ (rw (bearer_auth, trim_prefix, e) at h) in
      (
        has_token _ token some_token same,
        inr (
            append-drop (codes "Bearer ") header e
            ∙ ap (λ t. codes "Bearer " ++ t) ((text_eq_iff _ token).0 same)),
      )
  | inr e ↦
      let (some_token, same) = and_split _ _ (rw (bearer_auth, trim_prefix, e) at h) in
      (has_token _ token some_token same, inl ((text_eq_iff _ token).0 same))
]

-- An upload that was accepted: the job was awaiting it and is queued, and the file has the size that
-- was declared.
pub record Accepted (id : Text) (s : AgentStore) (s' : AgentStore) (fs' : Files) : Type 0 where
  pub job : Snapshot
  pub found : find_id id s.memory ≡ some job
  pub awaited : is_awaiting job.state ≡ true
  pub queued_now : find_id id s'.memory ≡ some (make_queued job)
  pub whole : fs' (source_path s job) ≡ some job.request.size_bytes

-- An upload is accepted and complete, or it is refused and leaves the jobs as they are.
abbrev pub UploadEnds : Text → AgentStore → ℕ × AgentStore × Files → Type 0
UploadEnds id s (code, s', fs') = ((code ≡ 202) × Accepted id s s' fs') ⊎ ((code ≢ 202) × (s' ≡ s))

module _ (u : Upload) (id : Text) (s : AgentStore) (fs : Files) where
  stored :
      (js : Snapshot)
      → find_id id s.memory ≡ some js
      → update js.id make_queued true s ≡ (
        true,
        record s { memory = put (make_queued js) s.memory; disk = put (make_queued js) s.disk },
      )
  unfolding update write_manifest
  stored js h =
      rw (subst (λ y. find_id y s.memory ≡ some js) (sym (find_id-id id s.memory js h)) h, update)
        refl

  receive-UploadEnds :
      (js : Snapshot)
      → find_id id s.memory ≡ some js
      → is_awaiting js.state ≡ true
      → UploadEnds id s (receive u true js (s, fs))
  unfolding receive
  receive-UploadEnds js h w = elim (Bool-cases u.opens) [
    | inr c ↦ rw (c, receive) (inr ((λ e. absurd (omega (arith, e))), refl))
    | inl c ↦ elim (Bool-cases u.fails) [
      | inl d ↦ rw (c, d, receive) (inr ((λ e. absurd (omega (arith, e))), refl))
      | inr d ↦ elim (Bool-cases (u.copied == js.request.size_bytes)) [
        | inr k ↦ rw (c, d, k, receive) (inr ((λ e. absurd (omega (arith, e))), refl))
        | inl k ↦
            rw (c, d, k, receive)
              (rw (stored js h) (
                inl (
                  refl,
                  record {
                    job = js;
                    found = h;
                    awaited = w;
                    queued_now =
                        subst
                          (λ y. find_id y (put (make_queued js) s.memory) ≡ some (make_queued js))
                          (find_id-id id s.memory js h)
                          (find_id-put_self (make_queued js) s.memory);
                    whole =
                        write_self (source_path s js) (some u.copied) fs
                        ∙ ap some ((==_iff u.copied js.request.size_bytes).0 k);
                  },
                )))
      ]
    ]
  ]

  -- An upload is accepted and complete, or refused with the jobs as they were: there is no third way.
  -- The manifests can be written.
  pub upload_source-UploadEnds : UploadEnds id s (upload_source u true id (s, fs))
  unfolding upload_source get
  upload_source-UploadEnds = elim (Option-cases (find_id id s.memory)) [
    | inl e ↦ rw (e, upload_source) (inr ((λ c. absurd (omega (arith, c))), refl))
    | inr (js, e) ↦ elim (Bool-cases (is_awaiting js.state)) [
      | inr w ↦ rw (e, w, upload_source) (inr ((λ c. absurd (omega (arith, c))), refl))
      | inl w ↦ elim (Bool-cases (u.content_length == js.request.size_bytes)) [
        | inr k ↦ rw (e, w, k, upload_source) (inr ((λ c. absurd (omega (arith, c))), refl))
        | inl k ↦ rw (e, w, k, upload_source) (receive-UploadEnds js e w)
      ]
    ]
  ]
