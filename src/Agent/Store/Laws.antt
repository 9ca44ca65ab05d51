-- ===== src/Agent/Store/Laws.antt =====
-- internal/agent/store.go: lookups after changes, and the agreement of memory and disk.
use recodarr.Prelude.{
  subst, text_eq_refl, text_eq_iff, ℕ, ◌≡◌, refl, sym, ◌∙◌, Bool, true, false, Text, text_eq, List,
  [], ◌∷◌, none, some, arith, Bool-cases, Option-cases, inl, inr,
}
use recodarr.Agent.Protocol.{JobRequest, Snapshot}
use recodarr.Agent.Store.{AgentStore, find_id, drop_id, put, write_manifest, create, delete, update}

pub find_id-put_self : (js : Snapshot) (l : List Snapshot) → find_id js.id (put js l) ≡ some js
unfolding put
find_id-put_self js [] = rw (text_eq_refl js.id) refl
find_id-put_self js (k ∷ l) = ground (arith, text_eq_refl js.id, find_id-put_self js l)

pub find_id-put_other :
    (js : Snapshot) (id : Text) (l : List Snapshot)
    → text_eq js.id id ≡ false
    → find_id id (put js l) ≡ find_id id l
unfolding put
find_id-put_other js id [] h = rw h refl
find_id-put_other js id (k ∷ l) h = elim (Bool-cases (text_eq k.id js.id)) [
  | inl e ↦ ground (arith, (text_eq_iff k.id js.id).0 e)
  | inr e ↦ ground (arith, find_id-put_other js id l h)
]

pub find_id-drop_self : (id : Text) (l : List Snapshot) → find_id id (drop_id id l) ≡ none
find_id-drop_self id [] = refl
find_id-drop_self id (k ∷ l) = ground (arith, find_id-drop_self id l)

pub find_id-drop_other :
    (x id : Text) (l : List Snapshot)
    → text_eq x id ≡ false
    → find_id id (drop_id x l) ≡ find_id id l
find_id-drop_other x id [] h = refl
find_id-drop_other x id (k ∷ l) h = elim (Bool-cases (text_eq k.id x)) [
  | inl e ↦ ground (arith, (text_eq_iff k.id x).0 e, find_id-drop_other x id l h)
  | inr e ↦ ground (arith, find_id-drop_other x id l h)
]

-- Two lists with the same jobs still have the same jobs after the same change.
put_same :
    (js : Snapshot) (id : Text) (l m : List Snapshot)
    → find_id id l ≡ find_id id m
    → find_id id (put js l) ≡ find_id id (put js m)
put_same js id l m h = elim (Bool-cases (text_eq js.id id)) [
  | inl e ↦
      subst (λ x. find_id x (put js l) ≡ find_id x (put js m)) ((text_eq_iff js.id id).0 e)
        (find_id-put_self js l ∙ sym (find_id-put_self js m))
  | inr e ↦ find_id-put_other js id l e ∙ h ∙ sym (find_id-put_other js id m e)
]

drop_same :
    (x id : Text) (l m : List Snapshot)
    → find_id id l ≡ find_id id m
    → find_id id (drop_id x l) ≡ find_id id (drop_id x m)
drop_same x id l m h = elim (Bool-cases (text_eq x id)) [
  | inl e ↦
      subst (λ y. find_id y (drop_id x l) ≡ find_id y (drop_id x m)) ((text_eq_iff x id).0 e)
        (find_id-drop_self x l ∙ sym (find_id-drop_self x m))
  | inr e ↦ find_id-drop_other x id l e ∙ h ∙ sym (find_id-drop_other x id m e)
]

-- Memory and disk have the same jobs.
pub record Agrees (s : AgentStore) : Type 0 where
  pub same : (id : Text) → find_id id s.memory ≡ find_id id s.disk

-- A change that puts one job into both, or takes one id out of both.
put-Agrees :
    (js : Snapshot) (s : AgentStore)
    → Agrees s
    → Agrees (record s { memory = put js s.memory; disk = put js s.disk })
put-Agrees js s v = record { same = λ id. put_same js id s.memory s.disk (v.same id) }

drop-Agrees :
    (x : Text) (s : AgentStore)
    → Agrees s
    → Agrees (record s { memory = drop_id x s.memory; disk = drop_id x s.disk })
drop-Agrees x s v = record { same = λ id. drop_same x id s.memory s.disk (v.same id) }

pub create-Agrees :
    (now : ℕ) (id : Text) (writes : Bool) (req : JobRequest) (local : Bool) (s : AgentStore)
    → find_id id s.memory ≡ none
    → Agrees s
    → Agrees (create now id writes req local s).1
unfolding create write_manifest
create-Agrees now id true req local s fresh v = put-Agrees _ s v
create-Agrees now id false req local s fresh v = record {
  same = λ x. elim (Bool-cases (text_eq id x)) [
    | inl e ↦
        subst (λ y. find_id y s.memory ≡ find_id y (drop_id id s.disk)) ((text_eq_iff id x).0 e)
          (fresh ∙ sym (find_id-drop_self id s.disk))
    | inr e ↦ v.same x ∙ sym (find_id-drop_other id x s.disk e)
  ];
}

pub delete-Agrees : (id : Text) (s : AgentStore) → Agrees s → Agrees (delete id true s).1
unfolding delete
delete-Agrees id s v = drop-Agrees id s v

pub update-Agrees :
    (id : Text) (f : Snapshot → Snapshot) (s : AgentStore)
    → Agrees s
    → Agrees (update id f true s).1
unfolding update write_manifest
update-Agrees id f s v = elim (Option-cases (find_id id s.memory)) [
  | inl e ↦ rw (e, update) v
  | inr (js, e) ↦ rw (e, update) (put-Agrees (f js) s v)
]
