-- ===== src/Api/Secrets.antt =====
-- internal/api/admin.go: the secrets of the services. An answer has none of them, and an update with
-- an empty one keeps it.
use recodarr.Prelude.{
  on_if, if_true, map, ℕ, ◌≡◌, refl, ap, ◌∙◌, Bool, true, false, codes, text_eq, List, [], ◌∷◌,
  Option, none, some, find_first, All, ◌==◌, if◌then◌else◌, arith, Bool-cases, inl, inr,
}
use recodarr.Prelude.Paths.{is_empty}
use recodarr.Store.Rows.{ArrInstanceRow}
use recodarr.Store.Config.{
  create_arr_instance, list_arr_instances, Config, is_arr_kind, arr_is, map_where, new_secret,
  update_arr_row, update_arr_instance, get_arr_instance,
}
use recodarr.Store.Settings.{SettingsMap}
use recodarr.Api.{Answer}
use recodarr.Api.Instances.{
  shown, created, updated, ArrInstanceDto, list_arr, create_arr, update_arr, to_row, arr_row_to_dto,
}

-- getSettings: the settings, without the token of the agent, but with whether there is one.
unfoldable pub get_settings : SettingsMap → SettingsMap
get_settings m k =
    if text_eq k (codes "agent_token")
    then none
    else if text_eq k (codes "hasAgentToken")
    then elim (m (codes "agent_token")) [
      | none ↦ m k
      | some t ↦ if is_empty t then m k else some (codes "true")
    ]
    else m k

abbrev pub IsSecret : Option ArrInstanceDto → Type 0
IsSecret none = Unit {0}
IsSecret (some d) = d.api_key ≡ []

found :
    (i : ℕ) (f : ArrInstanceRow → ArrInstanceRow)
    → ((x : ArrInstanceRow) → (f x).id ≡ x.id)
    → (xs : List ArrInstanceRow) (old : ArrInstanceRow) → find_first (arr_is i) xs ≡ some old
    → find_first (arr_is i) (map_where (arr_is i) f xs) ≡ some (f old)
unfolding map_where
found i f e [] old h = cc
found i f e (x ∷ xs) old h = elim (Bool-cases (x.id == i)) [
  | inl k ↦ rw k (
      if_true ((f x).id == i) (find_first (arr_is i) (map_where (arr_is i) f xs))
        (ap (λ n. n == i) (e x) ∙ k) (ground (arith, h, k)))
  | inr k ↦ rw (k, k) (found i f e xs old (ground (arith, h, k)))
]

-- An update of an instance stores what it is given, but for an empty key: then the row keeps its key. It
-- keeps its id, and stays deleted if it was.
pub get-update_arr_instance :
    (r old : ArrInstanceRow) (c : Config)
    → is_arr_kind r.kind ≡ true
    → get_arr_instance r.id c ≡ some old
    → get_arr_instance r.id (update_arr_instance r c).1
      ≡ some (record r {
        api_key = new_secret r.api_key old.api_key;
        id = old.id;
        deleted_at = old.deleted_at;
      })
unfolding get_arr_instance update_arr_instance update_arr_row
get-update_arr_instance r old c k h =
    rw k (found r.id (update_arr_row r) (λ x. refl) c.arr.rows old h)

secret_rows : (rs : List ArrInstanceRow) → All (λ d. d.api_key ≡ []) (map arr_row_to_dto rs)
unfolding arr_row_to_dto
secret_rows [] = tt
secret_rows (r ∷ rs) = (refl, secret_rows rs)

shown-IsSecret : (code : ℕ) (o : Option ArrInstanceRow) → IsSecret (shown code o).1
unfolding arr_row_to_dto
shown-IsSecret code none = tt
shown-IsSecret code (some r) = refl

created-IsSecret : (x : Option ℕ × Config) → IsSecret (created x).0.1
created-IsSecret (none, c) = tt
created-IsSecret (some i, c) = shown-IsSecret 201 (get_arr_instance i c)

updated-IsSecret : (i : ℕ) (x : Bool × Config) → IsSecret (updated i x).0.1
updated-IsSecret i (true, c) = shown-IsSecret 200 (get_arr_instance i c)
updated-IsSecret i (false, c) = tt

create-IsSecret : (body : Option ArrInstanceDto) (c : Config) → IsSecret (create_arr body c).0.1
unfolding create_arr
create-IsSecret none c = tt
create-IsSecret (some d) c =
    on_if (λ (x : Answer ArrInstanceDto × Config). IsSecret x.0.1) (is_arr_kind d.kind)
      (created-IsSecret (create_arr_instance (to_row d) c)) tt

update-IsSecret :
    (i : Option ℕ) (body : Option ArrInstanceDto) (c : Config) → IsSecret (update_arr i body c).0.1
unfolding update_arr
update-IsSecret none body c = tt
update-IsSecret (some i) none c = tt
update-IsSecret (some i) (some d) c =
    updated-IsSecret i (update_arr_instance (to_row (record d { id = i })) c)

abbrev pub bodies : {A : Type 0} → Option (List A) → List A
bodies none = []
bodies (some l) = l

-- No answer about the instances has a key, and none of the settings has the token of the agent.
pub answers_hide_keys :
    (include_deleted : Bool) (i : Option ℕ) (body : Option ArrInstanceDto) (c : Config)
    (m : SettingsMap)
    → All (λ d. d.api_key ≡ []) (bodies (list_arr include_deleted c).1)
      × IsSecret (create_arr body c).0.1
      × IsSecret (update_arr i body c).0.1
      × (get_settings m (codes "agent_token") ≡ none)
unfolding list_arr get_settings text_eq
answers_hide_keys include_deleted i body c m = (
  secret_rows (list_arr_instances include_deleted c),
  create-IsSecret body c,
  update-IsSecret i body c,
  refl,
)
