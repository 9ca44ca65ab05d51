-- ===== src/Api/Instances.antt =====
-- internal/api/admin.go: the handlers of the services.
use recodarr.Prelude.{
  map, ℕ, Bool, true, false, not, ◌&&◌, Text, List, [], Option, none, some, if◌then◌else◌,
}
use recodarr.Api.{Answer}
use recodarr.Prelude.Paths.{is_empty}
use recodarr.Store.Rows.{ArrInstanceRow, QbitInstanceRow}
use recodarr.Store.Config.{
  Config, is_arr_kind, list_arr_instances, get_arr_instance, create_arr_instance,
  update_arr_instance, delete_arr_instance, list_qbit_instances, get_qbit_instance,
  upsert_qbit_instance, delete_qbit_instance,
}

pub record ArrInstanceDto : Type 0 where
  pub id : ℕ
  pub kind : Text
  pub name : Text
  pub url : Text
  pub api_key : Text
  pub enabled : Bool
  pub has_api_key : Bool
  pub deleted : Bool

abbrev is_set : Option ℕ → Bool
is_set none = false
is_set (some t) = true

unfoldable pub to_row : ArrInstanceDto → ArrInstanceRow
to_row d = record {
  id = d.id;
  kind = d.kind;
  name = d.name;
  url = d.url;
  api_key = d.api_key;
  enabled = d.enabled;
  deleted_at = none;
}

unfoldable pub arr_row_to_dto : ArrInstanceRow → ArrInstanceDto
arr_row_to_dto r = record {
  id = r.id;
  kind = r.kind;
  name = r.name;
  url = r.url;
  api_key = [];
  enabled = r.enabled;
  has_api_key = not (is_empty r.api_key);
  deleted = is_set r.deleted_at;
}

unfoldable pub list_arr : Bool → Config → Answer (List ArrInstanceDto)
unfolding list_arr_instances arr_row_to_dto
list_arr include_deleted c = (200, some (map arr_row_to_dto (list_arr_instances include_deleted c)))

abbrev pub shown : ℕ → Option ArrInstanceRow → Answer ArrInstanceDto
shown code none = (500, none)
shown code (some r) = (code, some (arr_row_to_dto r))

abbrev pub created : Option ℕ × Config → Answer ArrInstanceDto × Config
created (none, c) = ((500, none), c)
created (some i, c) = (shown 201 (get_arr_instance i c), c)

unfoldable pub create_arr : Option ArrInstanceDto → Config → Answer ArrInstanceDto × Config
unfolding create_arr_instance get_arr_instance arr_row_to_dto to_row
create_arr none c = ((400, none), c)
create_arr (some d) c =
    if is_arr_kind d.kind then created (create_arr_instance (to_row d) c) else ((400, none), c)

abbrev pub updated : ℕ → Bool × Config → Answer ArrInstanceDto × Config
updated i (true, c) = (shown 200 (get_arr_instance i c), c)
updated i (false, c) = ((500, none), c)

unfoldable pub update_arr :
    Option ℕ → Option ArrInstanceDto → Config → Answer ArrInstanceDto × Config
unfolding update_arr_instance get_arr_instance arr_row_to_dto to_row
update_arr none d c = ((400, none), c)
update_arr (some i) none c = ((400, none), c)
update_arr (some i) (some d) c = updated i (update_arr_instance (to_row (record d { id = i })) c)

unfoldable pub delete_arr : ℕ → Option ℕ → Config → ℕ × Config
unfolding delete_arr_instance
delete_arr now none c = (400, c)
delete_arr now (some i) c = (204, delete_arr_instance now i c)

pub record QbitInstanceDto : Type 0 where
  pub id : ℕ
  pub name : Text
  pub url : Text
  pub username : Text
  pub password : Text
  pub has_password : Bool

unfoldable pub qbit_row_to_dto : QbitInstanceRow → QbitInstanceDto
qbit_row_to_dto r = record {
  id = r.id;
  name = r.name;
  url = r.url;
  username = r.username;
  password = [];
  has_password = not (is_empty r.password);
}

unfoldable pub list_qbit : Config → Answer (List QbitInstanceDto)
unfolding qbit_row_to_dto
list_qbit c = (200, some (map qbit_row_to_dto (list_qbit_instances c)))

abbrev qbit_row : QbitInstanceDto → QbitInstanceRow
qbit_row d = record {
  id = d.id;
  name = d.name;
  url = d.url;
  username = d.username;
  password = d.password;
}

unfoldable pub upsert_qbit : Option QbitInstanceDto → Config → Answer QbitInstanceDto × Config
unfolding upsert_qbit_instance
upsert_qbit none c = ((400, none), c)
upsert_qbit (some d) c =
    let (i, c') = upsert_qbit_instance (qbit_row d) c in
    ((200, some (record d { id = i; password = [] })), c')

unfoldable pub delete_qbit : Option ℕ → Config → ℕ × Config
unfolding delete_qbit_instance
delete_qbit none c = (400, c)
delete_qbit (some i) c = (204, delete_qbit_instance i c)

-- A test of a service: whether it is well, or the code of an error. `none` is an error of the ping.
abbrev pub TestAnswer : Type 0
TestAnswer = Answer Bool

abbrev is_arr_kind_row : (ArrInstanceRow → Bool) → ArrInstanceRow → Bool
is_arr_kind_row ping r = is_arr_kind r.kind && ping r

abbrev tested : {A : Type 0} → (A → Bool) → Option A → TestAnswer
tested test none = (404, none)
tested test (some r) = (200, some (test r))

unfoldable pub test_arr : (ArrInstanceRow → Bool) → Option ℕ → Config → TestAnswer
unfolding get_arr_instance
test_arr ping none c = (400, none)
test_arr ping (some i) c = tested (is_arr_kind_row ping) (get_arr_instance i c)

-- `login` is New and Login of the client of qBittorrent.
unfoldable pub test_qbit : (QbitInstanceRow → Bool) → Option ℕ → Config → TestAnswer
unfolding get_qbit_instance
test_qbit login none c = (400, none)
test_qbit login (some i) c = tested login (get_qbit_instance i c)

unfoldable pub test_qbit_credentials :
    (Text → Text → Text → Bool) → Option (Text × Text × Text) → TestAnswer
test_qbit_credentials login none = (400, none)
test_qbit_credentials login (some (url, username, password)) =
    (200, some (login url username password))
