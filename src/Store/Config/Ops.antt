-- ===== src/Store/Config/Ops.antt =====
-- internal/store/queries.go: every statement that changes the tables of the configuration.
use recodarr.Prelude.{ℕ, List, [], ◌∷◌}
use recodarr.Store.Rows.{ArrInstanceRow, QbitInstanceRow, ProfileRow, TagMappingRow}
use recodarr.Store.Config.{
  Config, create_arr_instance, update_arr_instance, delete_arr_instance, upsert_qbit_instance,
  delete_qbit_instance, upsert_profile, delete_profile, create_tag_mapping, delete_tag_mapping,
}

pub data Op : Type 0 where
  create_arr update_arr : ArrInstanceRow → Op
  delete_arr : ℕ → ℕ → Op
  upsert_qbit : QbitInstanceRow → Op
  delete_qbit : ℕ → Op
  upsert : ProfileRow → Op
  remove_profile : ℕ → ℕ → Op
  create_mapping : TagMappingRow → Op
  delete_mapping : ℕ → Op

unfoldable pub apply : Op → Config → Config
unfolding create_arr_instance update_arr_instance delete_arr_instance upsert_qbit_instance
    delete_qbit_instance upsert_profile delete_profile create_tag_mapping delete_tag_mapping
apply (create_arr r) c = (create_arr_instance r c).1
apply (update_arr r) c = (update_arr_instance r c).1
apply (delete_arr now i) c = delete_arr_instance now i c
apply (upsert_qbit r) c = (upsert_qbit_instance r c).1
apply (delete_qbit i) c = delete_qbit_instance i c
apply (upsert r) c = (upsert_profile r c).1
apply (remove_profile now i) c = delete_profile now i c
apply (create_mapping r) c = (create_tag_mapping r c).1
apply (delete_mapping i) c = delete_tag_mapping i c

-- Statements one after the other.
unfoldable pub run_ops : List Op → Config → Config
unfolding apply
run_ops [] c = c
run_ops (o ∷ os) c = run_ops os (apply o c)
