-- ===== src/Store/Config/Invariant/Kept.antt =====
-- internal/store/queries.go: every statement keeps the tables consistent.
use recodarr.Store.Config.Invariant.Mappings.{
  delete_tag_mapping-IsMappingTable, create_tag_mapping-IsMappingTable,
  delete_profile-IsMappingTable, upsert_profile-IsMappingTable,
}
use recodarr.Store.Config.Invariant.Profiles.{
  delete_profile-IsProfileTable, upsert_profile-IsProfileTable,
}
use recodarr.Store.Config.Invariant.Instances.{
  delete_arr_instance-IsArrTable, update_arr_instance-IsArrTable, create_arr_instance-IsArrTable,
  upsert_qbit_instance-IsQbitTable, delete_qbit_instance-IsQbitTable,
}
use recodarr.Prelude.{subst, ◌≡◌, refl, sym, List, [], ◌∷◌, arith}
use recodarr.Store.Config.{
  delete_tag_mapping, delete_profile, TagMappingRow, ProfileRow, delete_qbit_instance,
  QbitInstanceRow, ArrInstanceRow, update_arr_instance, create_tag_mapping, delete_arr_instance,
  upsert_profile, create_arr_instance, upsert_qbit_instance, Config,
}
use recodarr.Store.Config.Ops.{
  Op, create_arr, update_arr, delete_arr, upsert_qbit, delete_qbit, upsert, remove_profile,
  create_mapping, delete_mapping, apply, run_ops,
}
use recodarr.Store.Config.Invariant.{
  IsMappingTable, IsProfileTable, IsQbitTable, IsArrTable, IsConsistent,
}

-- Tables of which only the instances changed.
only_instances :
    (c d : Config)
    → IsArrTable d.arr
    → IsQbitTable d.qbit
    → d.profiles ≡ c.profiles
    → d.mappings ≡ c.mappings
    → IsConsistent c
    → IsConsistent d
only_instances c d a q p m h = record {
  arr = a;
  qbit = q;
  profiles = subst IsProfileTable (sym p) h.profiles;
  mappings =
      subst (λ t. IsMappingTable d.profiles.rows t) (sym m)
        (subst (λ t. IsMappingTable t.rows c.mappings) (sym p) h.mappings);
}

create_arr-rest :
    (r : ArrInstanceRow) (c : Config)
    → ((create_arr_instance r c).1.qbit ≡ c.qbit)
      × ((create_arr_instance r c).1.profiles ≡ c.profiles)
      × ((create_arr_instance r c).1.mappings ≡ c.mappings)
unfolding create_arr_instance
create_arr-rest r c = ground arith

update_arr-rest :
    (r : ArrInstanceRow) (c : Config)
    → ((update_arr_instance r c).1.qbit ≡ c.qbit)
      × ((update_arr_instance r c).1.profiles ≡ c.profiles)
      × ((update_arr_instance r c).1.mappings ≡ c.mappings)
unfolding update_arr_instance
update_arr-rest r c = ground arith

upsert_qbit-rest :
    (r : QbitInstanceRow) (c : Config)
    → ((upsert_qbit_instance r c).1.arr ≡ c.arr)
      × ((upsert_qbit_instance r c).1.profiles ≡ c.profiles)
      × ((upsert_qbit_instance r c).1.mappings ≡ c.mappings)
unfolding upsert_qbit_instance
upsert_qbit-rest r c = ground arith

upsert_profile-rest :
    (r : ProfileRow) (c : Config)
    → ((upsert_profile r c).1.arr ≡ c.arr) × ((upsert_profile r c).1.qbit ≡ c.qbit)
unfolding upsert_profile
upsert_profile-rest r c = ground arith

create_tag_mapping-rest :
    (r : TagMappingRow) (c : Config)
    → ((create_tag_mapping r c).1.arr ≡ c.arr)
      × ((create_tag_mapping r c).1.qbit ≡ c.qbit)
      × ((create_tag_mapping r c).1.profiles ≡ c.profiles)
unfolding create_tag_mapping
create_tag_mapping-rest r c = ground arith

-- Every statement on the instances of all services, the profiles and the mappings, on any arguments,
-- keeps their tables consistent: in each of the four, ids are distinct and below the next one; the kinds
-- of the instances and of the mappings are known, no two profiles have one name and no two mappings one
-- tag, and every mapping leads to a profile that is in its table.
pub apply-IsConsistent : (o : Op) (c : Config) → IsConsistent c → IsConsistent (apply o c)
unfolding apply delete_arr_instance delete_qbit_instance delete_profile delete_tag_mapping
apply-IsConsistent (create_arr r) c h =
    let e = create_arr-rest r c in
    only_instances c (create_arr_instance r c).1 (create_arr_instance-IsArrTable r c h.arr)
      (subst IsQbitTable (sym e.0) h.qbit) e.1 e.2 h
apply-IsConsistent (update_arr r) c h =
    let e = update_arr-rest r c in
    only_instances c (update_arr_instance r c).1 (update_arr_instance-IsArrTable r c h.arr)
      (subst IsQbitTable (sym e.0) h.qbit) e.1 e.2 h
apply-IsConsistent (delete_arr now i) c h =
    only_instances c (delete_arr_instance now i c) (delete_arr_instance-IsArrTable now i c h.arr)
      h.qbit refl refl h
apply-IsConsistent (upsert_qbit r) c h =
    let e = upsert_qbit-rest r c in
    only_instances c (upsert_qbit_instance r c).1 (subst IsArrTable (sym e.0) h.arr)
      (upsert_qbit_instance-IsQbitTable r c h.qbit) e.1 e.2 h
apply-IsConsistent (delete_qbit i) c h =
    only_instances c (delete_qbit_instance i c) h.arr (delete_qbit_instance-IsQbitTable i c h.qbit)
      refl refl h
apply-IsConsistent (upsert r) c h =
    let e = upsert_profile-rest r c in
    record {
      arr = subst IsArrTable (sym e.0) h.arr;
      qbit = subst IsQbitTable (sym e.1) h.qbit;
      profiles = upsert_profile-IsProfileTable r c h.profiles;
      mappings = upsert_profile-IsMappingTable r c h.mappings;
    }
apply-IsConsistent (remove_profile now i) c h = record {
  arr = h.arr;
  qbit = h.qbit;
  profiles = delete_profile-IsProfileTable now i c h.profiles;
  mappings = delete_profile-IsMappingTable now i c h.mappings;
}
apply-IsConsistent (create_mapping r) c h =
    let e = create_tag_mapping-rest r c in
    record {
      arr = subst IsArrTable (sym e.0) h.arr;
      qbit = subst IsQbitTable (sym e.1) h.qbit;
      profiles = subst IsProfileTable (sym e.2) h.profiles;
      mappings = create_tag_mapping-IsMappingTable r c h.mappings;
    }
apply-IsConsistent (delete_mapping i) c h = record {
  arr = h.arr;
  qbit = h.qbit;
  profiles = h.profiles;
  mappings = delete_tag_mapping-IsMappingTable i c h.mappings;
}

pub run_ops-IsConsistent :
    (os : List Op) (c : Config) → IsConsistent c → IsConsistent (run_ops os c)
unfolding run_ops
run_ops-IsConsistent [] c h = h
run_ops-IsConsistent (o ∷ os) c h = run_ops-IsConsistent os (apply o c) (apply-IsConsistent o c h)
