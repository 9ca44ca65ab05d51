-- ===== src/Store/Config/Invariant/Instances.antt =====
-- internal/store/queries.go: the statements on the instances keep their table.
use recodarr.Prelude.{
  All-keep, not, All-append, subst, ℕ, ◌<◌, ◌≡◌, refl, sym, ap, true, [], ◌∷◌, none, any_of, ◌==◌,
  Bool-cases, inl, inr,
}
use recodarr.Store.Rows.{ArrInstanceRow, QbitInstanceRow}
use recodarr.Store.Config.{
  Table, Config, is_arr_kind, arr_is, map_where, append_row, update_arr_row, create_arr_instance,
  update_arr_instance, delete_arr_instance, with_rows, first_time, qbit_is, update_qbit_row,
  upsert_qbit_instance, delete_qbit_instance,
}
use recodarr.Store.Config.Tables.{
  map_where_none, All-map_where, Distinct-map_where, below-append, ids-append, Distinct-keep,
}
use recodarr.Store.Config.Invariant.{IsArrTable, IsQbitTable, same_arr_id, same_qbit_id}

append-IsArrTable :
    (t : Table ArrInstanceRow) (r : ArrInstanceRow)
    → is_arr_kind r.kind ≡ true
    → IsArrTable t
    → IsArrTable (append_row (λ i. record r { id = i; deleted_at = none }) t)
unfolding append_row
append-IsArrTable t r k h =
    let y : ArrInstanceRow = record r { id = t.next_id; deleted_at = none } in
    record {
      below = below-append (λ x. x.id) t.next_id t.rows y refl h.below;
      ids = ids-append (λ x. x.id) t.next_id t.rows y refl h.below h.ids;
      kinds = All-append (λ x. is_arr_kind x.kind ≡ true) t.rows (y ∷ []) h.kinds (k, tt);
    }

-- An update that keeps the ids.
update-IsArrTable :
    (t : Table ArrInstanceRow) (i : ℕ) (f : ArrInstanceRow → ArrInstanceRow)
    → ((x : ArrInstanceRow) → (f x).id ≡ x.id)
    → ((x : ArrInstanceRow)
        → arr_is i x ≡ true
        → is_arr_kind x.kind ≡ true
        → is_arr_kind (f x).kind ≡ true)
    → IsArrTable t
    → IsArrTable (with_rows (map_where (arr_is i) f t.rows) t)
update-IsArrTable t i f e k h = record {
  below =
      All-map_where (λ x. x.id < t.next_id) (arr_is i) f t.rows
        (λ x p b. subst (λ n. n < t.next_id) (sym (e x)) b) h.below;
  ids =
      Distinct-map_where same_arr_id (arr_is i) f (λ x y. ap (λ n. n == y.id) (e x))
        (λ x y. ap (λ n. x.id == n) (e y)) t.rows h.ids;
  kinds = All-map_where (λ x. is_arr_kind x.kind ≡ true) (arr_is i) f t.rows k h.kinds;
}

pub create_arr_instance-IsArrTable :
    (r : ArrInstanceRow) (c : Config)
    → IsArrTable c.arr
    → IsArrTable (create_arr_instance r c).1.arr
unfolding create_arr_instance
create_arr_instance-IsArrTable r c h = elim (Bool-cases (is_arr_kind r.kind)) [
  | inl e ↦ rw e (append-IsArrTable c.arr r e h)
  | inr e ↦ rw e h
]

pub update_arr_instance-IsArrTable :
    (r : ArrInstanceRow) (c : Config)
    → IsArrTable c.arr
    → IsArrTable (update_arr_instance r c).1.arr
unfolding update_arr_instance update_arr_row
update_arr_instance-IsArrTable r c h = elim (Bool-cases (is_arr_kind r.kind)) [
  | inl e ↦ rw e (update-IsArrTable c.arr r.id (update_arr_row r) (λ x. refl) (λ x p k. e) h)
  | inr e ↦ elim (Bool-cases (any_of (arr_is r.id) c.arr.rows)) [
    | inl a ↦ rw (e, a) h
    | inr a ↦ rw (e, a) (rw (map_where_none (arr_is r.id) (update_arr_row r) c.arr.rows a) h)
  ]
]

pub delete_arr_instance-IsArrTable :
    (now i : ℕ) (c : Config) → IsArrTable c.arr → IsArrTable (delete_arr_instance now i c).arr
unfolding delete_arr_instance
delete_arr_instance-IsArrTable now i c h =
    update-IsArrTable c.arr i (λ r. record r { deleted_at = first_time now r.deleted_at })
      (λ x. refl) (λ x p k. k) h

append-IsQbitTable :
    (t : Table QbitInstanceRow) (r : QbitInstanceRow)
    → IsQbitTable t
    → IsQbitTable (append_row (λ i. record r { id = i }) t)
unfolding append_row
append-IsQbitTable t r h =
    let y : QbitInstanceRow = record r { id = t.next_id } in
    record {
      below = below-append (λ x. x.id) t.next_id t.rows y refl h.below;
      ids = ids-append (λ x. x.id) t.next_id t.rows y refl h.below h.ids;
    }

update-IsQbitTable :
    (t : Table QbitInstanceRow) (r : QbitInstanceRow)
    → IsQbitTable t
    → IsQbitTable (with_rows (map_where (qbit_is r.id) (update_qbit_row r) t.rows) t)
unfolding update_qbit_row
update-IsQbitTable t r h = record {
  below =
      All-map_where (λ x. x.id < t.next_id) (qbit_is r.id) (update_qbit_row r) t.rows (λ x p b. b)
        h.below;
  ids =
      Distinct-map_where same_qbit_id (qbit_is r.id) (update_qbit_row r) (λ x y. refl) (λ x y. refl)
        t.rows h.ids;
}

pub upsert_qbit_instance-IsQbitTable :
    (r : QbitInstanceRow) (c : Config)
    → IsQbitTable c.qbit
    → IsQbitTable (upsert_qbit_instance r c).1.qbit
unfolding upsert_qbit_instance
upsert_qbit_instance-IsQbitTable r c h = elim (Bool-cases (r.id == 0)) [
  | inl e ↦ rw e (append-IsQbitTable c.qbit r h)
  | inr e ↦ rw e (update-IsQbitTable c.qbit r h)
]

pub delete_qbit_instance-IsQbitTable :
    (i : ℕ) (c : Config) → IsQbitTable c.qbit → IsQbitTable (delete_qbit_instance i c).qbit
unfolding delete_qbit_instance
delete_qbit_instance-IsQbitTable i c h = record {
  below = All-keep (λ x. x.id < c.qbit.next_id) (λ r. not (qbit_is i r)) c.qbit.rows h.below;
  ids = Distinct-keep same_qbit_id (λ r. not (qbit_is i r)) c.qbit.rows h.ids;
}
