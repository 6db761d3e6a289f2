-- ===== src/Tests/Tables.antt =====
-- A table kept in a list, and what is asked of go-memdb of it.
pub mod Keys
pub mod Objects
mod Least
use eth2_validator.Base.{
  string_eq, ◌≡◌, ◌↔◌, inl, inr, refl, sym, ap, ◌∙◌, not, List, [], ◌∷◌, ◌++◌, String, Option, none,
  some, arith, ◌==◌, Bool-cases, beq_self, subst,
}
use eth2_validator.Base.Try.{IsEntryOf}
use eth2_validator.Bitlist.{equal}
use eth2_validator.Duty.{Bytes}
use eth2_validator.State.Keys.{lt_bytes}
use eth2_validator.State.Memdb.{
  Index, keys_of, Memdb, IsFirst, missing, found, IsLowest, above_all, lowest, IsMemdb,
}
use eth2_validator.Tests.Tables.Keys.{equal_iff}
use eth2_validator.Tests.Tables.Objects.{
  head, find, latest_of, id-find, latest_of_lem, selected, selected_lem, insert_in, insert_in_only,
  insert_in_total,
}
use eth2_validator.Tests.Tables.Least.{rows, rows_iff, least, IsLeast, least_lem}

abbrev pub object_of : {T : Type 0} → Option (Bytes × T) → Option T
object_of none = none
object_of (some (k, x)) = some x

module _ {T : Type 0} (id : T → String) (schema : List (Index T)) where
  abbrev pub list_db : Memdb T
  list_db = record {
    Table = List T;
    empty = [];
    insert = insert_in id schema;
    id_key = λ x. 0 ∷ [];
    by_id = find id;
    all = latest_of id;
    first = λ t ix k. head (selected id t ix (equal k));
    get = λ t ix k. selected id t ix (equal k);
    lower_bound = λ t ix b. object_of (least b (rows ix (latest_of id t)));
    reverse_lower_bound = λ t ix b. selected id t ix (λ k. not (lt_bytes b (k ++ 0 ∷ [])));
  }

  head-IsFirst :
      (t : List T) (ix : Index T) (key : Bytes) (l : List T)
      → ((x : T) → IsEntryOf x l ↔ ((find id t (id x) ≡ some x) × IsEntryOf key (keys_of ix x)))
      → IsFirst list_db id schema t ix key (head l)
  unfolding head
  head-IsFirst t ix key [] h = missing λ x e i. (h x).1 (e, i)
  head-IsFirst t ix key (x ∷ l) h = let (e, i) = (h x).0 (inl refl) in found e i

  with_key :
      (t : List T) (ix : Index T) (key : Bytes) (x : T)
      → IsEntryOf x (selected id t ix (equal key))
        ↔ ((find id t (id x) ≡ some x) × IsEntryOf key (keys_of ix x))
  with_key t ix key x = (
    (λ i.
        let (e, (k, j, u)) = (selected_lem id t ix (equal key) x).0 i in
        (e, subst (λ m. IsEntryOf m (keys_of ix x)) (sym ((equal_iff key k).0 u)) j)),
    λ (e, i). (selected_lem id t ix (equal key) x).1 (e, (key, i, (equal_iff key key).1 refl)),
  )

  object_of-IsLowest :
      (t : List T) (ix : Index T) (bound : Bytes) (o : Option (Bytes × T))
      → IsLeast bound (rows ix (latest_of id t)) o
      → IsLowest list_db id schema t ix bound (object_of o)
  unfolding IsLeast
  object_of-IsLowest t ix bound none below =
      above_all
        λ x k e i. below k x ((rows_iff ix (latest_of id t) k x).1 ((latest_of_lem id t x).1 e, i))
  object_of-IsLowest t ix bound (some (k, x)) (i, above, first) =
      let (j, in_x) = (rows_iff ix (latest_of id t) k x).0 i in
      lowest k ((latest_of_lem id t x).0 j) in_x above
        λ y m e u. first m y ((rows_iff ix (latest_of id t) m y).1 ((latest_of_lem id t y).1 e, u))

  pub list_db-IsMemdb : IsMemdb list_db id schema
  list_db-IsMemdb = record {
    by_id-empty = λ k. unfold find in refl;
    by_id-insert = λ t t' x k e. rw ((insert_in_only id schema t t' x e).1) (unfold find in refl);
    id-by_id = id-find id;
    insert_total = λ t x a. (x ∷ t, insert_in_total id schema t x a);
    insert_only = λ t t' x e. (insert_in_only id schema t t' x e).0;
    all_lem = latest_of_lem id;
    first_lem =
        λ t ix key i. head-IsFirst t ix key (selected id t ix (equal key)) (with_key t ix key);
    get_lem = λ t ix key x i. with_key t ix key x;
    lower_bound_lem = λ t ix bound i.
        object_of-IsLowest t ix bound _ (least_lem bound (rows ix (latest_of id t)));
    reverse_lower_bound_lem = λ t ix bound x i several. (
      (λ j.
          let (e, (k, u, v)) =
            (selected_lem id t ix (λ m. not (lt_bytes bound (m ++ 0 ∷ []))) x).0 j in
          (e, (k, u, ground (arith, v)))),
      λ (e, (k, u, v)).
          (selected_lem id t ix (λ m. not (lt_bytes bound (m ++ 0 ∷ []))) x).1
            (e, (k, u, ap not v)),
    );
    id_key-ne = λ t x e f. cc f;
  }

  pub find-IsEntryOf : (t : List T) (x : T) (k : String) → find id t k ≡ some x → IsEntryOf x t
  unfolding find
  find-IsEntryOf [] x k e = cc
  find-IsEntryOf (y ∷ t) x k e = elim (Bool-cases (id y == k)) [
    | inl same ↦ let e' : some y ≡ some x = sym (rw same refl) ∙ e in inl (cc e')
    | inr other ↦
        let e' : find id t k ≡ some x = sym (rw other refl) ∙ e in inr (find-IsEntryOf t x k e')
  ]

  pub find-first : (x : T) (t : List T) → find id (x ∷ t) (id x) ≡ some x
  unfolding find
  find-first x t = rw (beq_self (id x)) refl
