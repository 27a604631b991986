-- ===== src/Keyspace/Interface.antt =====
-- What db.c asks of a dictionary whose keys are texts: the operations of dict.c that it calls, with
-- their laws over the map that a dictionary stands for.
use redis_allocators.Prelude.{ℕ, ◌≡◌, Bool, not, Option, none, some, List, if◌then◌else◌}
use redis_allocators.Prelude.Eq.{nat_eq, list_eq}
use redis_allocators.Dict.Update.{is_none}

-- The bytes of a key.
abbrev pub Text : Type 0
Text = List ℕ

abbrev pub same_text : Text → Text → Bool
same_text a b = (list_eq {A = ℕ}).beq a b

-- The map with one key set or removed.
abbrev pub put {ℓ} : {V : Type ℓ} → (Text → Option V) → Text → Option V → Text → Option V
put f k v q = if same_text q k then v else f q

-- The `Bool` of `add` and `replace` is the global `dict_can_resize`.
pub record Dictionary (D V : Type 0) : Type 1 where
  pub IsSound : D → Type 0
  pub view : D → Text → Option V
  pub size : D → ℕ
  pub empty : D → D
  pub find : D → Text → D × Option V
  pub add : Bool → D → Text → V → D × Bool
  pub replace : Bool → D → Text → V → D
  pub replace_raw : Bool → D → Text → V → D
  pub delete : D → Text → D × Bool
  pub size_zero : (d : D) (q : Text) → IsSound d → size d ≡ 0 → view d q ≡ none
  pub empty_lem : (d : D) → IsSound (empty d) × ((q : Text) → view (empty d) q ≡ none)
  pub find_lem :
      (d : D) (k : Text)
      → IsSound d
      → IsSound (find d k).0
        × ((q : Text) → view (find d k).0 q ≡ view d q)
        × ((find d k).1 ≡ view d k)
  pub add_lem :
      (r : Bool) (d : D) (k : Text) (v : V)
      → IsSound d
      → IsSound (add r d k v).0
        × ((add r d k v).1 ≡ is_none (view d k))
        × ((q : Text)
            → view (add r d k v).0 q
              ≡ put (view d) k (if (add r d k v).1 then some v else view d k) q)
  pub replace_lem :
      (r : Bool) (d : D) (k : Text) (v : V)
      → IsSound d
      → IsSound (replace r d k v)
        × ((q : Text) → view (replace r d k v) q ≡ put (view d) k (some v) q)
  pub replace_raw_lem :
      (r : Bool) (d : D) (k : Text) (v : V)
      → IsSound d
      → IsSound (replace_raw r d k v)
        × ((q : Text) → view (replace_raw r d k v) q ≡ put (view d) k (some v) q)
  pub delete_lem :
      (d : D) (k : Text)
      → IsSound d
      → IsSound (delete d k).0
        × ((delete d k).1 ≡ not (is_none (view d k)))
        × ((q : Text) → view (delete d k).0 q ≡ put (view d) k none q)
