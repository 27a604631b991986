-- ===== src/Dict/Chains.antt =====
-- One chain of a table: what the loops over `he->next` find, change and unlink.
use redis_allocators.Prelude.{
  ℕ, ◌+◌, ◌≤◌, ◌≡◌, refl, true, Option, none, some, List, [], ◌∷◌, if◌then◌else◌, arith, length,
}
use redis_allocators.Dict.Keys.{DictType, compare_congr}

abbrev pub Chain {ℓ} : Type ℓ → Type ℓ → Type ℓ
Chain K V = List (K × V)

module _ {ℓ} {K V : Type ℓ} ⦃type : DictType K V⦄ where
  -- The value of the first entry with this key.
  unfoldable pub find_in : K → Chain K V → Option V
  find_in k [] = none
  find_in k (e ∷ c) = if type.compare_keys k e.0 then some e.1 else find_in k c

  unfoldable pub assign_in : K → V → Chain K V → Chain K V
  assign_in k v [] = []
  assign_in k v (e ∷ c) = if type.compare_keys k e.0 then (e.0, v) ∷ c else e ∷ assign_in k v c

  unfoldable pub erase_in : K → Chain K V → Chain K V
  erase_in k [] = []
  erase_in k (e ∷ c) = if type.compare_keys k e.0 then c else e ∷ erase_in k c

  -- How many entries have this key.
  unfoldable pub count_in : K → Chain K V → ℕ
  count_in k [] = 0
  count_in k (e ∷ c) = (if type.compare_keys k e.0 then 1 else 0) + count_in k c

  pub find-count_zero : (k : K) (c : Chain K V) → count_in k c ≡ 0 → find_in k c ≡ none
  unfolding find_in count_in
  find-count_zero k [] h = refl
  find-count_zero k (e ∷ c) h = ground (arith, find-count_zero k c)

  pub count-find_none : (k : K) (c : Chain K V) → find_in k c ≡ none → count_in k c ≡ 0
  unfolding find_in count_in
  count-find_none k [] h = refl
  count-find_none k (e ∷ c) h = ground (arith, count-find_none k c)

  pub count-assign_in :
      (q k : K) (v : V) (c : Chain K V) → count_in q (assign_in k v c) ≡ count_in q c
  unfolding assign_in count_in
  count-assign_in q k v [] = refl
  count-assign_in q k v (e ∷ c) = ground (arith, count-assign_in q k v c)

  pub length-assign_in : (k : K) (v : V) (c : Chain K V) → length (assign_in k v c) ≡ length c
  unfolding assign_in
  length-assign_in k v [] = refl
  length-assign_in k v (e ∷ c) = ground (arith, length-assign_in k v c)

  pub find-assign_in :
      (q k : K) (v old : V) (c : Chain K V)
      → find_in k c ≡ some old
      → find_in q (assign_in k v c) ≡ (if type.compare_keys q k then some v else find_in q c)
  unfolding find_in assign_in
  find-assign_in q k v old [] h = ground arith
  find-assign_in q k v old (e ∷ c) h = ground (
    arith,
    find-assign_in q k v old c,
    compare_congr type q k e.0,
    type.compare_trans q e.0 k,
    type.compare_symm k e.0,
  )

  pub count-erase_in-le : (q k : K) (c : Chain K V) → count_in q (erase_in k c) ≤ count_in q c
  unfolding erase_in count_in
  count-erase_in-le q k [] = omega arith
  count-erase_in-le q k (e ∷ c) = ground (arith, count-erase_in-le q k c)

  pub find-erase_in :
      (q k : K) (c : Chain K V)
      → count_in q c ≤ 1
      → find_in q (erase_in k c) ≡ (if type.compare_keys q k then none else find_in q c)
  unfolding find_in erase_in count_in
  find-erase_in q k [] h = ground arith
  find-erase_in q k (e ∷ c) h = ground (
    arith,
    find-erase_in q k c,
    find-count_zero q c,
    compare_congr type q k e.0,
    type.compare_trans q e.0 k,
    type.compare_symm k e.0,
  )

  pub length-erase_in :
      (k : K) (old : V) (c : Chain K V)
      → find_in k c ≡ some old
      → length (erase_in k c) + 1 ≡ length c
  unfolding erase_in find_in
  length-erase_in k old [] h = cc
  length-erase_in k old (e ∷ c) h = ground (arith, length-erase_in k old c)

  -- Equal keys find the same.
  pub find_in_congr :
      (q k : K) (c : Chain K V) → type.compare_keys q k ≡ true → find_in q c ≡ find_in k c
  unfolding find_in
  find_in_congr q k [] h = refl
  find_in_congr q k (e ∷ c) h = ground (arith, find_in_congr q k c, compare_congr type q k e.0)
