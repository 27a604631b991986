-- ===== src/Dict/Find.antt =====
-- `dictFind`, and the round of rehashing that the operations make first.
use redis_allocators.Prelude.{
  ◌≡◌, inl, inr, refl, sym, ◌∙◌, none, ◌==◌, arith, Bool-cases, Option-cases,
}
use redis_allocators.Dict.Keys.{DictType}
use redis_allocators.Dict.Chains.{find_in}
use redis_allocators.Dict.Valid.{IsValid, view}
use redis_allocators.Dict.Rehash.{Keeps, rehash-Keeps}
use redis_allocators.Dict.Grow.{empty_chain, not_rehashing}
use redis_allocators.Dict.Table.{Dict, is_rehashing}
use redis_allocators.Dict.{index, rehash_step, step_if_rehashing, find_entry, find}

module _ {ℓ} {K V : Type ℓ} ⦃type : DictType K V⦄ where
  pub step-Keeps : (d : Dict K V) → IsValid d → Keeps d (step_if_rehashing d)
  unfolding step_if_rehashing rehash_step
  step-Keeps d valid = elim (Bool-cases (is_rehashing d)) [
    | inr e ↦ rw (e, step_if_rehashing) (valid, λ q. refl)
    | inl e ↦ elim (Bool-cases (d.iterators == 0)) [
      | inl z ↦ rw (e, step_if_rehashing) (rw (z, rehash_step) (rehash-Keeps 1 d valid).0)
      | inr z ↦ rw (e, step_if_rehashing) (rw (z, rehash_step) (valid, λ q. refl))
    ]
  ]

  -- While no rehashing goes on, the second table has no entry.
  pub second_none :
      (d : Dict K V) (q : K)
      → IsValid d
      → d.rehashidx ≡ none
      → find_in q (d.ht1.table (index d.ht1 q)) ≡ none
  unfolding find_in
  second_none d q valid idle = rw (empty_chain d.ht1 q valid.second (valid.idle idle)) refl

  -- The search of both tables reads the map.
  pub find_entry-view : (d : Dict K V) (q : K) → IsValid d → find_entry d q ≡ view d q
  unfolding find_entry
  find_entry-view d q valid = elim (Bool-cases (is_rehashing d)) [
    | inl e ↦ ground arith
    | inr e ↦ let idle = not_rehashing d e in ground (arith, second_none d q valid idle)
  ]

  -- A dictionary with no first table has no entry.
  pub no_table :
      (d : Dict K V) (q : K) → IsValid d → d.ht0.size ≡ 0 → (d.rehashidx ≡ none) × (view d q ≡ none)
  unfolding find_in
  no_table d q valid e = elim (Option-cases d.rehashidx) [
    | inl idle ↦ (idle, rw (empty_chain d.ht0 q valid.first e) (second_none d q valid idle))
    | inr (r, at) ↦ absurd (let b = (valid.busy r at).0 in omega arith)
  ]

  -- `dictFind` returns what the map has under the key, and keeps the invariant and the map.
  pub find-Keeps :
      (d : Dict K V) (k : K) → IsValid d → Keeps d (find d k).0 × ((find d k).1 ≡ view d k)
  unfolding find
  find-Keeps d k valid = elim (Bool-cases (d.ht0.size == 0)) [
    | inl z ↦ rw (z, find) ((valid, λ q. refl), sym (no_table d k valid (ground arith)).1)
    | inr z ↦
        let kept = step-Keeps d valid in
        rw (z, find) (kept, find_entry-view (step_if_rehashing d) k kept.0 ∙ kept.1 k)
  ]
