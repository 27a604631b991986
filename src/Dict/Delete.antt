-- ===== src/Dict/Delete.antt =====
-- `dictDelete`: one entry is unlinked.
use mathlib.Core.Bool.{false≢true}
use redis_allocators.Prelude.{
  ℕ, ◌-◌, ◌≤◌, ◌<◌, ◌≡◌, inl, inr, refl, sym, ap, ◌∙◌, subst, fun_ext, Bool, true, false, not,
  Option, none, some, [], ◌==◌, if◌then◌else◌, arith, Bool-cases, Option-cases, dec_lt, ℕ_discrete,
}
use redis_allocators.Dict.Keys.{DictType}
use redis_allocators.Dict.Chains.{
  Chain, find_in, erase_in, count_in, find-count_zero, find_in_congr, find-erase_in,
  count-erase_in-le, length-erase_in,
}
use redis_allocators.Dict.Valid.{HtValid, IsValid, put_chain-HtValid, view}
use redis_allocators.Dict.Skip.{total-le}
use redis_allocators.Dict.Grow.{not_rehashing}
use redis_allocators.Dict.Find.{step-Keeps, second_none, no_table}
use redis_allocators.Dict.Update.{update, is_none, view_congr}
use redis_allocators.Dict.Table.{Ht, Dict, is_rehashing}
use redis_allocators.Dict.{index, unlink, step_if_rehashing, generic_delete}

module _ {ℓ} {K V : Type ℓ} ⦃type : DictType K V⦄ where
  -- The entry with the key in its table.
  module _ (h : Ht K V) (k : K) (old : V) (valid : HtValid h)
      (there : find_in k (h.table (index h k)) ≡ some old) where
    chain : Chain K V
    chain = h.table (index h k)

    pub inside : index h k < h.size
    unfolding find_in
    inside = elim (dec_lt (index h k) h.size) [
      | yes lt ↦ lt
      | no ge ↦ let gone = valid.outside (index h k) (omega arith) in absurd (clash gone)
    ]
      where
        clash : h.table (index h k) ≡ [] → ⊥
        clash e = ground (arith, ap (find_in k) e)

    -- Equal keys stand in the same chain.
    pub same_chain : (q : K) → type.compare_keys q k ≡ true → index h k ≡ index h q
    same_chain q c = ground (arith, type.hash_compare q k)

    unlink-HtValid : HtValid (unlink h k)
    unlink-HtValid =
        let shorter = length-erase_in k old (h.table (index h k)) there in
        let le = total-le h.table (index h k) h.size inside in
        let n = valid.counted in
        put_chain-HtValid h (index h k) (h.used - 1) (erase_in k (h.table (index h k))) valid inside
          (omega arith)
          (λ q ne.
            let zero_there = valid.placed q (index h k) ne in
            omega (arith, count-erase_in-le q k (h.table (index h k))))

    count-unlink :
        (q : K) → count_in q ((unlink h k).table (index h q)) ≤ count_in q (h.table (index h q))
    count-unlink q = elim (Bool-cases (index h k == index h q)) [
      | inl e ↦
          let same : index h k ≡ index h q = ground arith in
          rw e (
            subst (λ i. count_in q (erase_in k (h.table (index h k))) ≤ count_in q (h.table i)) same
              (count-erase_in-le q k (h.table (index h k))))
      | inr e ↦ rw e (omega arith)
    ]

    find-unlink :
        (q : K)
        → count_in q (h.table (index h q)) ≤ 1
        → find_in q ((unlink h k).table (index h q))
          ≡ (if type.compare_keys q k then none else find_in q (h.table (index h q)))
    find-unlink q once = elim (Bool-cases (index h k == index h q)) [
      | inl e ↦
          let same : index h k ≡ index h q = ground arith in
          let c = h.table (index h k) in
          rw e (
            subst
              (λ i.
                find_in q (erase_in k c)
                ≡ (if type.compare_keys q k then none else find_in q (h.table i)))
              same (find-erase_in q k c (subst (λ i. count_in q (h.table i) ≤ 1) (sym same) once)))
      | inr e ↦ elim (Bool-cases (type.compare_keys q k)) [
        | inl same ↦ absurd (let one = same_chain q same in ground arith)
        | inr other ↦ rw (e, other)
      ]
    ]

    -- A key equal to it occurs here.
    occurs : (q : K) → type.compare_keys q k ≡ true → 0 < count_in q (h.table (index h q))
    occurs q same = elim (ℕ_discrete (count_in q (h.table (index h q))) 0) [
      | no ne ↦ omega arith
      | yes e ↦ absurd (
          false≢true (
            ap is_none (
              sym there
              ∙ sym (find_in_congr q k (h.table (index h k)) same)
              ∙ ap (λ i. find_in q (h.table i)) (same_chain q same)
              ∙ find-count_zero q (h.table (index h q)) e)))
    ]

  -- What `dictDelete` promises over a map.
  abbrev pub Deletes : (K → Option V) → K → Dict K V × Bool → Type ℓ
  Deletes f k (d', deleted) =
      IsValid d' × (deleted ≡ not (is_none (f k))) × ((q : K) → view d' q ≡ update f k none q)

  still_empty : (d : Dict K V) (k : K) (i : ℕ) → d.ht0.table i ≡ [] → (unlink d.ht0 k).table i ≡ []
  unfolding erase_in
  still_empty d k i e = elim (Bool-cases (index d.ht0 k == i)) [
    | inl same ↦
        let here : i ≡ index d.ht0 k = ground arith in
        rw same (ap (erase_in k) (sym (ap d.ht0.table here) ∙ e))
    | inr other ↦ rw (other, e)
  ]

  module _ (d : Dict K V) (k : K) (valid : IsValid d) where
    delete_first :
        (old : V)
        → find_in k (d.ht0.table (index d.ht0 k)) ≡ some old
        → Deletes (view d) k (record d { ht0 = unlink d.ht0 k }, true)
    delete_first old there = (
      record {
        first = unlink-HtValid d.ht0 k old valid.first there;
        second = valid.second;
        distinct = λ q.
            let once = valid.distinct q in
            let less = count-unlink d.ht0 k old valid.first there q in omega arith;
        idle = valid.idle;
        busy = λ r at.
            let (room, room', moved) = valid.busy r at in
            (room, room', λ i lt. still_empty d k i (moved i lt));
      },
      rw there refl,
      λ q.
          let once = valid.distinct q in
          let erased = find-unlink d.ht0 k old valid.first there q (omega arith) in
          elim (Bool-cases (type.compare_keys q k)) [
            | inl same ↦
                let n = occurs d.ht0 k old valid.first there q same in
                rw (erased, same, find-count_zero q (d.ht1.table (index d.ht1 q)) (omega arith))
            | inr other ↦ rw (erased, other)
          ],
    )

    delete_second :
        (old : V)
        → find_in k (d.ht0.table (index d.ht0 k)) ≡ none
        → find_in k (d.ht1.table (index d.ht1 k)) ≡ some old
        → Deletes (view d) k (record d { ht1 = unlink d.ht1 k }, true)
    delete_second old gone there = (
      record {
        first = valid.first;
        second = unlink-HtValid d.ht1 k old valid.second there;
        distinct = λ q.
            let once = valid.distinct q in
            let less = count-unlink d.ht1 k old valid.second there q in omega arith;
        idle = valid.idle;
        busy = valid.busy;
      },
      rw (gone, there) refl,
      λ q.
          let once = valid.distinct q in
          let erased = find-unlink d.ht1 k old valid.second there q (omega arith) in
          elim (Bool-cases (type.compare_keys q k)) [
            | inl same ↦
                let n = occurs d.ht1 k old valid.second there q same in
                rw (erased, same, find-count_zero q (d.ht0.table (index d.ht0 q)) (omega arith))
            | inr other ↦ rw (erased, other)
          ],
    )

    -- A key that is not there.
    delete_none : view d k ≡ none → Deletes (view d) k (d, false)
    delete_none e = (
      valid,
      rw e refl,
      λ q. elim (Bool-cases (type.compare_keys q k)) [
        | inl same ↦ rw same (view_congr d q k same ∙ e)
        | inr other ↦ rw other refl
      ],
    )

  -- `generic_delete` behind the round of rehashing.
  delete_entry : Dict K V → K → Dict K V × Bool
  delete_entry d k = elim (find_in k (d.ht0.table (index d.ht0 k))) [
    | some _ ↦ (record d { ht0 = unlink d.ht0 k }, true)
    | none ↦
        if not (is_rehashing d)
        then (d, false)
        else elim (find_in k (d.ht1.table (index d.ht1 k))) [
          | some _ ↦ (record d { ht1 = unlink d.ht1 k }, true)
          | none ↦ (d, false)
        ]
  ]

  delete_entry-Deletes : (d : Dict K V) (k : K) → IsValid d → Deletes (view d) k (delete_entry d k)
  unfolding delete_entry
  delete_entry-Deletes d k valid = elim (Option-cases (find_in k (d.ht0.table (index d.ht0 k)))) [
    | inr (old, e) ↦
        let same : (record d { ht0 = unlink d.ht0 k }, true) ≡ delete_entry d k =
          rw (e, delete_entry) refl in
        subst (Deletes (view d) k) same (delete_first d k valid old e)
    | inl e ↦ elim (Bool-cases (is_rehashing d)) [
      | inr idle ↦
          let same : (d, false) ≡ delete_entry d k = rw (e, delete_entry) (rw idle refl) in
          subst (Deletes (view d) k) same
            (delete_none d k valid (rw e (second_none d k valid (not_rehashing d idle))))
      | inl busy ↦ elim (Option-cases (find_in k (d.ht1.table (index d.ht1 k)))) [
        | inr (old, e') ↦
            let same : (record d { ht1 = unlink d.ht1 k }, true) ≡ delete_entry d k =
              rw (e, delete_entry) (rw busy (rw e' refl)) in
            subst (Deletes (view d) k) same (delete_second d k valid old e e')
        | inl e' ↦
            let same : (d, false) ≡ delete_entry d k =
              rw (e, delete_entry) (rw busy (rw e' refl)) in
            subst (Deletes (view d) k) same (delete_none d k valid (rw (e, e') refl))
      ]
    ]
  ]

  -- `dictDelete` keeps the invariant, succeeds exactly for a key of the map, and then removes that
  -- key and no other; otherwise the map stays.
  pub generic_delete-Deletes :
      (d : Dict K V) (k : K) → IsValid d → Deletes (view d) k (generic_delete d k)
  unfolding generic_delete delete_entry
  generic_delete-Deletes d k valid = elim (Bool-cases (d.ht0.size == 0)) [
    | inl z ↦ rw (z, generic_delete) (delete_none d k valid (no_table d k valid (ground arith)).1)
    | inr z ↦
        let stepped = step-Keeps d valid in
        rw (z, generic_delete)
          (subst (λ f. Deletes f k (delete_entry (step_if_rehashing d) k)) (fun_ext stepped.1)
            (delete_entry-Deletes (step_if_rehashing d) k stepped.0))
  ]
