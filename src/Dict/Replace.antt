-- ===== src/Dict/Replace.antt =====
-- `dictReplace`: the entry of a key that is there gets another value.
use Prim.Native.Nat.{bit_and}
use redis_allocators.Prelude.{
  ℕ, ◌≡◌, inl, inr, refl, sym, ap, ◌∙◌, subst, Bool, true, false, none, some, [], ◌==◌,
  if◌then◌else◌, arith, Bool-cases, Option-cases,
}
use redis_allocators.Dict.Keys.{DictType}
use redis_allocators.Dict.Chains.{
  find_in, assign_in, count_in, find_in_congr, find-assign_in, count-assign_in, length-assign_in,
}
use redis_allocators.Dict.Valid.{HtValid, IsValid, put_chain-HtValid, view}
use redis_allocators.Dict.Find.{find-Keeps}
use redis_allocators.Dict.Update.{update, Updates, is_none, add_indexed-Adds}
use redis_allocators.Dict.Small.{IsSmall, HasIndex, ready, small-HasIndex}
use redis_allocators.Dict.Delete.{inside, same_chain}
use redis_allocators.Dict.Table.{Ht, Dict, put_chain}
use redis_allocators.Dict.{index, set_entry, find, add, replace}

module _ {ℓ} {K V : Type ℓ} ⦃type : DictType K V⦄ where
  -- A new value for an entry that stands in its table.
  assigned : Ht K V → K → V → Ht K V
  assigned h k v = record h {
    table = put_chain h.table (index h k) (assign_in k v (h.table (index h k)));
  }

  module _ (h : Ht K V) (k : K) (v old : V) (valid : HtValid h)
      (there : find_in k (h.table (index h k)) ≡ some old) where
    assign-HtValid : HtValid (assigned h k v)
    unfolding assigned
    assign-HtValid =
        let c = h.table (index h k) in
        put_chain-HtValid h (index h k) h.used (assign_in k v c) valid (inside h k old valid there)
          (omega (arith, length-assign_in k v c))
          (λ q ne. count-assign_in q k v c ∙ valid.placed q (index h k) ne)

    count-assign :
        (q : K) → count_in q ((assigned h k v).table (index h q)) ≡ count_in q (h.table (index h q))
    unfolding assigned
    count-assign q = elim (Bool-cases (index h k == index h q)) [
      | inl e ↦
          let same : index h k ≡ index h q = ground arith in
          rw e (count-assign_in q k v (h.table (index h k)) ∙ ap (λ i. count_in q (h.table i)) same)
      | inr e ↦ rw e refl
    ]

    find-assign :
        (q : K)
        → find_in q ((assigned h k v).table (index h q))
          ≡ (if type.compare_keys q k then some v else find_in q (h.table (index h q)))
    unfolding assigned
    find-assign q = elim (Bool-cases (index h k == index h q)) [
      | inl e ↦
          let same : index h k ≡ index h q = ground arith in
          let c = h.table (index h k) in
          rw e (
            subst
              (λ i.
                find_in q (assign_in k v c)
                ≡ (if type.compare_keys q k then some v else find_in q (h.table i)))
              same (find-assign_in q k v old c there))
      | inr e ↦ elim (Bool-cases (type.compare_keys q k)) [
        | inl same ↦ absurd (let one = same_chain h k old valid there q same in ground arith)
        | inr other ↦ rw (e, other) refl
      ]
    ]

  still_empty :
      (h : Ht K V) (k : K) (v old : V) (i : ℕ)
      → HtValid h
      → find_in k (h.table (index h k)) ≡ some old
      → h.table i ≡ []
      → (assigned h k v).table i ≡ []
  unfolding assigned assign_in
  still_empty h k v old i valid there e = elim (Bool-cases (index h k == i)) [
    | inl same ↦
        let here : i ≡ index h k = ground arith in
        rw same (ap (assign_in k v) (sym (ap h.table here) ∙ e))
    | inr other ↦ rw (other, e)
  ]

  module _ (d : Dict K V) (k : K) (v old : V) (valid : IsValid d) where
    assign_first :
        find_in k (d.ht0.table (index d.ht0 k)) ≡ some old
        → Updates d k (some v) (record d { ht0 = assigned d.ht0 k v })
    unfolding assigned
    assign_first there = (
      record {
        first = assign-HtValid d.ht0 k v old valid.first there;
        second = valid.second;
        distinct = λ q. rw (count-assign d.ht0 k v old valid.first there q) (valid.distinct q);
        idle = valid.idle;
        busy = λ r at.
            let (room, room', moved) = valid.busy r at in
            (room, room', λ i lt. still_empty d.ht0 k v old i valid.first there (moved i lt));
      },
      λ q. ground (arith, find-assign d.ht0 k v old valid.first there q),
    )

    assign_second :
        find_in k (d.ht0.table (index d.ht0 k)) ≡ none
        → find_in k (d.ht1.table (index d.ht1 k)) ≡ some old
        → Updates d k (some v) (record d { ht1 = assigned d.ht1 k v })
    unfolding assigned
    assign_second gone there = (
      record {
        first = valid.first;
        second = assign-HtValid d.ht1 k v old valid.second there;
        distinct = λ q. rw (count-assign d.ht1 k v old valid.second there q) (valid.distinct q);
        idle = valid.idle;
        busy = valid.busy;
      },
      λ q. elim (Bool-cases (type.compare_keys q k)) [
        | inl same ↦
            let home : index d.ht0 q ≡ index d.ht0 k =
              ap (λ n. bit_and n d.ht0.sizemask) (type.hash_compare q k same) in
            let gone' : find_in q (d.ht0.table (index d.ht0 q)) ≡ none =
              ap (λ i. find_in q (d.ht0.table i)) home
              ∙ find_in_congr q k (d.ht0.table (index d.ht0 k)) same
              ∙ gone in
            rw (gone', find-assign d.ht1 k v old valid.second there q, same) refl
        | inr other ↦ rw (find-assign d.ht1 k v old valid.second there q, other) refl
      ],
    )

  pub set_entry-Updates :
      (d : Dict K V) (k : K) (v old : V)
      → IsValid d
      → view d k ≡ some old
      → Updates d k (some v) (set_entry d k v)
  unfolding set_entry assigned
  set_entry-Updates d k v old valid there =
      elim (Option-cases (find_in k (d.ht0.table (index d.ht0 k)))) [
        | inr (old', e) ↦
            let same : record d { ht0 = assigned d.ht0 k v } ≡ set_entry d k v =
              rw (e, set_entry) refl in
            subst (Updates d k (some v)) same (assign_first d k v old' valid e)
        | inl e ↦
            let same : record d { ht1 = assigned d.ht1 k v } ≡ set_entry d k v =
              rw (e, set_entry) refl in
            subst (Updates d k (some v)) same (assign_second d k v old valid e (ground arith))
      ]

  -- The write after a `dictAdd` that has found the key.
  write_found :
      (d d₁ : Dict K V) (k : K) (v old : V)
      → IsValid d₁
      → ((q : K) → view d₁ q ≡ update (view d) k (view d k) q)
      → view d k ≡ some old
      → Updates d k (some v) (set_entry (find d₁ k).0 k v)
  write_found d d₁ k v old valid seen e =
      let d₂ = (find d₁ k).0 in
      let found = find-Keeps d₁ k valid in
      let here : view d₂ k ≡ some old =
        found.0.1 k
        ∙ seen k
        ∙ subst (λ b. (if b then view d k else view d k) ≡ some old) (sym (type.compare_refl k))
            e in
      let written = set_entry-Updates d₂ k v old found.0.0 here in
      (
        written.0,
        λ q. elim (Bool-cases (type.compare_keys q k)) [
          | inl same ↦ written.1 q ∙ rw same refl
          | inr other ↦ written.1 q ∙ rw other (found.0.1 q ∙ seen q ∙ rw other refl)
        ],
      )

  pub replace_indexed-Updates :
      (can_resize : Bool) (d : Dict K V) (k : K) (v : V)
      → IsValid d
      → HasIndex (ready can_resize d) k
      → Updates d k (some (type.val_dup v)) (replace can_resize d k v).0
        × ((replace can_resize d k v).1 ≡ is_none (view d k))
  unfolding replace
  replace_indexed-Updates can_resize d k v valid indexed =
      let (kept, flag, seen) = add_indexed-Adds can_resize d k v valid indexed in
      let d₁ = (add can_resize d k v).0 in
      let w = type.val_dup v in
      let Good : Dict K V × Bool → Type ℓ =
        λ p. Updates d k (some w) p.0 × (p.1 ≡ is_none (view d k)) in
      let Seen : Bool → Type ℓ =
        λ b. (q : K) → view d₁ q ≡ update (view d) k (if b then some w else view d k) q in
      elim (Option-cases (view d k)) [
        | inl e ↦
            let new : (add can_resize d k v).1 ≡ true = flag ∙ ap is_none e in
            let same : (d₁, true) ≡ replace can_resize d k v = rw (new, replace) refl in
            subst Good same ((kept, subst Seen new seen), sym (ap is_none e))
        | inr (old, e) ↦
            let there : (add can_resize d k v).1 ≡ false = flag ∙ ap is_none e in
            let same : (set_entry (find d₁ k).0 k w, false) ≡ replace can_resize d k v =
              rw (there, replace) refl in
            subst Good same
              (write_found d d₁ k w old kept (subst Seen there seen) e, sym (ap is_none e))
      ]

  -- On a dictionary with at most 2 ^ 29 entries and at most 2 ^ 31 chains in a table `dictReplace`
  -- keeps the invariant, sets the key and no other, and tells whether it was new.
  pub replace-Updates :
      (can_resize : Bool) (d : Dict K V) (k : K) (v : V)
      → IsValid d
      → IsSmall d
      → Updates d k (some (type.val_dup v)) (replace can_resize d k v).0
        × ((replace can_resize d k v).1 ≡ is_none (view d k))
  replace-Updates can_resize d k v valid small =
      replace_indexed-Updates can_resize d k v valid (small-HasIndex can_resize d k valid small)
