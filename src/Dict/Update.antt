-- ===== src/Dict/Update.antt =====
-- `dictAdd` and `dictAddRaw` against the map that a dictionary stands for.
use redis_allocators.Prelude.{
  ℕ, ◌^◌, ◌<◌, ◌≡◌, inl, inr, refl, sym, ap, ◌∙◌, subst, fun_ext, Bool, true, false, Option, none,
  some, if◌then◌else◌, arith, Bool-cases, Option-cases,
}
use redis_allocators.Dict.Keys.{DictType, compare-key_dup}
use redis_allocators.Dict.Chains.{count_in, find-count_zero, count-find_none, find_in_congr}
use redis_allocators.Dict.Valid.{IsValid, view}
use redis_allocators.Dict.Small.{IsSmall, HasIndex, ready, small-HasIndex}
use redis_allocators.Prelude.Int.{pos, negsuc, eqb_ℤ, to_int_lem}
use redis_allocators.Dict.Push.{push_at, push_at-HtValid, find-push_at, count-push_at}
use redis_allocators.Dict.Rehash.{idle-is_rehashing, busy-is_rehashing}
use redis_allocators.Dict.Grow.{expand_if_needed-Keeps}
use redis_allocators.Dict.Find.{step-Keeps, find_entry-view}
use redis_allocators.Dict.Table.{Ht, Dict, expand_if_needed}
use redis_allocators.Dict.{index, key_index, store, step_if_rehashing, find_entry, add_raw, add}

abbrev pub is_none {ℓ} : {V : Type ℓ} → Option V → Bool
is_none none = true
is_none (some _) = false

-- An index that is not negative is not -1.
no_error : (i : ℕ) → eqb_ℤ (pos i) (negsuc 0) ≡ false
no_error i = ground arith

module _ {ℓ} {K V : Type ℓ} ⦃type : DictType K V⦄ where
  same_home : (h : Ht K V) (k : K) → index h k ≡ index h (type.key_dup k)
  same_home h k = ground (arith, type.hash_compare k (type.key_dup k), type.compare_dup k)

  pub view_congr : (d : Dict K V) (q k : K) → type.compare_keys q k ≡ true → view d q ≡ view d k
  view_congr d q k same = ground (
    arith,
    type.hash_compare q k,
    find_in_congr q k (d.ht0.table (index d.ht0 k)),
    find_in_congr q k (d.ht1.table (index d.ht1 k)),
  )

  -- A key that the map lacks does not occur.
  absent_key :
      (d : Dict K V) (q : K)
      → view d q ≡ none
      → (count_in q (d.ht0.table (index d.ht0 q)) ≡ 0)
        × (count_in q (d.ht1.table (index d.ht1 q)) ≡ 0)
  absent_key d q e =
      let c0 = d.ht0.table (index d.ht0 q) in
      let c1 = d.ht1.table (index d.ht1 q) in
      (count-find_none q c0 (ground arith), count-find_none q c1 (ground arith))

  -- The map with one key set.
  abbrev pub update : (K → Option V) → K → Option V → K → Option V
  update f k v q = if type.compare_keys q k then v else f q

  abbrev pub Updates : Dict K V → K → Option V → Dict K V → Type ℓ
  Updates d k v d' = IsValid d' × ((q : K) → view d' q ≡ update (view d) k v q)

  module _ (d : Dict K V) (k : K) (v : V) (valid : IsValid d) (new_key : view d k ≡ none) where
    absent :
        (q : K)
        → type.compare_keys q k ≡ true
        → (count_in q (d.ht0.table (index d.ht0 q)) ≡ 0)
          × (count_in q (d.ht1.table (index d.ht1 q)) ≡ 0)
    absent q same = absent_key d q (view_congr d q k same ∙ new_key)

    push_first :
        d.rehashidx ≡ none
        → 0 < d.ht0.size
        → Updates d k
            (some v)
            (record d { ht0 = push_at d.ht0 (index d.ht0 k) (type.key_dup k, v) })
    push_first idle room =
        let i = index d.ht0 k in
        let e : K × V = (type.key_dup k, v) in
        let home = same_home d.ht0 k in
        (
          record {
            first = push_at-HtValid d.ht0 i e home valid.first room;
            second = valid.second;
            distinct = λ q.
                let once = valid.distinct q in
                ground (arith, count-push_at d.ht0 i e home q, compare-key_dup type q k, absent q);
            idle = valid.idle;
            busy = λ r at. absurd (cc);
          },
          λ q. ground (arith, find-push_at d.ht0 i e home q, compare-key_dup type q k),
        )

    push_second :
        (r : ℕ)
        → d.rehashidx ≡ some r
        → Updates d k
            (some v)
            (record d { ht1 = push_at d.ht1 (index d.ht1 k) (type.key_dup k, v) })
    push_second r at =
        let i = index d.ht1 k in
        let e : K × V = (type.key_dup k, v) in
        let home = same_home d.ht1 k in
        let (room, room', _) = valid.busy r at in
        (
          record {
            first = valid.first;
            second = push_at-HtValid d.ht1 i e home valid.second room';
            distinct = λ q.
                let once = valid.distinct q in
                ground (arith, count-push_at d.ht1 i e home q, compare-key_dup type q k, absent q);
            idle = λ idle. absurd (cc);
            busy = valid.busy;
          },
          λ q. ground (
            arith,
            find-push_at d.ht1 i e home q,
            compare-key_dup type q k,
            absent q,
            find-count_zero q (d.ht0.table (index d.ht0 q)),
          ),
        )

  -- What `dictAdd` promises over a map: it succeeds for a new key and sets it, and otherwise keeps
  -- the map.
  abbrev pub Adds : (K → Option V) → K → V → Dict K V × Bool → Type ℓ
  Adds f k v (d', added) =
      IsValid d'
      × (added ≡ is_none (f k))
      × ((q : K) → view d' q ≡ update f k (if added then some v else f k) q)

  -- `dictAddRaw` behind the expansion, for a dictionary with a first table.
  module _ (d : Dict K V) (k : K) (v : V) (valid : IsValid d) (room : 0 < d.ht0.size)
      (indexed : HasIndex d k) where
    insert : Dict K V × Bool
    insert = elim (find_entry d k) [ some _ ↦ (d, false) | none ↦ store d (key_index d k) k v ]

    store_first :
        d.rehashidx ≡ none
        → store d (key_index d k) k v
          ≡ (record d { ht0 = push_at d.ht0 (index d.ht0 k) (type.key_dup k, v) }, true)
    store_first idle =
        let e = idle-is_rehashing d idle in
        let fits : index d.ht0 k < 2 ^ 31 = rw e at indexed in
        rw e (rw (to_int_lem (index d.ht0 k) fits) (rw (no_error (index d.ht0 k)) refl))

    store_second :
        (r : ℕ)
        → d.rehashidx ≡ some r
        → store d (key_index d k) k v
          ≡ (record d { ht1 = push_at d.ht1 (index d.ht1 k) (type.key_dup k, v) }, true)
    store_second r at =
        let e = busy-is_rehashing d r at in
        let fits : index d.ht1 k < 2 ^ 31 = rw e at indexed in
        rw e (rw (to_int_lem (index d.ht1 k) fits) (rw (no_error (index d.ht1 k)) refl))

    same_or_kept :
        (q : K) (old : V)
        → view d k ≡ some old
        → view d q ≡ (if type.compare_keys q k then some old else view d q)
    same_or_kept q old e = elim (Bool-cases (type.compare_keys q k)) [
      | inl same ↦ rw same (view_congr d q k same ∙ e)
      | inr other ↦ rw other
    ]

    insert-Adds : Adds (view d) k v insert
    unfolding insert
    insert-Adds = elim (Option-cases (view d k)) [
      | inr (old, e) ↦
          rw (find_entry-view d k valid ∙ e, insert) (rw e (valid, refl, λ q. same_or_kept q old e))
      | inl e ↦ elim (Option-cases d.rehashidx) [
        | inl idle ↦
            let u = push_first d k v valid e idle room in
            rw (find_entry-view d k valid ∙ e, insert)
              (rw (store_first idle) (u.0, sym (ap is_none e), u.1))
        | inr (r, at) ↦
            let u = push_second d k v valid e r at in
            rw (find_entry-view d k valid ∙ e, insert)
              (rw (store_second r at) (u.0, sym (ap is_none e), u.1))
      ]
    ]

  -- `dictAddRaw`, in every state, also in the middle of a rehashing, where an `int` holds the index.
  pub add_raw-Adds :
      (can_resize : Bool) (d : Dict K V) (k : K) (v : V)
      → IsValid d
      → HasIndex (ready can_resize d) k
      → Adds (view d) k v (add_raw can_resize d k v)
  unfolding add_raw insert
  add_raw-Adds can_resize d k v valid indexed =
      let d₁ = step_if_rehashing d in
      let stepped = step-Keeps d valid in
      let d₂ = (expand_if_needed can_resize d₁).0 in
      let (grown, room, kept) = expand_if_needed-Keeps can_resize d₁ stepped.0 in
      subst (λ f. Adds f k v (add_raw can_resize d k v)) (fun_ext (λ q. kept.1 q ∙ stepped.1 q))
        (rw (grown, add_raw) (insert-Adds d₂ k v kept.0 room indexed))

  pub add_indexed-Adds :
      (can_resize : Bool) (d : Dict K V) (k : K) (v : V)
      → IsValid d
      → HasIndex (ready can_resize d) k
      → Adds (view d) k (type.val_dup v) (add can_resize d k v)
  unfolding add
  add_indexed-Adds can_resize d k v valid indexed =
      add_raw-Adds can_resize d k (type.val_dup v) valid indexed

  -- On a dictionary with at most 2 ^ 29 entries and at most 2 ^ 31 chains in a table `dictAdd` keeps
  -- the invariant, succeeds exactly for a key that the map lacks, and then sets that key and no
  -- other; otherwise the map stays.
  pub add-Adds :
      (can_resize : Bool) (d : Dict K V) (k : K) (v : V)
      → IsValid d
      → IsSmall d
      → Adds (view d) k (type.val_dup v) (add can_resize d k v)
  add-Adds can_resize d k v valid small =
      add_indexed-Adds can_resize d k v valid (small-HasIndex can_resize d k valid small)
