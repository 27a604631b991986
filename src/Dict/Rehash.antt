-- ===== src/Dict/Rehash.antt =====
-- `dictRehash` keeps the invariant and the map, and ends.
use redis_allocators.Prelude.{
  ℕ, zero, suc, ◌+◌, ◌-◌, ◌<◌, ◌≡◌, ◌≢◌, inl, inr, refl, sym, ap, ◌∙◌, Bool, true, false, Option,
  none, some, [], ◌==◌, arith, length, Bool-cases, Option-cases, dec_lt, ℕ_discrete,
}
use redis_allocators.Dict.Keys.{DictType}
use redis_allocators.Dict.Chains.{find_in, count_in, find-count_zero}
use redis_allocators.Dict.Valid.{
  IsValid, put_chain-HtValid, index-lt-size, or_else, view, occurrences, reset-HtValid,
}
use redis_allocators.Dict.Push.{
  push_all, move_chain-push_all, mask-push_all, size-push_all, push_all-HtValid, count-push_all,
  find-push_all,
}
use redis_allocators.Dict.Table.{Dict, put_chain, skip_empty, reset, is_rehashing}
use redis_allocators.Dict.{index, rehash_bucket, clear_bucket, rehash}
use redis_allocators.Dict.Skip.{
  nil_of_length, skip_empty-le, skip_empty_lem, skip_empty_found, total-le, total_of_empty,
}

pub or_else-none {ℓ} : {V : Type ℓ} (a : Option V) → or_else a none ≡ a
or_else-none none = refl
or_else-none (some a) = refl

-- A dictionary that is valid and stands for the same map.
abbrev pub Keeps {ℓ} : {K V : Type ℓ} ⦃type : DictType K V⦄ → Dict K V → Dict K V → Type ℓ
Keeps {K = K} d d' = IsValid d' × ((q : K) → view d' q ≡ view d q)

module _ {ℓ} {K V : Type ℓ} ⦃type : DictType K V⦄ (d : Dict K V) (r : ℕ) (valid : IsValid d)
    (at : d.rehashidx ≡ some r) where
  stop : ℕ
  stop = skip_empty (d.ht0.size - r) d.ht0.table r

  -- The state after one round.
  moved : Dict K V
  moved = record d {
    ht0 = record d.ht0 {
      table = put_chain d.ht0.table stop [];
      used = d.ht0.used - length (d.ht0.table stop);
    };
    ht1 = push_all (d.ht0.table stop) d.ht1;
    rehashidx = some (stop + 1);
  }

  rehash_bucket-moved : rehash_bucket d r ≡ moved
  unfolding rehash_bucket stop moved
  rehash_bucket-moved = ap (clear_bucket stop) (move_chain-push_all (d.ht0.table stop) d)

  -- Every chain before the stop is empty.
  passed : (j : ℕ) → j < stop → length (d.ht0.table j) ≡ 0
  unfolding stop
  passed j lt = elim (dec_lt j r) [
    | yes before ↦ ap length ((valid.busy r at).2 j before)
    | no behind ↦ skip_empty_lem d.ht0.table (d.ht0.size - r) r j (omega arith) lt
  ]

  -- While entries are left, the search stops at a chain of the table.
  stop_found : d.ht0.used ≢ 0 → (stop < d.ht0.size) × (0 < length (d.ht0.table stop))
  unfolding stop
  stop_found entries = elim (dec_lt stop d.ht0.size) [
    | yes lt ↦
        let low = skip_empty-le d.ht0.table (d.ht0.size - r) r in
        (lt, skip_empty_found d.ht0.table (d.ht0.size - r) r (omega arith))
    | no ge ↦ absurd (
        entries (
          valid.first.counted
          ∙ total_of_empty d.ht0.table d.ht0.size (λ j lt. passed j (omega arith))))
  ]

  moved-rehashing : (moved.rehashidx ≡ some (stop + 1))
  unfolding moved
  moved-rehashing = refl

  module _ (entries : d.ht0.used ≢ 0) where
    found : (stop < d.ht0.size) × (0 < length (d.ht0.table stop))
    found = stop_found entries

    moved-occurrences : (q : K) → occurrences moved q ≡ occurrences d q
    unfolding moved count_in
    moved-occurrences q =
        let c = d.ht0.table stop in
        let i = index d.ht0 q in
        elim (Bool-cases (stop == i)) [
          | inl e ↦ ground (arith, mask-push_all c d.ht1, count-push_all q c d.ht1)
          | inr e ↦
              ground
                (arith, mask-push_all c d.ht1, count-push_all q c d.ht1, valid.first.placed q stop)
        ]

    moved-view : (q : K) → view moved q ≡ view d q
    unfolding moved find_in
    moved-view q =
        let c = d.ht0.table stop in
        let once = valid.distinct q in
        elim (Bool-cases (stop == index d.ht0 q)) [
          | inl e ↦ ground (arith, mask-push_all c d.ht1, find-push_all q c d.ht1)
          | inr e ↦
              let none_here = valid.first.placed q stop (ground arith) in
              rw (
                e,
                mask-push_all c d.ht1,
                find-push_all q c d.ht1 (omega arith),
                find-count_zero q c none_here,
              )
        ]

    cleared : (j : ℕ) → j < stop + 1 → moved.ht0.table j ≡ []
    unfolding moved
    cleared j lt = elim (Bool-cases (stop == j)) [
      | inl e ↦ rw e
      | inr e ↦ rw e (nil_of_length (d.ht0.table j) (passed j (ground arith)))
    ]

    moved-IsValid : IsValid moved
    unfolding moved
    moved-IsValid =
        let (fit, some_entry) = found in
        let (room, room', _) = valid.busy r at in
        let left = total-le d.ht0.table stop d.ht0.size fit in
        record {
          first =
              put_chain-HtValid d.ht0 stop (d.ht0.used - length (d.ht0.table stop)) [] valid.first
                fit (let n = valid.first.counted in omega arith) (λ q ne. unfold count_in in refl);
          second = push_all-HtValid (d.ht0.table stop) d.ht1 valid.second room';
          distinct = λ q. rw (moved-occurrences q) (valid.distinct q);
          idle = λ e. absurd (cc);
          busy = λ k e. (room, rw size-push_all room', λ j lt. cleared j (ground arith));
        }

  -- The last round: the new table takes the place of the old one.
  finished : Dict K V
  finished = record d { ht0 = d.ht1; ht1 = reset; rehashidx = none }

  module _ (none_left : d.ht0.used ≡ 0) where
    old_empty : (q : K) → d.ht0.table (index d.ht0 q) ≡ []
    old_empty q =
        let (room, _, _) = valid.busy r at in
        let lt = index-lt-size d.ht0 q valid.first room in
        let le = total-le d.ht0.table (index d.ht0 q) d.ht0.size lt in
        let n = valid.first.counted in nil_of_length _ (omega arith)

    finished-Keeps : Keeps d finished
    unfolding finished count_in find_in
    finished-Keeps = (
      record {
        first = valid.second;
        second = reset-HtValid;
        distinct = λ q. let once = valid.distinct q in omega arith;
        idle = λ e. refl;
        busy = λ k e. absurd (cc);
      },
      λ q. rw (old_empty q) (or_else-none _),
    )

module _ {ℓ} {K V : Type ℓ} ⦃type : DictType K V⦄ where
  pub idle-is_rehashing : (d : Dict K V) → d.rehashidx ≡ none → is_rehashing d ≡ false
  idle-is_rehashing d e = rw e

  pub busy-is_rehashing : (d : Dict K V) (r : ℕ) → d.rehashidx ≡ some r → is_rehashing d ≡ true
  busy-is_rehashing d r e = rw e

  rehash_idle : (n : ℕ) (d : Dict K V) → d.rehashidx ≡ none → rehash n d ≡ (d, false)
  unfolding rehash
  rehash_idle zero d e = ap (λ (b : Bool). (d, b)) (idle-is_rehashing d e)
  rehash_idle (suc n) d e = ground arith

  rehash_done :
      (n : ℕ) (d : Dict K V) (r : ℕ) (valid : IsValid d) (at : d.rehashidx ≡ some r)
      → d.ht0.used ≡ 0
      → rehash (suc n) d ≡ (finished d r valid at, false)
  unfolding rehash finished
  rehash_done n d r valid at e = rw (at, rehash) (rw e)

  rehash_round :
      (n : ℕ) (d : Dict K V) (r : ℕ) (valid : IsValid d) (at : d.rehashidx ≡ some r)
      → d.ht0.used ≢ 0
      → rehash (suc n) d ≡ rehash n (moved d r valid at)
  unfolding rehash
  rehash_round n d r valid at e =
      let busy : (d.ht0.used == 0) ≡ false = ground arith in
      rw (at, rehash) (rw (busy, rehash_bucket-moved d r valid at))

  pub rehash-Keeps :
      (n : ℕ) (d : Dict K V)
      → IsValid d
      → Keeps d (rehash n d).0 × ((rehash n d).1 ≡ is_rehashing (rehash n d).0)
  rehash-Keeps zero d valid = unfold rehash in ((valid, λ q. refl), refl)
  rehash-Keeps (suc n) d valid = elim (Option-cases d.rehashidx) [
    | inl idle ↦
        rw (rehash_idle (suc n) d idle) ((valid, λ q. refl), sym (idle-is_rehashing d idle))
    | inr (r, at) ↦ elim (ℕ_discrete d.ht0.used 0) [
      | yes e ↦
          rw (rehash_done n d r valid at e) (finished-Keeps d r valid at e, unfold finished in refl)
      | no ne ↦
          let (rest, flag) = rehash-Keeps n (moved d r valid at) (moved-IsValid d r valid at ne) in
          rw (rehash_round n d r valid at ne)
            ((rest.0, λ q. rest.1 q ∙ moved-view d r valid at ne q), flag)
    ]
  ]

  used-moved :
      (d : Dict K V) (r : ℕ) (valid : IsValid d) (at : d.rehashidx ≡ some r)
      → d.ht0.used ≢ 0
      → (moved d r valid at).ht0.used < d.ht0.used
  unfolding moved
  used-moved d r valid at ne = let some_entry = (stop_found d r valid at ne).1 in omega arith

  -- More rounds than the old table has entries finish the rehashing.
  pub rehash_finishes :
      (n : ℕ) (d : Dict K V) → IsValid d → d.ht0.used < n → (rehash n d).0.rehashidx ≡ none
  rehash_finishes zero d valid lt = absurd (omega arith)
  rehash_finishes (suc n) d valid lt = elim (Option-cases d.rehashidx) [
    | inl idle ↦ rw (rehash_idle (suc n) d idle) idle
    | inr (r, at) ↦ elim (ℕ_discrete d.ht0.used 0) [
      | yes e ↦ rw (rehash_done n d r valid at e) (unfold finished in refl)
      | no ne ↦ rw (rehash_round n d r valid at ne) (
          rehash_finishes n (moved d r valid at) (moved-IsValid d r valid at ne)
            (let less = used-moved d r valid at ne in omega arith))
    ]
  ]
