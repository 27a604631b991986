-- ===== src/Dict/Grow.antt =====
-- The size of a table, and `dictExpand`.
use native.Mathlib.Nat.{pow-succ', zero-add}
use mathlib.Core.Bool.{false≢true}
use redis_allocators.Prelude.{
  ◌/◌, ℕ, zero, suc, ◌+◌, ◌-◌, ◌*◌, ◌^◌, ◌≤◌, ◌<◌, ◌≡◌, ◌≢◌, ◌⊎◌, inl, inr, refl, sym, ap, ◌∙◌,
  subst, Bool, true, false, not, ◌||◌, ◌&&◌, none, some, [], ◌==◌, ltb, leb, arith, Bool-cases,
  Option-cases, dec_lt,
}
use redis_allocators.Dict.Keys.{DictType}
use redis_allocators.Dict.Chains.{find_in, count_in}
use redis_allocators.Dict.Valid.{HtValid, IsValid, total, total_nil}
use redis_allocators.Dict.Rehash.{Keeps, idle-is_rehashing, busy-is_rehashing}
use redis_allocators.Dict.Table.{
  Ht, Dict, next_power, next_power_loop, long_max, expand, resize, expand_if_needed, is_rehashing,
}
use redis_allocators.Dict.{index}

-- From a power of two on, the loop returns a power of two that is not below the size, and either
-- the one that it starts from or less than twice the size.
next_power_loop_lem :
    (fuel size k : ℕ)
    → size ≤ 2 ^ (fuel + k)
    → let r = next_power_loop fuel size (2 ^ k) in
      ((j : ℕ) × (r ≡ 2 ^ j)) × (size ≤ r) × ((r ≡ 2 ^ k) ⊎ (r < 2 * size))
unfolding next_power_loop
next_power_loop_lem zero size k h =
    let e = ap (λ n. 2 ^ n) (zero-add k) in ((k, refl), omega (arith, e), inl refl)
next_power_loop_lem (suc fuel) size k h = elim (Bool-cases (leb size (2 ^ k))) [
  | inl e ↦ rw e ((k, refl), ground arith, inl refl)
  | inr e ↦
      let double : 2 ^ k * 2 ≡ 2 ^ suc k = let p = pow-succ' 2 k in omega arith in
      let shift : suc fuel + k ≡ fuel + suc k = omega arith in
      let (power, enough, least) =
        next_power_loop_lem fuel size (suc k) (subst (λ n. size ≤ 2 ^ n) shift h) in
      rw (e, double) (power, enough, inr (let over : 2 ^ k < size = ground arith in omega arith))
]

-- `_dictNextPower` of a size below `LONG_MAX` is a power of two and not below the size, and it is 4
-- or less than twice the size.
pub next_power_lem :
    (size : ℕ)
    → size < long_max
    → ((j : ℕ) × (next_power size ≡ 2 ^ j))
      × (size ≤ next_power size)
      × ((next_power size ≡ 4) ⊎ (next_power size < 2 * size))
unfolding next_power
next_power_lem size h =
    let small : leb long_max size ≡ false = ground arith in
    rw (small, next_power) (next_power_loop_lem 62 size 2 (omega arith))

next_power_pos : (size : ℕ) → 0 < next_power size
next_power_pos size = elim (dec_lt size long_max) [
  | yes lt ↦ let r = next_power_lem size lt in omega (arith, r.1, r.2)
  | no ge ↦
      let large : leb long_max size ≡ true = ground arith in
      unfold next_power in rw (large, next_power) (omega arith)
]

module _ {ℓ} {K V : Type ℓ} ⦃type : DictType K V⦄ where
  -- The table that `dictExpand` allocates.
  fresh : ℕ → Ht K V
  fresh realsize = record { table = λ _. []; size = realsize; sizemask = realsize - 1; used = 0 }

  fresh-HtValid : (realsize : ℕ) → 0 < realsize → HtValid (fresh realsize)
  unfolding fresh count_in
  fresh-HtValid realsize h = record {
    masked = inr (omega arith);
    counted = sym (total_nil K V realsize);
    outside = λ i p. refl;
    placed = λ q i p. refl;
  }

  -- A table of size 0 has no entries.
  pub empty_chain : (h : Ht K V) (q : K) → HtValid h → h.size ≡ 0 → h.table (index h q) ≡ []
  empty_chain h q v e = v.outside (index h q) (omega arith)

  used_zero : (h : Ht K V) → HtValid h → h.size ≡ 0 → h.used ≡ 0
  unfolding total
  used_zero h v e = v.counted ∙ ap (total h.table) e

  module _ (d : Dict K V) (valid : IsValid d) (realsize : ℕ) (positive : 0 < realsize)
      (idle : d.rehashidx ≡ none) where
    second_empty : (q : K) → d.ht1.table (index d.ht1 q) ≡ []
    second_empty q = empty_chain d.ht1 q valid.second (valid.idle idle)

    -- The first table of a dictionary that had none.
    first_fresh-Keeps : d.ht0.size ≡ 0 → Keeps d (record d { ht0 = fresh realsize })
    unfolding fresh count_in find_in
    first_fresh-Keeps e = (
      record {
        first = fresh-HtValid realsize positive;
        second = valid.second;
        distinct = λ q. let once = valid.distinct q in omega arith;
        idle = valid.idle;
        busy = λ r at. absurd (cc);
      },
      λ q. rw (empty_chain d.ht0 q valid.first e) refl,
    )

    -- A second table, to which the entries will move.
    second_fresh-Keeps :
        d.ht0.size ≢ 0 → Keeps d (record d { ht1 = fresh realsize; rehashidx = some 0 })
    unfolding fresh count_in find_in
    second_fresh-Keeps ne = (
      record {
        first = valid.first;
        second = fresh-HtValid realsize positive;
        distinct = λ q. let once = valid.distinct q in omega arith;
        idle = λ e. absurd (cc);
        busy = λ r at. (omega arith, positive, λ i lt. absurd (ground arith));
      },
      λ q. rw (second_empty q) refl,
    )

  pub not_rehashing : (d : Dict K V) → is_rehashing d ≡ false → d.rehashidx ≡ none
  not_rehashing d e = elim (Option-cases d.rehashidx) [
    | inl idle ↦ idle
    | inr (r, at) ↦ absurd (false≢true (sym e ∙ busy-is_rehashing d r at))
  ]

  idle_of : (d : Dict K V) (b : Bool) → (is_rehashing d || b) ≡ false → d.rehashidx ≡ none
  idle_of d b e = not_rehashing d (ground arith)

  -- `dictExpand` keeps the invariant and the map.
  pub expand-Keeps : (d : Dict K V) (size : ℕ) → IsValid d → Keeps d (expand d size).0
  unfolding expand fresh
  expand-Keeps d size valid = elim (Bool-cases (is_rehashing d || ltb size d.ht0.used)) [
    | inl e ↦ rw (e, expand) (valid, λ q. refl)
    | inr e ↦ elim (Bool-cases (d.ht0.size == 0)) [
      | inl z ↦
          rw (e, expand)
            (rw z (
              first_fresh-Keeps d valid (next_power size) (next_power_pos size) (idle_of d _ e)
                (ground arith)))
      | inr z ↦
          rw (e, expand)
            (rw z (
              second_fresh-Keeps d valid (next_power size) (next_power_pos size) (idle_of d _ e)
                (ground arith)))
    ]
  ]

  -- `dictResize` keeps the invariant and the map.
  pub resize-Keeps :
      (can_resize : Bool) (d : Dict K V) → IsValid d → Keeps d (resize can_resize d).0
  unfolding resize
  resize-Keeps can_resize d valid = elim (Bool-cases (not can_resize || is_rehashing d)) [
    | inl e ↦ rw (e, resize) (valid, λ q. refl)
    | inr e ↦ rw (e, resize) (expand-Keeps d _ valid)
  ]

  expand_ok :
      (d : Dict K V) (size : ℕ)
      → d.rehashidx ≡ none
      → d.ht0.used ≤ size
      → ((expand d size).1 ≡ true) × (0 < (expand d size).0.ht0.size)
  unfolding expand
  expand_ok d size idle fits =
      let test : (is_rehashing d || ltb size d.ht0.used) ≡ false =
        rw (idle-is_rehashing d idle) (ground arith) in
      let positive = next_power_pos size in
      elim (Bool-cases (d.ht0.size == 0)) [
        | inl z ↦ rw (test, expand) (rw z (refl, positive))
        | inr z ↦ rw (test, expand) (rw z (refl, ground arith))
      ]

  -- On a dictionary that satisfies the invariant `_dictExpandIfNeeded` never fails, leaves a first
  -- table, and keeps the invariant and the map.
  pub expand_if_needed-Keeps :
      (can_resize : Bool) (d : Dict K V)
      → IsValid d
      → let (d', grown) = expand_if_needed can_resize d in
        (grown ≡ true) × (0 < d'.ht0.size) × Keeps d d'
  unfolding expand_if_needed
  expand_if_needed-Keeps can_resize d valid = elim (Option-cases d.rehashidx) [
    | inr (r, at) ↦
        rw (busy-is_rehashing d r at, expand_if_needed)
          (refl, (valid.busy r at).0, (valid, λ q. refl))
    | inl idle ↦ elim (Bool-cases (d.ht0.size == 0)) [
      | inl z ↦
          let none_yet = used_zero d.ht0 valid.first (ground arith) in
          let (ok, positive) = expand_ok d 4 idle (omega arith) in
          rw (idle-is_rehashing d idle, expand_if_needed)
            (rw z (ok, positive, expand-Keeps d 4 valid))
      | inr z ↦
          elim (Bool-cases
            (leb d.ht0.size d.ht0.used && (can_resize || ltb 5 (d.ht0.used / d.ht0.size)))) [
              | inl full ↦
                  let (ok, positive) = expand_ok d (d.ht0.used * 2) idle (omega arith) in
                  rw (idle-is_rehashing d idle, expand_if_needed)
                    (rw z (rw full (ok, positive, expand-Keeps d (d.ht0.used * 2) valid)))
              | inr roomy ↦
                  rw (idle-is_rehashing d idle, expand_if_needed)
                    (rw z (rw roomy (refl, ground arith, (valid, λ q. refl))))
            ]
    ]
  ]
