-- ===== src/Dict/Small.antt =====
-- Tables with at most 2 ^ 31 chains, whose indices the `int` of `dictAddRaw` holds, and the entries up
-- to which a table grows no further.
use redis_allocators.Prelude.{
  ℕ, ◌-◌, ◌*◌, ◌/◌, ◌^◌, ◌≤◌, ◌<◌, ◌≡◌, inl, inr, Bool, ◌&&◌, ◌||◌, none, ◌==◌, ltb, leb, arith,
  Bool-cases, Option-cases,
}
use redis_allocators.Dict.Keys.{DictType}
use redis_allocators.Dict.Mask.{bit_and-le_hash}
use redis_allocators.Dict.Valid.{IsValid, index-lt-size}
use redis_allocators.Dict.Push.{move_chain-push_all, size-push_all}
use redis_allocators.Dict.Rehash.{idle-is_rehashing, busy-is_rehashing}
use redis_allocators.Dict.Grow.{next_power_lem, expand_if_needed-Keeps}
use redis_allocators.Dict.Find.{step-Keeps}
use redis_allocators.Dict.Table.{
  Dict, size, next_power, skip_empty, expand, expand_if_needed, is_rehashing,
}
use redis_allocators.Dict.{index, target, rehash_bucket, rehash, rehash_step, step_if_rehashing}

next_power-le : (n : ℕ) → n ≤ 2 ^ 30 → next_power n ≤ 2 ^ 31
next_power-le n h = let (power, enough, least) = next_power_lem n (omega arith) in omega arith

module _ {ℓ} {K V : Type ℓ} where
  -- A dictionary with at most 2 ^ 29 entries and 2 ^ 31 chains in a table.
  pub record IsSmall (d : Dict K V) : Type 0 where
    pub first : d.ht0.size ≤ 2 ^ 31
    pub second : d.ht1.size ≤ 2 ^ 31
    pub entries : size d ≤ 2 ^ 29

  -- The same of the chains only, with few entries where the dictionary can grow.
  record IsRoomy (d : Dict K V) : Type ℓ where
    first : d.ht0.size ≤ 2 ^ 31
    second : d.ht1.size ≤ 2 ^ 31
    entries : d.rehashidx ≡ none → d.ht0.used ≤ 2 ^ 29

  small-IsRoomy : (d : Dict K V) → IsSmall d → IsRoomy d
  small-IsRoomy d small = record {
    first = small.first;
    second = small.second;
    entries = λ e. let n = small.entries in omega arith;
  }

module _ {ℓ} {K V : Type ℓ} ⦃type : DictType K V⦄ where
  expand-le :
      (d : Dict K V) (n : ℕ)
      → IsRoomy d
      → n ≤ 2 ^ 30
      → let d' = (expand d n).0 in (d'.ht0.size ≤ 2 ^ 31) × (d'.ht1.size ≤ 2 ^ 31)
  unfolding expand
  expand-le d n roomy few =
      let le = next_power-le n few in
      let le₀ = roomy.first in
      let le₁ = roomy.second in
      elim (Bool-cases (is_rehashing d || ltb n d.ht0.used)) [
        | inl e ↦ rw (e, expand) (le₀, le₁)
        | inr e ↦ elim (Bool-cases (d.ht0.size == 0)) [
          | inl z ↦ rw (e, expand) (rw z (le, le₁))
          | inr z ↦ rw (e, expand) (rw z (le₀, le))
        ]
      ]

  expand_if_needed-le :
      (can_resize : Bool) (d : Dict K V)
      → IsRoomy d
      → let d' = (expand_if_needed can_resize d).0 in
        (d'.ht0.size ≤ 2 ^ 31) × (d'.ht1.size ≤ 2 ^ 31)
  unfolding expand_if_needed
  expand_if_needed-le can_resize d roomy = elim (Option-cases d.rehashidx) [
    | inr (r, at) ↦ rw (busy-is_rehashing d r at, expand_if_needed) (roomy.first, roomy.second)
    | inl idle ↦ elim (Bool-cases (d.ht0.size == 0)) [
      | inl z ↦
          rw (idle-is_rehashing d idle, expand_if_needed) (rw z (expand-le d 4 roomy (omega arith)))
      | inr z ↦
          let few = roomy.entries idle in
          elim (Bool-cases
            (leb d.ht0.size d.ht0.used && (can_resize || ltb 5 (d.ht0.used / d.ht0.size)))) [
              | inl full ↦
                  rw (idle-is_rehashing d idle, expand_if_needed)
                    (rw z (rw full (expand-le d (d.ht0.used * 2) roomy (omega arith))))
              | inr other ↦
                  rw (idle-is_rehashing d idle, expand_if_needed)
                    (rw z (rw other (roomy.first, roomy.second)))
            ]
    ]
  ]

  rehash_bucket-IsRoomy : (d : Dict K V) (r : ℕ) → IsSmall d → IsRoomy (rehash_bucket d r)
  unfolding rehash_bucket
  rehash_bucket-IsRoomy d r small =
      let c = d.ht0.table (skip_empty (d.ht0.size - r) d.ht0.table r) in
      let le₁ = small.second in
      record {
        first = rw (move_chain-push_all c d) (small.first);
        second = rw (move_chain-push_all c d, size-push_all c d.ht1) le₁;
        entries = λ e. absurd (cc);
      }

  rehash_one-IsRoomy : (d : Dict K V) → IsSmall d → IsRoomy (rehash 1 d).0
  unfolding rehash
  rehash_one-IsRoomy d small = elim (Option-cases d.rehashidx) [
    | inl idle ↦ rw (idle, rehash) (small-IsRoomy d small)
    | inr (r, at) ↦ elim (Bool-cases (d.ht0.used == 0)) [
      | inl e ↦
          let le₁ = small.second in
          let n = small.entries in
          rw (at, rehash)
            (rw e (record { first = le₁; second = omega arith; entries = λ _. omega arith }))
      | inr e ↦ rw (at, rehash) (rw e (rehash_bucket-IsRoomy d r small))
    ]
  ]

  step-IsRoomy : (d : Dict K V) → IsSmall d → IsRoomy (step_if_rehashing d)
  unfolding step_if_rehashing rehash_step
  step-IsRoomy d small = elim (Bool-cases (is_rehashing d)) [
    | inr e ↦ rw (e, step_if_rehashing) (small-IsRoomy d small)
    | inl e ↦ elim (Bool-cases (d.iterators == 0)) [
      | inl z ↦ rw (e, step_if_rehashing) (rw (z, rehash_step) (rehash_one-IsRoomy d small))
      | inr z ↦ rw (e, step_if_rehashing) (rw (z, rehash_step) (small-IsRoomy d small))
    ]
  ]

  -- The dictionary in which `dictAddRaw` looks for the key.
  abbrev pub ready : Bool → Dict K V → Dict K V
  ready can_resize d = (expand_if_needed can_resize (step_if_rehashing d)).0

  -- The index of a new entry is one that an `int` holds.
  abbrev pub HasIndex : Dict K V → K → Type 0
  HasIndex d k = index (target d) k < 2 ^ 31

  index-of_le :
      (d : Dict K V) (k : K)
      → IsValid d
      → 0 < d.ht0.size
      → d.ht0.size ≤ 2 ^ 31
      → d.ht1.size ≤ 2 ^ 31
      → HasIndex d k
  index-of_le d k valid room le₀ le₁ = elim (Option-cases d.rehashidx) [
    | inl idle ↦
        let lt = index-lt-size d.ht0 k valid.first room in
        rw (idle-is_rehashing d idle) (omega arith)
    | inr (r, at) ↦
        let (_, room', _) = valid.busy r at in
        let lt = index-lt-size d.ht1 k valid.second room' in
        rw (busy-is_rehashing d r at) (omega arith)
  ]

  pub small-HasIndex :
      (can_resize : Bool) (d : Dict K V) (k : K)
      → IsValid d
      → IsSmall d
      → HasIndex (ready can_resize d) k
  small-HasIndex can_resize d k valid small =
      let stepped = step-Keeps d valid in
      let (grown, room, kept) = expand_if_needed-Keeps can_resize (step_if_rehashing d) stepped.0 in
      let (le₀, le₁) =
        expand_if_needed-le can_resize (step_if_rehashing d) (step-IsRoomy d small) in
      index-of_le (ready can_resize d) k kept.0 room le₀ le₁

  -- So is that of a key whose hash has 31 bits.
  pub hash-HasIndex : (d : Dict K V) (k : K) → type.hash k < 2 ^ 31 → HasIndex d k
  hash-HasIndex d k small =
      let le = bit_and-le_hash (type.hash k) (target d).sizemask in omega arith
