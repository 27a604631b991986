-- ===== src/Dict/Table.antt =====
-- dict.c: the two tables of a dictionary, their sizes, and how they grow.
use redis_allocators.Prelude.{
  ℕ, zero, suc, ◌+◌, ◌-◌, ◌*◌, ◌/◌, ◌%◌, ◌^◌, Bool, true, false, not, ◌&&◌, ◌||◌, Option, none,
  some, [], ◌∷◌, ltb, leb, ◌==◌, if◌then◌else◌,
}
use redis_allocators.Dict.Chains.{Chain}

-- `dictht`. The array of chains is a function of the index; `table == NULL` is `size == 0`. `used`
-- counts entries in memory, so it does not overflow, and it is positive where an entry leaves.
pub record Ht {ℓ} (K V : Type ℓ) : Type ℓ where
  pub table : ℕ → Chain K V
  pub size : ℕ
  pub sizemask : ℕ
  pub used : ℕ

-- `dict`; `rehashidx` is `none` for -1.
pub record Dict {ℓ} (K V : Type ℓ) : Type ℓ where
  pub ht0 : Ht K V
  pub ht1 : Ht K V
  pub rehashidx : Option ℕ
  pub iterators : ℕ

abbrev pub is_rehashing {ℓ} : {K V : Type ℓ} → Dict K V → Bool
is_rehashing d = elim d.rehashidx [ none ↦ false | some _ ↦ true ]

-- `dictSize`
abbrev pub size {ℓ} : {K V : Type ℓ} → Dict K V → ℕ
size d = d.ht0.used + d.ht1.used

-- A write to one bucket.
abbrev pub put_chain {ℓ} : {K V : Type ℓ} → (ℕ → Chain K V) → ℕ → Chain K V → ℕ → Chain K V
put_chain t i c = λ j. if i == j then c else t j

-- `_dictReset`
abbrev pub reset {ℓ} : {K V : Type ℓ} → Ht K V
reset = record { table = λ _. []; size = 0; sizemask = 0; used = 0 }

-- `dictCreate` and `_dictInit`
unfoldable pub create {ℓ} : {K V : Type ℓ} → Dict K V
create = record { ht0 = reset; ht1 = reset; rehashidx = none; iterators = 0 }

-- The loop of `_dictNextPower`; from 4 on, 62 doublings reach every size below `LONG_MAX`.
unfoldable pub next_power_loop : ℕ → ℕ → ℕ → ℕ
next_power_loop zero size i = i
next_power_loop (suc fuel) size i =
    let rest = next_power_loop fuel size (i * 2) in if leb size i then i else rest

abbrev pub long_max : ℕ
long_max = 2 ^ 63 - 1

-- `_dictNextPower`
unfoldable pub next_power : ℕ → ℕ
next_power size = if leb long_max size then long_max else next_power_loop 62 size 4

-- A search for a chain that is not empty: `while (table[i] == NULL) i++`.
unfoldable pub skip_empty {ℓ} : {K V : Type ℓ} → ℕ → (ℕ → Chain K V) → ℕ → ℕ
skip_empty zero t i = i
skip_empty (suc fuel) t i = elim (t i) [ [] ↦ skip_empty fuel t (i + 1) | _ ∷ _ ↦ i ]

module _ {ℓ} {K V : Type ℓ} where
  -- `dictExpand`: the dictionary, and whether it returned `DICT_OK`.
  unfoldable pub expand : Dict K V → ℕ → Dict K V × Bool
  expand d size =
      let realsize = next_power size in
      let n : Ht K V = record {
        table = λ _. [];
        size = realsize;
        sizemask = realsize - 1;
        used = 0;
      } in
      if is_rehashing d || ltb size d.ht0.used
      then (d, false)
      else if d.ht0.size == 0
      then (record d { ht0 = n }, true)
      else (record d { ht1 = n; rehashidx = some 0 }, true)

  -- `dictResize`, for the global `dict_can_resize`; `minimal` is an `int`, below 4 also where it is
  -- negative.
  unfoldable pub resize : Bool → Dict K V → Dict K V × Bool
  resize can_resize d =
      let minimal = d.ht0.used % 2 ^ 32 in
      if not can_resize || is_rehashing d
      then (d, false)
      else expand d (if leb (2 ^ 31) minimal || ltb minimal 4 then 4 else minimal)

  -- `_dictExpandIfNeeded`
  unfoldable pub expand_if_needed : Bool → Dict K V → Dict K V × Bool
  expand_if_needed can_resize d =
      if is_rehashing d
      then (d, true)
      else if d.ht0.size == 0
      then expand d 4
      else if leb d.ht0.size d.ht0.used && (can_resize || ltb 5 (d.ht0.used / d.ht0.size))
      then expand d (d.ht0.used * 2)
      else (d, true)
