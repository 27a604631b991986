-- ===== src/Dict.antt =====
-- dict.c: a hash table with chaining that moves its entries to a table of another size a bucket at
-- a time, while it is in use.
pub mod Table
pub mod Keys
pub mod Chains
pub mod Mask
pub mod Valid
pub mod Push
pub mod Rehash
pub mod Skip
pub mod Grow
pub mod Find
pub mod Small
pub mod Update
pub mod Delete
pub mod Replace
pub mod Raw
use Prim.Native.Nat.{bit_and}
use redis_allocators.Prelude.{
  ℕ, zero, suc, ◌+◌, ◌-◌, ◌*◌, ◌/◌, ◌%◌, ◌^◌, Bool, true, false, not, ◌&&◌, ◌||◌, Option, none,
  some, List, [], ◌∷◌, ltb, leb, ◌==◌, if◌then◌else◌,
}
use redis_allocators.Prelude.Int.{ℤ, pos, negsuc, eqb_ℤ, to_int}
use Keys.{DictType}
use Chains.{Chain, find_in, assign_in, erase_in}
use Table.{Ht, size, Dict, is_rehashing, put_chain, reset, skip_empty, expand_if_needed}

module _ {ℓ} {K V : Type ℓ} ⦃type : DictType K V⦄ where
  -- `dictHashKey(d, key) & sizemask`
  abbrev pub index : Ht K V → K → ℕ
  index h k = bit_and (type.hash k) h.sizemask

  -- The loop of `dictRehash` over one chain: each entry goes to the head of its new chain.
  unfoldable pub move_chain : Chain K V → Dict K V → Dict K V
  move_chain [] d = d
  move_chain (e ∷ rest) d =
      let i = index d.ht1 e.0 in
      move_chain rest (record d {
        ht0 = record d.ht0 { used = d.ht0.used - 1 };
        ht1 = record d.ht1 {
          table = put_chain d.ht1.table i (e ∷ d.ht1.table i);
          used = d.ht1.used + 1;
        };
      })

  -- A chain is taken out of the old table.
  abbrev pub clear_bucket : ℕ → Dict K V → Dict K V
  clear_bucket i d = record d {
    ht0 = record d.ht0 { table = put_chain d.ht0.table i [] };
    rehashidx = some (i + 1);
  }

  -- One round of `dictRehash` from `rehashidx` on, for a table that still has entries.
  unfoldable pub rehash_bucket : Dict K V → ℕ → Dict K V
  rehash_bucket d start =
      let i = skip_empty (d.ht0.size - start) d.ht0.table start in
      clear_bucket i (move_chain (d.ht0.table i) d)

  -- `dictRehash`: the dictionary, and whether there is more to move.
  unfoldable pub rehash : ℕ → Dict K V → Dict K V × Bool
  rehash zero d = (d, is_rehashing d)
  rehash (suc n) d = elim d.rehashidx [
    | none ↦ (d, false)
    | some i ↦
        let rest = rehash n (rehash_bucket d i) in
        if d.ht0.used == 0
        then (record d { ht0 = d.ht1; ht1 = reset; rehashidx = none }, false)
        else rest
  ]

  -- `_dictRehashStep`
  unfoldable pub rehash_step : Dict K V → Dict K V
  rehash_step d = if d.iterators == 0 then (rehash 1 d).0 else d

  -- The step that the operations make first.
  unfoldable pub step_if_rehashing : Dict K V → Dict K V
  step_if_rehashing d = if is_rehashing d then rehash_step d else d

  -- The search of both tables that `dictFind`, `_dictKeyIndex` and `dictGenericDelete` make.
  unfoldable pub find_entry : Dict K V → K → Option V
  find_entry d k = elim (find_in k (d.ht0.table (index d.ht0 k))) [
    | some v ↦ some v
    | none ↦ if is_rehashing d then find_in k (d.ht1.table (index d.ht1 k)) else none
  ]

  -- `dictFind`, with the value of the entry, and `dictFetchValue`.
  unfoldable pub find : Dict K V → K → Dict K V × Option V
  find d k =
      if d.ht0.size == 0 then (d, none) else let d' = step_if_rehashing d in (d', find_entry d' k)

  -- The table that takes new entries.
  abbrev pub target : Dict K V → Ht K V
  target d = if is_rehashing d then d.ht1 else d.ht0

  -- The `int index` of `dictAddRaw`, which `_dictKeyIndex` returns for a key that is not there.
  abbrev pub key_index : Dict K V → K → ℤ
  key_index d k = to_int (index (target d) k)

  -- A new entry at the head of the chain at an index. At a negative index the pointer to the entry is
  -- written below the table, where no search finds it.
  abbrev pub push : Ht K V → ℤ → K → V → Ht K V
  push h (pos i) k v = record h {
    table = put_chain h.table i ((type.key_dup k, v) ∷ h.table i);
    used = h.used + 1;
  }
  push h (negsuc n) k v = record h { used = h.used + 1 }

  -- The end of `dictAddRaw`; the index -1 means that the key is there.
  abbrev pub store : Dict K V → ℤ → K → V → Dict K V × Bool
  store d i k v = if eqb_ℤ i (negsuc 0) then (d, false) else (
    if is_rehashing d
        then record d { ht1 = push d.ht1 i k v }
        else record d { ht0 = push d.ht0 i k v },
    true,
  )

  -- `dictAddRaw`, with the value that its caller stores in the entry, for the global
  -- `dict_can_resize`. `_dictKeyIndex` reports -1 for a key that is there or a failed expansion.
  unfoldable pub add_raw : Bool → Dict K V → K → V → Dict K V × Bool
  add_raw can_resize d k v =
      let (d', grown) = expand_if_needed can_resize (step_if_rehashing d) in
      if not grown
      then (d', false)
      else elim (find_entry d' k) [ some _ ↦ (d', false) | none ↦ store d' (key_index d' k) k v ]

  -- `dictAdd`: true for `DICT_OK`.
  unfoldable pub add : Bool → Dict K V → K → V → Dict K V × Bool
  add can_resize d k v = add_raw can_resize d k (type.val_dup v)

  -- `dictSetVal` on the entry that `dictFind` has returned.
  unfoldable pub set_entry : Dict K V → K → V → Dict K V
  set_entry d k v =
      let i = index d.ht0 k in
      let j = index d.ht1 k in
      elim (find_in k (d.ht0.table i)) [
        | some _ ↦ record d {
          ht0 = record d.ht0 { table = put_chain d.ht0.table i (assign_in k v (d.ht0.table i)) };
        }
        | none ↦ record d {
          ht1 = record d.ht1 { table = put_chain d.ht1.table j (assign_in k v (d.ht1.table j)) };
        }
      ]

  -- `dictReplace`: true for a new key.
  unfoldable pub replace : Bool → Dict K V → K → V → Dict K V × Bool
  replace can_resize d k v =
      let (d', added) = add can_resize d k v in
      if added then (d', true) else (set_entry (find d' k).0 k (type.val_dup v), false)

  -- `dictReplaceRaw`, with the value that its caller stores in the entry.
  unfoldable pub replace_raw : Bool → Dict K V → K → V → Dict K V
  replace_raw can_resize d k v =
      let (d', found) = find d k in
      elim found [ some _ ↦ set_entry d' k v | none ↦ (add_raw can_resize d' k v).0 ]

  -- The entry unlinked from its chain.
  abbrev pub unlink : Ht K V → K → Ht K V
  unlink h k =
      let i = index h k in
      record h { table = put_chain h.table i (erase_in k (h.table i)); used = h.used - 1 }

  -- `dictGenericDelete`: true for `DICT_OK`. `nofree` only decides what is released.
  unfoldable pub generic_delete : Dict K V → K → Dict K V × Bool
  generic_delete d k =
      if d.ht0.size == 0
      then (d, false)
      else let d' = step_if_rehashing d in
        elim (find_in k (d'.ht0.table (index d'.ht0 k))) [
          | some _ ↦ (record d' { ht0 = unlink d'.ht0 k }, true)
          | none ↦
              if not (is_rehashing d')
              then (d', false)
              else elim (find_in k (d'.ht1.table (index d'.ht1 k))) [
                | some _ ↦ (record d' { ht1 = unlink d'.ht1 k }, true)
                | none ↦ (d', false)
              ]
        ]

  -- `dictEmpty`, for a callback that does not touch the dictionary.
  unfoldable pub empty : Dict K V → Dict K V
  empty d = record { ht0 = reset; ht1 = reset; rehashidx = none; iterators = 0 }
