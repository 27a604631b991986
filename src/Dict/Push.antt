-- ===== src/Dict/Push.antt =====
-- Entries at the head of their chains: `dictAddRaw`, and the loop of `dictRehash` over a chain.
use redis_allocators.Prelude.{
  ℕ, ◌+◌, ◌-◌, ◌≤◌, ◌<◌, ◌≡◌, refl, ap, ◌∙◌, true, some, [], ◌∷◌, if◌then◌else◌, arith, length,
}
use redis_allocators.Dict.Keys.{DictType}
use redis_allocators.Dict.Chains.{Chain, find_in, count_in, find-count_zero}
use redis_allocators.Dict.Valid.{HtValid, put_chain-HtValid, index-lt-size, or_else}
use redis_allocators.Dict.Table.{Ht, Dict, put_chain}
use redis_allocators.Dict.{index, move_chain}

module _ {ℓ} {K V : Type ℓ} ⦃type : DictType K V⦄ where
  abbrev pub push_at : Ht K V → ℕ → K × V → Ht K V
  push_at h i e = record h { table = put_chain h.table i (e ∷ h.table i); used = h.used + 1 }

  module _ (h : Ht K V) (i : ℕ) (e : K × V) (home : i ≡ index h e.0) where
    same_index : (q : K) → type.compare_keys q e.0 ≡ true → i ≡ index h q
    same_index q c = ground (arith, type.hash_compare q e.0)

    pub push_at-HtValid : HtValid h → 0 < h.size → HtValid (push_at h i e)
    unfolding count_in
    push_at-HtValid v positive =
        put_chain-HtValid h i (h.used + 1) (e ∷ h.table i) v
          (let lt = index-lt-size h e.0 v positive in omega arith) (omega arith)
          (λ q p. ground (arith, same_index q, v.placed q i))

    pub find-push_at :
        (q : K)
        → find_in q ((push_at h i e).table (index h q))
          ≡ (if type.compare_keys q e.0 then some e.1 else find_in q (h.table (index h q)))
    unfolding find_in
    find-push_at q = ground (arith, same_index q)

    pub count-push_at :
        (q : K)
        → count_in q ((push_at h i e).table (index h q))
          ≡ (if type.compare_keys q e.0 then 1 else 0) + count_in q (h.table (index h q))
    unfolding count_in
    count-push_at q = ground (arith, same_index q)

  -- The new table when a chain has been moved into it.
  pub push_all : Chain K V → Ht K V → Ht K V
  push_all [] h = h
  push_all (e ∷ rest) h = push_all rest (push_at h (index h e.0) e)

  pub move_chain-push_all :
      (c : Chain K V) (d : Dict K V)
      → move_chain c d
        ≡ record d { ht0 = record d.ht0 { used = d.ht0.used - length c }; ht1 = push_all c d.ht1 }
  unfolding move_chain push_all
  move_chain-push_all [] d =
      ap (λ n. record d { ht0 = record d.ht0 { used = n }; ht1 = d.ht1 }) (omega arith)
  move_chain-push_all (e ∷ rest) d =
      move_chain-push_all rest _
      ∙ ap
          (λ n. record d {
            ht0 = record d.ht0 { used = n };
            ht1 = push_all rest (push_at d.ht1 (index d.ht1 e.0) e);
          })
          (omega arith)

  pub mask-push_all : (c : Chain K V) (h : Ht K V) → (push_all c h).sizemask ≡ h.sizemask
  unfolding push_all
  mask-push_all [] h = refl
  mask-push_all (e ∷ c) h = mask-push_all c (push_at h (index h e.0) e)

  pub size-push_all : (c : Chain K V) (h : Ht K V) → (push_all c h).size ≡ h.size
  unfolding push_all
  size-push_all [] h = refl
  size-push_all (e ∷ c) h = size-push_all c (push_at h (index h e.0) e)

  pub used-push_all : (c : Chain K V) (h : Ht K V) → (push_all c h).used ≡ h.used + length c
  unfolding push_all
  used-push_all [] h = omega arith
  used-push_all (e ∷ c) h = omega (arith, used-push_all c (push_at h (index h e.0) e))

  pub push_all-HtValid :
      (c : Chain K V) (h : Ht K V) → HtValid h → 0 < h.size → HtValid (push_all c h)
  unfolding push_all
  push_all-HtValid [] h v positive = v
  push_all-HtValid (e ∷ c) h v positive =
      push_all-HtValid c (push_at h (index h e.0) e) (push_at-HtValid h _ e refl v positive)
        positive

  pub count-push_all :
      (q : K) (c : Chain K V) (h : Ht K V)
      → count_in q ((push_all c h).table (index h q))
        ≡ count_in q c + count_in q (h.table (index h q))
  unfolding push_all count_in
  count-push_all q [] h = omega arith
  count-push_all q (e ∷ c) h =
      omega (arith, count-push_all q c (push_at h (index h e.0) e), count-push_at h _ e refl q)

  -- Where a key occurs at most once, it is found where it stands.
  pub find-push_all :
      (q : K) (c : Chain K V) (h : Ht K V)
      → count_in q c + count_in q (h.table (index h q)) ≤ 1
      → find_in q ((push_all c h).table (index h q))
        ≡ or_else (find_in q c) (find_in q (h.table (index h q)))
  unfolding push_all count_in find_in
  find-push_all q [] h once = refl
  find-push_all q (e ∷ c) h once =
      let h' = push_at h (index h e.0) e in
      ground (
        arith,
        find-push_all q c h',
        find-push_at h _ e refl q,
        count-push_at h _ e refl q,
        find-count_zero q c,
      )
