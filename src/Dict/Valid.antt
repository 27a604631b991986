-- ===== src/Dict/Valid.antt =====
-- The invariant of a dictionary, and the map that it stands for.
use redis_allocators.Prelude.{
  ℕ, zero, suc, ◌+◌, ◌≤◌, ◌<◌, ◌≡◌, ◌≢◌, ◌⊎◌, inl, inr, refl, Option, none, some, [], ◌==◌, arith,
  length, Bool-cases,
}
use redis_allocators.Dict.Keys.{DictType}
use redis_allocators.Dict.Chains.{Chain, find_in, count_in}
use redis_allocators.Dict.Mask.{bit_and-le}
use redis_allocators.Dict.Table.{Ht, Dict, put_chain, reset, create}
use redis_allocators.Dict.{index}

-- The entries of the first `n` chains.
unfoldable pub total {ℓ} : {K V : Type ℓ} → (ℕ → Chain K V) → ℕ → ℕ
total t zero = 0
total t (suc n) = total t n + length (t n)

module _ {ℓ} {K V : Type ℓ} (t : ℕ → Chain K V) (i : ℕ) (c : Chain K V) where
  total_below : (n : ℕ) → n ≤ i → total (put_chain t i c) n ≡ total t n
  unfolding total
  total_below zero h = refl
  total_below (suc n) h = ground (arith, total_below n)

  pub total-put_chain :
      (n : ℕ) → i < n → total (put_chain t i c) n + length (t i) ≡ total t n + length c
  unfolding total
  total-put_chain zero h = absurd (omega arith)
  total-put_chain (suc n) h = elim (Bool-cases (i == n)) [
    | inl e ↦ ground (arith, total_below n)
    | inr e ↦ ground (arith, total-put_chain n)
  ]

pub total_nil {ℓ} : (K V : Type ℓ) (n : ℕ) → total {K = K} {V = V} (λ _. []) n ≡ 0
unfolding total
total_nil K V zero = refl
total_nil K V (suc n) = omega (arith, total_nil K V n)

abbrev pub or_else {ℓ} : {V : Type ℓ} → Option V → Option V → Option V
or_else none b = b
or_else (some a) b = some a

module _ {ℓ} {K V : Type ℓ} ⦃type : DictType K V⦄ where
  -- One table: an entry stands only in the chain of its hash, and `used` counts the entries.
  pub record HtValid (h : Ht K V) : Type ℓ where
    pub masked : (h.size ≡ 0) ⊎ (h.size ≡ h.sizemask + 1)
    pub counted : h.used ≡ total h.table h.size
    pub outside : (i : ℕ) → h.size ≤ i → h.table i ≡ []
    pub placed : (q : K) (i : ℕ) → i ≢ index h q → count_in q (h.table i) ≡ 0

  pub reset-HtValid : HtValid reset
  unfolding total count_in
  reset-HtValid = record {
    masked = inl refl;
    counted = refl;
    outside = λ i p. refl;
    placed = λ q i p. refl;
  }

  pub index-lt-size : (h : Ht K V) (q : K) → HtValid h → 0 < h.size → index h q < h.size
  index-lt-size h q v positive = ground (arith, v.masked, bit_and-le (type.hash q) h.sizemask)

  -- A write to one chain that keeps strange keys out and the count right.
  pub put_chain-HtValid :
      (h : Ht K V) (i used : ℕ) (c : Chain K V)
      → HtValid h
      → i < h.size
      → used + length (h.table i) ≡ h.used + length c
      → ((q : K) → i ≢ index h q → count_in q c ≡ 0)
      → HtValid (record h { table = put_chain h.table i c; used = used })
  put_chain-HtValid h i used c v inside count clean = record {
    masked = v.masked;
    counted = omega (arith, total-put_chain h.table i c h.size inside, v.counted);
    outside = λ j p. ground (arith, v.outside j);
    placed = λ q j p. ground (arith, v.placed q j, clean q);
  }

  -- The entries with this key in the two chains where it may stand.
  abbrev pub occurrences : Dict K V → K → ℕ
  occurrences d q =
      count_in q (d.ht0.table (index d.ht0 q)) + count_in q (d.ht1.table (index d.ht1 q))

  -- The invariant: each key occurs at most once, the second table is in use only while rehashing,
  -- and the chains before `rehashidx` have been moved.
  pub record IsValid (d : Dict K V) : Type ℓ where
    pub first : HtValid d.ht0
    pub second : HtValid d.ht1
    pub distinct : (q : K) → occurrences d q ≤ 1
    pub idle : d.rehashidx ≡ none → d.ht1.size ≡ 0
    pub busy :
        (r : ℕ)
        → d.rehashidx ≡ some r
        → (0 < d.ht0.size) × (0 < d.ht1.size) × ((i : ℕ) → i < r → d.ht0.table i ≡ [])

  -- The map that a dictionary stands for.
  abbrev pub view : Dict K V → K → Option V
  view d q =
      or_else (find_in q (d.ht0.table (index d.ht0 q))) (find_in q (d.ht1.table (index d.ht1 q)))

  pub create-IsValid : IsValid create × ((q : K) → view create q ≡ none)
  unfolding create count_in find_in
  create-IsValid = (
    record {
      first = reset-HtValid;
      second = reset-HtValid;
      distinct = λ q. omega arith;
      idle = λ e. refl;
      busy = λ r e. absurd (cc);
    },
    λ q. refl,
  )
