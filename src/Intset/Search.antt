-- ===== src/Intset/Search.antt =====
-- `intsetSearch` finds a value of a sorted set, or the place where it belongs.
use redis_allocators.Prelude.{
  ℕ, zero, suc, ◌+◌, ◌-◌, ◌/◌, ◌%◌, ◌^◌, ◌≤◌, ◌<◌, ◌≡◌, refl, sym, subst, ◌⊎◌, inl, inr, Bool, true,
  false, ltb, ◌==◌, if◌then◌else◌, arith, dec_lt, Bool-cases,
}
use redis_allocators.Prelude.Int.{ℤ, negsuc, ltb_ℤ, eqb_ℤ, eq_of_parts, ◌<ℤ◌}
use redis_allocators.Intset.{Intset, get, search_loop, search}

-- The cells in use are strictly increasing.
abbrev pub IsSorted : Intset → Type 0
IsSorted s = (i j : ℕ) → i < j → j < s.len → get s i <ℤ get s j

-- The cells before `p` are below `v`, and those from `p` on are above it.
pub record Split (s : Intset) (v : ℤ) (p : ℕ) : Type 0 where
  pub within : p ≤ s.len
  pub below : (i : ℕ) → i < p → get s i <ℤ v
  pub above : (i : ℕ) → p ≤ i → i < s.len → v <ℤ get s i

abbrev pub Located : Intset → ℤ → Bool → ℕ → ℕ → Type 0
Located s v found at place =
    ((found ≡ true) × (at < s.len) × (get s at ≡ v)) ⊎ ((found ≡ false) × Split s v place)

abbrev middle : ℕ → ℕ → ℕ
middle min hi = (min + (hi - 1)) % 2 ^ 32 / 2

-- The loop's four ways to go on.
module _ (s : Intset) (v : ℤ) (fuel min hi mid : ℕ) (cur : ℤ) where
  loop_end : ltb min hi ≡ false → search_loop (suc fuel) s v min hi mid cur ≡ (min, mid, cur)
  unfolding search_loop
  loop_end a = rw (a, search_loop)

  loop_right :
      ltb min hi ≡ true
      → ltb_ℤ (get s (middle min hi)) v ≡ true
      → search_loop (suc fuel) s v min hi mid cur
        ≡ search_loop fuel s v (middle min hi + 1) hi (middle min hi) (get s (middle min hi))
  unfolding search_loop
  loop_right a b = rw (a, search_loop) (rw b)

  loop_left :
      ltb min hi ≡ true
      → ltb_ℤ (get s (middle min hi)) v ≡ false
      → ltb_ℤ v (get s (middle min hi)) ≡ true
      → search_loop (suc fuel) s v min hi mid cur
        ≡ search_loop fuel s v min (middle min hi) (middle min hi) (get s (middle min hi))
  unfolding search_loop
  loop_left a b c = rw (a, search_loop) (rw b (rw c))

  loop_hit :
      ltb min hi ≡ true
      → ltb_ℤ (get s (middle min hi)) v ≡ false
      → ltb_ℤ v (get s (middle min hi)) ≡ false
      → search_loop (suc fuel) s v min hi mid cur ≡ (min, middle min hi, get s (middle min hi))
  unfolding search_loop
  loop_hit a b c = rw (a, search_loop) (rw b (rw c))

abbrev pub Answers : Intset → ℤ → Bool × ℕ → Type 0
Answers s v (found, p) = Located s v found p p

abbrev LoopLocated : Intset → ℤ → ℕ × ℕ × ℤ → Type 0
LoopLocated s v (min, mid, cur) = Located s v (eqb_ℤ v cur) mid min

module _ (s : Intset) (v : ℤ) (sorted : IsSorted s) (small : s.len < 2 ^ 28) where
  below_upto : (m : ℕ) → m < s.len → get s m <ℤ v → (i : ℕ) → i < m + 1 → get s i <ℤ v
  below_upto m h lt i p = elim (dec_lt i m) [
    | yes q ↦ omega (arith, sorted i m q h)
    | no q ↦ let e : i ≡ m = omega arith in subst (λ k. get s k <ℤ v) (sym e) lt
  ]

  above_from : (m : ℕ) → m < s.len → v <ℤ get s m → (i : ℕ) → m ≤ i → i < s.len → v <ℤ get s i
  above_from m h lt i p q = elim (dec_lt m i) [
    | yes r ↦ omega (arith, sorted m i r q)
    | no r ↦ let e : i ≡ m = omega arith in subst (λ k. v <ℤ get s k) (sym e) lt
  ]

  search_loop-Located :
      (fuel min hi mid : ℕ) (cur : ℤ)
      → hi ≤ min + fuel
      → min ≤ hi
      → hi ≤ s.len
      → ((i : ℕ) → i < min → get s i <ℤ v)
      → ((i : ℕ) → hi ≤ i → i < s.len → v <ℤ get s i)
      → (min < hi) ⊎ (eqb_ℤ v cur ≡ false)
      → LoopLocated s v (search_loop fuel s v min hi mid cur)
  unfolding search_loop
  search_loop-Located zero min hi mid cur room le fit below above entered = inr (
    ground arith,
    record { within = omega arith; below = below; above = λ i p q. above i (omega arith) q },
  )
  search_loop-Located (suc fuel) min hi mid cur room le fit below above entered =
      elim (Bool-cases (ltb min hi)) [
        | inr a ↦ subst (LoopLocated s v) (sym (loop_end s v fuel min hi mid cur a)) (
            inr (
              ground arith,
              record {
                within = omega arith;
                below = below;
                above = λ i p q. above i (ground arith) q;
              },
            ))
        | inl a ↦
            let m = middle min hi in
            let bounds : (min ≤ m) × (m < hi) = ground arith in
            elim (Bool-cases (ltb_ℤ (get s m) v)) [
              | inl b ↦ subst (LoopLocated s v) (sym (loop_right s v fuel min hi mid cur a b)) (
                  search_loop-Located fuel (m + 1) hi m (get s m) (omega arith) (omega arith) fit
                    (below_upto m (omega arith) (ground arith)) above (inr (ground arith)))
              | inr b ↦ elim (Bool-cases (ltb_ℤ v (get s m))) [
                | inl c ↦ subst (LoopLocated s v) (sym (loop_left s v fuel min hi mid cur a b c)) (
                    search_loop-Located fuel min m m (get s m) (omega arith) (omega arith)
                      (omega arith) below (above_from m (omega arith) (ground arith))
                      (inr (ground arith)))
                | inr c ↦
                    subst (LoopLocated s v) (sym (loop_hit s v fuel min hi mid cur a b c))
                      (inl (ground arith, omega arith, eq_of_parts _ _ (ground arith)))
              ]
            ]
      ]

  loop_result : ℕ × ℕ × ℤ → Bool × ℕ
  loop_result (min, mid, cur) = if eqb_ℤ v cur then (true, mid) else (false, min)

  loop_result-Located : (r : ℕ × ℕ × ℤ) → LoopLocated s v r → Answers s v (loop_result r)
  unfolding loop_result
  loop_result-Located (min, mid, cur) (inl h) = rw h.0 (inl (refl, h.1, h.2))
  loop_result-Located (min, mid, cur) (inr h) = rw h.0 (inr (refl, h.1))

  -- The answer and the place that `intsetSearch` reports.
  pub search-Located : Answers s v (search s v)
  unfolding search loop_result
  search-Located = elim (Bool-cases (s.len == 0)) [
    | inl a ↦
        rw (a, search)
          (inr (
            refl,
            record {
              within = omega arith;
              below = λ i p. absurd (omega arith);
              above = λ i p q. absurd (ground arith);
            },
          ))
    | inr a ↦
        let some_cell : 0 < s.len = ground arith in
        elim (Bool-cases (ltb_ℤ (get s (s.len - 1)) v)) [
          | inl b ↦
              rw (a, search)
                (rw b (
                  inr (
                    refl,
                    record {
                      within = omega arith;
                      below = λ i p.
                          below_upto (s.len - 1) (omega arith) (ground arith) i (omega arith);
                      above = λ i p q. absurd (omega arith);
                    },
                  )))
          | inr b ↦ elim (Bool-cases (ltb_ℤ v (get s 0))) [
            | inl c ↦
                rw (a, search)
                  (rw b (
                    rw c (
                      inr (
                        refl,
                        record {
                          within = omega arith;
                          below = λ i p. absurd (omega arith);
                          above = λ i p q. above_from 0 some_cell (ground arith) i p q;
                        },
                      ))))
            | inr c ↦
                rw (a, search)
                  (rw b (
                    rw c (
                      loop_result-Located _ (
                        search_loop-Located s.len 0 s.len 0 (negsuc 0) (omega arith) (omega arith)
                          (omega arith) (λ i p. absurd (omega arith))
                          (λ i p q. absurd (omega arith)) (inl some_cell)))))
          ]
        ]
  ]
