-- ===== src/Intset/Upgrade.antt =====
-- Wider cells: `_intsetValueEncoding` and the loop of `intsetUpgradeAndAdd`.
use redis_allocators.Prelude.{
  ℕ, zero, suc, ◌+◌, ◌*◌, ◌%◌, ◌^◌, ◌≤◌, ◌<◌, ◌≡◌, refl, ap, ◌∙◌, inl, inr, true, false, arith,
  dec_lt,
}
use redis_allocators.Prelude.Int.{ℤ, pos, negsuc, ltb_ℤ, ◌<ℤ◌}
use redis_allocators.Prelude.Memory.{Memory}
use redis_allocators.Intset.{
  Intset, get, set, value_encoding, get_encoded, set_encoded, upgrade_loop, upgrade_and_add, resize,
}
use redis_allocators.Intset.Cell.{
  IsEncoding, Fits, half_range, get-set_same, get-set_apart, get_encoded-Fits,
}
use redis_allocators.Intset.Search.{Split}
use redis_allocators.Intset.Valid.{IsValid, Inserted}

pub value_encoding-IsEncoding : (v : ℤ) → IsEncoding (value_encoding v)
unfolding value_encoding
value_encoding-IsEncoding v = ground arith

-- `_intsetValueEncoding` gives the least width that holds the value.
pub wide_enough :
    (enc : ℕ) (v : ℤ)
    → IsEncoding enc
    → Fits (2 ^ 63) v
    → value_encoding v ≤ enc
    → Fits (half_range enc) v
unfolding value_encoding
wide_enough enc (pos n) width long h = ground arith
wide_enough enc (negsuc n) width long h = ground arith

pub encoding_of_Fits :
    (enc : ℕ) (v : ℤ) → IsEncoding enc → Fits (half_range enc) v → value_encoding v ≤ enc
unfolding value_encoding
encoding_of_Fits enc (pos n) width h = ground arith
encoding_of_Fits enc (negsuc n) width h = ground arith

-- A value that needs wider cells lies outside the range of the narrow ones.
wide_negative :
    (enc n : ℕ) (x : ℤ)
    → IsEncoding enc
    → enc < value_encoding (negsuc n)
    → Fits (half_range enc) x
    → negsuc n <ℤ x
unfolding value_encoding
wide_negative enc n (pos k) width h fits = ground arith
wide_negative enc n (negsuc k) width h fits = ground arith

wide_positive :
    (enc n : ℕ) (x : ℤ)
    → IsEncoding enc
    → enc < value_encoding (pos n)
    → Fits (half_range enc) x
    → x <ℤ pos n
unfolding value_encoding
wide_positive enc n (pos k) width h fits = ground arith
wide_positive enc n (negsuc k) width h fits = ground arith

Fits-half_range :
    (c w : ℕ) (v : ℤ)
    → IsEncoding c
    → IsEncoding w
    → c < w
    → Fits (half_range c) v
    → Fits (half_range w) v
Fits-half_range c w (pos n) ec ew h fits = ground arith
Fits-half_range c w (negsuc n) ec ew h fits = ground arith

module _ (c w p : ℕ) (narrow : IsEncoding c) (wide : IsEncoding w) (h : c < w) where
  -- Cells from `n + p` on are not written by the last `n` rounds.
  upgrade_loop_frame :
      (n : ℕ) (m : Memory) (q : ℕ)
      → n + p ≤ q
      → get_encoded (upgrade_loop c w p n m) q w ≡ get_encoded m q w
  unfolding upgrade_loop
  upgrade_loop_frame zero m q le = refl
  upgrade_loop_frame (suc n) m q le =
      upgrade_loop_frame n _ q (omega arith)
      ∙ get-set_apart m w (n + p) w q _ wide wide (inr (grind arith))

  -- Every old cell is read at its new place.
  pub upgrade_loop_lem :
      (n : ℕ) (m : Memory) (q : ℕ)
      → q < n
      → get_encoded (upgrade_loop c w p n m) (q + p) w ≡ get_encoded m q c
  unfolding upgrade_loop
  upgrade_loop_lem zero m q lt = absurd (omega arith)
  upgrade_loop_lem (suc n) m q lt =
      let m' = set_encoded m w (n + p) (get_encoded m n c) in
      elim (dec_lt q n) [
        | yes a ↦
            upgrade_loop_lem n m' q a
            ∙ get-set_apart m w (n + p) c q _ wide narrow (inl (grind arith))
        | no a ↦
            let e : q ≡ n = omega arith in
            rw e (
              upgrade_loop_frame n m' (n + p) (omega arith)
              ∙ get-set_same m w (n + p) _ wide
                  (Fits-half_range c w _ narrow wide h (get_encoded-Fits m n c narrow)))
      ]

-- The byte count of a set within the bound does not wrap.
pub size_fits : (n w : ℕ) → n < 2 ^ 28 → IsEncoding w → n * w % 2 ^ 32 ≡ n * w
size_fits n w h (inl e) = rw e (omega arith)
size_fits n w h (inr (inl e)) = rw e (omega arith)
size_fits n w h (inr (inr e)) = rw e (omega arith)

module _ (s : Intset) (n : ℕ) where
  abbrev wide_block : ℕ → ℤ → Memory
  wide_block p v = upgrade_loop s.encoding (value_encoding v) p s.len s.contents

  abbrev widened : ℕ → ℕ → ℤ → Intset
  widened p at v = record {
    encoding = value_encoding v;
    len = s.len + 1;
    contents = set_encoded (wide_block p v) (value_encoding v) at v;
    allocated = (s.len + 1) * value_encoding v % 2 ^ 32;
  }

  upgrade_positive : upgrade_and_add s (pos n) ≡ widened 0 s.len (pos n)
  unfolding upgrade_and_add set resize
  upgrade_positive = let e : ltb_ℤ (pos n) (pos 0) ≡ false = ground arith in rw (e, upgrade_and_add)

  upgrade_negative : upgrade_and_add s (negsuc n) ≡ widened 1 0 (negsuc n)
  unfolding upgrade_and_add set resize
  upgrade_negative =
      let e : ltb_ℤ (negsuc n) (pos 0) ≡ true = ground arith in rw (e, upgrade_and_add)

-- What `intsetUpgradeAndAdd` does with a value that is too wide for the cells: the cells get its
-- width, and it stands before all others if it is negative and behind them if it is not.
pub record Upgraded (s t : Intset) (v : ℤ) : Type 0 where
  pub place : ℕ
  pub split : Split s v place
  pub inserted : Inserted s t v place
  pub encoding : t.encoding ≡ value_encoding v
  pub allocated : t.allocated ≡ (s.len + 1) * value_encoding v

pub upgrade-Upgraded :
    (s : Intset) (v : ℤ)
    → IsValid s
    → s.len + 1 < 2 ^ 28
    → Fits (2 ^ 63) v
    → s.encoding < value_encoding v
    → Upgraded s (upgrade_and_add s v) v
unfolding get
upgrade-Upgraded s (pos n) valid room long h =
    let wide = value_encoding-IsEncoding (pos n) in
    let fits = wide_enough _ (pos n) wide long (omega arith) in
    let w = value_encoding (pos n) in
    let m = upgrade_loop s.encoding w 0 s.len s.contents in
    rw (upgrade_positive s n) (record {
      place = s.len;
      split = record {
        within = omega arith;
        below = λ i p.
            wide_positive s.encoding n _ valid.width h
              (get_encoded-Fits s.contents i s.encoding valid.width);
        above = λ i p q. absurd (omega arith);
      };
      inserted = record {
        longer = refl;
        low = λ i p.
            get-set_apart m w s.len w i _ wide wide (inl (grind arith))
            ∙ ap (λ k. get_encoded m k w) (omega arith)
            ∙ upgrade_loop_lem s.encoding w 0 valid.width wide h s.len s.contents i p;
        here = get-set_same m w s.len (pos n) wide fits;
        high = λ i p q. absurd (omega arith);
      };
      encoding = refl;
      allocated = size_fits (s.len + 1) w room wide;
    })
upgrade-Upgraded s (negsuc n) valid room long h =
    let wide = value_encoding-IsEncoding (negsuc n) in
    let fits = wide_enough _ (negsuc n) wide long (omega arith) in
    let w = value_encoding (negsuc n) in
    let m = upgrade_loop s.encoding w 1 s.len s.contents in
    rw (upgrade_negative s n) (record {
      place = 0;
      split = record {
        within = omega arith;
        below = λ i p. absurd (omega arith);
        above = λ i p q.
            wide_negative s.encoding n _ valid.width h
              (get_encoded-Fits s.contents i s.encoding valid.width);
      };
      inserted = record {
        longer = refl;
        low = λ i p. absurd (omega arith);
        here = get-set_same m w 0 (negsuc n) wide fits;
        high = λ i p q.
            get-set_apart m w 0 w (i + 1) _ wide wide (inr (grind arith))
            ∙ upgrade_loop_lem s.encoding w 1 valid.width wide h s.len s.contents i q;
      };
      encoding = refl;
      allocated = size_fits (s.len + 1) w room wide;
    })
