-- ===== src/Sds.antt =====
-- sds.c: the decimal text of a number, written backwards and then reversed in place.
pub mod Digits
pub mod Text
use native.Mathlib.Nat.{pow-succ'}
use redis_allocators.Prelude.{
  ℕ, zero, suc, ◌+◌, ◌-◌, ◌*◌, ◌/◌, ◌%◌, ◌^◌, ◌≤◌, ◌<◌, ◌≡◌, refl, ap, ap₂, sym, ◌∙◌, Bool, true,
  false, ◌⊎◌, inl, inr, List, [], ◌∷◌, ◌++◌, ◌==◌, ltb, leb, ◌&&◌, if◌then◌else◌, arith, length,
  length-append, Bool-cases,
}
use redis_allocators.Prelude.Int.{ℤ, pos, negsuc, ltb_ℤ}
use redis_allocators.Prelude.Memory.{Memory, store, read}
use redis_allocators.Util.{magnitude}
use redis_allocators.Util.Decimal.{
  decimal, decimal_text, decimal_of_lt, decimal_step, length-decimal_pos, IsInt64,
}
use redis_allocators.Util.Digits.{length-decimal_bound}

-- The loop over the digits, lowest first: the buffer, and the place behind the last digit. A number
-- below 10 ^ (fuel + 1) is done within `fuel` rounds behind the first.
unfoldable pub push_digits : ℕ → Memory → ℕ → ℕ → Memory × ℕ
push_digits zero s p v = (store s p (b'0' + v % 10), p + 1)
push_digits (suc fuel) s p v =
    let s' = store s p (b'0' + v % 10) in
    let rest = push_digits fuel s' (p + 1) (v / 10) in if v / 10 == 0 then (s', p + 1) else rest

-- The loop that reverses the string between two places. As many rounds as bytes are enough.
unfoldable pub reverse_loop : ℕ → Memory → ℕ → ℕ → Memory
reverse_loop zero m s p = m
reverse_loop (suc fuel) m s p =
    let rest = reverse_loop fuel (store (store m s (m p)) p (m s)) (s + 1) (p - 1) in
    if ltb s p then rest else m

-- `sdsull2str`: the length and the buffer. 2 ^ 64 < 10 ^ 25.
unfoldable pub sdsull2str : Memory → ℕ → ℕ × Memory
sdsull2str s v = let (s', l) = push_digits 24 s 0 v in (l, reverse_loop l (store s' l 0) 0 (l - 1))

-- `sdsll2str`; `-value` is taken as an unsigned number, also for `LLONG_MIN`.
unfoldable pub sdsll2str : Memory → ℤ → ℕ × Memory
sdsll2str s value =
    let (s', p) = push_digits 24 s 0 (magnitude value) in
    let negative = ltb_ℤ value (pos 0) in
    let s'' = if negative then store s' p b'-' else s' in
    let l = if negative then p + 1 else p in (l, reverse_loop l (store s'' l 0) 0 (l - 1))

-- `sdsfromlonglong`, over whatever the buffer holds.
unfoldable pub sdsfromlonglong : Memory → ℤ → List ℕ
sdsfromlonglong buf value = let (len, buf') = sdsll2str buf value in read buf' 0 len
