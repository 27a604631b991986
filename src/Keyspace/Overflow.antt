-- ===== src/Keyspace/Overflow.antt =====
-- The numbers of INCR and its kin: the test for overflow, and what objects hold.
use redis_allocators.Prelude.{
  zero, suc, ◌+◌, ◌≡◌, refl, sym, ap, subst, ◌∙◌, ◌==◌, Bool, true, false, not, ◌||◌, Option, none,
  some, ltb, ◌-◌, ◌^◌, if◌then◌else◌, arith, Bool-cases, inl, inr,
}
use redis_allocators.Prelude.Int.{ℤ, pos, negsuc, ltb_ℤ, ◌+ℤ◌, ◌-ℤ◌}
use redis_allocators.Util.Decimal.{IsInt64}
use redis_allocators.Rdb.{char_at, Object, raw, int}
use redis_allocators.Keyspace.Commands.{to_int64}
use redis_allocators.Keyspace.Numbers.{
  Objects, Libc, overflows, shared_integers, get_long_long_from_object,
  create_string_object_from_long_long, held,
}
use redis_allocators.Keyspace.Interface.{Text}
use redis_allocators.Keyspace.State.{Robj}

-- Whether an integer is a `long long`.
abbrev pub fits : ℤ → Bool
fits (pos n) = ltb n (2 ^ 63)
fits (negsuc n) = ltb n (2 ^ 63)

same_value : {a b : ℤ} → some a ≡ some b → a ≡ b
same_value h = cc

pub fits-IsInt64 : (z : ℤ) → fits z ≡ true → IsInt64 z
fits-IsInt64 z h = ground arith

-- For two `long long`s the test of `incrDecrCommand` is true exactly if their sum is not one.
pub overflows-fits :
    (incr old : ℤ) → IsInt64 incr → IsInt64 old → overflows incr old ≡ not (fits (old +ℤ incr))
unfolding ◌+ℤ◌ ◌-ℤ◌
overflows-fits incr old small small' = ground arith

pub to_int64_exact : (z : ℤ) → fits z ≡ true → to_int64 z ≡ z
unfolding to_int64
to_int64_exact z h = ground arith

-- What DECRBY adds: the opposite of its argument, except for the least `long long`.
abbrev pub opposite : ℤ → ℤ
opposite (pos zero) = pos 0
opposite (pos (suc n)) = negsuc n
opposite (negsuc n) = if n == 2 ^ 63 - 1 then negsuc n else pos (n + 1)

pub wrapped_negation : (n : ℤ) → IsInt64 n → to_int64 (pos 0 -ℤ n) ≡ opposite n
unfolding to_int64 ◌-ℤ◌
wrapped_negation (pos zero) small = refl
wrapped_negation (pos (suc n)) small = ground arith
wrapped_negation (negsuc n) small = ground arith

pub opposite-IsInt64 : (n : ℤ) → IsInt64 n → IsInt64 (opposite n)
opposite-IsInt64 (pos zero) small = omega arith
opposite-IsInt64 (pos (suc n)) small = omega arith
opposite-IsInt64 (negsuc n) small = ground arith

module _ (libc : Libc) (objects : Objects) where
  -- The object that `createStringObjectFromLongLong` returns holds the number.
  pub create-held :
      (v : ℤ)
      → fits v ≡ true
      → objects.string (create_string_object_from_long_long objects v) ≡ int v
  create-held (pos n) h =
      let nonneg : ltb_ℤ (pos n) (pos 0) ≡ false = ground arith in
      elim (Bool-cases (ltb_ℤ (pos n) (pos shared_integers))) [
        | inl small ↦ simp (nonneg, small) (objects.string-shared n (ground arith))
        | inr large ↦ simp (nonneg, large) (objects.string-created (pos n) (fits-IsInt64 (pos n) h))
      ]
  create-held (negsuc n) h =
      let negative : ltb_ℤ (negsuc n) (pos 0) ≡ true = ground arith in
      simp negative (objects.string-created (negsuc n) (fits-IsInt64 (negsuc n) h))

  read-IsInt64 :
      (t : Text) (v : ℤ) → get_long_long_from_object libc (some (raw t)) ≡ some v → IsInt64 v
  read-IsInt64 t v h =
      let range = libc.strtoll.in_range t in
      elim (Bool-cases (
        libc.isspace (char_at t 0)
        || not (char_at t (libc.strtoll.stop t) == 0)
        || libc.erange t)) [
          | inl bad ↦ let none_read : none ≡ some v = rw bad at h in cc
          | inr good ↦
              let same : some (libc.strtoll.value t) ≡ some v = rw good at h in
              subst IsInt64 (same_value same) range
        ]

  -- A number that has been read is a `long long`.
  pub get-IsInt64 :
      (o : Option Robj) (v : ℤ)
      → get_long_long_from_object libc (held objects o) ≡ some v
      → IsInt64 v
  get-IsInt64 none v h = subst IsInt64 (same_value h) (omega arith)
  get-IsInt64 (some o) v h = decide (objects.string o) refl
    where
      decide : (x : Object) → objects.string o ≡ x → IsInt64 v
      decide (raw t) e =
          read-IsInt64 t v (ap (λ x. get_long_long_from_object libc (some x)) (sym e) ∙ h)
      decide (int w) e =
          subst IsInt64 (same_value (ap (λ x. get_long_long_from_object libc (some x)) (sym e) ∙ h))
            (objects.in_range o w e)
