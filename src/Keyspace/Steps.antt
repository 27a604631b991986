-- ===== src/Keyspace/Steps.antt =====
-- Steps over a state, which a failed assertion aborts.
use redis_allocators.Prelude.{Bool, true, false, Option, none, some}

-- `none` is an abort by `redisAssert` or `redisPanic`.
abbrev pub Exec : Type 0 → Type 0 → Type 0
Exec S A = S → Option (A × S)

infixl 5 ◌>>=◌ ◌>>◌
module _ {S A : Type 0} where
  abbrev pub pure : A → Exec S A
  pure a s = some (a, s)

  abbrev pub gets : (S → A) → Exec S A
  gets f s = some (f s, s)

  -- A call that changes the state and returns a value.
  abbrev pub call : (S → A × S) → Exec S A
  call f s = some (f s)

abbrev pub bind : {S A B : Type 0} → Option (A × S) → (A → Exec S B) → Option (B × S)
bind none f = none
bind (some (a, s)) f = f a s

abbrev pub ◌>>=◌ : {S A B : Type 0} → Exec S A → (A → Exec S B) → Exec S B
(m >>= f) s = bind (m s) f

abbrev pub ◌>>◌ : {S B : Type 0} → Exec S (Unit {0}) → Exec S B → Exec S B
(m >> k) s = bind (m s) (λ _. k)

abbrev pub modify : {S : Type 0} → (S → S) → Exec S (Unit {0})
modify f s = some (tt, f s)

-- `redisAssertWithInfo`
abbrev pub assert : {S : Type 0} → Bool → Exec S (Unit {0})
assert true s = some (tt, s)
assert false s = none
