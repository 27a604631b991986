-- ===== src/Keyspace/Increments.antt =====
-- INCR, DECR, INCRBY and DECRBY: what they promise, and that they do it.
use redis_allocators.Prelude.{
  ℕ, ◌≡◌, refl, ap, ◌∙◌, true, false, Option, none, some, Bool-cases, inl, inr,
}
use redis_allocators.Prelude.Int.{ℤ, pos, ◌+ℤ◌, ◌-ℤ◌}
use redis_allocators.Util.Decimal.{IsInt64}
use redis_allocators.Rdb.{int}
use redis_allocators.Keyspace.Interface.{Text, Dictionary}
use redis_allocators.Keyspace.Spec.{Contents, value_of, deadline_of, read}
use redis_allocators.Keyspace.Yields.{Yields, Yields-bind, Yields-then, Yields-choose}
use redis_allocators.Keyspace.Shows.{Shows}
use redis_allocators.Keyspace.Signals.{tell-Yields, make_dirty-Yields}
use redis_allocators.Keyspace.Deadlines.{keys-write}
use redis_allocators.Keyspace.Refine.{lookup_key_write-Yields, store-Yields}
use redis_allocators.Keyspace.Commands.{to_int64, add_reply}
use redis_allocators.Keyspace.Numbers.{
  Objects, Libc, held, wrong_type, get_long_long_from_object, create_string_object_from_long_long,
  store_number, add_number, incr_decr_command, incrby_command, decrby_command,
}
use redis_allocators.Keyspace.Overflow.{
  fits, overflows-fits, to_int64_exact, opposite, wrapped_negation, opposite-IsInt64, create-held,
  get-IsInt64,
}
use redis_allocators.Keyspace.State.{Robj, not_an_integer, Setting, Server}
use redis_allocators.Keyspace.Sums.{counted, sum_set, increase, increase_by, number_of, negated}

module _ {D E : Type 0} {keys : Dictionary D Robj} {deadlines : Dictionary E ℤ} {c : Setting} where
  store_number-Yields :
      (d : ℕ) (k : Text) (o : Option Robj) (new : Robj) {s : Server D E} {x : Contents}
      → Shows keys deadlines s x
      → value_of (x.keys d k) ≡ o
      → Yields keys deadlines c
          (store_number keys deadlines c d k o new)
          s
          tt
          (counted c x d k o new)
  store_number-Yields d k o new shows there =
      Yields-then _ _ (store-Yields shows d k new o there) (λ s₁ shows₁.
        Yields-then _ _ (tell-Yields shows₁ _) (λ s₂ shows₂.
          Yields-then _ _ (tell-Yields shows₂ _) (λ s₃ shows₃.
            Yields-then _ _ (make_dirty-Yields shows₃) (λ s₄ shows₄.
              Yields-then _ _ (tell-Yields shows₄ _) (λ s₅ shows₅.
                Yields-then _ _ (tell-Yields shows₅ _) (λ s₆ shows₆. tell-Yields shows₆ _))))))

module _ {D E : Type 0} {keys : Dictionary D Robj} {deadlines : Dictionary E ℤ} {c : Setting}
    (libc : Libc) (objects : Objects) where
  add_number-Yields :
      (d : ℕ) (k : Text) (incr : ℤ) (o : Option Robj) (n : Option ℤ) {s : Server D E} {x : Contents}
      → Shows keys deadlines s x
      → value_of (x.keys d k) ≡ o
      → IsInt64 incr
      → ((v : ℤ) → n ≡ some v → IsInt64 v)
      → Yields keys deadlines c
          (add_number keys deadlines c libc objects d k incr o n)
          s
          tt
          (sum_set c libc objects x d k incr o n)
  add_number-Yields d k incr o none shows there small range = tell-Yields shows _
  add_number-Yields d k incr o (some n) shows there small range =
      elim (Bool-cases (fits (n +ℤ incr))) [
        | inl room ↦
            rw (overflows-fits incr n small (range n refl), room, to_int64_exact (n +ℤ incr) room)
              (store_number-Yields d k o _ shows there)
        | inr over ↦ rw (overflows-fits incr n small (range n refl), over) (tell-Yields shows _)
      ]

  -- INCR and its kin run without an abort: the sum is stored under the key, which keeps its
  -- deadline, or the command replies that the value is of another type, is not an integer, or that
  -- the sum is not a `long long`, and stores nothing.
  pub incr_decr_command-Yields :
      (s : Server D E) (x : Contents) (d : ℕ) (k : Text) (incr : ℤ)
      → Shows keys deadlines s x
      → IsInt64 incr
      → Yields keys deadlines c
          (incr_decr_command keys deadlines c libc objects d k incr)
          s
          tt
          (increase c libc objects x d k incr)
  unfolding incr_decr_command
  incr_decr_command-Yields s x d k incr shows small =
      let o = (read c x d k).0 in
      Yields-bind _ _ (lookup_key_write-Yields shows d k) (λ s₁ shows₁.
        Yields-choose (wrong_type c o) (tell-Yields shows₁ _) (
          add_number-Yields d k incr o (get_long_long_from_object libc (held objects o)) shows₁ refl
            small (get-IsInt64 libc objects o)))

  pub incrby_command-Yields :
      (s : Server D E) (x : Contents) (d : ℕ) (k : Text) (arg : Robj)
      → Shows keys deadlines s x
      → Yields keys deadlines c
          (incrby_command keys deadlines c libc objects d k arg)
          s
          tt
          (increase_by c libc objects x d k (number_of libc objects arg))
  incrby_command-Yields s x d k arg shows =
      decide (number_of libc objects arg) (get-IsInt64 libc objects (some arg))
    where
      decide :
          (n : Option ℤ)
          → ((v : ℤ) → n ≡ some v → IsInt64 v)
          → Yields keys deadlines c
              (elim n [
                | none ↦ add_reply keys deadlines c not_an_integer
                | some incr ↦ incr_decr_command keys deadlines c libc objects d k incr
              ])
              s
              tt
              (increase_by c libc objects x d k n)
      decide none range = tell-Yields shows _
      decide (some incr) range = incr_decr_command-Yields s x d k incr shows (range incr refl)

  -- The argument is subtracted, but the least `long long` is added: its negation wraps around.
  pub decrby_command-Yields :
      (s : Server D E) (x : Contents) (d : ℕ) (k : Text) (arg : Robj)
      → Shows keys deadlines s x
      → Yields keys deadlines c
          (decrby_command keys deadlines c libc objects d k arg)
          s
          tt
          (increase_by c libc objects x d k (negated (number_of libc objects arg)))
  decrby_command-Yields s x d k arg shows =
      decide (number_of libc objects arg) (get-IsInt64 libc objects (some arg))
    where
      decide :
          (n : Option ℤ)
          → ((v : ℤ) → n ≡ some v → IsInt64 v)
          → Yields keys deadlines c
              (elim n [
                | none ↦ add_reply keys deadlines c not_an_integer
                | some incr ↦
                    incr_decr_command keys deadlines c libc objects d k (to_int64 (pos 0 -ℤ incr))
              ])
              s
              tt
              (increase_by c libc objects x d k (negated n))
      decide none range = tell-Yields shows _
      decide (some incr) range = rw (wrapped_negation incr (range incr refl)) (
          incr_decr_command-Yields s x d k (opposite incr) shows
            (opposite-IsInt64 incr (range incr refl)))

module _ {D E : Type 0} (keys : Dictionary D Robj) (deadlines : Dictionary E ℤ) (c : Setting)
    (libc : Libc) (objects : Objects) where
  -- INCR of a key that holds a number, or is not there, behind its expiry: if the increment and the
  -- sum are `long long`s, the command runs without an abort, and behind it the key holds an object
  -- of the sum and has the deadline that it had.
  pub incr_decr_command-Adds :
      (s : Server D E) (x : Contents) (d : ℕ) (k : Text) (incr n : ℤ)
      → Shows keys deadlines s x
      → IsInt64 incr
      → wrong_type c (read c x d k).0 ≡ false
      → get_long_long_from_object libc (held objects (read c x d k).0) ≡ some n
      → fits (n +ℤ incr) ≡ true
      → (s' : Server D E) × (v : Robj) × (incr_decr_command keys deadlines c libc objects d k incr s
          ≡ some (tt, s'))
        × (keys.view (s'.db d).dict k ≡ some v)
        × (objects.string v ≡ int (n +ℤ incr))
        × (deadlines.view (s'.db d).expires k ≡ deadline_of ((read c x d k).1.keys d k))
  incr_decr_command-Adds s x d k incr n shows small right number room =
      let y = incr_decr_command-Yields libc objects s x d k incr shows small in
      let (o, x₁) = read c x d k in
      let v = create_string_object_from_long_long objects (n +ℤ incr) in
      let here : (increase c libc objects x d k incr).keys d k
          ≡ some (v, deadline_of (x₁.keys d k)) =
        rw (right, number, room) (keys-write x₁ d k (some (v, deadline_of (x₁.keys d k)))) in
      (
        y.after,
        v,
        y.runs,
        (y.shows.dbs d).values k ∙ ap value_of here,
        create-held libc objects (n +ℤ incr) room,
        (y.shows.dbs d).times k ∙ ap deadline_of here,
      )
