-- ===== src/Keyspace/Numbers.antt =====
-- t_string.c: INCR, DECR, INCRBY and DECRBY, with the conversions between objects and numbers of
-- object.c. A `long` has 64 bits.
use redis_allocators.Prelude.{
  ℕ, ◌<◌, ◌≡◌, Bool, false, not, ◌&&◌, ◌||◌, Option, none, some, ◌==◌, ◌-◌, ◌^◌, if◌then◌else◌,
}
use redis_allocators.Prelude.Int.{ℤ, pos, negsuc, pos_part, ltb_ℤ, ◌+ℤ◌, ◌-ℤ◌}
use redis_allocators.Util.{codes}
use redis_allocators.Util.Decimal.{IsInt64}
use redis_allocators.Dict.Update.{is_none}
use redis_allocators.Rdb.{Object, raw, int, Strtoll, char_at}
use redis_allocators.Keyspace.Interface.{Text, Dictionary}
use redis_allocators.Keyspace.Steps.{◌>>=◌, ◌>>◌}
use redis_allocators.Keyspace.Commands.{to_int64, add_reply, notify}
use redis_allocators.Keyspace.State.{
  Robj, wrongtypeerr, not_an_integer, would_overflow, colon, crlf, plain, notify_string, minus_one,
  Setting,
}
use redis_allocators.Keyspace.{
  Step, make_dirty, signal_modified_key, lookup_key_write, db_add, db_overwrite,
}

-- `REDIS_SHARED_INTEGERS`
abbrev pub shared_integers : ℕ
shared_integers = 10000

-- The objects of the server by their number: what a string object holds, `shared.integers`, and the
-- object that `createObject` makes room for and that then gets the integer encoding.
pub record Objects : Type 0 where
  pub string : Robj → Object
  pub shared : ℕ → Robj
  pub created : ℤ → Robj
  pub string-shared : (n : ℕ) → n < shared_integers → string (shared n) ≡ int (pos n)
  pub string-created : (v : ℤ) → IsInt64 v → string (created v) ≡ int v
  pub in_range : (o : Robj) (v : ℤ) → string o ≡ int v → IsInt64 v

-- The C library: `strtoll`, whether it sets `errno` to `ERANGE`, and `isspace`.
pub record Libc : Type 0 where
  pub strtoll : Strtoll
  pub erange : Text → Bool
  pub isspace : ℕ → Bool

abbrev pub llong_max : ℤ
llong_max = pos (2 ^ 63 - 1)

abbrev pub llong_min : ℤ
llong_min = negsuc (2 ^ 63 - 1)

-- `getLongLongFromObject`, of a string object or a null pointer, as its callers here have tested or
-- as an argument of a command is; `none` for `REDIS_ERR`.
abbrev pub get_long_long_from_object : Libc → Option Object → Option ℤ
get_long_long_from_object c none = some (pos 0)
get_long_long_from_object c (some (raw t)) =
    if c.isspace (char_at t 0) || not (char_at t (c.strtoll.stop t) == 0) || c.erange t
    then none
    else some (c.strtoll.value t)
get_long_long_from_object c (some (int v)) = some v

-- `createStringObjectFromLongLong`
abbrev pub create_string_object_from_long_long : Objects → ℤ → Robj
create_string_object_from_long_long objects v =
    if not (ltb_ℤ v (pos 0)) && ltb_ℤ v (pos shared_integers)
    then objects.shared (pos_part v)
    else objects.created v

-- The test of `incrDecrCommand`. Its differences do not overflow where they are computed.
abbrev pub overflows : ℤ → ℤ → Bool
overflows incr oldvalue =
    ltb_ℤ incr (pos 0) && ltb_ℤ oldvalue (pos 0) && ltb_ℤ incr (llong_min -ℤ oldvalue)
    || ltb_ℤ (pos 0) incr && ltb_ℤ (pos 0) oldvalue && ltb_ℤ (llong_max -ℤ oldvalue) incr

abbrev pub held : Objects → Option Robj → Option Object
held objects none = none
held objects (some v) = some (objects.string v)

-- `o != NULL && checkType(c,o,REDIS_STRING)`
abbrev pub wrong_type : Setting → Option Robj → Bool
wrong_type c none = false
wrong_type c (some v) = not (c.is_string v)

module _ {D E : Type 0} (keys : Dictionary D Robj) (deadlines : Dictionary E ℤ) (c : Setting) where
  -- The end of `incrDecrCommand`, for the object that holds the sum.
  abbrev pub store_number : ℕ → Text → Option Robj → Robj → Step keys deadlines c Unit
  store_number d k o new = do
    if is_none o then db_add keys deadlines c d k new else db_overwrite keys deadlines c d k new
    signal_modified_key keys deadlines c d k
    notify keys deadlines c notify_string (codes "incrby") k d
    make_dirty keys deadlines c
    add_reply keys deadlines c colon
    add_reply keys deadlines c (plain new)
    add_reply keys deadlines c crlf

module _ {D E : Type 0} (keys : Dictionary D Robj) (deadlines : Dictionary E ℤ) (c : Setting)
    (libc : Libc) (objects : Objects) where
  -- `incrDecrCommand` behind the conversion.
  abbrev pub add_number : ℕ → Text → ℤ → Option Robj → Option ℤ → Step keys deadlines c Unit
  add_number d k incr o none = add_reply keys deadlines c not_an_integer
  add_number d k incr o (some oldvalue) =
      if overflows incr oldvalue
      then add_reply keys deadlines c would_overflow
      else store_number keys deadlines c d k o
          (create_string_object_from_long_long objects (to_int64 (oldvalue +ℤ incr)))

  -- `incrDecrCommand`
  unfoldable pub incr_decr_command : ℕ → Text → ℤ → Step keys deadlines c Unit
  incr_decr_command d k incr = do
    o ← lookup_key_write keys deadlines c d k
    if wrong_type c o
        then add_reply keys deadlines c wrongtypeerr
        else add_number d k incr o (get_long_long_from_object libc (held objects o))

  -- `incrCommand`
  abbrev pub incr_command : ℕ → Text → Step keys deadlines c Unit
  incr_command d k = incr_decr_command d k (pos 1)

  -- `decrCommand`
  abbrev pub decr_command : ℕ → Text → Step keys deadlines c Unit
  decr_command d k = incr_decr_command d k minus_one

  -- `incrbyCommand`, for the argument's object.
  abbrev pub incrby_command : ℕ → Text → Robj → Step keys deadlines c Unit
  incrby_command d k arg = elim (get_long_long_from_object libc (held objects (some arg))) [
    | none ↦ add_reply keys deadlines c not_an_integer
    | some incr ↦ incr_decr_command d k incr
  ]

  -- `decrbyCommand`; the negation wraps around.
  abbrev pub decrby_command : ℕ → Text → Robj → Step keys deadlines c Unit
  decrby_command d k arg = elim (get_long_long_from_object libc (held objects (some arg))) [
    | none ↦ add_reply keys deadlines c not_an_integer
    | some incr ↦ incr_decr_command d k (to_int64 (pos 0 -ℤ incr))
  ]
