-- ===== src/Keyspace/Sums.antt =====
-- What INCR, DECR, INCRBY and DECRBY promise.
use redis_allocators.Prelude.{ℕ, ◌&&◌, Option, none, some, if◌then◌else◌}
use redis_allocators.Prelude.Int.{ℤ, ◌+ℤ◌}
use redis_allocators.Util.{codes}
use redis_allocators.Dict.Update.{is_none}
use redis_allocators.Keyspace.Interface.{Text}
use redis_allocators.Keyspace.Spec.{Contents, deadline_of, write, say, say_if, read}
use redis_allocators.Keyspace.Described.{reply, dirtied}
use redis_allocators.Keyspace.Numbers.{
  Objects, Libc, held, wrong_type, get_long_long_from_object, create_string_object_from_long_long,
}
use redis_allocators.Keyspace.Overflow.{fits, opposite}
use redis_allocators.Keyspace.State.{
  Robj, wrongtypeerr, not_an_integer, would_overflow, colon, crlf, plain, notify_string, modified,
  notified, list_ready, Setting,
}

module _ (c : Setting) where
  -- The key takes the object of a number and keeps its deadline.
  abbrev pub number_set : Contents → ℕ → Text → Option Robj → Robj → Contents
  number_set x d k o new =
      say_if (is_none o && c.is_list new) (write x d k (some (new, deadline_of (x.keys d k))))
        (list_ready d k)

  abbrev pub counted : Contents → ℕ → Text → Option Robj → Robj → Contents
  counted x d k o new =
      let told =
        say (say (number_set x d k o new) (modified d k))
          (notified notify_string (codes "incrby") k d) in
      reply (reply (reply (dirtied told) colon) (plain new)) crlf

module _ (c : Setting) (libc : Libc) (objects : Objects) where
  abbrev pub sum_set : Contents → ℕ → Text → ℤ → Option Robj → Option ℤ → Contents
  sum_set x d k incr o none = reply x not_an_integer
  sum_set x d k incr o (some n) =
      if fits (n +ℤ incr)
      then counted c x d k o (create_string_object_from_long_long objects (n +ℤ incr))
      else reply x would_overflow

  -- The number under the key, 0 for no key, becomes the sum, if that is a `long long`.
  abbrev pub increase : Contents → ℕ → Text → ℤ → Contents
  increase x d k incr =
      let (o, x') = read c x d k in
      if wrong_type c o
      then reply x' wrongtypeerr
      else sum_set x' d k incr o (get_long_long_from_object libc (held objects o))

  abbrev pub increase_by : Contents → ℕ → Text → Option ℤ → Contents
  increase_by x d k none = reply x not_an_integer
  increase_by x d k (some incr) = increase x d k incr

-- The number that an object holds.
abbrev pub number_of : Libc → Objects → Robj → Option ℤ
number_of libc objects arg = get_long_long_from_object libc (held objects (some arg))

abbrev pub negated : Option ℤ → Option ℤ
negated none = none
negated (some n) = some (opposite n)
