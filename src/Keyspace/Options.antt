-- ===== src/Keyspace/Options.antt =====
-- t_string.c: the options of SET, behind its key and its value.
use redis_allocators.Prelude.{
  ℕ, ◌-◌, Bool, true, false, ◌&&◌, ◌||◌, Option, none, some, List, [], ◌∷◌, ◌==◌, if◌then◌else◌,
}
use redis_allocators.Prelude.Int.{ℤ}
use redis_allocators.Rdb.{char_at, raw}
use redis_allocators.Keyspace.Interface.{Text, Dictionary}
use redis_allocators.Keyspace.Timed.{set_generic}
use redis_allocators.Keyspace.Commands.{add_reply}
use redis_allocators.Keyspace.Numbers.{Libc, get_long_long_from_object}
use redis_allocators.Keyspace.State.{Robj, ok, nullbulk, syntaxerr, Setting}
use redis_allocators.Keyspace.{Step}

-- `flags`, `unit` and `expire` of `setCommand`.
pub record Options : Type 0 where
  pub nx : Bool
  pub xx : Bool
  pub seconds : Bool
  pub expire : Option Text

abbrev pub no_options : Options
no_options = record { nx = false; xx = false; seconds = true; expire = none }

-- A letter in either case.
abbrev pub is_letter : ℕ → ℕ → Bool
is_letter x b = b == x || b == x - 32

-- The test for a word of two letters.
abbrev pub is_word : ℕ → ℕ → Text → Bool
is_word x y a = is_letter x (char_at a 0) && is_letter y (char_at a 1) && char_at a 2 == 0

-- The argument of EX and PX.
abbrev pub read_expire : Text → Text → Options → Option (Options × Bool)
read_expire a next r =
    if is_word b'e' b'x' a
    then some (record r { seconds = true; expire = some next }, true)
    else if is_word b'p' b'x' a
    then some (record r { seconds = false; expire = some next }, true)
    else none

-- A round of the loop in `setCommand`: `true` if it takes two arguments, `none` for an error.
abbrev pub read_option : Text → Option Text → Options → Option (Options × Bool)
read_option a next r =
    if is_word b'n' b'x' a
    then some (record r { nx = true }, false)
    else if is_word b'x' b'x' a
    then some (record r { xx = true }, false)
    else elim next [ none ↦ none | some t ↦ read_expire a t r ]

-- The loop of `setCommand`.
unfoldable pub read_options : List Text → Options → Option Options
read_options [] r = some r
read_options (a ∷ []) r = elim (read_option a none r) [ none ↦ none | some e ↦ some e.0 ]
read_options (a ∷ (next ∷ rest)) r = elim (read_option a (some next) r) [
  | none ↦ none
  | some (r', taken) ↦ elim taken [
    | true ↦ read_options rest r'
    | false ↦ read_options (next ∷ rest) r'
  ]
]

-- The number in the argument of EX or PX, which is a text of the client.
abbrev pub expire_number : Libc → Option Text → Option (Option ℤ)
expire_number libc none = none
expire_number libc (some t) = some (get_long_long_from_object libc (some (raw t)))

module _ {D E : Type 0} (keys : Dictionary D Robj) (deadlines : Dictionary E ℤ) (c : Setting)
    (libc : Libc) where
  -- `setGenericCommand` with the options, or the error.
  abbrev pub set_with : ℕ → Text → Robj → Option Options → Step keys deadlines c Unit
  set_with d k v none = add_reply keys deadlines c syntaxerr
  set_with d k v (some r) =
      set_generic keys deadlines c d k v (expire_number libc r.expire) r.seconds r.nx r.xx ok
        nullbulk

  -- `setCommand`; `v` is what `tryObjectEncoding` returns.
  unfoldable pub set_command : ℕ → Text → Robj → List Text → Step keys deadlines c Unit
  set_command d k v args = set_with d k v (read_options args no_options)
