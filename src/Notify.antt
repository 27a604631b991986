-- ===== src/Notify.antt =====
-- notify.c: the classes of keyspace events as letters and as flags.
pub mod Events
use Prim.Native.Nat.{bit_and, bit_or}
use redis_allocators.Prelude.{
  ℕ, ◌^◌, ◌<◌, ◌≡◌, refl, Bool, true, false, Option, none, some, List, [], ◌∷◌, ◌++◌, ◌==◌,
  if◌then◌else◌, arith, holds_up_to, holds_up_to_below,
}
use redis_allocators.Prelude.Fallible.{◌>>=◌}

-- `REDIS_NOTIFY_ALL`
abbrev pub notify_all : ℕ
notify_all = 1020

-- The flags of a letter; `none` is the default case.
unfoldable pub class_flags : ℕ → Option ℕ
class_flags c =
    if c == b'A'
    then some notify_all
    else if c == b'g'
    then some 4
    else if c == b'$'
    then some 8
    else if c == b'l'
    then some 16
    else if c == b's'
    then some 32
    else if c == b'h'
    then some 64
    else if c == b'z'
    then some 128
    else if c == b'x'
    then some 256
    else if c == b'e'
    then some 512
    else if c == b'K'
    then some 1
    else if c == b'E'
    then some 2
    else none

-- The loop of `keyspaceEventsStringToFlags`; `none` is the result -1.
unfoldable pub string_to_flags : ℕ → List ℕ → Option ℕ
string_to_flags flags [] = some flags
string_to_flags flags (c ∷ classes) = do f ← class_flags c; string_to_flags (bit_or flags f) classes

unfoldable pub keyspace_events_string_to_flags : List ℕ → Option ℕ
keyspace_events_string_to_flags classes = string_to_flags 0 classes

-- A letter for a flag that is set.
abbrev pub letter : ℕ → ℕ → ℕ → List ℕ
letter flags f c = if bit_and flags f == 0 then [] else c ∷ []

-- `keyspaceEventsFlagsToString`
unfoldable pub keyspace_events_flags_to_string : ℕ → List ℕ
keyspace_events_flags_to_string flags =
    (if bit_and flags notify_all == notify_all
      then b'A' ∷ []
      else letter flags 4 b'g'
        ++ letter flags 8 b'$'
        ++ letter flags 16 b'l'
        ++ letter flags 32 b's'
        ++ letter flags 64 b'h'
        ++ letter flags 128 b'z'
        ++ letter flags 256 b'x'
        ++ letter flags 512 b'e')
    ++ letter flags 1 b'K'
    ++ letter flags 2 b'E'

abbrev is_some_of : ℕ → Option ℕ → Bool
is_some_of n none = false
is_some_of n (some m) = n == m

back :
    holds_up_to 1024 (λ flags.
      is_some_of flags (keyspace_events_string_to_flags (keyspace_events_flags_to_string flags)))
    ≡ true
unfolding holds_up_to keyspace_events_string_to_flags string_to_flags class_flags
    keyspace_events_flags_to_string
back = refl

of_some : (n : ℕ) (o : Option ℕ) → is_some_of n o ≡ true → o ≡ some n
of_some n none h = cc
of_some n (some m) h = ground arith

-- Any set of classes, as flags below 2 ^ 10, is read back from the letters that stand for it.
pub keyspace_events_string_to_flags-keyspace_events_flags_to_string :
    (flags : ℕ)
    → flags < 2 ^ 10
    → keyspace_events_string_to_flags (keyspace_events_flags_to_string flags) ≡ some flags
keyspace_events_string_to_flags-keyspace_events_flags_to_string flags small =
    of_some flags _ (holds_up_to_below 1024 _ flags (omega arith) back)
