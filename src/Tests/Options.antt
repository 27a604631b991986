-- ===== src/Tests/Options.antt =====
-- SET with its options at concrete inputs.
use redis_allocators.Prelude.{◌≡◌, refl, true, false, some, none, List, [], ◌∷◌}
use redis_allocators.Util.{codes}
use redis_allocators.Keyspace.State.{ok, nullbulk}
use redis_allocators.Keyspace.Options.{no_options, read_options, set_command, expire_number}
use redis_allocators.Keyspace.Spelled.{
  SetOption, only_new, seconds, milliseconds, written_all, meant_all, set_command-Yields,
}
use redis_allocators.Keyspace.Yields.{Yields}
use redis_allocators.Keyspace.Described.{set_key_to}
use redis_allocators.Tests.Keyspace.{now_and_then, values, times, key_b, one_key, stored, server}
use redis_allocators.Tests.Increments.{libc}

-- `SET b 5 pX 10 Nx EX 20`: the last expiry counts.
abbrev two_expiries : List SetOption
two_expiries =
    milliseconds false true (codes "10") ∷ only_new true false ∷ seconds true true (codes "20") ∷ []

two_expiries_read :
    read_options (codes "pX" ∷ codes "10" ∷ codes "Nx" ∷ codes "EX" ∷ codes "20" ∷ []) no_options
    ≡ some (record { nx = true; xx = false; seconds = true; expire = some (codes "20") })
unfolding read_options
two_expiries_read = refl

-- EX without its argument.
expiry_missing : read_options (codes "nx" ∷ codes "ex" ∷ []) no_options ≡ none
unfolding read_options
expiry_missing = refl

set_command-Yields_example :
    Yields values times now_and_then
      (set_command values times now_and_then libc 0 key_b 5 (written_all two_expiries []))
      server
      tt
      (set_key_to now_and_then one_key 0 key_b 5
        (expire_number libc (some (codes "20")))
        true
        true
        false
        ok
        nullbulk)
unfolding meant_all
set_command-Yields_example = set_command-Yields libc 0 key_b 5 two_expiries stored.shows
