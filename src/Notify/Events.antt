-- ===== src/Notify/Events.antt =====
-- notify.c: `notifyKeyspaceEvent`, over ll2string and `pubsubPublishMessage`.
use Prim.Native.Nat.{bit_and}
use redis_allocators.Prelude.{ℕ, ◌≡◌, Bool, true, false, ◌++◌, ◌==◌, if◌then◌else◌}
use redis_allocators.Prelude.Int.{ℤ}
use redis_allocators.Prelude.Memory.{Memory, read}
use redis_allocators.Util.{codes, ll2string}
use redis_allocators.Pubsub.{Text, Server}
use redis_allocators.Pubsub.Publish.{publish_message}
use redis_allocators.Pubsub.Deliver.{Delivers}

-- `__<kind>@<db>__:<name>`
abbrev pub event_channel : Text → Text → Text → Text
event_channel kind number name =
    codes "__" ++ (kind ++ (codes "@" ++ (number ++ (codes "__:" ++ name))))

-- `notifyKeyspaceEvent` for the setting `flags`. Its buffer holds any bytes. ll2string is called at
-- most once, for the first channel that needs the number.
unfoldable pub notify_keyspace_event :
    (Text → Text → Bool) → Memory → (flags type : ℕ) (event key : Text) (dbid : ℤ) → Server → Server
notify_keyspace_event matches garbage flags type event key dbid s =
    if bit_and flags type == 0
    then s
    else let (len, buf) = ll2string garbage 24 dbid in
      let number = read buf 0 len in
      let s' =
        if bit_and flags 1 == 0
        then s
        else (publish_message matches s (event_channel (codes "keyspace") number key) event).0 in
      if bit_and flags 2 == 0
      then s'
      else (publish_message matches s' (event_channel (codes "keyevent") number event) key).0

-- A publication that takes place or not.
abbrev pub Reports : (Text → Text → Bool) → Bool → Server → Text → Text → Server → Type 0
Reports matches true s t text s' = (n : ℕ) × Delivers matches s t text (s', n)
Reports matches false s t text s' = s' ≡ s
