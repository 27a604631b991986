-- ===== src/Keyspace/Signals.antt =====
-- The small steps, over the contents: what the server is told, its counters and its clock.
use redis_allocators.Prelude.{
  ◌+◌, refl, ap, Bool, true, false, Option, none, some, [], ◌∷◌, ◌++◌, ◌==◌, if◌then◌else◌,
}
use redis_allocators.Prelude.Int.{ℤ}
use redis_allocators.Keyspace.Interface.{Dictionary}
use redis_allocators.Keyspace.Steps.{pure}
use redis_allocators.Keyspace.Spec.{Contents, say, say_if, clock}
use redis_allocators.Keyspace.Yields.{Yields}
use redis_allocators.Keyspace.Shows.{Shows}
use redis_allocators.Keyspace.State.{Robj, Event, Setting, Server}
use redis_allocators.Keyspace.{mstime, tell, make_dirty, touch, expire_clock}

module _ {D E : Type 0} {keys : Dictionary D Robj} {deadlines : Dictionary E ℤ} {c : Setting}
    {s : Server D E} {x : Contents} (shows : Shows keys deadlines s x) where
  pub tell-Yields : (e : Event) → Yields keys deadlines c (tell keys deadlines c e) s tt (say x e)
  unfolding tell
  tell-Yields e = record {
    after = record s { events = s.events ++ (e ∷ []) };
    runs = refl;
    shows = record {
      dbs = shows.dbs;
      readings = shows.readings;
      dirty = shows.dirty;
      events = ap (λ l. l ++ (e ∷ [])) shows.events;
    };
  }

  pub make_dirty-Yields :
      Yields keys deadlines c (make_dirty keys deadlines c) s tt (record x { dirty = x.dirty + 1 })
  unfolding make_dirty
  make_dirty-Yields = record {
    after = record s { dirty = s.dirty + 1 };
    runs = refl;
    shows = record {
      dbs = shows.dbs;
      readings = shows.readings;
      dirty = ap (λ n. n + 1) shows.dirty;
      events = shows.events;
    };
  }

  pub mstime-Yields :
      Yields keys deadlines c
        (mstime keys deadlines c)
        s
        (c.mstime x.readings)
        (record x { readings = x.readings + 1 })
  unfolding mstime
  mstime-Yields = record {
    after = record s { readings = s.readings + 1 };
    runs = rw shows.readings refl;
    shows = record {
      dbs = shows.dbs;
      readings = ap (λ n. n + 1) shows.readings;
      dirty = shows.dirty;
      events = shows.events;
    };
  }

  pub pure-Yields : {A : Type 0} (r : A) → Yields keys deadlines c (pure r) s r x
  pure-Yields r = record { after = s; runs = refl; shows = shows }

  pub tell_if-Yields :
      (b : Bool) (e : Event)
      → Yields keys deadlines c (if b then tell keys deadlines c e else pure tt) s tt (say_if b x e)
  tell_if-Yields true e = tell-Yields e
  tell_if-Yields false e = pure-Yields tt

  pub touch-Yields : (o : Option Robj) → Yields keys deadlines c (touch keys deadlines c o) s tt x
  unfolding touch
  touch-Yields none = pure-Yields tt
  touch-Yields (some v) = record {
    after = if c.saving then s else record s { lru = λ o. if o == v then c.lruclock else s.lru o };
    runs = refl;
    shows = Shows-if c.saving shows (record {
      dbs = shows.dbs;
      readings = shows.readings;
      dirty = shows.dirty;
      events = shows.events;
    });
  }
    where
      Shows-if :
          {s₁ s₂ : Server D E} (b : Bool)
          → Shows keys deadlines s₁ x
          → Shows keys deadlines s₂ x
          → Shows keys deadlines (if b then s₁ else s₂) x
      Shows-if true h h' = h
      Shows-if false h h' = h'

  pub expire_clock-Yields :
      Yields keys deadlines c (expire_clock keys deadlines c) s (clock c x).0 (clock c x).1
  expire_clock-Yields = decide c.lua_caller
    where
      decide :
          (b : Bool)
          → Yields keys deadlines c
              (if b then pure c.lua_time_start else mstime keys deadlines c)
              s
              (if b then c.lua_time_start else c.mstime x.readings)
              (record x { readings = if b then x.readings else x.readings + 1 })
      decide true = pure-Yields c.lua_time_start
      decide false = mstime-Yields
