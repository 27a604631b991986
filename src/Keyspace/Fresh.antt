-- ===== src/Keyspace/Fresh.antt =====
-- What follows for a server: no key with a deadline is missing, and no read returns a key that has
-- expired.
use redis_allocators.Prelude.{
  ℕ, ◌^◌, ◌<◌, ◌≡◌, refl, sym, ap, subst, ◌∙◌, true, false, Option, none, some, [], if◌then◌else◌,
  inl, inr, ◌⊎◌, Bool-cases,
}
use redis_allocators.Prelude.Int.{ℤ, pos, ltb_ℤ}
use redis_allocators.Dict.Table.{Dict, create}
use redis_allocators.Dict.Valid.{create-IsValid}
use redis_allocators.Keyspace.Interface.{Text, Dictionary}
use redis_allocators.Keyspace.Tables.{sds_type, of_dict}
use redis_allocators.Keyspace.Spec.{Contents, deadline_of, clock, expel, expire_at, expire, read}
use redis_allocators.Keyspace.Shows.{Shows}
use redis_allocators.Keyspace.Deadlines.{keys-write}
use redis_allocators.Keyspace.Refine.{lookup_key_read-Yields}
use redis_allocators.Keyspace.State.{Robj, Setting, Server}
use redis_allocators.Keyspace.{lookup_key_read}

-- The server after its start, and the contents that it shows.
abbrev pub fresh : Server (Dict Text Robj) (Dict Text ℤ)
fresh = record {
  db = λ _. record { dict = create; expires = create };
  lru = λ _. 0;
  stat_keyspace_hits = 0;
  stat_keyspace_misses = 0;
  stat_expiredkeys = 0;
  dirty = 0;
  readings = 0;
  events = [];
}

abbrev pub nothing : Contents
nothing = record { keys = λ _ _. none; readings = 0; dirty = 0; events = [] }

module _ (hash : Text → ℕ) (small : (k : Text) → hash k < 2 ^ 31) where
  pub fresh-Shows : Shows (of_dict hash small Robj) (of_dict hash small ℤ) fresh nothing
  fresh-Shows =
      let (sound, empty) = create-IsValid ⦃type = sds_type hash Robj⦄ in
      let (sound_expires, empty_expires) = create-IsValid ⦃type = sds_type hash ℤ⦄ in
      record {
        dbs = λ d. record {
          sound = sound;
          sound_expires = sound_expires;
          values = empty;
          times = empty_expires;
        };
        readings = refl;
        dirty = refl;
        events = refl;
      }

same_time : (o : Option ℤ) (w when : ℤ) → o ≡ some w → o ≡ some when → w ≡ when
same_time o w when e h = cc

module _ (c : Setting) (x : Contents) (d : ℕ) (k : Text) where
  -- The deadline that stands behind `expireIfNeeded` on a master that is not loading.
  expire_at-fresh :
      (o : Option ℤ) (when : ℤ)
      → c.loading ≡ false
      → c.masterhost ≡ false
      → deadline_of (x.keys d k) ≡ o
      → deadline_of ((expire_at c x d k o).1.keys d k) ≡ some when
      → (ltb_ℤ when (pos 0) ≡ true) ⊎ (ltb_ℤ when (clock c x).0 ≡ false)
  expire_at-fresh none when ready master e h = cc
  expire_at-fresh (some w) when ready master e h = elim (Bool-cases (ltb_ℤ w (pos 0))) [
    | inl early ↦
        let kept : deadline_of (x.keys d k) ≡ some when = rw early at h in
        inl (
          subst (λ t. ltb_ℤ t (pos 0) ≡ true) (same_time (deadline_of (x.keys d k)) w when e kept)
            early)
    | inr later ↦ elim (Bool-cases (ltb_ℤ w (clock c x).0)) [
      | inl late ↦
          let gone : deadline_of ((expel c (clock c x).1 d k).keys d k) ≡ some when =
            rw (later, ready, late, master) at h in
          let none_left : none ≡ some when = sym (ap deadline_of (keys-write x d k none)) ∙ gone in
          cc
      | inr early ↦
          let kept : deadline_of (x.keys d k) ≡ some when = rw (later, ready, early) at h in
          inr (
            subst (λ t. ltb_ℤ t (clock c x).0 ≡ false)
              (same_time (deadline_of (x.keys d k)) w when e kept) early)
    ]
  ]

module _ {D E : Type 0} (keys : Dictionary D Robj) (deadlines : Dictionary E ℤ) (c : Setting) where
  -- On a master that is not loading `lookupKeyRead` does not abort, and a deadline that the key has
  -- behind it is negative or has not passed: it is not below the time of the script, or below that
  -- which `mstime` returns next if no script runs.
  pub lookup_key_read-fresh :
      (s : Server D E) (x : Contents) (d : ℕ) (k : Text)
      → Shows keys deadlines s x
      → c.loading ≡ false
      → c.masterhost ≡ false
      → (o : Option Robj) × (s' : Server D E) × (lookup_key_read keys deadlines c d k s
          ≡ some (o, s'))
        × (keys.view (s'.db d).dict k ≡ o)
        × ((when : ℤ)
            → deadlines.view (s'.db d).expires k ≡ some when
            → (ltb_ℤ when (pos 0) ≡ true)
              ⊎ (ltb_ℤ when (if c.lua_caller then c.lua_time_start else c.mstime s.readings)
                  ≡ false))
  unfolding expire
  lookup_key_read-fresh s x d k shows ready master =
      let y = lookup_key_read-Yields shows d k in
      let x' = (read c x d k).1 in
      let b = y.shows.dbs d in
      (
        (read c x d k).0,
        y.after,
        y.runs,
        b.values k,
        λ when h. rw shows.readings (
            expire_at-fresh c x d k (deadline_of (x.keys d k)) when ready master refl
              (sym (b.times k) ∙ h)),
      )
