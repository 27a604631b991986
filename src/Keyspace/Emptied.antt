-- ===== src/Keyspace/Emptied.antt =====
-- Databases without keys, over the server and over its contents, and `emptyDb`.
use redis_allocators.Prelude.{
  ℕ, zero, suc, ◌+◌, ◌<◌, ◌≡◌, not, ◌&&◌, refl, sym, ap, ap₂, true, false, Option, none, ltb, ◌==◌,
  if◌then◌else◌, fun_ext, arith, Bool-cases, inl, inr,
}
use redis_allocators.Prelude.Int.{ℤ}
use redis_allocators.Keyspace.Interface.{Text, Dictionary}
use redis_allocators.Keyspace.Spec.{Entry, Contents}
use redis_allocators.Keyspace.Yields.{Yields, Yields-cast}
use redis_allocators.Keyspace.Shows.{Shows}
use redis_allocators.Keyspace.Signals.{pure-Yields}
use redis_allocators.Keyspace.State.{Robj, Setting, Db, Server, put_dict, put_expires}
use redis_allocators.Keyspace.Flush.{add_dirty, empty_dicts, empty_each}

-- A database without keys.
abbrev pub emptied : Contents → ℕ → Contents
emptied x d = record x { keys = λ i. if i == d then (λ _. none) else x.keys i }

-- The databases from `j` on, `n` of them, without keys.
abbrev pub emptied_from : Contents → (j n : ℕ) → Contents
emptied_from x j n = record x {
  keys = λ i. if not (ltb i j) && ltb i (j + n) then (λ _. none) else x.keys i;
}

emptied_from_none : (x : Contents) (j : ℕ) → emptied_from x j 0 ≡ x
emptied_from_none x j = same (fun_ext λ i. outside i)
  where
    same : {f : ℕ → Text → Option Entry} → f ≡ x.keys → record x { keys = f } ≡ x
    same e = ap (λ g. record x { keys = g }) e

    outside :
        (i : ℕ) → (if not (ltb i j) && ltb i (j + 0) then (λ _. none) else x.keys i) ≡ x.keys i
    outside i = let no : not (ltb i j) && ltb i (j + 0) ≡ false = ground arith in rw no refl

emptied_from_step :
    (x : Contents) (j n : ℕ) → emptied_from (emptied x j) (j + 1) n ≡ emptied_from x j (suc n)
emptied_from_step x j n = ap (λ g. record x { keys = g }) (fun_ext λ i. inside i)
  where
    inside :
        (i : ℕ) → (emptied_from (emptied x j) (j + 1) n).keys i ≡ (emptied_from x j (suc n)).keys i
    inside i = elim (Bool-cases (i == j)) [
      | inl here ↦
          let before : not (ltb i (j + 1)) && ltb i (j + 1 + n) ≡ false = ground arith in
          let now : not (ltb i j) && ltb i (j + suc n) ≡ true = ground arith in
          rw (before, now, here) refl
      | inr other ↦
          let same : not (ltb i (j + 1)) && ltb i (j + 1 + n) ≡ not (ltb i j) && ltb i (j + suc n) =
            ground arith in
          rw (same, other) refl
    ]

-- How many keys the dictionaries hold.
unfoldable pub sizes : {D E : Type 0} → Dictionary D Robj → (ℕ → Db D E) → (n j : ℕ) → ℕ
sizes keys f zero j = 0
sizes keys f (suc n) j = keys.size (f j).dict + sizes keys f n (j + 1)

module _ {D E : Type 0} (keys : Dictionary D Robj) (deadlines : Dictionary E ℤ) where
  abbrev pub emptied_server : Server D E → ℕ → Server D E
  emptied_server s d =
      let t = put_dict s d (keys.empty (s.db d).dict) in
      put_expires t d (deadlines.empty (t.db d).expires)

  sizes-emptied :
      (s : Server D E) (n i j : ℕ)
      → j < i
      → sizes keys (emptied_server s j).db n i ≡ sizes keys s.db n i
  unfolding sizes
  sizes-emptied s zero i j later = refl
  sizes-emptied s (suc n) i j later =
      let other : i == j ≡ false = ground arith in
      ap₂ ◌+◌ (rw other refl) (sizes-emptied s n (i + 1) j (omega arith))

module _ {D E : Type 0} {keys : Dictionary D Robj} {deadlines : Dictionary E ℤ} where
  emptied_server-Shows :
      (d : ℕ) {s : Server D E} {x : Contents}
      → Shows keys deadlines s x
      → Shows keys deadlines (emptied_server keys deadlines s d) (emptied x d)
  emptied_server-Shows d {s = s} {x = x} shows = record {
    dbs = λ i. elim (Bool-cases (i == d)) [
      | inl same ↦
          let here : d == d ≡ true = ground arith in
          let empty = keys.empty_lem (s.db d).dict in
          let empty_expires = deadlines.empty_lem (s.db d).expires in
          rw (same, here)
            (record {
              sound = empty.0;
              sound_expires = empty_expires.0;
              values = empty.1;
              times = empty_expires.1;
            })
      | inr other ↦ rw other (shows.dbs i)
    ];
    readings = shows.readings;
    dirty = shows.dirty;
    events = shows.events;
  }

abbrev pub dirtied_by : Contents → ℕ → Contents
dirtied_by x n = record x { dirty = x.dirty + n }

module _ {D E : Type 0} {keys : Dictionary D Robj} {deadlines : Dictionary E ℤ} {c : Setting} where
  pub add_dirty-Yields :
      (n : ℕ) {s : Server D E} {x : Contents}
      → Shows keys deadlines s x
      → Yields keys deadlines c (add_dirty keys deadlines c n) s tt (dirtied_by x n)
  add_dirty-Yields n {s = s} shows = record {
    after = record s { dirty = s.dirty + n };
    runs = refl;
    shows = record {
      dbs = shows.dbs;
      readings = shows.readings;
      dirty = ap (λ m. m + n) shows.dirty;
      events = shows.events;
    };
  }

  pub empty_dicts-Yields :
      (d : ℕ) {s : Server D E} {x : Contents}
      → Shows keys deadlines s x
      → Yields keys deadlines c (empty_dicts keys deadlines c d) s tt (emptied x d)
  unfolding empty_dicts
  empty_dicts-Yields d {s = s} shows = record {
    after = emptied_server keys deadlines s d;
    runs = refl;
    shows = emptied_server-Shows d shows;
  }

  pub empty_each-Yields :
      (n j removed : ℕ) {s : Server D E} {x : Contents}
      → Shows keys deadlines s x
      → Yields keys deadlines c
          (empty_each keys deadlines c n j removed)
          s
          (removed + sizes keys s.db n j)
          (emptied_from x j n)
  unfolding empty_each empty_dicts sizes
  empty_each-Yields zero j removed {x = x} shows =
      Yields-cast (omega arith) (sym (emptied_from_none x j)) (pure-Yields shows removed)
  empty_each-Yields (suc n) j removed {s = s} {x = x} shows =
      let size = keys.size (s.db j).dict in
      let next = empty_each-Yields n (j + 1) (removed + size) (emptied_server-Shows j shows) in
      Yields-cast (omega (arith, sizes-emptied keys deadlines s n (j + 1) j (omega arith)))
        (emptied_from_step x j n)
        (record { after = next.after; runs = next.runs; shows = next.shows })
