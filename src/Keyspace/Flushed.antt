-- ===== src/Keyspace/Flushed.antt =====
-- FLUSHDB and FLUSHALL: what they promise, and that they do it.
use redis_allocators.Prelude.{
  ℕ, ◌+◌, ◌^◌, ◌<◌, ◌≡◌, refl, ap, ◌∙◌, Bool, true, false, none, some, [], ◌∷◌, ◌++◌, if◌then◌else◌,
  arith,
}
use redis_allocators.Prelude.Int.{ℤ, to_int, to_int_lem}
use redis_allocators.Rdb.{word64}
use redis_allocators.Keyspace.Interface.{Dictionary}
use redis_allocators.Keyspace.Steps.{pure, ◌>>◌}
use redis_allocators.Keyspace.Spec.{Contents, say, say_if}
use redis_allocators.Keyspace.Yields.{Yields, Yields-bind, Yields-then, Yields-gets, Yields-cast}
use redis_allocators.Keyspace.Shows.{Shows}
use redis_allocators.Keyspace.Signals.{pure-Yields, tell-Yields, tell_if-Yields, make_dirty-Yields}
use redis_allocators.Keyspace.Commands.{add_reply}
use redis_allocators.Keyspace.Described.{reply, dirtied}
use redis_allocators.Keyspace.State.{
  Robj, Event, ok, flushed, child_killed, rdb_saved, Setting, Server,
}
use redis_allocators.Keyspace.{Step, tell}
use redis_allocators.Keyspace.Flush.{
  Saving, add_dirty, empty_dicts, flushdb_command, save_unchanged, flushall_command, flush_rest,
}
use redis_allocators.Keyspace.Emptied.{
  emptied, emptied_from, sizes, dirtied_by, add_dirty-Yields, empty_dicts-Yields, empty_each-Yields,
}

-- FLUSHALL with this many keys, behind the signal and with it.
abbrev pub flushed_rest : Setting → Saving → Contents → ℕ → Contents
flushed_rest c saving x removed =
    let empty = emptied_from x 0 c.dbnum in
    let told = say_if saving.rdb_child (reply (dirtied_by empty removed) ok) child_killed in
    dirtied (say_if saving.save_points told rdb_saved)

abbrev pub flushed_all : Setting → Saving → Contents → ℕ → Contents
flushed_all c saving x removed = flushed_rest c saving (say x (flushed none)) removed

-- A number of 31 bits comes through an `int`.
int_word : (n : ℕ) → n < 2 ^ 31 → word64 (to_int n) ≡ n
int_word n few = rw (to_int_lem n few) (omega arith)

module _ {D E : Type 0} {keys : Dictionary D Robj} {deadlines : Dictionary E ℤ} {c : Setting} where
  save_unchanged-Yields :
      (saving : Saving) {s : Server D E} {x : Contents}
      → Shows keys deadlines s x
      → x.dirty < 2 ^ 31
      → Yields keys deadlines c (save_unchanged keys deadlines c saving) s tt (say x rdb_saved)
  unfolding tell
  save_unchanged-Yields saving {s = s} {x = x} shows few = record {
    after = record s { dirty = word64 (to_int s.dirty); events = s.events ++ (rdb_saved ∷ []) };
    runs = refl;
    shows = record {
      dbs = shows.dbs;
      readings = shows.readings;
      dirty = ap (λ n. word64 (to_int n)) shows.dirty ∙ int_word x.dirty few;
      events = ap (λ l. l ++ (rdb_saved ∷ [])) shows.events;
    };
  }

  -- FLUSHDB runs without an abort and empties one database.
  pub flushdb_command-Yields :
      (d : ℕ) {s : Server D E} {x : Contents}
      → Shows keys deadlines s x
      → Yields keys deadlines c
          (flushdb_command keys deadlines c d)
          s
          tt
          (reply (emptied (say (dirtied_by x (keys.size (s.db d).dict)) (flushed (some d))) d) ok)
  unfolding flushdb_command
  flushdb_command-Yields d {s = s} shows =
      Yields-gets (λ s'. keys.size (s'.db d).dict)
        (λ n.
          add_dirty keys deadlines c n
          >> (tell keys deadlines c (flushed (some d))
              >> (empty_dicts keys deadlines c d >> add_reply keys deadlines c ok)))
        (Yields-then _ _ (add_dirty-Yields (keys.size (s.db d).dict) shows) (λ s₁ shows₁.
          Yields-then _ _ (tell-Yields shows₁ _) (λ s₂ shows₂.
            Yields-then _ _ (empty_dicts-Yields d shows₂) (λ s₃ shows₃. tell-Yields shows₃ _))))

  tell_or_keep :
      (b : Bool) (e : Event) {m : Step keys deadlines c Unit} {s : Server D E} {x : Contents}
      → (b ≡ true → Yields keys deadlines c m s tt (say x e))
      → Yields keys deadlines c (pure tt) s tt x
      → Yields keys deadlines c (if b then m else pure tt) s tt (say_if b x e)
  tell_or_keep true e y y' = y refl
  tell_or_keep false e y y' = y'

  -- FLUSHALL behind the signal to the watchers.
  flush_rest-Yields :
      (saving : Saving) {s : Server D E} {x : Contents}
      → Shows keys deadlines s x
      → (saving.save_points ≡ true → x.dirty + sizes keys s.db c.dbnum 0 < 2 ^ 31)
      → Yields keys deadlines c
          (flush_rest keys deadlines c saving)
          s
          tt
          (flushed_rest c saving x (sizes keys s.db c.dbnum 0))
  flush_rest-Yields saving {s = s} shows held =
      let total : 0 + sizes keys s.db c.dbnum 0 ≡ sizes keys s.db c.dbnum 0 = omega arith in
      Yields-bind _ _ (Yields-cast total refl (empty_each-Yields c.dbnum 0 0 shows)) (λ s₂ shows₂.
        Yields-then _ _ (add_dirty-Yields (sizes keys s.db c.dbnum 0) shows₂) (λ s₃ shows₃.
          Yields-then _ _ (tell-Yields shows₃ _) (λ s₄ shows₄.
            Yields-then _ _ (tell_if-Yields shows₄ saving.rdb_child child_killed) (λ s₅ shows₅.
              Yields-then _ _
                (tell_or_keep saving.save_points rdb_saved
                  (λ on. save_unchanged-Yields saving shows₅ (held on)) (pure-Yields shows₅ tt))
                (λ s₆ shows₆. make_dirty-Yields shows₆)))))

  -- From a server that shows contents FLUSHALL runs without an abort, if the server has no save
  -- points, or if the changes so far and the entries of the dictionaries are less than 2 ^ 31. The
  -- watchers are told, all databases are empty behind it, and it counts one change more than the
  -- dictionaries had entries, although `rdbSave` resets that counter.
  pub flushall_command-Yields :
      (saving : Saving) {s : Server D E} {x : Contents}
      → Shows keys deadlines s x
      → (saving.save_points ≡ true → x.dirty + sizes keys s.db c.dbnum 0 < 2 ^ 31)
      → Yields keys deadlines c
          (flushall_command keys deadlines c saving)
          s
          tt
          (flushed_all c saving x (sizes keys s.db c.dbnum 0))
  unfolding flushall_command tell
  flushall_command-Yields saving {s = s} {x = x} shows held =
      let told : Shows keys deadlines (record s { events = s.events ++ (flushed none ∷ []) })
          (say x (flushed none)) =
        record {
          dbs = shows.dbs;
          readings = shows.readings;
          dirty = shows.dirty;
          events = ap (λ l. l ++ (flushed none ∷ [])) shows.events;
        } in
      let rest = flush_rest-Yields saving told held in
      record { after = rest.after; runs = rest.runs; shows = rest.shows }
