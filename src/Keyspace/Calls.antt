-- ===== src/Keyspace/Calls.antt =====
-- The calls of dict.c on the two dictionaries, and the small steps, over the contents.
use redis_allocators.Prelude.{
  ℕ, ◌≡◌, refl, sym, ap, ◌∙◌, true, not, Option, none, some, ◌==◌, arith,
}
use redis_allocators.Prelude.Int.{ℤ}
use redis_allocators.Dict.Update.{is_none}
use redis_allocators.Keyspace.Interface.{Text, Dictionary}
use redis_allocators.Keyspace.Spec.{Entry, Contents, value_of, deadline_of, write}
use redis_allocators.Keyspace.Yields.{Yields}
use redis_allocators.Keyspace.Shows.{
  Shows, put_db-Shows, put_db_same-Shows, dict-DbShows, expires-DbShows,
}
use redis_allocators.Keyspace.State.{Robj, Setting, Server, put_dict, put_expires}
use redis_allocators.Keyspace.{
  find_deadline, add_key, replace_key, delete_key, replace_deadline, delete_deadline,
}

-- The entry without its deadline.
abbrev pub persisted : Option Entry → Option Entry
persisted none = none
persisted (some e) = some (e.0, none)

pub value_of-persisted : (o : Option Entry) → value_of (persisted o) ≡ value_of o
value_of-persisted none = refl
value_of-persisted (some e) = refl

pub deadline_of-persisted : (o : Option Entry) → deadline_of (persisted o) ≡ none
deadline_of-persisted none = refl
deadline_of-persisted (some e) = refl

pub value_none : (o : Option Entry) → value_of o ≡ none → deadline_of o ≡ none
value_none none h = refl
value_none (some e) h = cc

module _ {D E : Type 0} {keys : Dictionary D Robj} {deadlines : Dictionary E ℤ} {s : Server D E}
    {x : Contents} (shows : Shows keys deadlines s x) where
  -- `dictSize(db->expires)` is zero only if the key has no deadline.
  pub no_deadlines :
      (d : ℕ) (k : Text)
      → deadlines.size (s.db d).expires == 0 ≡ true
      → deadline_of (x.keys d k) ≡ none
  no_deadlines d k empty =
      let b = shows.dbs d in
      let zero_size : deadlines.size (s.db d).expires ≡ 0 = ground arith in
      sym (b.times k) ∙ deadlines.size_zero (s.db d).expires k b.sound_expires zero_size

module _ {D E : Type 0} {keys : Dictionary D Robj} {deadlines : Dictionary E ℤ} {c : Setting}
    {s : Server D E} {x : Contents} (shows : Shows keys deadlines s x) where
  module _ (d : ℕ) (k : Text) where
    pub find_deadline-Yields :
        Yields keys deadlines c (find_deadline keys deadlines c d k) s (deadline_of (x.keys d k)) x
    unfolding find_deadline
    find_deadline-Yields =
        let b = shows.dbs d in
        let (sound, same, found) = deadlines.find_lem (s.db d).expires k b.sound_expires in
        let t = (deadlines.find (s.db d).expires k).0 in
        record {
          after = put_expires s d t;
          runs = rw (found, b.times k) refl;
          shows =
              put_db_same-Shows s x d (record (s.db d) { expires = t }) shows
                (record {
                  sound = b.sound;
                  sound_expires = sound;
                  values = b.values;
                  times = λ q. same q ∙ b.times q;
                });
        }

    pub add_key-Yields :
        (v : Robj)
        → value_of (x.keys d k) ≡ none
        → Yields keys deadlines c
            (add_key keys deadlines c d k v)
            s
            true
            (write x d k (some (v, none)))
    unfolding add_key
    add_key-Yields v gone =
        let b = shows.dbs d in
        let r = c.dict_can_resize in
        let (sound, added, seen) = keys.add_lem r (s.db d).dict k v b.sound in
        let t = (keys.add r (s.db d).dict k v).0 in
        let new : (keys.add r (s.db d).dict k v).1 ≡ true =
          added ∙ ap is_none (b.values k ∙ gone) in
        record {
          after = put_dict s d t;
          runs = rw new refl;
          shows =
              put_db-Shows s x d k (some (v, none)) (record (s.db d) { dict = t }) shows
                (dict-DbShows (s.db d) (x.keys d) k (some (v, none)) t b sound
                  (λ q. seen q ∙ rw new refl) (sym (value_none (x.keys d k) gone)));
        }

    pub replace_key-Yields :
        (v : Robj)
        → Yields keys deadlines c
            (replace_key keys deadlines c d k v)
            s
            tt
            (write x d k (some (v, deadline_of (x.keys d k))))
    unfolding replace_key
    replace_key-Yields v =
        let b = shows.dbs d in
        let e : Option Entry = some (v, deadline_of (x.keys d k)) in
        let t = keys.replace c.dict_can_resize (s.db d).dict k v in
        let (sound, seen) = keys.replace_lem c.dict_can_resize (s.db d).dict k v b.sound in
        record {
          after = put_dict s d t;
          runs = refl;
          shows =
              put_db-Shows s x d k e (record (s.db d) { dict = t }) shows
                (dict-DbShows (s.db d) (x.keys d) k e t b sound seen refl);
        }

    pub delete_key-Yields :
        deadline_of (x.keys d k) ≡ none
        → Yields keys deadlines c
            (delete_key keys deadlines c d k)
            s
            (not (is_none (value_of (x.keys d k))))
            (write x d k none)
    unfolding delete_key
    delete_key-Yields free =
        let b = shows.dbs d in
        let t = (keys.delete (s.db d).dict k).0 in
        let (sound, deleted, seen) = keys.delete_lem (s.db d).dict k b.sound in
        record {
          after = put_dict s d t;
          runs = rw (deleted, b.values k) refl;
          shows =
              put_db-Shows s x d k none (record (s.db d) { dict = t }) shows
                (dict-DbShows (s.db d) (x.keys d) k none t b sound seen (sym free));
        }

    pub delete_deadline-Yields :
        Yields keys deadlines c
          (delete_deadline keys deadlines c d k)
          s
          (not (is_none (deadline_of (x.keys d k))))
          (write x d k (persisted (x.keys d k)))
    unfolding delete_deadline
    delete_deadline-Yields =
        let b = shows.dbs d in
        let e = persisted (x.keys d k) in
        let t = (deadlines.delete (s.db d).expires k).0 in
        let (sound, deleted, seen) = deadlines.delete_lem (s.db d).expires k b.sound_expires in
        record {
          after = put_expires s d t;
          runs = rw (deleted, b.times k) refl;
          shows =
              put_db-Shows s x d k e (record (s.db d) { expires = t }) shows
                (expires-DbShows (s.db d) (x.keys d) k e t b sound
                  (λ q. seen q ∙ rw (deadline_of-persisted (x.keys d k)) refl)
                  (value_of-persisted (x.keys d k)));
        }

    pub replace_deadline-Yields :
        (v : Robj) (when : ℤ)
        → value_of (x.keys d k) ≡ some v
        → Yields keys deadlines c
            (replace_deadline keys deadlines c d k when)
            s
            tt
            (write x d k (some (v, some when)))
    unfolding replace_deadline
    replace_deadline-Yields v when there =
        let b = shows.dbs d in
        let e : Option Entry = some (v, some when) in
        let t = deadlines.replace_raw c.dict_can_resize (s.db d).expires k when in
        let (sound, seen) =
          deadlines.replace_raw_lem c.dict_can_resize (s.db d).expires k when b.sound_expires in
        record {
          after = put_expires s d t;
          runs = refl;
          shows =
              put_db-Shows s x d k e (record (s.db d) { expires = t }) shows
                (expires-DbShows (s.db d) (x.keys d) k e t b sound seen (sym there));
        }
