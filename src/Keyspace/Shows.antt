-- ===== src/Keyspace/Shows.antt =====
-- A server shows contents: both dictionaries are sound, and stand for the values and the deadlines.
-- The calls of dict.c and the small steps, over the contents.
use redis_allocators.Prelude.{
  ℕ, ◌≡◌, refl, sym, ap, subst, ◌∙◌, true, Option, ◌==◌, arith, Bool-cases, inl, inr,
}
use redis_allocators.Prelude.Int.{ℤ}
use redis_allocators.Keyspace.Interface.{Text, put, same_text, Dictionary}
use redis_allocators.Keyspace.Spec.{Entry, Contents, value_of, deadline_of, write}
use redis_allocators.Keyspace.Tables.{same_text_iff}
use redis_allocators.Keyspace.State.{Robj, Server, Db, put_db, put_dict}

==_eq : (a b : ℕ) → (a == b) ≡ true → a ≡ b
==_eq a b h = ground arith

pub same_text-eq : (a b : Text) → same_text a b ≡ true → a ≡ b
same_text-eq a b h = (same_text_iff a b).0 h

module _ {V : Type 0} (f : Option Entry → Option V) where
  put_image :
      (g : Text → Option V) (m : Text → Option Entry) (k : Text) (e : Option Entry)
      → ((q : Text) → g q ≡ f (m q))
      → (q : Text) → put g k (f e) q ≡ f (put m k e q)
  put_image g m k e same q = elim (Bool-cases (same_text q k)) [
    | inl here ↦ rw here refl
    | inr other ↦ rw other (same q)
  ]

  put_same :
      (m : Text → Option Entry) (k : Text) (e : Option Entry)
      → f e ≡ f (m k)
      → (q : Text) → f (m q) ≡ f (put m k e q)
  put_same m k e same q = elim (Bool-cases (same_text q k)) [
    | inl here ↦ rw here (ap (λ t. f (m t)) (same_text-eq q k here) ∙ sym same)
    | inr other ↦ rw other refl
  ]

module _ {D E : Type 0} (keys : Dictionary D Robj) (deadlines : Dictionary E ℤ) where
  pub record DbShows (b : Db D E) (m : Text → Option Entry) : Type 0 where
    pub sound : keys.IsSound b.dict
    pub sound_expires : deadlines.IsSound b.expires
    pub values : (k : Text) → keys.view b.dict k ≡ value_of (m k)
    pub times : (k : Text) → deadlines.view b.expires k ≡ deadline_of (m k)

  pub record Shows (s : Server D E) (x : Contents) : Type 0 where
    pub dbs : (d : ℕ) → DbShows (s.db d) (x.keys d)
    pub readings : s.readings ≡ x.readings
    pub dirty : s.dirty ≡ x.dirty
    pub events : s.events ≡ x.events

module _ {D E : Type 0} {keys : Dictionary D Robj} {deadlines : Dictionary E ℤ} where
  pub put_db-Shows :
      (s : Server D E) (x : Contents) (d : ℕ) (k : Text) (e : Option Entry) (b : Db D E)
      → Shows keys deadlines s x
      → DbShows keys deadlines b (put (x.keys d) k e)
      → Shows keys deadlines (put_db s d b) (write x d k e)
  put_db-Shows s x d k e b shows here = record {
    dbs = λ i. elim (Bool-cases (i == d)) [
      | inl same ↦ rw same here
      | inr other ↦ rw other (shows.dbs i)
    ];
    readings = shows.readings;
    dirty = shows.dirty;
    events = shows.events;
  }

  -- A dictionary that has been stepped stands for the same map.
  pub put_db_same-Shows :
      (s : Server D E) (x : Contents) (d : ℕ) (b : Db D E)
      → Shows keys deadlines s x
      → DbShows keys deadlines b (x.keys d)
      → Shows keys deadlines (put_db s d b) x
  put_db_same-Shows s x d b shows here = record {
    dbs = λ i. elim (Bool-cases (i == d)) [
      | inl same ↦
          let here' : DbShows keys deadlines b (x.keys i) =
            subst (λ j. DbShows keys deadlines b (x.keys j)) (sym (==_eq i d same)) here in
          rw same here'
      | inr other ↦ rw other (shows.dbs i)
    ];
    readings = shows.readings;
    dirty = shows.dirty;
    events = shows.events;
  }

  pub dict-DbShows :
      (b : Db D E) (m : Text → Option Entry) (k : Text) (e : Option Entry) (t : D)
      → DbShows keys deadlines b m
      → keys.IsSound t
      → ((q : Text) → keys.view t q ≡ put (keys.view b.dict) k (value_of e) q)
      → deadline_of e ≡ deadline_of (m k)
      → DbShows keys deadlines (record b { dict = t }) (put m k e)
  dict-DbShows b m k e t shows sound seen same = record {
    sound = sound;
    sound_expires = shows.sound_expires;
    values = λ q. seen q ∙ put_image value_of (keys.view b.dict) m k e shows.values q;
    times = λ q. shows.times q ∙ put_same deadline_of m k e same q;
  }

  pub expires-DbShows :
      (b : Db D E) (m : Text → Option Entry) (k : Text) (e : Option Entry) (t : E)
      → DbShows keys deadlines b m
      → deadlines.IsSound t
      → ((q : Text) → deadlines.view t q ≡ put (deadlines.view b.expires) k (deadline_of e) q)
      → value_of e ≡ value_of (m k)
      → DbShows keys deadlines (record b { expires = t }) (put m k e)
  expires-DbShows b m k e t shows sound seen same = record {
    sound = shows.sound;
    sound_expires = sound;
    values = λ q. shows.values q ∙ put_same value_of m k e same q;
    times = λ q. seen q ∙ put_image deadline_of (deadlines.view b.expires) m k e shows.times q;
  }

  module _ {s : Server D E} {x : Contents} (shows : Shows keys deadlines s x) (d : ℕ) where
    -- A search steps the dictionary.
    pub stepped_dict :
        (t : D)
        → keys.IsSound t
        → ((q : Text) → keys.view t q ≡ keys.view (s.db d).dict q)
        → Shows keys deadlines (put_dict s d t) x
    stepped_dict t sound same =
        let b = shows.dbs d in
        put_db_same-Shows s x d (record (s.db d) { dict = t }) shows
          (record {
            sound = sound;
            sound_expires = b.sound_expires;
            values = λ q. same q ∙ b.values q;
            times = b.times;
          })
