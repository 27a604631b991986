-- ===== src/Multi/Valid.antt =====
-- The invariant of multi.c: a client's list of watched keys and the server's tables agree, and a
-- client outside MULTI has nothing queued.
use redis_allocators.Prelude.{
  ℕ, ◌≤◌, ◌≡◌, refl, true, false, List, [], ◌∷◌, ◌==◌, arith, Bool-cases, inl, inr, ◌↔◌,
}
use redis_allocators.Prelude.Eq.{
  nat_eq, list_eq, pair_eq, count, remove_first, count-append, count-remove_first,
}
use redis_allocators.Listeners.{
  Table, leave, entries, IsTrim, entries-join, entries-leave, join-IsTrim, leave-IsTrim,
  list_or_nil,
}
use redis_allocators.Multi.{
  Key, Client, Server, put_client, watch_for_key, unwatch_each, unwatch_all_keys,
  discard_transaction, mark, mark_each, touch_watched_key,
}

key_iff : (j k : Key) → ((pair_eq {A = ℕ} {B = List ℕ}).beq j k ≡ true) ↔ (j ≡ k)
key_iff j k = (pair_eq {A = ℕ} {B = List ℕ}).beq_iff j k

abbrev pub IsIdle : {Cmd : Type 0} → Client Cmd → Type 0
IsIdle x = x.multi ≡ false → (x.commands ≡ []) × (x.dirty_exec ≡ false)

-- The clients and the tables of watched keys.
pub record IsSound {Cmd : Type 0} (client : ℕ → Client Cmd) (watched_keys : Table Key)
    : Type 0 where
  pub agree : (c : ℕ) (k : Key) → entries watched_keys k c ≡ count k (client c).watched_keys
  pub once : (c : ℕ) (k : Key) → count k (client c).watched_keys ≤ 1
  pub trim : IsTrim watched_keys
  pub idle : (c : ℕ) → IsIdle (client c)

module _ {D Cmd R : Type 0} where
  abbrev pub IsValid : Server D Cmd R → Type 0
  IsValid s = IsSound s.client s.watched_keys

  -- A change of a client that keeps its watched keys.
  pub put_client-IsValid :
      (s : Server D Cmd R) (c : ℕ) (x : Client Cmd)
      → IsValid s
      → x.watched_keys ≡ (s.client c).watched_keys
      → IsIdle x
      → IsValid (put_client s c x)
  put_client-IsValid s c x valid same idle = record {
    agree = λ d k. ground (arith, valid.agree d k);
    once = λ d k. ground (arith, valid.once d k);
    trim = valid.trim;
    idle = λ d. ground (arith, valid.idle d);
  }

  pub watch_for_key-IsValid :
      (s : Server D Cmd R) (c : ℕ) (key : List ℕ) → IsValid s → IsValid (watch_for_key s c key)
  unfolding watch_for_key
  watch_for_key-IsValid s c key valid =
      let k : Key = ((s.client c).db, key) in
      let l = (s.client c).watched_keys in
      elim (Bool-cases (count k l == 0)) [
        | inr e ↦ rw e valid
        | inl e ↦ rw e (record {
          agree = λ d j.
              unfold count in
              ground (
                arith,
                entries-join s.watched_keys k j c d,
                count-append j l (k ∷ []),
                valid.agree d j,
                key_iff k j,
                key_iff j k,
              );
          once = λ d j.
              unfold count in
              ground (arith, valid.once d j, count-append j l (k ∷ []), key_iff j k);
          trim = join-IsTrim s.watched_keys k c valid.trim;
          idle = λ d. ground (arith, valid.idle d);
        })
      ]

  -- One round of `unwatchAllKeys`.
  unfoldable pub unwatch_one : Server D Cmd R → ℕ → Key → Server D Cmd R
  unwatch_one s c k =
      record (put_client s c
        (record (s.client c) { watched_keys = remove_first k (s.client c).watched_keys })) {
          watched_keys = leave s.watched_keys k c;
        }

  unwatch_one-IsValid :
      (s : Server D Cmd R) (c : ℕ) (k : Key) → IsValid s → IsValid (unwatch_one s c k)
  unfolding unwatch_one
  unwatch_one-IsValid s c k valid =
      let l = (s.client c).watched_keys in
      record {
        agree = λ d j. ground (
          arith,
          entries-leave s.watched_keys k j c d,
          count-remove_first j k l,
          valid.agree d j,
          key_iff k j,
          key_iff j k,
        );
        once = λ d j. ground (arith, valid.once d j, count-remove_first j k l);
        trim = leave-IsTrim s.watched_keys k c valid.trim;
        idle = λ d. ground (arith, valid.idle d);
      }

  unwatch_each-IsValid :
      (s : Server D Cmd R) (c : ℕ) (ks : List Key) → IsValid s → IsValid (unwatch_each s c ks)
  unfolding unwatch_each unwatch_one
  unwatch_each-IsValid s c [] valid = valid
  unwatch_each-IsValid s c (k ∷ ks) valid =
      unwatch_each-IsValid (unwatch_one s c k) c ks (unwatch_one-IsValid s c k valid)

  pub unwatch_all_keys-IsValid :
      (s : Server D Cmd R) (c : ℕ) → IsValid s → IsValid (unwatch_all_keys s c)
  unfolding unwatch_all_keys
  unwatch_all_keys-IsValid s c valid = unwatch_each-IsValid s c (s.client c).watched_keys valid

  pub discard_transaction-IsValid :
      (s : Server D Cmd R) (c : ℕ) → IsValid s → IsValid (discard_transaction s c)
  unfolding discard_transaction
  discard_transaction-IsValid s c valid =
      unwatch_all_keys-IsValid _ c (put_client-IsValid s c _ valid refl (λ e. (refl, refl)))

  pub mark_each-IsValid : (s : Server D Cmd R) (cs : List ℕ) → IsValid s → IsValid (mark_each s cs)
  unfolding mark_each
  mark_each-IsValid s [] valid = valid
  mark_each-IsValid s (c ∷ cs) valid =
      mark_each-IsValid (mark s c) cs (put_client-IsValid s c _ valid refl (valid.idle c))

  pub touch_watched_key-IsValid :
      (s : Server D Cmd R) (k : Key) → IsValid s → IsValid (touch_watched_key s k)
  unfolding touch_watched_key
  touch_watched_key-IsValid s k valid = mark_each-IsValid s (list_or_nil (s.watched_keys k)) valid
