-- ===== src/Multi/Clean.antt =====
-- What the operations of multi.c leave alone, and which flags they set and clear.
use redis_allocators.Prelude.{
  ℕ, ◌≡◌, ◌≢◌, refl, ap, ◌∙◌, true, false, List, [], ◌∷◌, ◌==◌, if◌then◌else◌, arith, inl, ◌⊎◌,
}
use redis_allocators.Prelude.Eq.{nat_eq, list_eq, pair_eq, count, remove_first, remove_first_head}
use redis_allocators.Listeners.{list_or_nil}
use redis_allocators.Multi.{
  Key, Client, Server, put_client, unwatch_each, unwatch_all_keys, discard_transaction, mark,
  mark_each, touch_watched_key,
}
use redis_allocators.Multi.Exec.{touch_each}
use redis_allocators.Multi.Valid.{IsValid, unwatch_one}

abbrev pub marked : {Cmd : Type 0} → Client Cmd → Client Cmd
marked x = record x { dirty_cas = true }

-- A client that does not watch and has nothing queued.
abbrev pub reset_client : {Cmd : Type 0} → Client Cmd → Client Cmd
reset_client x = record x {
  commands = [];
  multi = false;
  dirty_cas = false;
  dirty_exec = false;
  watched_keys = [];
}

module _ {D Cmd R : Type 0} where
  -- The fields that only commands and replies change.
  abbrev pub SameRest : Server D Cmd R → Server D Cmd R → Type 0
  SameRest s t =
      (t.keyspace ≡ s.keyspace)
      × (t.sent ≡ s.sent)
      × (t.dirty ≡ s.dirty)
      × (t.multis ≡ s.multis)
      × (t.clients ≡ s.clients)

  pub mark_each_lem :
      (s : Server D Cmd R) (cs : List ℕ)
      → SameRest s (mark_each s cs)
        × ((d : ℕ)
            → (mark_each s cs).client d
              ≡ (if count d cs == 0 then s.client d else marked (s.client d)))
        × ((mark_each s cs).watched_keys ≡ s.watched_keys)
  unfolding mark_each count
  mark_each_lem s [] = ((refl, refl, refl, refl, refl), λ d. refl, refl)
  mark_each_lem s (c ∷ cs) =
      let (rest, client, tables) = mark_each_lem (mark s c) cs in
      (rest, λ d. client d ∙ ground arith, tables)

  -- Exactly the clients that watch a key are marked when it is touched.
  pub touch_watched_key_lem :
      (s : Server D Cmd R) (k : Key)
      → IsValid s
      → SameRest s (touch_watched_key s k)
        × ((d : ℕ)
            → (touch_watched_key s k).client d ≡ (
                if count k (s.client d).watched_keys == 0 then s.client d else marked (s.client d)))
  unfolding touch_watched_key
  touch_watched_key_lem s k valid =
      let (rest, client, tables) = mark_each_lem s (list_or_nil (s.watched_keys k)) in
      (
        rest,
        λ d.
            client d
            ∙ ap (λ n. if n == 0 then s.client d else marked (s.client d)) (valid.agree d k),
      )

  -- The loop of `unwatchAllKeys` over the whole list.
  unwatch_each_lem :
      (s : Server D Cmd R) (c : ℕ) (ks : List Key)
      → (s.client c).watched_keys ≡ ks
      → SameRest s (unwatch_each s c ks)
        × ((unwatch_each s c ks).client c ≡ record (s.client c) { watched_keys = [] })
        × ((d : ℕ) → d ≢ c → (unwatch_each s c ks).client d ≡ s.client d)
  unfolding unwatch_each unwatch_one
  unwatch_each_lem s c [] e = (
    (refl, refl, refl, refl, refl),
    ap (λ l. record (s.client c) { watched_keys = l }) e,
    λ d ne. refl,
  )
  unwatch_each_lem s c (k ∷ ks) e =
      let next = unwatch_one s c k in
      let shorter : remove_first k (s.client c).watched_keys ≡ ks =
        ap (remove_first k) e ∙ remove_first_head k ks in
      let here : next.client c ≡ record (s.client c) { watched_keys = ks } = ground arith in
      let (rest, client, others) = unwatch_each_lem next c ks (ap (λ x. x.watched_keys) here) in
      (
        rest,
        client ∙ ap (λ (x : Client Cmd). record x { watched_keys = [] }) here,
        λ d ne. others d ne ∙ ground arith,
      )

  pub unwatch_all_keys_lem :
      (s : Server D Cmd R) (c : ℕ)
      → SameRest s (unwatch_all_keys s c)
        × ((unwatch_all_keys s c).client c ≡ record (s.client c) { watched_keys = [] })
        × ((d : ℕ) → d ≢ c → (unwatch_all_keys s c).client d ≡ s.client d)
  unfolding unwatch_all_keys
  unwatch_all_keys_lem s c = unwatch_each_lem s c (s.client c).watched_keys refl

  pub discard_transaction_lem :
      (s : Server D Cmd R) (c : ℕ)
      → SameRest s (discard_transaction s c)
        × ((discard_transaction s c).client c ≡ reset_client (s.client c))
        × ((d : ℕ) → d ≢ c → (discard_transaction s c).client d ≡ s.client d)
  unfolding discard_transaction
  discard_transaction_lem s c =
      let cleared = put_client s c (record (s.client c) {
        commands = [];
        multi = false;
        dirty_cas = false;
        dirty_exec = false;
      }) in
      let (rest, client, others) = unwatch_all_keys_lem cleared c in
      (rest, client ∙ ground arith, λ d ne. others d ne ∙ ground arith)

  -- Reported keys mark clients, and do nothing else.
  pub touch_each_lem :
      (s : Server D Cmd R) (ks : List Key)
      → SameRest s (touch_each s ks)
        × ((d : ℕ)
            → ((touch_each s ks).client d ≡ s.client d)
              ⊎ ((touch_each s ks).client d ≡ marked (s.client d)))
        × ((touch_each s ks).watched_keys ≡ s.watched_keys)
  unfolding touch_each touch_watched_key
  touch_each_lem s [] = ((refl, refl, refl, refl, refl), λ d. inl refl, refl)
  touch_each_lem s (k ∷ ks) =
      let (rest, client, tables) = mark_each_lem s (list_or_nil (s.watched_keys k)) in
      let (rest', client', tables') = touch_each_lem (touch_watched_key s k) ks in
      (
        (rest'.0 ∙ rest.0, rest'.1 ∙ rest.1, rest'.2 ∙ rest.2, rest'.3 ∙ rest.3, rest'.4 ∙ rest.4),
        λ d. ground (arith, client d, client' d),
        tables' ∙ tables,
      )
