-- ===== src/Listeners.antt =====
-- The tables from a key to a list of clients that pubsub.c and multi.c keep in the same way: a list
-- is created with its first client and deleted with its last one.
use redis_allocators.Prelude.{
  ℕ, ◌+◌, ◌-◌, ◌≡◌, ◌≢◌, refl, ap, ◌∙◌, Option, none, some, List, [], ◌∷◌, ◌++◌, if◌then◌else◌,
  arith, Bool-cases, inl, inr,
}
use redis_allocators.Prelude.Eq.{Eq, nat_eq, count, remove_first, count-append, count-remove_first}

abbrev pub Table {ℓ} : Type ℓ → Type ℓ
Table K = K → Option (List ℕ)

abbrev pub list_or_nil {ℓ} : {A : Type ℓ} → Option (List A) → List A
list_or_nil none = []
list_or_nil (some l) = l

abbrev pub some_or_gone {ℓ} : {A : Type ℓ} → List A → Option (List A)
some_or_gone [] = none
some_or_gone (x ∷ l) = some (x ∷ l)

some_or_gone_list {ℓ} : {A : Type ℓ} (l : List A) → list_or_nil (some_or_gone l) ≡ l
some_or_gone_list [] = refl
some_or_gone_list (x ∷ l) = refl

some_or_gone_full {ℓ} : {A : Type ℓ} (l : List A) → some_or_gone l ≢ some []
some_or_gone_full [] h = cc
some_or_gone_full (x ∷ l) h = cc

append_one_full {ℓ} : {A : Type ℓ} (l : List A) (x : A) → some (l ++ (x ∷ [])) ≢ some []
append_one_full [] x h = cc
append_one_full (y ∷ l) x h = cc

module _ {ℓ} {K : Type ℓ} ⦃eq : Eq K⦄ where
  -- `dictFetchValue` and then `listAddNodeTail`, with `listCreate` and `dictAdd` for a new key.
  unfoldable pub join : Table K → K → ℕ → Table K
  join t k c = λ j. if eq.beq k j then some (list_or_nil (t k) ++ (c ∷ [])) else t j

  -- `listDelNode` and then `dictDelete` for an empty list. The code stops where the key has no list.
  unfoldable pub leave : Table K → K → ℕ → Table K
  leave t k c = λ j. if eq.beq k j then some_or_gone (remove_first c (list_or_nil (t k))) else t j

  -- How often the client is in the list of the key.
  abbrev pub entries : Table K → K → ℕ → ℕ
  entries t k c = count c (list_or_nil (t k))

  pub entries-join :
      (t : Table K) (k j : K) (c d : ℕ)
      → entries (join t k c) j d
        ≡ entries t j d + (if eq.beq k j then (if nat_eq.beq d c then 1 else 0) else 0)
  unfolding join count
  entries-join t k j c d = elim (Bool-cases (eq.beq k j)) [
    | inl e ↦
        let same = ap (λ i. entries t i d) ((eq.beq_iff k j).0 e) in
        rw e (count-append d (list_or_nil (t k)) (c ∷ []) ∙ omega arith)
    | inr e ↦ rw e (omega arith)
  ]

  pub entries-leave :
      (t : Table K) (k j : K) (c d : ℕ)
      → entries (leave t k c) j d
        ≡ entries t j d - (if eq.beq k j then (if nat_eq.beq d c then 1 else 0) else 0)
  unfolding leave
  entries-leave t k j c d = elim (Bool-cases (eq.beq k j)) [
    | inl e ↦
        let same = ap (λ i. entries t i d) ((eq.beq_iff k j).0 e) in
        let l = remove_first c (list_or_nil (t k)) in
        rw e (
          ap (count d) (some_or_gone_list l)
          ∙ count-remove_first d c (list_or_nil (t k))
          ∙ ap (λ n. n - (if nat_eq.beq d c then 1 else 0)) same)
    | inr e ↦ rw e (omega arith)
  ]

  -- No list is kept empty.
  abbrev pub IsTrim : Table K → Type ℓ
  IsTrim t = (k : K) → t k ≢ some []

  pub join-IsTrim : (t : Table K) (k : K) (c : ℕ) → IsTrim t → IsTrim (join t k c)
  unfolding join
  join-IsTrim t k c trim j h = elim (Bool-cases (eq.beq k j)) [
    | inl e ↦ append_one_full (list_or_nil (t k)) c (rw e at h)
    | inr e ↦ trim j (rw e at h)
  ]

  pub leave-IsTrim : (t : Table K) (k : K) (c : ℕ) → IsTrim t → IsTrim (leave t k c)
  unfolding leave
  leave-IsTrim t k c trim j h = elim (Bool-cases (eq.beq k j)) [
    | inl e ↦ some_or_gone_full (remove_first c (list_or_nil (t k))) (rw e at h)
    | inr e ↦ trim j (rw e at h)
  ]
