-- ===== src/Dict/Raw.antt =====
-- `dictReplaceRaw`, and the dictionaries whose `dictSize` is zero.
use redis_allocators.Prelude.{
  ◌≡◌, refl, ap, ◌∙◌, subst, Bool, Option, none, some, List, [], ◌∷◌, length, arith, Option-cases,
  Bool-cases, inl, inr, if◌then◌else◌, dec_lt,
}
use redis_allocators.Dict.Keys.{DictType}
use redis_allocators.Dict.Chains.{find_in}
use redis_allocators.Dict.Valid.{IsValid, HtValid, view, index-lt-size}
use redis_allocators.Dict.Skip.{total-le}
use redis_allocators.Dict.Small.{HasIndex, ready}
use redis_allocators.Dict.Find.{find-Keeps}
use redis_allocators.Dict.Update.{Updates, update, is_none, add_raw-Adds}
use redis_allocators.Dict.Replace.{set_entry-Updates}
use redis_allocators.Dict.Table.{Ht, Dict, size}
use redis_allocators.Dict.{find, set_entry, add_raw, replace_raw, index}

empty_of_length {ℓ} : {A : Type ℓ} (l : List A) → length l ≡ 0 → l ≡ []
empty_of_length [] e = refl
empty_of_length (a ∷ l) e = absurd (omega arith)

module _ {ℓ} {K V : Type ℓ} ⦃type : DictType K V⦄ where
  after-Updates :
      (d d₁ d₂ : Dict K V) (k : K) (v : Option V)
      → ((q : K) → view d₁ q ≡ view d q)
      → Updates d₁ k v d₂
      → Updates d k v d₂
  after-Updates d d₁ d₂ k v same (valid, seen) = (
    valid,
    λ q. elim (Bool-cases (type.compare_keys q k)) [
      | inl e ↦ seen q ∙ rw e refl
      | inr e ↦ seen q ∙ rw e (same q)
    ],
  )

  add_raw-Updates :
      (can_resize : Bool) (d : Dict K V) (k : K) (v : V)
      → IsValid d
      → HasIndex (ready can_resize d) k
      → view d k ≡ none
      → Updates d k (some v) (add_raw can_resize d k v).0
  add_raw-Updates can_resize d k v valid indexed gone =
      let (kept, flag, seen) = add_raw-Adds can_resize d k v valid indexed in
      let Seen : Bool → Type ℓ = λ b.
        (q : K)
        → view (add_raw can_resize d k v).0 q
          ≡ update (view d) k (if b then some v else view d k) q in
      (kept, subst Seen (flag ∙ ap is_none gone) seen)

  -- `dictReplaceRaw` with a value keeps the invariant, and sets the key and no other, where an `int`
  -- holds the index of the key.
  pub replace_raw-Updates :
      (can_resize : Bool) (d : Dict K V) (k : K) (v : V)
      → IsValid d
      → ((e : Dict K V) → HasIndex e k)
      → Updates d k (some v) (replace_raw can_resize d k v)
  unfolding replace_raw
  replace_raw-Updates can_resize d k v valid indexed =
      let (kept, found) = find-Keeps d k valid in
      let d₁ = (find d k).0 in
      elim (Option-cases (view d k)) [
        | inl e ↦
            let same : (add_raw can_resize d₁ k v).0 ≡ replace_raw can_resize d k v =
              rw (found ∙ e, replace_raw) refl in
            subst (Updates d k (some v)) same (
              after-Updates d d₁ (add_raw can_resize d₁ k v).0 k (some v) kept.1 (
                add_raw-Updates can_resize d₁ k v kept.0 (indexed (ready can_resize d₁))
                  (kept.1 k ∙ e)))
        | inr (old, e) ↦
            let same : set_entry d₁ k v ≡ replace_raw can_resize d k v =
              rw (found ∙ e, replace_raw) refl in
            subst (Updates d k (some v)) same (
              after-Updates d d₁ (set_entry d₁ k v) k (some v) kept.1
                (set_entry-Updates d₁ k v old kept.0 (kept.1 k ∙ e)))
      ]

  no_entry : (h : Ht K V) (q : K) → HtValid h → h.used ≡ 0 → find_in q (h.table (index h q)) ≡ none
  unfolding find_in
  no_entry h q valid e =
      let empty : h.table (index h q) ≡ [] = elim (dec_lt 0 h.size) [
        | yes lt ↦
            let inside = index-lt-size h q valid lt in
            let short = total-le h.table (index h q) h.size inside in
            let counted = valid.counted in empty_of_length (h.table (index h q)) (omega arith)
        | no ge ↦ valid.outside (index h q) (omega arith)
      ] in
      rw empty refl

  -- A dictionary of size zero has no entry.
  pub size_zero : (d : Dict K V) (q : K) → IsValid d → size d ≡ 0 → view d q ≡ none
  size_zero d q valid e =
      rw (no_entry d.ht0 q valid.first (omega arith), no_entry d.ht1 q valid.second (omega arith))
        refl
