-- ===== src/Zmalloc/Account.antt =====
-- The total of the live blocks, and the counter against it.
use redis_allocators.Prelude.{
  ℕ, ◌+◌, ◌%◌, ◌^◌, ◌<◌, ◌≡◌, ◌≢◌, refl, ap, none, some, [], ◌∷◌, ◌==◌, arith, inl, inr, Bool-cases,
  ◌∙◌, sym, subst, ℕ_discrete,
}
use redis_allocators.Zmalloc.{Blocks, Heap, size_at, release, pad, stat_alloc, stat_free}

-- The bytes of all live blocks, where one with the number `n` counts `weight n`.
unfoldable pub total : (ℕ → ℕ) → Blocks → ℕ
total weight [] = 0
total weight (b ∷ rest) = weight b.1 + total weight rest

pub total-release :
    (weight : ℕ → ℕ) (p n : ℕ) (blocks : Blocks)
    → size_at p blocks ≡ some n
    → weight n + total weight (release p blocks) ≡ total weight blocks
unfolding total release size_at
total-release weight p n [] h = ground arith
total-release weight p n (b ∷ rest) h = elim (Bool-cases (p == b.0)) [
  | inl e ↦ ground (arith, ap weight)
  | inr e ↦ ground (arith, total-release weight p n rest)
]

-- A release leaves the other blocks.
pub size_at-release :
    (p q : ℕ) (blocks : Blocks) → q ≢ p → size_at q (release p blocks) ≡ size_at q blocks
unfolding size_at release
size_at-release p q [] h = refl
size_at-release p q (b ∷ rest) h = ground (arith, size_at-release p q rest h)

-- The counter is the total of the live blocks.
abbrev pub IsAccounted : (ℕ → ℕ) → Heap → Type 0
IsAccounted weight h = h.used_memory ≡ total weight h.blocks % 2 ^ 64

pub pad_fits : (n : ℕ) → n < 2 ^ 64 → pad n < 2 ^ 64
pad_fits n small = ground arith

-- One block more, and one less.
pub stat_alloc_lem :
    (n w t used : ℕ)
    → pad n % 2 ^ 64 ≡ w % 2 ^ 64
    → used ≡ t % 2 ^ 64
    → stat_alloc n used ≡ (w + t) % 2 ^ 64
stat_alloc_lem n w t used e h = omega arith

pub stat_free_lem :
    (n w t used : ℕ)
    → n < 2 ^ 64
    → pad n % 2 ^ 64 ≡ w % 2 ^ 64
    → used ≡ (w + t) % 2 ^ 64
    → stat_free n used ≡ t % 2 ^ 64
stat_free_lem n w t used small e h = omega (arith, pad_fits n small)

-- One block more and then one less leave the counter.
pub stat_free-stat_alloc :
    (n used : ℕ) → n < 2 ^ 64 → used < 2 ^ 64 → stat_free n (stat_alloc n used) ≡ used
stat_free-stat_alloc n used small fits = omega (arith, pad_fits n small)

-- The block at the head, and the ones behind it.
pub size_at_head : (p n : ℕ) (blocks : Blocks) → size_at p ((p, n) ∷ blocks) ≡ some n
unfolding size_at
size_at_head p n blocks = ground arith

pub release_head : (p n : ℕ) (blocks : Blocks) → release p ((p, n) ∷ blocks) ≡ blocks
unfolding release
release_head p n blocks = ground arith

pub size_at_tail :
    (q p n : ℕ) (blocks : Blocks) → q ≢ p → size_at q ((p, n) ∷ blocks) ≡ size_at q blocks
unfolding size_at
size_at_tail q p n blocks ne = ground arith

release_absent : (p : ℕ) (blocks : Blocks) → size_at p blocks ≡ none → release p blocks ≡ blocks
unfolding size_at release
release_absent p [] h = refl
release_absent p (b ∷ rest) h = ground (arith, release_absent p rest)

release_comm :
    (p q : ℕ) (blocks : Blocks) → release p (release q blocks) ≡ release q (release p blocks)
unfolding release
release_comm p q [] = refl
release_comm p q (b ∷ rest) = ground (arith, release_comm p q rest)

-- No two live blocks have the same address.
abbrev pub IsDistinct : Blocks → Type 0
IsDistinct blocks = (p : ℕ) → size_at p (release p blocks) ≡ none

-- Every size is of type `size_t`.
abbrev pub IsSized : Blocks → Type 0
IsSized blocks = (p n : ℕ) → size_at p blocks ≡ some n → n < 2 ^ 64

pub record IsValid (weight : ℕ → ℕ) (h : Heap) : Type 0 where
  pub accounted : IsAccounted weight h
  pub distinct : IsDistinct h.blocks
  pub sized : IsSized h.blocks

pub add-IsDistinct :
    (p n : ℕ) (blocks : Blocks)
    → size_at p blocks ≡ none
    → IsDistinct blocks
    → IsDistinct ((p, n) ∷ blocks)
unfolding size_at release
add-IsDistinct p n blocks fresh distinct q = ground (arith, distinct q)

pub release-IsDistinct :
    (p : ℕ) (blocks : Blocks) → IsDistinct blocks → IsDistinct (release p blocks)
release-IsDistinct p blocks distinct q = elim (ℕ_discrete q p) [
  | yes e ↦
      subst (λ r. size_at q (release r (release p blocks)) ≡ none) (sym e)
        (subst (λ b. size_at q b ≡ none) (sym (release_absent p (release p blocks) (distinct p)))
          (subst (λ r. size_at r (release p blocks) ≡ none) (sym e) (distinct p)))
  | no ne ↦
      ap (size_at q) (release_comm q p blocks)
      ∙ size_at-release p q (release q blocks) ne
      ∙ distinct q
]

pub add-IsSized :
    (p n : ℕ) (blocks : Blocks) → n < 2 ^ 64 → IsSized blocks → IsSized ((p, n) ∷ blocks)
unfolding size_at
add-IsSized p n blocks small sized q m h = ground (arith, sized q m)

pub release-IsSized :
    (p : ℕ) (blocks : Blocks) → IsDistinct blocks → IsSized blocks → IsSized (release p blocks)
release-IsSized p blocks distinct sized q m h = elim (ℕ_discrete q p) [
  | yes e ↦ absurd (let gone = ap (λ r. size_at r (release p blocks)) e ∙ distinct p in cc)
  | no ne ↦ sized q m (sym (size_at-release p q blocks ne) ∙ h)
]

-- A block more, counted as `bytes`.
pub add-IsValid :
    (weight : ℕ → ℕ) (h : Heap) (p n bytes : ℕ)
    → n < 2 ^ 64
    → pad bytes % 2 ^ 64 ≡ weight n % 2 ^ 64
    → size_at p h.blocks ≡ none
    → IsValid weight h
    → IsValid weight
        (record h { blocks = (p, n) ∷ h.blocks; used_memory = stat_alloc bytes h.used_memory })
unfolding total
add-IsValid weight h p n bytes small counted fresh valid = record {
  accounted =
      stat_alloc_lem bytes (weight n) (total weight h.blocks) h.used_memory counted valid.accounted;
  distinct = add-IsDistinct p n h.blocks fresh valid.distinct;
  sized = add-IsSized p n h.blocks small valid.sized;
}

-- A block less, counted as `bytes`.
pub release-IsValid :
    (weight : ℕ → ℕ) (h : Heap) (p n bytes : ℕ)
    → bytes < 2 ^ 64
    → pad bytes % 2 ^ 64 ≡ weight n % 2 ^ 64
    → size_at p h.blocks ≡ some n
    → IsValid weight h
    → IsValid weight
        (record h { blocks = release p h.blocks; used_memory = stat_free bytes h.used_memory })
release-IsValid weight h p n bytes small counted there valid =
    let sum = total-release weight p n h.blocks there in
    record {
      accounted =
          stat_free_lem bytes (weight n) (total weight (release p h.blocks)) h.used_memory small
            counted (valid.accounted ∙ ap (λ m. m % 2 ^ 64) (sym sum));
      distinct = release-IsDistinct p h.blocks valid.distinct;
      sized = release-IsSized p h.blocks valid.distinct valid.sized;
    }
