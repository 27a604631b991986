-- ===== src/Dict/Keys.antt =====
-- `dictType`: what the user of a dictionary supplies. The hash function fits the comparison, which is
-- an equivalence, and a duplicated key compares as the key does. Destructors only release memory.
use redis_allocators.Prelude.{ℕ, Bool, true, ◌≡◌, arith}

pub record DictType {ℓ} (K V : Type ℓ) : Type ℓ where
  pub hash : K → ℕ
  pub compare_keys : K → K → Bool
  pub key_dup : K → K
  pub val_dup : V → V
  pub compare_refl : (a : K) → compare_keys a a ≡ true
  pub compare_symm : (a b : K) → compare_keys a b ≡ compare_keys b a
  pub compare_trans :
      (a b c : K) → compare_keys a b ≡ true → compare_keys b c ≡ true → compare_keys a c ≡ true
  pub hash_compare : (a b : K) → compare_keys a b ≡ true → hash a ≡ hash b
  pub compare_dup : (a : K) → compare_keys a (key_dup a) ≡ true

-- Equal keys compare alike with any third one.
pub compare_congr {ℓ} :
    {K V : Type ℓ} (type : DictType K V) (a b c : K)
    → type.compare_keys a b ≡ true
    → type.compare_keys a c ≡ type.compare_keys b c
compare_congr type a b c e =
    ground (arith, type.compare_symm a b, type.compare_trans a b c, type.compare_trans b a c)

-- A duplicated key compares as the key does.
pub compare-key_dup {ℓ} :
    {K V : Type ℓ} (type : DictType K V) (q k : K)
    → type.compare_keys q (type.key_dup k) ≡ type.compare_keys q k
compare-key_dup type q k =
    let dup = type.compare_dup k in
    ground (
      arith,
      type.compare_symm q k,
      type.compare_symm q (type.key_dup k),
      compare_congr type k (type.key_dup k) q,
    )
