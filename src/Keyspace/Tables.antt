-- ===== src/Keyspace/Tables.antt =====
-- The dictionaries of `redisDb`: dict.c with texts as keys fills the interface.
use redis_allocators.Prelude.{ℕ, ◌^◌, ◌<◌, ◌≡◌, refl, ap, ◌∙◌, true, none, arith, ◌↔◌}
use redis_allocators.Prelude.Eq.{nat_eq, list_eq}
use redis_allocators.Dict.Keys.{DictType}
use redis_allocators.Dict.Valid.{IsValid, view, create-IsValid}
use redis_allocators.Dict.Find.{find-Keeps}
use redis_allocators.Dict.Small.{HasIndex, ready, hash-HasIndex}
use redis_allocators.Dict.Update.{add_indexed-Adds}
use redis_allocators.Dict.Delete.{generic_delete-Deletes}
use redis_allocators.Dict.Replace.{replace_indexed-Updates}
use redis_allocators.Dict.Raw.{replace_raw-Updates, size_zero}
use redis_allocators.Dict.Table.{Dict, create, size}
use redis_allocators.Dict.{empty, find, add, replace, replace_raw, generic_delete}
use redis_allocators.Keyspace.Interface.{Text, same_text, Dictionary}

pub same_text_iff : (a b : Text) → (same_text a b ≡ true) ↔ (a ≡ b)
same_text_iff a b = (list_eq {A = ℕ}).beq_iff a b

pub same_text_refl : (a : Text) → same_text a a ≡ true
same_text_refl a = (same_text_iff a a).1 refl

pub same_text_symm : (a b : Text) → same_text a b ≡ same_text b a
same_text_symm a b = ground (arith, same_text_iff a b, same_text_iff b a)

pub same_text_trans :
    (a b c : Text) → same_text a b ≡ true → same_text b c ≡ true → same_text a c ≡ true
same_text_trans a b c h h' =
    (same_text_iff a c).1 ((same_text_iff a b).0 h ∙ (same_text_iff b c).0 h')

-- `dbDictType` and `keyptrDictType`: `dictSdsHash` and `dictSdsKeyCompare`, and nothing is duplicated.
abbrev pub sds_type : (Text → ℕ) → (V : Type 0) → DictType Text V
sds_type hash V = record {
  hash = hash;
  compare_keys = same_text;
  key_dup = λ k. k;
  val_dup = λ v. v;
  compare_refl = same_text_refl;
  compare_symm = same_text_symm;
  compare_trans = same_text_trans;
  hash_compare = λ a b h. ap hash ((same_text_iff a b).0 h);
  compare_dup = same_text_refl;
}

pub empty-IsValid {ℓ} :
    {K V : Type ℓ} ⦃type : DictType K V⦄ (d : Dict K V)
    → IsValid (empty d) × ((q : K) → view (empty d) q ≡ none)
unfolding empty create
empty-IsValid d = create-IsValid

-- With a hash of 31 bits the `int` of `dictAddRaw` holds every index.
pub hash_indexed :
    (hash : Text → ℕ) (small : (k : Text) → hash k < 2 ^ 31) (V : Type 0) (d : Dict Text V)
    (k : Text)
    → HasIndex ⦃type = sds_type hash V⦄ d k
hash_indexed hash small V d k = hash-HasIndex ⦃type = sds_type hash V⦄ d k (small k)

-- dict.c as the interface, for a hash function whose values have 31 bits. In a table with at most
-- 2 ^ 31 chains the highest of the 32 bits of `dictSdsHash` does not reach the index.
abbrev pub of_dict :
    (hash : Text → ℕ) → ((k : Text) → hash k < 2 ^ 31) → (V : Type 0) → Dictionary (Dict Text V) V
of_dict hash small V =
    let type = sds_type hash V in
    record {
      IsSound = IsValid ⦃type = type⦄;
      view = view ⦃type = type⦄;
      size = size;
      empty = empty ⦃type = type⦄;
      find = find ⦃type = type⦄;
      add = add ⦃type = type⦄;
      replace = λ r d k v. (replace ⦃type = type⦄ r d k v).0;
      replace_raw = replace_raw ⦃type = type⦄;
      delete = generic_delete ⦃type = type⦄;
      size_zero = size_zero ⦃type = type⦄;
      empty_lem = λ d. empty-IsValid ⦃type = type⦄ d;
      find_lem = λ d k valid.
          let (kept, found) = find-Keeps ⦃type = type⦄ d k valid in (kept.0, kept.1, found);
      add_lem = λ r d k v valid.
          add_indexed-Adds ⦃type = type⦄ r d k v valid
            (hash_indexed hash small V (ready ⦃type = type⦄ r d) k);
      replace_lem = λ r d k v valid.
          (replace_indexed-Updates ⦃type = type⦄ r d k v valid
            (hash_indexed hash small V (ready ⦃type = type⦄ r d) k)).0;
      replace_raw_lem = λ r d k v valid.
          replace_raw-Updates ⦃type = type⦄ r d k v valid (λ e. hash_indexed hash small V e k);
      delete_lem = generic_delete-Deletes ⦃type = type⦄;
    }
