-- ===== src/Intset.antt =====
-- intset.c: a sorted set of integers in one block of memory, whose cells are 2, 4 or 8 bytes wide.
-- Numbers in memory are little endian, as the conversions of endianconv.h make them on every host.
pub mod Cell
pub mod Search
pub mod Model
pub mod Valid
pub mod Upgrade
pub mod Grow
pub mod Shrink
pub mod Refine
use redis_allocators.Prelude.{
  ℕ, zero, suc, ◌+◌, ◌-◌, ◌*◌, ◌/◌, ◌%◌, ◌^◌, Bool, true, false, not, ◌&&◌, ◌||◌, Option, none,
  some, List, [], ◌∷◌, ltb, leb, ◌==◌, if◌then◌else◌,
}
use redis_allocators.Prelude.Int.{ℤ, pos, negsuc, ltb_ℤ, eqb_ℤ}
use redis_allocators.Prelude.Memory.{Memory, read_le, write_le, memmove}

-- `allocated` is the number of bytes of `contents` that `zmalloc` or `zrealloc` has granted.
pub record Intset : Type 0 where
  pub encoding : ℕ
  pub len : ℕ
  pub contents : Memory
  pub allocated : ℕ

abbrev pub int16_min : ℤ
int16_min = negsuc (2 ^ 15 - 1)

abbrev pub int16_max : ℤ
int16_max = pos (2 ^ 15 - 1)

abbrev pub int32_min : ℤ
int32_min = negsuc (2 ^ 31 - 1)

abbrev pub int32_max : ℤ
int32_max = pos (2 ^ 31 - 1)

-- `_intsetValueEncoding`
unfoldable pub value_encoding : ℤ → ℕ
value_encoding v =
    if ltb_ℤ v int32_min || ltb_ℤ int32_max v
    then 8
    else if ltb_ℤ v int16_min || ltb_ℤ int16_max v
    then 4
    else 2

-- A bit pattern below `2 * half` as a signed number, and back. The cast to a narrower type keeps
-- the low bits.
unfoldable pub signed : ℕ → ℕ → ℤ
signed half w = if ltb w half then pos w else negsuc (2 * half - w - 1)

unfoldable pub pattern_of : ℕ → ℤ → ℕ
pattern_of half (pos n) = n % (2 * half)
pattern_of half (negsuc n) = 2 * half - 1 - n % (2 * half)

-- `_intsetGetEncoded`
unfoldable pub get_encoded : Memory → ℕ → ℕ → ℤ
get_encoded m p enc =
    if enc == 8
    then signed (2 ^ 63) (read_le m (p * 8) 8)
    else if enc == 4
    then signed (2 ^ 31) (read_le m (p * 4) 4)
    else signed (2 ^ 15) (read_le m (p * 2) 2)

-- `_intsetGet`
unfoldable pub get : Intset → ℕ → ℤ
get s p = get_encoded s.contents p s.encoding

-- `_intsetSet`, on the block of a set with this encoding.
unfoldable pub set_encoded : Memory → ℕ → ℕ → ℤ → Memory
set_encoded m enc p v =
    if enc == 8
    then write_le m (p * 8) 8 (pattern_of (2 ^ 63) v)
    else if enc == 4
    then write_le m (p * 4) 4 (pattern_of (2 ^ 31) v)
    else write_le m (p * 2) 2 (pattern_of (2 ^ 15) v)

unfoldable pub set : Intset → ℕ → ℤ → Intset
set s p v = record s { contents = set_encoded s.contents s.encoding p v }

-- `intsetNew`; the block that `zmalloc` returns holds any bytes.
unfoldable pub new : Memory → Intset
new garbage = record { encoding = 2; len = 0; contents = garbage; allocated = 0 }

-- `intsetResize`; `zrealloc` keeps the bytes.
unfoldable pub resize : Intset → ℕ → Intset
resize s n = record s { allocated = n * s.encoding % 2 ^ 32 }

-- The loop of `intsetSearch`: `min`, `mid` and `cur` when it ends. `max` may become -1, so `hi` is
-- `max + 1`. Each round shortens the interval, so `hi - min` rounds are enough.
unfoldable pub search_loop : ℕ → Intset → ℤ → ℕ → ℕ → ℕ → ℤ → ℕ × ℕ × ℤ
search_loop zero s value min hi mid cur = (min, mid, cur)
search_loop (suc fuel) s value min hi mid cur =
    let mid' = (min + (hi - 1)) % 2 ^ 32 / 2 in
    let cur' = get s mid' in
    let right = search_loop fuel s value (mid' + 1) hi mid' cur' in
    let left = search_loop fuel s value min mid' mid' cur' in
    if ltb min hi
    then if ltb_ℤ cur' value then right else if ltb_ℤ value cur' then left else (min, mid', cur')
    else (min, mid, cur)

-- `intsetSearch`: whether the value is there, and `*pos`. `mid` is -1 before the loop; it is read
-- only behind a round that has set it.
unfoldable pub search : Intset → ℤ → Bool × ℕ
search s value =
    if s.len == 0
    then (false, 0)
    else if ltb_ℤ (get s (s.len - 1)) value
    then (false, s.len)
    else if ltb_ℤ value (get s 0)
    then (false, 0)
    else let (min, mid, cur) = search_loop s.len s value 0 s.len 0 (negsuc 0) in
      if eqb_ℤ value cur then (true, mid) else (false, min)

-- The loop of `intsetUpgradeAndAdd`, from the last cell back to the first. The cells are read at the
-- old width and written at the new one, in the same block.
unfoldable pub upgrade_loop : ℕ → ℕ → ℕ → ℕ → Memory → Memory
upgrade_loop curenc newenc prepend zero m = m
upgrade_loop curenc newenc prepend (suc n) m =
    upgrade_loop curenc newenc prepend n
      (set_encoded m newenc (n + prepend) (get_encoded m n curenc))

-- `intsetUpgradeAndAdd`
unfoldable pub upgrade_and_add : Intset → ℤ → Intset
upgrade_and_add s value =
    let curenc = s.encoding in
    let newenc = value_encoding value in
    let prepend : ℕ = if ltb_ℤ value (pos 0) then 1 else 0 in
    let s₁ = resize (record s { encoding = newenc }) (s.len + 1) in
    let s₂ = record s₁ { contents = upgrade_loop curenc newenc prepend s.len s₁.contents } in
    let s₃ = if prepend == 1 then set s₂ 0 value else set s₂ s₂.len value in
    record s₃ { len = s₃.len + 1 }

-- `intsetMoveTail`
unfoldable pub move_tail : Intset → ℕ → ℕ → Intset
move_tail s from to =
    let cells = (s.len + 2 ^ 32 - from) % 2 ^ 32 in
    let moved = λ (w : ℕ). memmove s.contents (to * w) (from * w) (cells * w % 2 ^ 32) in
    record s {
      contents = if s.encoding == 8 then moved 8 else if s.encoding == 4 then moved 4 else moved 2;
    }

-- `intsetAdd`: the set and `*success`.
unfoldable pub add : Intset → ℤ → Intset × Bool
add s value =
    if ltb s.encoding (value_encoding value)
    then (upgrade_and_add s value, true)
    else let (found, p) = search s value in
      if found
      then (s, false)
      else let s₁ = resize s (s.len + 1) in
        let s₂ = if ltb p s₁.len then move_tail s₁ p (p + 1) else s₁ in
        let s₃ = set s₂ p value in (record s₃ { len = s₃.len + 1 }, true)

-- `intsetRemove`: the set and `*success`.
unfoldable pub remove : Intset → ℤ → Intset × Bool
remove s value =
    let (found, p) = search s value in
    let s₁ = if ltb p (s.len - 1) then move_tail s (p + 1) p else s in
    let s₂ = resize s₁ (s.len - 1) in
    if leb (value_encoding value) s.encoding && found
    then (record s₂ { len = s.len - 1 }, true)
    else (s, false)

-- `intsetFind`
unfoldable pub find : Intset → ℤ → Bool
find s value = leb (value_encoding value) s.encoding && (search s value).0

-- `intsetRandom`, for the number that `rand()` returns.
unfoldable pub random : Intset → ℕ → ℤ
random s rand = get s (rand % s.len)

-- `intsetGet`: `none` for the result 0.
unfoldable pub get_at : Intset → ℕ → Option ℤ
get_at s p = if ltb p s.len then some (get s p) else none

-- `intsetBlobLen`, with the two fields of the header.
unfoldable pub blob_len : Intset → ℕ
blob_len s = 8 + s.len * s.encoding % 2 ^ 32
