-- ===== src/Dict/Mask.antt =====
-- A chain's index, the hash under the mask, does not exceed the mask.
use redis_allocators.Prelude.{ℕ, zero, suc, ◌/◌, ◌≤◌, arith}
use Prim.Native.Nat.{digits, min, bit_and-bitwise, bit_and}

-- However many binary places are read, the result stays within a bound on the mask.
places-le :
    (bound mask places hash : ℕ) → mask ≤ bound → digits (λ other. 0) min places hash mask ≤ bound
places-le bound mask zero hash fits = omega arith
places-le bound mask (suc places) (suc hash) fits =
    let half = places-le (mask / 2) (mask / 2) places (suc hash / 2) (omega arith) in omega arith
places-le bound mask (suc places) zero fits = omega arith

pub bit_and-le : (hash mask : ℕ) → bit_and hash mask ≤ mask
bit_and-le hash mask =
    let within = places-le mask mask hash hash (omega arith) in
    omega (bit_and-bitwise hash mask, arith)

-- However many binary places are read, the result stays within a bound on the hash.
places-le_hash :
    (bound mask places hash : ℕ) → hash ≤ bound → digits (λ other. 0) min places hash mask ≤ bound
places-le_hash bound mask zero hash fits = omega arith
places-le_hash bound mask (suc places) (suc hash) fits =
    let half = places-le_hash (suc hash / 2) (mask / 2) places (suc hash / 2) (omega arith) in
    omega arith
places-le_hash bound mask (suc places) zero fits = omega arith

pub bit_and-le_hash : (hash mask : ℕ) → bit_and hash mask ≤ hash
bit_and-le_hash hash mask =
    let within = places-le_hash hash mask hash hash (omega arith) in
    omega (bit_and-bitwise hash mask, arith)
