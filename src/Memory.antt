-- ===== src/Memory.antt =====
-- A block of memory as the allocator hands it out: `size` bytes, read and written a byte at a time,
-- multi-byte words low byte first (redis-stable/src/endianconv.h keeps that order on every host).
-- A write past the block is lost and a read past it gives 0, so code that depends on either
-- does not meet its specification.
pub mod Words
pub mod Signed
use mmog.Common.{ℕ, zero, suc, ◌+◌, ◌-◌, ◌*◌, ◌/◌, ◌%◌, ◌&&◌, ltb, leb, ◌==◌, if◌then◌else◌}

pub record Block : Type 0 where
  pub size : ℕ
  pub byte : ℕ → ℕ

unfoldable pub read : Block → ℕ → ℕ
read b a = if ltb a b.size then b.byte a % 256 else 0

unfoldable pub write : Block → ℕ → ℕ → Block
write b a x = if ltb a b.size then record b { byte = λ q. if q == a then x else b.byte q } else b

-- The `k`-byte word at `a`.
unfoldable pub load : Block → ℕ → ℕ → ℕ
load b a zero = 0
load b a (suc k) = read b a + 256 * load b (a + 1) k

unfoldable pub store : Block → ℕ → ℕ → ℕ → Block
store b a zero v = b
store b a (suc k) v = store (write b a (v % 256)) (a + 1) k (v / 256)

-- `memmove(dst, src, n)`.
unfoldable pub memmove : Block → ℕ → ℕ → ℕ → Block
memmove b dst src n = record b {
  byte = λ q. if leb dst q && ltb q (dst + n) then read b (src + (q - dst)) else b.byte q;
}

-- `realloc`: the old bytes that still fit, and `fresh` ones behind them.
unfoldable pub realloc : (ℕ → ℕ) → Block → ℕ → Block
realloc fresh b n = record { size = n; byte = λ q. if ltb q b.size then b.byte q else fresh q }
