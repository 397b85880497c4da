-- ===== src/Memory/Words.antt =====
-- What words read back after a store, a move and a reallocation.
use native.Mathlib.Nat.{pow-suc}
use mmog.Common.{
  ℕ, zero, suc, ◌+◌, ◌-◌, ◌*◌, ◌/◌, ◌%◌, ◌^◌, ◌≤◌, ◌<◌, ◌≡◌, refl, ap, ap₂, ◌∙◌, ◌⊎◌, arith,
}
use mmog.Memory.{Block, read, write, load, store, memmove, realloc}

pub size-store : (b : Block) (a k v : ℕ) → (store b a k v).size ≡ b.size
unfolding store write
size-store b a zero v = refl
size-store b a (suc k) v = ground (arith, size-store (write b a (v % 256)) (a + 1) k (v / 256))

size-write : (b : Block) (a x : ℕ) → (write b a x).size ≡ b.size
unfolding write
size-write b a x = ground arith

read-write_self : (b : Block) (a x : ℕ) → a < b.size → read (write b a x) a ≡ x % 256
unfolding read write
read-write_self b a x h = ground arith

read-write_ne : (b : Block) (a x q : ℕ) → ((q < a) ⊎ (a < q)) → read (write b a x) q ≡ read b q
unfolding read write
read-write_ne b a x q h = ground arith

-- A store changes nothing outside its word.
pub read-store_outside :
    (b : Block) (a k v q : ℕ) → ((q < a) ⊎ (a + k ≤ q)) → read (store b a k v) q ≡ read b q
unfolding store
read-store_outside b a zero v q h = refl
read-store_outside b a (suc k) v q h =
    read-store_outside (write b a (v % 256)) (a + 1) k (v / 256) q (omega arith)
    ∙ read-write_ne b a (v % 256) q (omega arith)

-- A word depends on its own bytes only.
pub load_congr :
    (b c : Block) (a d k : ℕ)
    → ((i : ℕ) → i < k → read b (a + i) ≡ read c (d + i))
    → load b a k ≡ load c d k
unfolding load
load_congr b c a d zero h = refl
load_congr b c a d (suc k) h =
    ap₂ (λ (x y : ℕ). x + 256 * y) first (load_congr b c (a + 1) (d + 1) k λ i lt. shifted i lt)
  where
    first : read b a ≡ read c d
    first = ap (read b) (omega arith) ∙ h 0 (omega arith) ∙ ap (read c) (omega arith)

    shifted : (i : ℕ) → i < k → read b (a + 1 + i) ≡ read c (d + 1 + i)
    shifted i lt = ap (read b) (omega arith) ∙ h (i + 1) (omega arith) ∙ ap (read c) (omega arith)

-- A word that fits reads back as it was stored.
pub load-store :
    (b : Block) (a k v : ℕ) → a + k ≤ b.size → v < 256 ^ k → load (store b a k v) a k ≡ v
unfolding load store
load-store b a zero v h small = omega arith
load-store b a (suc k) v h small = omega (
  arith,
  low,
  load-store b' (a + 1) k (v / 256) (omega (arith, size')) (omega (arith, pow-suc 256 k)),
)
  where
    b' : Block
    b' = write b a (v % 256)

    size' : b'.size ≡ b.size
    size' = size-write b a (v % 256)

    low : read (store b' (a + 1) k (v / 256)) a ≡ v % 256 % 256
    low =
        read-store_outside b' (a + 1) k (v / 256) a (omega arith)
        ∙ read-write_self b a (v % 256) (omega arith)

-- Words elsewhere keep their value.
pub load-store_apart :
    (b : Block) (a k v d j : ℕ)
    → ((d + j ≤ a) ⊎ (a + k ≤ d))
    → load (store b a k v) d j ≡ load b d j
load-store_apart b a k v d j h =
    load_congr _ b d d j λ i lt. read-store_outside b a k v (d + i) (omega arith)

read-memmove_inside :
    (b : Block) (dst src n q s : ℕ)
    → dst ≤ q
    → q < dst + n
    → dst + n ≤ b.size
    → s ≡ src + (q - dst)
    → read (memmove b dst src n) q ≡ read b s
unfolding read memmove
read-memmove_inside b dst src n q s lo hi fits e = ground arith

read-memmove_outside :
    (b : Block) (dst src n q : ℕ)
    → ((q < dst) ⊎ (dst + n ≤ q))
    → read (memmove b dst src n) q ≡ read b q
unfolding read memmove
read-memmove_outside b dst src n q h = ground arith

-- A word inside the moved range is the word that stood at the source.
pub load-memmove_inside :
    (b : Block) (dst src n d j : ℕ)
    → dst ≤ d
    → d + j ≤ dst + n
    → dst + n ≤ b.size
    → load (memmove b dst src n) d j ≡ load b (src + (d - dst)) j
load-memmove_inside b dst src n d j lo hi fits = load_congr _ b d (src + (d - dst)) j λ i lt.
    read-memmove_inside b dst src n (d + i) (src + (d - dst) + i) (omega arith) (omega arith) fits
      (omega arith)

pub load-memmove_outside :
    (b : Block) (dst src n d j : ℕ)
    → ((d + j ≤ dst) ⊎ (dst + n ≤ d))
    → load (memmove b dst src n) d j ≡ load b d j
load-memmove_outside b dst src n d j h =
    load_congr _ b d d j λ i lt. read-memmove_outside b dst src n (d + i) (omega arith)

read-realloc :
    (fresh : ℕ → ℕ) (b : Block) (n q : ℕ)
    → q < b.size
    → q < n
    → read (realloc fresh b n) q ≡ read b q
unfolding read realloc
read-realloc fresh b n q h k = ground arith

-- A reallocation keeps the words that lie in both blocks.
pub load-realloc :
    (fresh : ℕ → ℕ) (b : Block) (n d j : ℕ)
    → d + j ≤ b.size
    → d + j ≤ n
    → load (realloc fresh b n) d j ≡ load b d j
load-realloc fresh b n d j h k =
    load_congr _ b d d j λ i lt. read-realloc fresh b n (d + i) (omega arith) (omega arith)

read-lt : (b : Block) (a : ℕ) → read b a < 256
unfolding read
read-lt b a = ground arith

pub load-lt : (b : Block) (a k : ℕ) → load b a k < 256 ^ k
unfolding load
load-lt b a zero = omega arith
load-lt b a (suc k) = omega (arith, pow-suc 256 k, read-lt b a, load-lt b (a + 1) k)

pub size-memmove : (b : Block) (dst src n : ℕ) → (memmove b dst src n).size ≡ b.size
unfolding memmove
size-memmove b dst src n = refl

pub size-realloc : (fresh : ℕ → ℕ) (b : Block) (n : ℕ) → (realloc fresh b n).size ≡ n
unfolding realloc
size-realloc fresh b n = refl
