-- ===== src/Intset.antt =====
-- redis-stable/src/intset.c: a set of integers as a sorted array of 2-, 4- or 8-byte words.
pub mod Slots
pub mod Search
pub mod Insert
pub mod Upgrade
pub mod Delete
pub mod Members
pub mod Contract
pub mod Access
mod Tests
use mmog.Common.{
  ℕ, zero, suc, ◌+◌, ◌-◌, ◌*◌, ◌/◌, ◌%◌, ◌^◌, ◌&&◌, ◌||◌, Bool, true, false, Option, none, some,
  ltb, leb, ◌==◌, if◌then◌else◌, ℤ, pos, negsuc, ltb_ℤ, eqb_ℤ,
}
use mmog.Memory.{Block, load, store, memmove, realloc}
use mmog.Memory.Signed.{to_word, of_word}

-- `intset`. The fields are in host order here, which `intrev32ifbe` gives.
pub record Intset : Type 0 where
  pub encoding : ℕ
  pub length : ℕ
  pub contents : Block

-- `_intsetValueEncoding`
unfoldable pub value_encoding : ℤ → ℕ
value_encoding v =
    if ltb_ℤ v (negsuc (2 ^ 31 - 1)) || ltb_ℤ (pos (2 ^ 31 - 1)) v
    then 8
    else if ltb_ℤ v (negsuc (2 ^ 15 - 1)) || ltb_ℤ (pos (2 ^ 15 - 1)) v
    then 4
    else 2

-- The three branches that the accessors share: the width of an element.
unfoldable pub width : ℕ → ℕ
width enc = if enc == 8 then 8 else if enc == 4 then 4 else 2

-- Element `i` of an array of `w`-byte integers.
unfoldable pub slot : Block → ℕ → ℕ → ℤ
slot b w i = of_word w (load b (i * w) w)

-- `_intsetGetEncoded`
unfoldable pub get_encoded : Intset → ℕ → ℕ → ℤ
get_encoded s i enc = slot s.contents (width enc) i

-- `_intsetGet`
unfoldable pub get : Intset → ℕ → ℤ
unfolding get_encoded
get s i = get_encoded s i s.encoding

-- `_intsetSet`
unfoldable pub set : Intset → ℕ → ℤ → Intset
set s i v =
    let w = width s.encoding in record s { contents = store s.contents (i * w) w (to_word w v) }

-- `intsetSearch`'s loop. `hi` is the source's `max + 1`, so that it is no negative number.
unfoldable pub search_loop : ℕ → Intset → ℤ → ℕ → ℕ → ℕ → ℤ → ℕ × ℕ × ℤ
search_loop zero s v lo hi mid cur = (lo, mid, cur)
search_loop (suc fuel) s v lo hi mid cur = elim (ltb lo hi) [
  | false ↦ (lo, mid, cur)
  | true ↦
      let m = (lo + (hi - 1)) / 2 in
      let c = get s m in
      elim (ltb_ℤ c v) [
        | true ↦ search_loop fuel s v (m + 1) hi m c
        | false ↦ elim (ltb_ℤ v c) [ true ↦ search_loop fuel s v lo m m c | false ↦ (lo, m, c) ]
      ]
]

-- `intsetSearch`: whether the value is there, and `*pos`. `mid` starts at -1, here as a `uint32_t`.
unfoldable pub search : Intset → ℤ → Bool × ℕ
search s v =
    if s.length == 0
    then (false, 0)
    else if ltb_ℤ (get s (s.length - 1)) v
    then (false, s.length)
    else if ltb_ℤ v (get s 0)
    then (false, 0)
    else let (lo, mid, cur) = search_loop (s.length + 1) s v 0 s.length (2 ^ 32 - 1) (negsuc 0) in
      if eqb_ℤ v cur then (true, mid) else (false, lo)

-- `intsetMoveTail`
unfoldable pub move_tail : Intset → ℕ → ℕ → Intset
move_tail s from to =
    let w = width s.encoding in
    let bytes = (s.length + 2 ^ 32 - from) % 2 ^ 32 * w % 2 ^ 32 in
    record s { contents = memmove s.contents (to * w) (from * w) bytes }

-- The loop of `intsetUpgradeAndAdd`, back to front.
unfoldable pub upgrade_loop : Intset → ℕ → ℕ → ℕ → Intset
upgrade_loop s zero prepend curenc = s
upgrade_loop s (suc n) prepend curenc =
    upgrade_loop (set s (n + prepend) (get_encoded s n curenc)) n prepend curenc

-- `intsetFind`
unfoldable pub find : Intset → ℤ → Bool
find s v = leb (value_encoding v) s.encoding && (search s v).0

-- `intsetGet`
unfoldable pub get_at : Intset → ℕ → Option ℤ
get_at s i = if ltb i s.length then some (get s i) else none

-- `intsetRandom`, given what `rand()` returned.
unfoldable pub random : Intset → ℕ → ℤ
random s rand = get s (rand % s.length)

-- `intsetLen`
unfoldable pub len : Intset → ℕ
len s = s.length

-- `intsetBlobLen`: the product is one of `uint32_t`.
unfoldable pub blob_len : Intset → ℕ
blob_len s = 8 + s.length * s.encoding % 2 ^ 32

-- The allocator fills what it adds to a block with bytes of its own, `fresh`.
module _ (fresh : ℕ → ℕ) where
  -- `intsetNew`
  unfoldable pub new : Intset
  new = record { encoding = 2; length = 0; contents = record { size = 0; byte = fresh } }

  -- `intsetResize`: the size in bytes is a `uint32_t`.
  unfoldable pub resize : Intset → ℕ → Intset
  resize s len = record s { contents = realloc fresh s.contents (len * s.encoding % 2 ^ 32) }

  -- `intsetUpgradeAndAdd`
  unfoldable pub upgrade_and_add : Intset → ℤ → Intset
  upgrade_and_add s v =
      let prepend = if ltb_ℤ v (pos 0) then 1 else 0 in
      let grown = resize (record s { encoding = value_encoding v }) (s.length + 1) in
      let moved = upgrade_loop grown s.length prepend s.encoding in
      let added = if prepend == 0 then set moved moved.length v else set moved 0 v in
      record added { length = (added.length + 1) % 2 ^ 32 }

  -- The tail of `intsetAdd`, for a value that belongs at `i`.
  unfoldable pub insert_at : Intset → ℤ → ℕ → Intset
  insert_at s v i =
      let grown = resize s (s.length + 1) in
      let moved = if ltb i grown.length then move_tail grown i (i + 1) else grown in
      let added = set moved i v in record added { length = (added.length + 1) % 2 ^ 32 }

  -- `intsetAdd`: `*success`, and the set.
  unfoldable pub add : Intset → ℤ → Bool × Intset
  add s v =
      if ltb s.encoding (value_encoding v)
      then (true, upgrade_and_add s v)
      else let (found, i) = search s v in if found then (false, s) else (true, insert_at s v i)

  -- The body of `intsetRemove` for a value found at `i`.
  unfoldable pub delete_at : Intset → ℕ → Intset
  delete_at s i =
      let moved = if ltb i (s.length - 1) then move_tail s (i + 1) i else s in
      record (resize moved (s.length - 1)) { length = s.length - 1 }

  -- `intsetRemove`: `*success`, and the set.
  unfoldable pub remove : Intset → ℤ → Bool × Intset
  remove s v =
      let (found, i) = search s v in
      if leb (value_encoding v) s.encoding && found then (true, delete_at s i) else (false, s)
