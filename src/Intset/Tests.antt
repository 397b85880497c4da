-- ===== src/Intset/Tests.antt =====
-- Concrete runs of the intset, on an allocator that leaves garbage in new memory.
use mmog.Common.{ℕ, ◌+◌, ◌*◌, ◌^◌, ◌<◌, ◌≡◌, ◌↔◌, refl, arith, true, some, pos, negsuc}
use mmog.Memory.{read, write, load, store, realloc}
use mmog.Memory.Signed.{to_word, of_word}
use mmog.Intset.{
  Intset, value_encoding, width, slot, get, set, search_loop, search, move_tail, upgrade_loop, find,
  get_at, new, resize, upgrade_and_add, insert_at, add, remove,
}
use mmog.Intset.Slots.{IsValid}
use mmog.Intset.Members.{Holds}
use mmog.Intset.Contract.{
  new-IsValid, find_iff, AddsTo, add-AddsTo, RemovesFrom, remove-RemovesFrom,
}

abbrev garbage : ℕ → ℕ
garbage a = a * 37 + 11

-- {5}
abbrev one : Intset
one = (add garbage (new garbage) (pos 5)).1

-- {5, 70000}: the second value widened the array.
abbrev two : Intset
two = (add garbage one (pos 70000)).1

two_first : get_at two 0 ≡ some (pos 5)
unfolding get_at get slot add upgrade_and_add upgrade_loop insert_at search search_loop move_tail
    resize new set value_encoding width to_word of_word load store read write realloc
two_first = refl

one_short : one.length + 1 < 2 ^ 28
unfolding add insert_at search resize new move_tail set value_encoding
one_short = omega arith

two_short : two.length + 1 < 2 ^ 28
unfolding add insert_at upgrade_and_add upgrade_loop search resize new move_tail set value_encoding
two_short = omega arith

one_encoding : one.encoding < value_encoding (pos 70000)
unfolding add insert_at search resize new move_tail set value_encoding
one_encoding = omega arith

two_filled : 0 < two.length
unfolding add insert_at upgrade_and_add upgrade_loop search resize new move_tail set value_encoding
two_filled = omega arith

one-IsValid : IsValid one
unfolding new
one-IsValid =
    (add-AddsTo garbage (new garbage) (new-IsValid garbage).0 (pos 5) (omega arith, omega arith)
      (omega arith)).valid

two-IsValid : IsValid two
two-IsValid =
    (add-AddsTo garbage one one-IsValid (pos 70000) (omega arith, omega arith) one_short).valid

add-AddsTo_example : AddsTo two (negsuc 2) (add garbage two (negsuc 2))
add-AddsTo_example =
    add-AddsTo garbage two two-IsValid (negsuc 2) (omega arith, omega arith) two_short

remove-RemovesFrom_example : RemovesFrom two (pos 5) (remove garbage two (pos 5))
remove-RemovesFrom_example = remove-RemovesFrom garbage two two-IsValid (pos 5)

find_iff_example : (find two (pos 6) ≡ true) ↔ Holds two (pos 6)
find_iff_example = find_iff two two-IsValid (pos 6)
