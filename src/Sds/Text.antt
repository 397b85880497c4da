-- ===== src/Sds/Text.antt =====
-- The functions of redis-stable/src/sds.c that make text: numbers, quoted strings and argument lists.
use mmog.Common.{
  ℕ, zero, suc, ◌&&◌, Bool, true, false, Option, none, some, List, [], ◌∷◌, ◌++◌, length, drop,
  ◌==◌, if◌then◌else◌, ℤ, pos, negsuc,
}
use mmog.Numbers.{print_digits}

-- `sdsfromlonglong`: the buffer of 32 bytes is filled from its end.
unfoldable pub from_long_long : ℤ → List ℕ
from_long_long (pos n) = print_digits 32 n []
from_long_long (negsuc n) = b'-' ∷ print_digits 32 (suc n) []

-- `memcmp(s+j,sep,seplen) == 0`, with enough bytes left.
unfoldable pub starts_with : List ℕ → List ℕ → Bool
starts_with [] s = true
starts_with (a ∷ sep) [] = false
starts_with (a ∷ sep) (b ∷ s) = a == b && starts_with sep s

-- The loop of `sdssplitlen`: `token` holds the bytes from `start` on. There is a round for each byte
-- at most.
unfoldable pub split_loop : ℕ → List ℕ → List ℕ → List ℕ → List (List ℕ)
split_loop zero sep s token = (token ++ s) ∷ []
split_loop (suc fuel) sep [] token = token ∷ []
split_loop (suc fuel) sep (x ∷ s) token = elim (starts_with sep (x ∷ s)) [
  | true ↦ token ∷ split_loop fuel sep (drop (length sep) (x ∷ s)) []
  | false ↦ split_loop fuel sep s (token ++ (x ∷ []))
]

-- `sdssplitlen` with enough memory: `none` for NULL.
unfoldable pub split_len : List ℕ → List ℕ → Option (List (List ℕ))
split_len s sep =
    if length sep == 0
    then none
    else if length s == 0
    then some []
    else some (split_loop (length s) sep s [])
