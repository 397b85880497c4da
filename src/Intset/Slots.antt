-- ===== src/Intset/Slots.antt =====
-- The elements of an intset behind its byte array: what each write, move and resize does to them.
use mmog.Common.{
  ℕ, ◌+◌, ◌-◌, ◌*◌, ◌^◌, ◌≤◌, ◌<◌, ◌≡◌, ◌≢◌, refl, ap, ◌∙◌, ◌⊎◌, inl, inr, arith, ℤ, ◌<ℤ◌,
}
use mmog.Memory.{Block, load, store, memmove, realloc}
use mmog.Memory.Words.{
  load-store, load-store_apart, load-memmove_inside, load-memmove_outside, load-realloc, load-lt,
}
use mmog.Memory.Signed.{
  to_word, of_word, Fits, IsWidth, at_width, to_word-lt, of_word-to_word, of_word-Fits,
}
use mmog.Intset.{Intset, width, slot, get}

-- The array holds exactly its elements, in strictly increasing order.
pub record IsValid (s : Intset) : Type 0 where
  pub encoding : IsWidth s.encoding
  pub size : s.contents.size ≡ s.length * s.encoding
  pub short : s.length < 2 ^ 28
  pub sorted : (i j : ℕ) → i < j → j < s.length → get s i <ℤ get s j

pub width_lem : {e : ℕ} → IsWidth e → width e ≡ e
unfolding width
width_lem = at_width (λ w. width w ≡ w) refl refl refl

-- Slots do not overlap.
pub slots_apart : (w i j : ℕ) → i < j → i * w + w ≤ j * w
slots_apart w i j h = grind arith

pub slots_le : (w i j : ℕ) → i ≤ j → i * w ≤ j * w
slots_le w i j h = grind arith

pub slot-store_self :
    {w : ℕ} (b : Block) (i : ℕ) (v : ℤ)
    → IsWidth w
    → i * w + w ≤ b.size
    → Fits w v
    → slot (store b (i * w) w (to_word w v)) w i ≡ v
unfolding slot
slot-store_self {w} b i v is_width room fits =
    ap (of_word w) (load-store b (i * w) w (to_word w v) room (to_word-lt v is_width))
    ∙ of_word-to_word v is_width fits

-- A write of one width leaves alone an element of another that lies apart from it.
pub slot-store_apart :
    (b : Block) (a k x w j : ℕ)
    → ((j * w + w ≤ a) ⊎ (a + k ≤ j * w))
    → slot (store b a k x) w j ≡ slot b w j
unfolding slot
slot-store_apart b a k x w j h = ap (of_word w) (load-store_apart b a k x (j * w) w h)

pub slot-store_ne : (b : Block) (w i j x : ℕ) → i ≢ j → slot (store b (i * w) w x) w j ≡ slot b w j
slot-store_ne b w i j x ne = slot-store_apart b (i * w) w x w j (apart ne)
  where
    apart : i ≢ j → (j * w + w ≤ i * w) ⊎ (i * w + w ≤ j * w)
    apart ne = grind (arith, slots_apart w i j, slots_apart w j i)

pub slot-Fits : {w : ℕ} (b : Block) (i : ℕ) → IsWidth w → Fits w (slot b w i)
unfolding slot
slot-Fits {w} b i is_width = of_word-Fits (load b (i * w) w) is_width (load-lt b (i * w) w)

pub slot-realloc :
    (fresh : ℕ → ℕ) (b : Block) (n w j : ℕ)
    → j * w + w ≤ b.size
    → j * w + w ≤ n
    → slot (realloc fresh b n) w j ≡ slot b w j
unfolding slot
slot-realloc fresh b n w j h k = ap (of_word w) (load-realloc fresh b n (j * w) w h k)

offset : (from to j w : ℕ) → to ≤ j → from * w + (j * w - to * w) ≡ (from + (j - to)) * w
offset from to j w h = at_sum (j - to) (omega arith)
  where
    at_sum : (d : ℕ) → j ≡ to + d → from * w + (j * w - to * w) ≡ (from + d) * w
    at_sum d e = rw e (omega arith)

-- `n` elements moved from `from` to `to`.
pub slot-memmove_inside :
    (b : Block) (to from n w j : ℕ)
    → to ≤ j
    → j < to + n
    → (to + n) * w ≤ b.size
    → slot (memmove b (to * w) (from * w) (n * w)) w j ≡ slot b w (from + (j - to))
unfolding slot
slot-memmove_inside b to from n w j lo hi fits = ap (of_word w) (
    load-memmove_inside b (to * w) (from * w) (n * w) (j * w) w (grind arith)
      (omega (arith, slots_apart w j (to + n) hi)) (omega arith)
    ∙ ap (λ a. load b a w) (offset from to j w lo))

pub slot-memmove_outside :
    (b : Block) (to from n w j : ℕ)
    → ((j < to) ⊎ (to + n ≤ j))
    → slot (memmove b (to * w) (from * w) (n * w)) w j ≡ slot b w j
unfolding slot
slot-memmove_outside b to from n w j h =
    ap (of_word w) (load-memmove_outside b (to * w) (from * w) (n * w) (j * w) w (apart h))
  where
    apart : (j < to) ⊎ (to + n ≤ j) → (j * w + w ≤ to * w) ⊎ (to * w + n * w ≤ j * w)
    apart (inl x) = inl (slots_apart w j to x)
    apart (inr x) = inr (omega (arith, slots_le w (to + n) j x))
