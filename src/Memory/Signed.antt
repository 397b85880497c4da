-- ===== src/Memory/Signed.antt =====
-- Two's complement: an `int16_t`, `int32_t` or `int64_t` as the word of its bytes.
use mmog.Common.{
  ℕ, ◌-◌, ◌/◌, ◌%◌, ◌^◌, ◌≤◌, ◌<◌, ◌≡◌, ◌⊎◌, inl, inr, arith, ltb, if◌then◌else◌, ℤ, pos, negsuc,
  pos_part, neg_part,
}

-- The word that a value is stored as in `w` bytes: its low bits.
unfoldable pub to_word : ℕ → ℤ → ℕ
to_word w (pos n) = n % 256 ^ w
to_word w (negsuc n) = 256 ^ w - 1 - n % 256 ^ w

-- The value of a `w`-byte word.
unfoldable pub of_word : ℕ → ℕ → ℤ
of_word w x = if ltb x (256 ^ w / 2) then pos x else negsuc (256 ^ w - 1 - x)

-- The values of a signed integer of `w` bytes.
abbrev pub Fits : ℕ → ℤ → Type 0
Fits w v = (pos_part v < 256 ^ w / 2) × (neg_part v ≤ 256 ^ w / 2)

-- The three widths in use.
abbrev pub IsWidth : ℕ → Type 0
IsWidth w = (w ≡ 2) ⊎ (w ≡ 4) ⊎ (w ≡ 8)

pub at_width : {w : ℕ} (P : ℕ → Type 0) → P 2 → P 4 → P 8 → IsWidth w → P w
at_width P two four eight (inl e) = rw e two
at_width P two four eight (inr (inl e)) = rw e four
at_width P two four eight (inr (inr e)) = rw e eight

pub to_word-lt : {w : ℕ} (v : ℤ) → IsWidth w → to_word w v < 256 ^ w
unfolding to_word
to_word-lt (pos n) i =
    at_width (λ w. n % 256 ^ w < 256 ^ w) (omega arith) (omega arith) (omega arith) i
to_word-lt (negsuc n) i =
    at_width (λ w. 256 ^ w - 1 - n % 256 ^ w < 256 ^ w) (omega arith) (omega arith) (omega arith) i

-- A value that fits is not changed by a store and a load.
pub of_word-to_word : {w : ℕ} (v : ℤ) → IsWidth w → Fits w v → of_word w (to_word w v) ≡ v
unfolding to_word of_word
of_word-to_word (pos n) i =
    at_width (λ w. Fits w (pos n) → of_word w (to_word w (pos n)) ≡ pos n) (λ f. ground arith)
      (λ f. ground arith) (λ f. ground arith) i
of_word-to_word (negsuc n) i =
    at_width (λ w. Fits w (negsuc n) → of_word w (to_word w (negsuc n)) ≡ negsuc n)
      (λ f. ground arith) (λ f. ground arith) (λ f. ground arith) i

pub of_word-Fits : {w : ℕ} (x : ℕ) → IsWidth w → x < 256 ^ w → Fits w (of_word w x)
unfolding of_word
of_word-Fits x i =
    at_width (λ w. x < 256 ^ w → Fits w (of_word w x)) (λ h. ground arith) (λ h. ground arith)
      (λ h. ground arith) i
