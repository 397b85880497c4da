-- ===== src/Intset/Upgrade.antt =====
-- `intsetUpgradeAndAdd`: widening back to front keeps every element, and the value that did not fit
-- goes to the end where it belongs.
use mmog.Common.{
  ℕ, zero, suc, ◌+◌, ◌*◌, ◌/◌, ◌%◌, ◌^◌, ◌≤◌, ◌<◌, ◌≡◌, refl, sym, ap, ◌∙◌, inl, inr, arith,
  if◌then◌else◌, ℤ, ◌<ℤ◌, pos, negsuc, ltb_ℤ, Bool-cases, dec_lt, dec_le, true, false,
}
use mmog.Memory.{Block, store, realloc}
use mmog.Memory.Words.{size-store, size-realloc}
use mmog.Memory.Signed.{to_word, Fits, IsWidth, at_width}
use mmog.Intset.{
  Intset, value_encoding, width, slot, get_encoded, get, set, resize, upgrade_loop, upgrade_and_add,
}
use mmog.Intset.Slots.{
  IsValid, width_lem, slots_apart, slots_le, slot-store_self, slot-store_ne, slot-store_apart,
  slot-realloc, slot-Fits,
}
use mmog.Intset.Insert.{Inserted, no_wrap, get_lem}

pub value_encoding-IsWidth : (v : ℤ) → IsWidth (value_encoding v)
unfolding value_encoding
value_encoding-IsWidth v = ground arith

-- `_intsetValueEncoding` is the narrowest encoding: a 64-bit value fits a width exactly when its own
-- encoding is no larger.
pub value_encoding-Fits : {w : ℕ} (v : ℤ) → IsWidth w → Fits 8 v → value_encoding v ≤ w → Fits w v
unfolding value_encoding
value_encoding-Fits v is_width =
    at_width (λ w. Fits 8 v → value_encoding v ≤ w → Fits w v) (λ f h. ground arith)
      (λ f h. ground arith) (λ f h. f) is_width

pub Fits-value_encoding : {w : ℕ} (v : ℤ) → IsWidth w → Fits w v → value_encoding v ≤ w
unfolding value_encoding
Fits-value_encoding v is_width =
    at_width (λ w. Fits w v → value_encoding v ≤ w) (λ f. ground arith) (λ f. ground arith)
      (λ f. ground arith) is_width

-- The block after the loop of `upgrade_loop` over `n` elements, from width `w` to width `u`.
widen : ℕ → ℕ → ℕ → ℕ → Block → Block
widen w u k zero b = b
widen w u k (suc n) b = widen w u k n (store b ((n + k) * u) u (to_word u (slot b w n)))

module _ {w u : ℕ} (is_w : IsWidth w) (is_u : IsWidth u) where
  upgrade_loop-widen :
      (k n len : ℕ) (b : Block)
      → upgrade_loop (record { encoding = u; length = len; contents = b }) n k w
        ≡ record { encoding = u; length = len; contents = widen w u k n b }
  unfolding upgrade_loop widen set get_encoded
  upgrade_loop-widen k zero len b = refl
  upgrade_loop-widen k (suc n) len b =
      rw (width_lem is_w, width_lem is_u)
        (upgrade_loop-widen k n len (store b ((n + k) * u) u (to_word u (slot b w n))))

  size-widen : (k n : ℕ) (b : Block) → (widen w u k n b).size ≡ b.size
  unfolding widen
  size-widen k zero b = refl
  size-widen k (suc n) b =
      size-widen k n (store b ((n + k) * u) u (to_word u (slot b w n)))
      ∙ size-store b ((n + k) * u) u (to_word u (slot b w n))

  Fits-wider : (v : ℤ) → w ≤ u → Fits w v → Fits u v
  Fits-wider v le =
      at_width (λ w. w ≤ u → Fits w v → Fits u v)
        (at_width (λ u. 2 ≤ u → Fits 2 v → Fits u v) (omega arith) (omega arith) (omega arith) is_u)
        (at_width (λ u. 4 ≤ u → Fits 4 v → Fits u v) (omega arith) (omega arith) (omega arith) is_u)
        (at_width (λ u. 8 ≤ u → Fits 8 v → Fits u v) (omega arith) (omega arith) (omega arith) is_u)
        is_w le

  -- The loop leaves the slots above those that it writes.
  widen_above : (k n : ℕ) (b : Block) (j : ℕ) → n + k ≤ j → slot (widen w u k n b) u j ≡ slot b u j
  unfolding widen
  widen_above k zero b j h = refl
  widen_above k (suc n) b j h =
      widen_above k n (store b ((n + k) * u) u (to_word u (slot b w n))) j (omega arith)
      ∙ slot-store_ne b u (n + k) j (to_word u (slot b w n)) (omega arith)

  widen_elements :
      (k n : ℕ) (b : Block) (j : ℕ)
      → w ≤ u
      → (n + k) * u ≤ b.size
      → j < n
      → slot (widen w u k n b) u (j + k) ≡ slot b w j
  unfolding widen
  widen_elements k zero b j le room lt = elim lt [ ]
  widen_elements k (suc n) b j le room lt = elim (dec_lt j n) [
    | yes l ↦
        widen_elements k n (store b ((n + k) * u) u x) j le
          (rw size-store (omega (arith, slots_le u (n + k) (suc n + k) (omega arith)))) l
        ∙ slot-store_apart b ((n + k) * u) u x w j
            (inl (omega (arith, slots_apart w j n l, scaled n, slots_le u n (n + k) (omega arith))))
    | no ge ↦
        let e : j ≡ n = omega arith in
        rw e (
          widen_above k n (store b ((n + k) * u) u x) (n + k) (omega arith)
          ∙ slot-store_self b (n + k) (slot b w n) is_u
              (omega (arith, slots_apart u (n + k) (suc n + k) (omega arith)))
              (Fits-wider (slot b w n) le (slot-Fits b n is_w)))
  ]
    where
      x : ℕ
      x = to_word u (slot b w n)

      scaled : (n : ℕ) → n * w ≤ n * u
      scaled n = grind arith

-- A value too wide for `w` lies beyond all that fit, on the side of its sign.
outside :
    (w : ℕ) (x v : ℤ)
    → Fits w x
    → ¬ (Fits w v)
    → (ltb_ℤ v (pos 0) ≡ true → v <ℤ x) × (ltb_ℤ v (pos 0) ≡ false → x <ℤ v)
outside w x (pos n) f g = (
  λ e. absurd (ground arith),
  λ e. elim (dec_lt n (256 ^ w / 2)) [ yes l ↦ absurd (g (l, omega arith)) | no l ↦ omega arith ],
)
outside w x (negsuc n) f g = (
  λ e. elim (dec_le (suc n) (256 ^ w / 2)) [
    | yes l ↦ absurd (g (omega arith, l))
    | no l ↦ omega arith
  ],
  λ e. absurd (ground arith),
)

-- Where a value that needs a wider encoding goes: before the others if it is negative.
abbrev pub end_of : Intset → ℤ → ℕ
end_of s v = if ltb_ℤ v (pos 0) then 0 else s.length

module _ (fresh : ℕ → ℕ) (s : Intset) (valid : IsValid s) (v : ℤ) where
  abbrev u : ℕ
  u = value_encoding v

  abbrev prepend : ℕ
  prepend = if ltb_ℤ v (pos 0) then 1 else 0

  widened : Block
  widened = widen s.encoding u prepend s.length (realloc fresh s.contents ((s.length + 1) * u))

  upgrade_and_add_lem :
      s.length + 1 < 2 ^ 28
      → upgrade_and_add fresh s v ≡ record {
        encoding = u;
        length = s.length + 1;
        contents = store widened (end_of s v * u) u (to_word u v);
      }
  unfolding upgrade_and_add widened resize set
  upgrade_and_add_lem room = elim (Bool-cases (ltb_ℤ v (pos 0))) [
    | inl e ↦ rw (e, bytes, upgrade_loop-widen valid.encoding is_u, is_width, count)
    | inr e ↦ rw (e, bytes, upgrade_loop-widen valid.encoding is_u, is_width, count)
  ]
    where
      is_u : IsWidth u
      is_u = value_encoding-IsWidth v

      is_width : width u ≡ u
      is_width = width_lem is_u

      bytes : (s.length + 1) * u % 2 ^ 32 ≡ (s.length + 1) * u
      bytes = no_wrap (s.length + 1) (value_encoding-IsWidth v) (omega arith)

      count : (s.length + 1) % 2 ^ 32 ≡ s.length + 1
      count = omega arith

  module _ (room : s.length + 1 < 2 ^ 28) (wider : s.encoding < u) (fits : Fits 8 v) where
    is_u : IsWidth u
    is_u = value_encoding-IsWidth v

    size-widened : widened.size ≡ (s.length + 1) * u
    unfolding widened
    size-widened =
        size-widen valid.encoding is_u prepend s.length _
        ∙ size-realloc fresh s.contents ((s.length + 1) * u)

    slot-widened : (j : ℕ) → j < s.length → slot widened u (j + prepend) ≡ get s j
    unfolding widened
    slot-widened j lt =
        widen_elements valid.encoding is_u prepend s.length _ j (omega arith)
          (rw size-realloc (slots_le u (s.length + prepend) (s.length + 1) (ground arith))) lt
        ∙ slot-realloc fresh s.contents ((s.length + 1) * u) s.encoding j
            (omega (arith, slots_apart s.encoding j s.length lt, valid.size))
            (omega (arith, slots_apart s.encoding j s.length lt, scaled (s.length)))
        ∙ sym (get_lem s j valid.encoding)
      where
        scaled : (n : ℕ) → n * s.encoding ≤ n * u
        scaled n = grind arith

    -- Every element lies on the far side of the value from its end.
    pub extreme :
        (i : ℕ)
        → i < s.length
        → (ltb_ℤ v (pos 0) ≡ true → v <ℤ get s i) × (ltb_ℤ v (pos 0) ≡ false → get s i <ℤ v)
    extreme i lt = rw (get_lem s i valid.encoding) (
        outside s.encoding (slot s.contents s.encoding i) v (slot-Fits s.contents i valid.encoding)
          λ f. absurd (omega (arith, Fits-value_encoding v valid.encoding f)))

    -- `intsetUpgradeAndAdd` of a 64-bit value that needs a wider encoding, on a valid set with room for
    -- one more element, for any bytes that the allocator adds: all elements are re-encoded in the
    -- value's encoding, and the value stands before them if it is negative and behind them otherwise.
    pub upgrade_and_add-Inserted : Inserted s v (end_of s v) (upgrade_and_add fresh s v)
    upgrade_and_add-Inserted = rw (upgrade_and_add_lem room) (record {
      encoding = is_u;
      size = size-store widened _ u (to_word u v) ∙ size-widened;
      count = refl;
      here =
          get_lem _ (end_of s v) is_u
          ∙ slot-store_self widened (end_of s v) v is_u
              (omega
                (arith, size-widened, slots_apart u (end_of s v) (s.length + 1) (ground arith)))
              (value_encoding-Fits v is_u fits (omega arith));
      before = λ i lt.
          get_lem _ i is_u
          ∙ slot-store_ne widened u (end_of s v) i (to_word u v) (omega arith)
          ∙ ap (slot widened u) (ground arith)
          ∙ slot-widened i (ground arith);
      after = λ i lo hi.
          get_lem _ (i + 1) is_u
          ∙ slot-store_ne widened u (end_of s v) (i + 1) (to_word u v) (omega arith)
          ∙ ap (slot widened u) (ground arith)
          ∙ slot-widened i hi;
    })
