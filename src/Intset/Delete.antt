-- ===== src/Intset/Delete.antt =====
-- `intsetRemove`: the tail moves down over the value, and the block shrinks.
use mmog.Common.{
  ℕ, ◌+◌, ◌-◌, ◌*◌, ◌%◌, ◌^◌, ◌≤◌, ◌<◌, ◌≡◌, refl, sym, ap, ◌∙◌, inl, inr, arith, ltb,
  if◌then◌else◌, Bool-cases,
}
use mmog.Memory.{Block, memmove, realloc}
use mmog.Memory.Words.{size-memmove, size-realloc}
use mmog.Memory.Signed.{IsWidth}
use mmog.Intset.{Intset, width, slot, get, move_tail, resize, delete_at}
use mmog.Intset.Slots.{
  IsValid, width_lem, slots_apart, slots_le, slot-realloc, slot-memmove_inside,
  slot-memmove_outside,
}
use mmog.Intset.Insert.{no_wrap, get_lem}

-- `t` is `s` without the element at `p`.
pub record Deleted (s : Intset) (p : ℕ) (t : Intset) : Type 0 where
  pub encoding : IsWidth t.encoding
  pub size : t.contents.size ≡ t.length * t.encoding
  pub count : t.length ≡ s.length - 1
  pub before : (i : ℕ) → i < p → get t i ≡ get s i
  pub after : (i : ℕ) → p ≤ i → i < s.length - 1 → get t i ≡ get s (i + 1)

module _ (b : Block) (n w p : ℕ) where
  -- The block before it shrinks.
  closed : Block
  closed = if ltb p (n - 1) then memmove b (p * w) ((p + 1) * w) ((n - (p + 1)) * w) else b

  size-closed : closed.size ≡ b.size
  unfolding closed
  size-closed = ground (arith, size-memmove b (p * w) ((p + 1) * w) ((n - (p + 1)) * w))

  slot-closed_before : (i : ℕ) → i < p → slot closed w i ≡ slot b w i
  unfolding closed
  slot-closed_before i lt = elim (Bool-cases (ltb p (n - 1))) [
    | inl e ↦ rw e (slot-memmove_outside b p (p + 1) (n - (p + 1)) w i (inl lt))
    | inr e ↦ rw e
  ]

  slot-closed_after :
      b.size ≡ n * w → (i : ℕ) → p ≤ i → i < n - 1 → slot closed w i ≡ slot b w (i + 1)
  unfolding closed
  slot-closed_after size i lo hi = elim (Bool-cases (ltb p (n - 1))) [
    | inl e ↦ rw e (
        slot-memmove_inside b p (p + 1) (n - (p + 1)) w i lo (omega arith) fits
        ∙ ap (slot b w) (omega arith))
    | inr e ↦ absurd (ground arith)
  ]
    where
      fits : (p + (n - (p + 1))) * w ≤ b.size
      fits = rw size (slots_le w (p + (n - (p + 1))) n (omega arith))

module _ (fresh : ℕ → ℕ) (s : Intset) (valid : IsValid s) (p : ℕ) (lt : p < s.length) where
  delete_at_lem : delete_at fresh s p ≡ record {
    encoding = s.encoding;
    length = s.length - 1;
    contents =
        realloc fresh (closed s.contents s.length s.encoding p) ((s.length - 1) * s.encoding);
  }
  unfolding delete_at closed resize move_tail
  delete_at_lem = elim (Bool-cases (ltb p (s.length - 1))) [
    | inl e ↦
        rw (e, is_width, distance, no_wrap (s.length - (p + 1)) valid.encoding (omega arith), bytes)
    | inr e ↦ rw (e, bytes)
  ]
    where
      is_width : width s.encoding ≡ s.encoding
      is_width = width_lem valid.encoding

      distance : (s.length + 2 ^ 32 - (p + 1)) % 2 ^ 32 ≡ s.length - (p + 1)
      distance = omega arith

      bytes : (s.length - 1) * s.encoding % 2 ^ 32 ≡ (s.length - 1) * s.encoding
      bytes = no_wrap (s.length - 1) valid.encoding (omega arith)

  pub delete_at-Deleted : Deleted s p (delete_at fresh s p)
  delete_at-Deleted =
      let w = s.encoding in
      let b = closed s.contents s.length w p in
      let fill : b.size ≡ s.length * w = size-closed s.contents s.length w p ∙ valid.size in
      rw delete_at_lem (record {
        encoding = valid.encoding;
        size = size-realloc fresh b ((s.length - 1) * w);
        count = refl;
        before = λ i below.
            get_lem _ i valid.encoding
            ∙ kept i (omega arith)
            ∙ slot-closed_before s.contents s.length w p i below
            ∙ sym (get_lem s i valid.encoding);
        after = λ i lo hi.
            get_lem _ i valid.encoding
            ∙ kept i hi
            ∙ slot-closed_after s.contents s.length w p valid.size i lo hi
            ∙ sym (get_lem s (i + 1) valid.encoding);
      })
    where
      kept :
          (i : ℕ)
          → i < s.length - 1
          → slot
              (realloc fresh
                (closed s.contents s.length s.encoding p)
                ((s.length - 1) * s.encoding))
              s.encoding
              i
            ≡ slot (closed s.contents s.length s.encoding p) s.encoding i
      kept i below =
          slot-realloc fresh _ ((s.length - 1) * s.encoding) s.encoding i
            (omega (
              arith,
              size-closed s.contents s.length s.encoding p,
              slots_apart s.encoding i s.length (omega arith),
            ))
            (slots_apart s.encoding i (s.length - 1) below)
