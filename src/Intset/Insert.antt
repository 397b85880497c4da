-- ===== src/Intset/Insert.antt =====
-- `intsetAdd` where the encoding suffices: the tail moves up by one and the value takes its place.
use mmog.Common.{
  ℕ, ◌+◌, ◌-◌, ◌*◌, ◌%◌, ◌^◌, ◌≤◌, ◌<◌, ◌≡◌, refl, sym, ap, ◌∙◌, inl, inr, arith, ltb,
  if◌then◌else◌, ℤ, Bool-cases,
}
use mmog.Memory.{Block, store, memmove, realloc}
use mmog.Memory.Words.{size-store, size-memmove, size-realloc}
use mmog.Memory.Signed.{to_word, Fits, IsWidth, at_width}
use mmog.Intset.{Intset, width, slot, get_encoded, get, set, move_tail, resize, insert_at}
use mmog.Intset.Slots.{
  IsValid, width_lem, slots_apart, slot-store_self, slot-store_ne, slot-realloc,
  slot-memmove_inside, slot-memmove_outside,
}

-- `t` is `s` with `v` inserted at `p`.
pub record Inserted (s : Intset) (v : ℤ) (p : ℕ) (t : Intset) : Type 0 where
  pub encoding : IsWidth t.encoding
  pub size : t.contents.size ≡ t.length * t.encoding
  pub count : t.length ≡ s.length + 1
  pub here : get t p ≡ v
  pub before : (i : ℕ) → i < p → get t i ≡ get s i
  pub after : (i : ℕ) → p ≤ i → i < s.length → get t (i + 1) ≡ get s i

-- A size in bytes stays below 2 ^ 32.
pub no_wrap : {w : ℕ} (n : ℕ) → IsWidth w → n < 2 ^ 29 → n * w % 2 ^ 32 ≡ n * w
no_wrap n i h = at_width (λ w. n * w % 2 ^ 32 ≡ n * w) (omega arith) (omega arith) (omega arith) i

pub get_lem : (s : Intset) (i : ℕ) → IsWidth s.encoding → get s i ≡ slot s.contents s.encoding i
unfolding get get_encoded
get_lem s i is_width = ap (λ w. slot s.contents w i) (width_lem is_width)

module _ (fresh : ℕ → ℕ) (b : Block) (n w p : ℕ) where
  grown : Block
  grown = realloc fresh b ((n + 1) * w)

  size-grown : grown.size ≡ (n + 1) * w
  unfolding grown
  size-grown = size-realloc fresh b ((n + 1) * w)

  -- The block before the value is written.
  opened : Block
  unfolding grown
  opened = if ltb p n then memmove grown ((p + 1) * w) (p * w) ((n - p) * w) else grown

  size-opened : opened.size ≡ (n + 1) * w
  unfolding opened
  size-opened = ground (arith, size-grown, size-memmove grown ((p + 1) * w) (p * w) ((n - p) * w))

  slot-grown : b.size ≡ n * w → (i : ℕ) → i < n → slot grown w i ≡ slot b w i
  unfolding grown
  slot-grown size i lt =
      slot-realloc fresh b ((n + 1) * w) w i (omega (arith, slots_apart w i n lt))
        (omega (arith, slots_apart w i n lt))

  slot-opened_before : b.size ≡ n * w → p ≤ n → (i : ℕ) → i < p → slot opened w i ≡ slot b w i
  unfolding opened
  slot-opened_before size le i lt = elim (Bool-cases (ltb p n)) [
    | inl e ↦ rw e (
        slot-memmove_outside grown (p + 1) p (n - p) w i (inl (omega arith))
        ∙ slot-grown size i (omega arith))
    | inr e ↦ rw e (slot-grown size i (omega arith))
  ]

  slot-opened_after :
      b.size ≡ n * w → p ≤ n → (i : ℕ) → p ≤ i → i < n → slot opened w (i + 1) ≡ slot b w i
  unfolding opened
  slot-opened_after size le i lo hi = elim (Bool-cases (ltb p n)) [
    | inl e ↦ rw e (
        slot-memmove_inside grown (p + 1) p (n - p) w (i + 1) (omega arith) (omega arith) fits
        ∙ ap (slot grown w) (omega arith)
        ∙ slot-grown size i hi)
    | inr e ↦ absurd (ground arith)
  ]
    where
      sum : p + 1 + (n - p) ≡ n + 1
      sum = omega arith

      fits : (p + 1 + (n - p)) * w ≤ grown.size
      fits = rw (sum, size-grown) (omega arith)

module _ (fresh : ℕ → ℕ) (s : Intset) (valid : IsValid s) (v : ℤ) (p : ℕ) where
  -- With no wrap the three byte counts are what they stand for.
  insert_at_lem :
      p ≤ s.length
      → s.length + 1 < 2 ^ 28
      → insert_at fresh s v p ≡ record {
        encoding = s.encoding;
        length = s.length + 1;
        contents =
            store
              (opened fresh s.contents s.length s.encoding p)
              (p * s.encoding)
              s.encoding
              (to_word s.encoding v);
      }
  unfolding insert_at opened grown resize move_tail set
  insert_at_lem le room = elim (Bool-cases (ltb p s.length)) [
    | inl e ↦
        rw
          (e, is_width, distance, no_wrap (s.length - p) valid.encoding (omega arith), bytes, count)
    | inr e ↦ rw (e, is_width, bytes, count)
  ]
    where
      is_width : width s.encoding ≡ s.encoding
      is_width = width_lem valid.encoding

      distance : (s.length + 2 ^ 32 - p) % 2 ^ 32 ≡ s.length - p
      distance = omega arith

      bytes : (s.length + 1) * s.encoding % 2 ^ 32 ≡ (s.length + 1) * s.encoding
      bytes = no_wrap (s.length + 1) valid.encoding (omega arith)

      count : (s.length + 1) % 2 ^ 32 ≡ s.length + 1
      count = omega arith

  pub insert_at-Inserted :
      p ≤ s.length
      → s.length + 1 < 2 ^ 28
      → Fits s.encoding v
      → Inserted s v p (insert_at fresh s v p)
  insert_at-Inserted le room fits =
      let w = s.encoding in
      let b = opened fresh s.contents s.length w p in
      let fill : b.size ≡ (s.length + 1) * w = size-opened fresh s.contents s.length w p in
      rw (insert_at_lem le room) (record {
        encoding = valid.encoding;
        size = size-store b (p * w) w (to_word w v) ∙ fill;
        count = refl;
        here =
            get_lem _ p valid.encoding
            ∙ slot-store_self b p v valid.encoding
                (omega (arith, fill, slots_apart w p (s.length + 1) (omega arith))) fits;
        before = λ i lt.
            get_lem _ i valid.encoding
            ∙ slot-store_ne b w p i (to_word w v) (omega arith)
            ∙ slot-opened_before fresh s.contents s.length w p valid.size le i lt
            ∙ sym (get_lem s i valid.encoding);
        after = λ i lo hi.
            get_lem _ (i + 1) valid.encoding
            ∙ slot-store_ne b w p (i + 1) (to_word w v) (omega arith)
            ∙ slot-opened_after fresh s.contents s.length w p valid.size le i lo hi
            ∙ sym (get_lem s i valid.encoding);
      })
