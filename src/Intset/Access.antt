-- ===== src/Intset/Access.antt =====
-- The read-only entry points of an intset: `intsetGet`, `intsetRandom`, `intsetLen` and
-- `intsetBlobLen`.
use native.Mathlib.Nat.{mod-lt}
use mmog.Common.{
  ℕ, ◌+◌, ◌*◌, ◌%◌, ◌^◌, ◌<◌, ◌≡◌, ◌↔◌, refl, sym, ap, ◌∙◌, inl, inr, arith, some, true, ltb,
  Bool-cases, none≢some, ℤ,
}
use mmog.Memory.Signed.{at_width}
use mmog.Intset.{Intset, get_at, random, blob_len}
use mmog.Intset.Slots.{IsValid}
use mmog.Intset.Members.{Holds}

-- `intsetGet` reads exactly the elements: a value is in the set if and only if some position
-- below the length gives it.
pub get_at_iff : (s : Intset) (x : ℤ) → ((i : ℕ) × (get_at s i ≡ some x)) ↔ Holds s x
unfolding get_at
get_at_iff s x = (
  λ h.
      let (i, e) = h in
      elim (Bool-cases (ltb i s.length)) [
        | inl lt ↦ (i, ground arith, unwrap (rw lt at e))
        | inr ge ↦ absurd (none≢some x (rw ge at e))
      ],
  λ h.
      let (i, lt, e) = h in
      let below : ltb i s.length ≡ true = ground arith in (i, rw (below, e) refl),
)
  where
    unwrap : {a b : ℤ} → some a ≡ some b → a ≡ b
    unwrap e = cc

-- `intsetRandom` on a set that is not empty gives one of its elements, whatever `rand()` returns.
pub random-Holds : (s : Intset) (rand : ℕ) → 0 < s.length → Holds s (random s rand)
unfolding random
random-Holds s rand h = (rand % s.length, mod-lt rand h, refl)

-- `intsetBlobLen` of a valid set is the header and the bytes allocated: the product does not wrap.
pub blob_len_lem : (s : Intset) → IsValid s → blob_len s ≡ 8 + s.contents.size
unfolding blob_len
blob_len_lem s valid =
    ap (λ (n : ℕ). 8 + n)
      (at_width (λ w. s.length * w % 2 ^ 32 ≡ s.length * w) (omega (arith, valid.short))
          (omega (arith, valid.short)) (omega (arith, valid.short)) valid.encoding
        ∙ sym valid.size)
