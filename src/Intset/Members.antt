-- ===== src/Intset/Members.antt =====
-- The set that an intset stands for, and what insertion and deletion do to it.
use mmog.Common.{
  ℕ, ◌+◌, ◌-◌, ◌^◌, ◌≤◌, ◌<◌, ◌≡◌, ◌≢◌, ◌↔◌, sym, ap, ◌∙◌, ◌⊎◌, inl, inr, arith, ℤ, ◌<ℤ◌, dec_lt,
  ℕ_discrete,
}
use mmog.Intset.{Intset, get}
use mmog.Intset.Slots.{IsValid}
use mmog.Intset.Insert.{Inserted}
use mmog.Intset.Delete.{Deleted}

-- `x` is an element.
abbrev pub Holds : Intset → ℤ → Type 0
Holds s x = (i : ℕ) × (i < s.length) × (get s i ≡ x)

-- `p` separates the smaller elements from the larger ones.
pub record Separates (s : Intset) (v : ℤ) (p : ℕ) : Type 0 where
  pub bound : p ≤ s.length
  pub less : (i : ℕ) → i < p → get s i <ℤ v
  pub more : (i : ℕ) → p ≤ i → i < s.length → v <ℤ get s i

lt_irrefl : (a b : ℤ) → a <ℤ b → a ≡ b → ⊥
lt_irrefl a b h e = ground arith

pub Separates-not-Holds : {s : Intset} {v : ℤ} {p : ℕ} → Separates s v p → ¬ (Holds s v)
Separates-not-Holds {s} {v} {p} sep (i, lt, e) = elim (dec_lt i p) [
  | yes l ↦ lt_irrefl (get s i) v (sep.less i l) e
  | no g ↦ lt_irrefl v (get s i) (sep.more i (omega arith) lt) (sym e)
]

module _ {s t : Intset} {v : ℤ} {p : ℕ} (ins : Inserted s v p t) (sep : Separates s v p) where
  -- An element of `t` is the new value or one of `s`.
  data Origin (i : ℕ) : Type 0 where
    old_low : i < p → get t i ≡ get s i → Origin i
    new_one : i ≡ p → get t i ≡ v → Origin i
    old_high : p < i → get t i ≡ get s (i - 1) → Origin i

  origin : (i : ℕ) → i < t.length → Origin i
  origin i lt = elim (dec_lt i p) [
    | yes l ↦ old_low l (ins.before i l)
    | no g ↦ elim (ℕ_discrete i p) [
      | yes e ↦ new_one e (ap (get t) e ∙ ins.here)
      | no ne ↦
          old_high (omega arith)
            (ap (get t) (omega arith) ∙ ins.after (i - 1) (omega arith) (omega (arith, ins.count)))
    ]
  ]

  sorted_pair :
      IsValid s → (i j : ℕ) → i < j → j < t.length → Origin i → Origin j → get t i <ℤ get t j
  sorted_pair valid i j lt bound (old_low li ei) (old_low lj ej) =
      rw (ei, ej) (valid.sorted i j lt (omega (arith, sep.bound)))
  sorted_pair valid i j lt bound (old_low li ei) (new_one lj ej) = rw (ei, ej) (sep.less i li)
  sorted_pair valid i j lt bound (old_low li ei) (old_high lj ej) =
      rw (ei, ej) (valid.sorted i (j - 1) (omega arith) (omega (arith, ins.count)))
  sorted_pair valid i j lt bound (new_one li ei) (old_low lj ej) = absurd (omega arith)
  sorted_pair valid i j lt bound (new_one li ei) (new_one lj ej) = absurd (omega arith)
  sorted_pair valid i j lt bound (new_one li ei) (old_high lj ej) =
      rw (ei, ej) (sep.more (j - 1) (omega arith) (omega (arith, ins.count)))
  sorted_pair valid i j lt bound (old_high li ei) (old_low lj ej) = absurd (omega arith)
  sorted_pair valid i j lt bound (old_high li ei) (new_one lj ej) = absurd (omega arith)
  sorted_pair valid i j lt bound (old_high li ei) (old_high lj ej) =
      rw (ei, ej) (valid.sorted (i - 1) (j - 1) (omega arith) (omega (arith, ins.count)))

  pub Inserted-IsValid : IsValid s → s.length + 1 < 2 ^ 28 → IsValid t
  Inserted-IsValid valid room = record {
    encoding = ins.encoding;
    size = ins.size;
    short = omega (arith, ins.count);
    sorted =
        λ i j lt bound. sorted_pair valid i j lt bound (origin i (omega arith)) (origin j bound);
  }

  pub Inserted-Holds : (x : ℤ) → Holds t x ↔ ((x ≡ v) ⊎ Holds s x)
  Inserted-Holds x = (λ h. from h.0 h.1 h.2 (origin h.0 h.1), to)
    where
      from : (i : ℕ) → i < t.length → get t i ≡ x → Origin i → (x ≡ v) ⊎ Holds s x
      from i lt e (old_low l ei) = inr (i, omega (arith, sep.bound), sym ei ∙ e)
      from i lt e (new_one l ei) = inl (sym e ∙ ei)
      from i lt e (old_high l ei) = inr (i - 1, omega (arith, ins.count), sym ei ∙ e)

      to : (x ≡ v) ⊎ Holds s x → Holds t x
      to (inl e) = (p, omega (arith, ins.count, sep.bound), ins.here ∙ sym e)
      to (inr (i, lt, e)) = elim (dec_lt i p) [
        | yes l ↦ (i, omega (arith, ins.count), ins.before i l ∙ e)
        | no g ↦ (i + 1, omega (arith, ins.count), ins.after i (omega arith) lt ∙ e)
      ]

module _ {s t : Intset} {p : ℕ} (del : Deleted s p t) (lt : p < s.length) where
  -- An element of `t` is one of `s` on either side of `p`.
  data Kept (i : ℕ) : Type 0 where
    kept_low : i < p → get t i ≡ get s i → Kept i
    kept_high : p ≤ i → get t i ≡ get s (i + 1) → Kept i

  kept : (i : ℕ) → i < t.length → Kept i
  kept i l = elim (dec_lt i p) [
    | yes below ↦ kept_low below (del.before i below)
    | no g ↦ kept_high (omega arith) (del.after i (omega arith) (omega (arith, del.count)))
  ]

  kept_pair : IsValid s → (i j : ℕ) → i < j → j < t.length → Kept i → Kept j → get t i <ℤ get t j
  kept_pair valid i j l bound (kept_low li ei) (kept_low lj ej) =
      rw (ei, ej) (valid.sorted i j l (omega (arith, del.count)))
  kept_pair valid i j l bound (kept_low li ei) (kept_high lj ej) =
      rw (ei, ej) (valid.sorted i (j + 1) (omega arith) (omega (arith, del.count)))
  kept_pair valid i j l bound (kept_high li ei) (kept_low lj ej) = absurd (omega arith)
  kept_pair valid i j l bound (kept_high li ei) (kept_high lj ej) =
      rw (ei, ej) (valid.sorted (i + 1) (j + 1) (omega arith) (omega (arith, del.count)))

  pub Deleted-IsValid : IsValid s → IsValid t
  Deleted-IsValid valid = record {
    encoding = del.encoding;
    size = del.size;
    short = omega (arith, del.count, valid.short);
    sorted = λ i j l bound. kept_pair valid i j l bound (kept i (omega arith)) (kept j bound);
  }

  distinct : IsValid s → (i : ℕ) → i < s.length → i ≢ p → get s i ≢ get s p
  distinct valid i l ne = elim (dec_lt i p) [
    | yes below ↦ lt_irrefl (get s i) (get s p) (valid.sorted i p below lt)
    | no g ↦ λ e. lt_irrefl (get s p) (get s i) (valid.sorted p i (omega arith) l) (sym e)
  ]

  pub Deleted-Holds : IsValid s → (x : ℤ) → Holds t x ↔ ((x ≢ get s p) × Holds s x)
  Deleted-Holds valid x = (λ h. from h.0 h.1 h.2 (kept h.0 h.1), λ h. to h.0 h.1.0 h.1.1 h.1.2)
    where
      from : (i : ℕ) → i < t.length → get t i ≡ x → Kept i → (x ≢ get s p) × Holds s x
      from i l e (kept_low b ei) = (
        λ q. distinct valid i (omega arith) (omega arith) (sym ei ∙ e ∙ q),
        (i, omega arith, sym ei ∙ e),
      )
      from i l e (kept_high b ei) = (
        λ q. distinct valid (i + 1) (omega (arith, del.count)) (omega arith) (sym ei ∙ e ∙ q),
        (i + 1, omega (arith, del.count), sym ei ∙ e),
      )

      to : x ≢ get s p → (i : ℕ) → i < s.length → get s i ≡ x → Holds t x
      to ne i l e = elim (dec_lt i p) [
        | yes b ↦ (i, omega (arith, del.count), del.before i b ∙ e)
        | no g ↦ elim (ℕ_discrete i p) [
          | yes q ↦ absurd (ne (sym e ∙ ap (get s) q))
          | no n ↦ (
            i - 1,
            omega (arith, del.count),
            del.after (i - 1) (omega arith) (omega (arith, del.count))
                ∙ ap (get s) (omega arith)
                ∙ e,
          )
        ]
      ]
