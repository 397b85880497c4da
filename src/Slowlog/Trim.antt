-- ===== src/Slowlog/Trim.antt =====
-- The loops of the slow log: what they leave of the list.
use mmog.Common.{
  ℕ, zero, suc, ◌+◌, ◌≤◌, ◌<◌, ◌≡◌, refl, sym, ap, ◌∙◌, inl, inr, arith, false, List, [], ◌∷◌,
  length, take, ltb, Bool-cases, pos, negsuc,
}
use mmog.Slowlog.{Entry, delete_last, trim, get_entries}

take-delete_last : (n : ℕ) (es : List Entry) → n < length es → take n (delete_last es) ≡ take n es
unfolding delete_last
take-delete_last zero es h = refl
take-delete_last (suc n) [] h = refl
take-delete_last (suc n) (e ∷ []) h = absurd (omega arith)
take-delete_last (suc n) (e ∷ f ∷ es) h =
    ap (λ xs. e ∷ xs) (take-delete_last n (f ∷ es) (omega arith))

length-delete_last : (e : Entry) (es : List Entry) → length (delete_last (e ∷ es)) ≡ length es
unfolding delete_last
length-delete_last e [] = refl
length-delete_last e (f ∷ es) = ap suc (length-delete_last f es)

take_all : (n : ℕ) (es : List Entry) → length es ≤ n → take n es ≡ es
take_all zero [] h = refl
take_all (suc n) [] h = refl
take_all zero (e ∷ es) h = absurd (omega arith)
take_all (suc n) (e ∷ es) h = ap (λ xs. e ∷ xs) (take_all n es (omega arith))

-- The loop with fuel for each entry that is too much keeps the newest `n` entries.
pub trim_lem : (fuel n : ℕ) (es : List Entry) → length es ≤ n + fuel → trim fuel n es ≡ take n es
unfolding trim delete_last
trim_lem zero n es h = sym (take_all n es (omega arith))
trim_lem (suc fuel) n [] h =
    let few : ltb n 0 ≡ false = ground arith in rw few (sym (take_all n [] (omega arith)))
trim_lem (suc fuel) n (e ∷ es) h = elim (Bool-cases (ltb n (length (e ∷ es)))) [
  | inl many ↦ rw many (
      trim_lem fuel n (delete_last (e ∷ es)) (omega (arith, length-delete_last e es))
      ∙ take-delete_last n (e ∷ es) (ground arith))
  | inr few ↦ rw few (sym (take_all n (e ∷ es) (ground arith)))
]

-- SLOWLOG GET with a count that is not negative.
pub get_entries_lem : (n : ℕ) (es : List Entry) → get_entries (pos n) es ≡ take n es
unfolding get_entries
get_entries_lem zero [] = refl
get_entries_lem (suc n) [] = refl
get_entries_lem zero (e ∷ es) = refl
get_entries_lem (suc n) (e ∷ es) = ap (λ xs. e ∷ xs) (get_entries_lem n es)

-- A negative count never comes down to 0.
pub get_entries_negative : (n : ℕ) (es : List Entry) → get_entries (negsuc n) es ≡ es
unfolding get_entries
get_entries_negative n [] = refl
get_entries_negative n (e ∷ es) = ap (λ xs. e ∷ xs) (get_entries_negative (suc n) es)
