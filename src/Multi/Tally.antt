-- ===== src/Multi/Tally.antt =====
-- How often a client or a watched key occurs in a list, and what the list operations do to that.
use mmog.Common.{
  inl, inr, ℕ, ◌+◌, ◌<◌, ◌≡◌, ◌↔◌, refl, sym, ◌∙◌, arith, Bool, true, false, List, [], ◌∷◌, ◌++◌,
  ◌==◌, if◌then◌else◌, Bool-cases, false≢true,
}
use mmog.Common.Bytes.{equal_strings_iff}
use mmog.Multi.{WatchedKey, same_watched, is_watched, delete_client}

pub same_watched_iff : (a b : WatchedKey) → (same_watched a b ≡ true) ↔ (a ≡ b)
unfolding same_watched
same_watched_iff (k, d) (j, e) = grind (arith, equal_strings_iff k j)

-- The number of places where a list holds something that passes the test.
unfoldable pub tally {ℓ} : {A : Type ℓ} → (A → Bool) → List A → ℕ
tally p [] = 0
tally p (x ∷ xs) = (if p x then 1 else 0) + tally p xs

pub tally-append {ℓ} :
    {A : Type ℓ} (p : A → Bool) (xs ys : List A) → tally p (xs ++ ys) ≡ tally p xs + tally p ys
unfolding tally
tally-append p [] ys = omega arith
tally-append p (x ∷ xs) ys = omega (arith, tally-append p xs ys)

pub tally-delete_client :
    (c q : ℕ) (cs : List ℕ)
    → 0 < tally (λ x. x == c) cs
    → tally (λ x. x == q) (delete_client c cs) + (if c == q then 1 else 0) ≡ tally (λ x. x == q) cs
unfolding tally delete_client
tally-delete_client c q [] h = elim h [ ]
tally-delete_client c q (x ∷ xs) h = elim (Bool-cases (x == c)) [
  | inl e ↦ rw e (ground arith)
  | inr e ↦
      let later : 0 < tally (λ y. y == c) xs = omega (arith, rw e at h) in
      rw e (omega (arith, tally-delete_client c q xs later))
]

pub is_watched_lem :
    (wk : WatchedKey) (ks : List WatchedKey)
    → is_watched wk ks ≡ false
    → tally (λ k. same_watched k wk) ks ≡ 0
unfolding tally is_watched
is_watched_lem wk [] h = refl
is_watched_lem wk (k ∷ ks) h = elim (Bool-cases (same_watched k wk)) [
  | inl e ↦ absurd (false≢true (sym (rw e at h)))
  | inr e ↦ rw e (omega (arith, is_watched_lem wk ks (rw e at h)))
]

pub same_watched_sym : (a b : WatchedKey) → same_watched a b ≡ same_watched b a
same_watched_sym a b = elim (Bool-cases (same_watched a b)) [
  | inl e ↦ elim (Bool-cases (same_watched b a)) [
    | inl f ↦ e ∙ sym f
    | inr f ↦
        absurd (false≢true (sym f ∙ (same_watched_iff b a).1 (sym ((same_watched_iff a b).0 e))))
  ]
  | inr e ↦ elim (Bool-cases (same_watched b a)) [
    | inr f ↦ e ∙ sym f
    | inl f ↦
        absurd (false≢true (sym e ∙ (same_watched_iff a b).1 (sym ((same_watched_iff b a).0 f))))
  ]
]

pub is_watched-tally :
    (wk : WatchedKey) (ks : List WatchedKey)
    → is_watched wk ks ≡ true
    → 0 < tally (λ k. same_watched k wk) ks
unfolding tally is_watched
is_watched-tally wk [] h = absurd (false≢true h)
is_watched-tally wk (k ∷ ks) h = elim (Bool-cases (same_watched k wk)) [
  | inl e ↦ rw e (omega arith)
  | inr e ↦ rw e (omega (arith, is_watched-tally wk ks (rw e at h)))
]
