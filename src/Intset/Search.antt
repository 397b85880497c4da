-- ===== src/Intset/Search.antt =====
-- `intsetSearch`: the binary search decides membership and finds the place of a missing value.
use mmog.Common.{
  ℕ, zero, suc, ◌+◌, ◌-◌, ◌/◌, ◌^◌, ◌≤◌, ◌<◌, ◌≡◌, ◌⊎◌, inl, inr, Bool, true, false, arith, ltb,
  ◌==◌, if◌then◌else◌, ℤ, negsuc, ◌<ℤ◌, ltb_ℤ, eqb_ℤ, eq_of_parts, Bool-cases, dec_lt,
}
use mmog.Intset.{Intset, get, search_loop, search}
use mmog.Intset.Slots.{IsValid}

-- What `intsetSearch` promises of its result and of `*pos`.
abbrev pub Located : Intset → ℤ → Bool → ℕ → Type 0
Located s v true p = (p < s.length) × (get s p ≡ v)
Located s v false p =
    (p ≤ s.length)
    × ((i : ℕ) → i < p → get s i <ℤ v)
    × ((i : ℕ) → p ≤ i → i < s.length → v <ℤ get s i)

-- The test behind the loop.
abbrev outcome : ℤ → ℕ × ℕ × ℤ → Bool × ℕ
outcome v r = if eqb_ℤ v r.2 then (true, r.1) else (false, r.0)

module _ (s : Intset) (valid : IsValid s) (v : ℤ) where
  below : (m i : ℕ) → get s m <ℤ v → m < s.length → i < m + 1 → get s i <ℤ v
  below m i h lt le = elim (dec_lt i m) [
    | yes l ↦ omega (arith, valid.sorted i m l lt)
    | no n ↦ let e : i ≡ m = omega arith in rw e h
  ]

  above : (m i : ℕ) → v <ℤ get s m → m ≤ i → i < s.length → v <ℤ get s i
  above m i h le lt = elim (dec_lt m i) [
    | yes l ↦ omega (arith, valid.sorted m i l lt)
    | no n ↦ let e : i ≡ m = omega arith in rw e h
  ]

  -- Where the loop ends with no match, `lo` is the place.
  missed :
      (lo hi mid : ℕ) (cur : ℤ)
      → lo ≡ hi
      → hi ≤ s.length
      → ((i : ℕ) → i < lo → get s i <ℤ v)
      → ((i : ℕ) → hi ≤ i → i < s.length → v <ℤ get s i)
      → eqb_ℤ v cur ≡ false
      → let r = outcome v (lo, mid, cur) in Located s v r.0 r.1
  missed lo hi mid cur e bound less more differ =
      rw differ (omega arith, less, λ i le lt. more i (omega arith) lt)

  matched :
      (lo m : ℕ)
      → m < s.length
      → ltb_ℤ (get s m) v ≡ false
      → ltb_ℤ v (get s m) ≡ false
      → let r = outcome v (lo, m, get s m) in Located s v r.0 r.1
  matched lo m bound ge le =
      let same : eqb_ℤ v (get s m) ≡ true = ground arith in
      rw same (bound, eq_of_parts (get s m) v (ground arith))

  loop-Located :
      (fuel lo hi mid : ℕ) (cur : ℤ)
      → hi - lo < fuel
      → lo ≤ hi
      → hi ≤ s.length
      → ((i : ℕ) → i < lo → get s i <ℤ v)
      → ((i : ℕ) → hi ≤ i → i < s.length → v <ℤ get s i)
      → ((lo < hi) ⊎ (eqb_ℤ v cur ≡ false))
      → let r = outcome v (search_loop fuel s v lo hi mid cur) in Located s v r.0 r.1
  unfolding search_loop
  loop-Located zero lo hi mid cur f le bound less more start = absurd (omega arith)
  loop-Located (suc fuel) lo hi mid cur f le bound less more start = elim (Bool-cases (ltb lo hi)) [
    | inr done ↦
        rw (done, search_loop) (missed lo hi mid cur (ground arith) bound less more (ground arith))
    | inl going ↦
        let m = (lo + (hi - 1)) / 2 in
        let lt : lo < hi = ground arith in
        rw (going, search_loop)
          (elim (Bool-cases (ltb_ℤ (get s m) v)) [
            | inl lower ↦ rw lower (
                loop-Located fuel (m + 1) hi m (get s m) (omega arith) (omega arith) bound
                  (λ i. below m i (ground arith) (omega arith)) more (inr (ground arith)))
            | inr not_lower ↦ rw not_lower (elim (Bool-cases (ltb_ℤ v (get s m))) [
              | inl upper ↦ rw upper (
                  loop-Located fuel lo m m (get s m) (omega arith) (omega arith) (omega arith) less
                    (λ i. above m i (ground arith)) (inr (ground arith)))
              | inr not_upper ↦ rw not_upper (matched lo m (omega arith) not_lower not_upper)
            ])
          ])
  ]

  -- On a valid set the search ends with the right answer: it returns true with the position of the
  -- value, or false with the one position where the value can be inserted, above all smaller
  -- elements and below all larger ones.
  pub search-Located : let r = search s v in Located s v r.0 r.1
  unfolding search
  search-Located = elim (Bool-cases (s.length == 0)) [
    | inl empty ↦ rw empty (omega arith, (λ i lt. elim lt [ ]), λ i le lt. absurd (ground arith))
    | inr filled ↦ rw filled (elim (Bool-cases (ltb_ℤ (get s (s.length - 1)) v)) [
      | inl high ↦ rw high (
        omega arith,
        (λ i lt. below (s.length - 1) i (ground arith) (ground arith) (omega arith)),
        λ i le lt. absurd (omega arith),
      )
      | inr not_high ↦ rw not_high (elim (Bool-cases (ltb_ℤ v (get s 0))) [
        | inl low ↦ rw low (
          omega arith,
          (λ i lt. elim lt [ ]),
          λ i le lt. above 0 i (ground arith) (omega arith) lt,
        )
        | inr not_low ↦ rw not_low (
            loop-Located (s.length + 1) 0 s.length (2 ^ 32 - 1) (negsuc 0) (omega arith)
              (omega arith) (omega arith) (λ i lt. elim lt [ ]) (λ i le lt. absurd (omega arith))
              (inl (ground arith)))
      ])
    ])
  ]
