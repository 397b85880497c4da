-- ===== src/Dict/Tables.antt =====
-- One hash table: every entry stands in the bucket of its key, and writes to a bucket.
use mmog.Common.{
  ℕ, zero, suc, ◌+◌, ◌-◌, ◌≤◌, ◌<◌, ◌≡◌, ◌≢◌, refl, sym, ap, ◌∙◌, ◌⊎◌, inl, inr, arith, true, false,
  Option, none, List, [], ◌∷◌, length, get_or, set, replicate, length-set, length-replicate,
  get_or-set_self, get_or-set_ne, get_or-replicate, get_or_outside, if◌then◌else◌, Bool-cases,
  ℕ_discrete,
}
use mmog.Common.Bits.{bit_and-le}
use mmog.Dict.Types.{DictType, Chain, Table, bucket, index, find}
use mmog.Dict.Ops.{reset, fresh_table}
use mmog.Dict.Chains.{count}

-- How many entries the buckets hold.
unfoldable pub total {ℓ} : {A : Type ℓ} → List (List A) → ℕ
total [] = 0
total (c ∷ bs) = length c + total bs

pub total-set {ℓ} :
    {A : Type ℓ} (bs : List (List A)) (i : ℕ) (c : List A)
    → i < length bs
    → total (set bs i c) + length (get_or bs i []) ≡ total bs + length c
unfolding total
total-set [] i c h = elim h [ ]
total-set (b ∷ bs) zero c h = omega arith
total-set (b ∷ bs) (suc i) c h = omega (arith, total-set bs i c (omega arith))

pub length-le-total {ℓ} :
    {A : Type ℓ} (bs : List (List A)) (i : ℕ) → length (get_or bs i []) ≤ total bs
unfolding total
length-le-total [] i = omega arith
length-le-total (b ∷ bs) zero = omega arith
length-le-total (b ∷ bs) (suc i) = omega (arith, length-le-total bs i)

total-replicate {ℓ} : (A : Type ℓ) (n : ℕ) → total {A = A} (replicate n []) ≡ 0
unfolding total
total-replicate A zero = refl
total-replicate A (suc n) = omega (arith, total-replicate A n)

module _ {ℓ} {K V : Type ℓ} (type : DictType K) where
  -- The entries with the key in its own bucket, and the value of the first.
  abbrev pub here : Table K V → K → ℕ
  here t q = count type q (bucket t (index type t q))

  abbrev pub seen : Table K V → K → Option V
  seen t q = find type q (bucket t (index type t q))

  pub record Placed (t : Table K V) : Type ℓ where
    pub len : length t.buckets ≡ t.size
    pub mask : t.sizemask ≡ t.size - 1
    pub used : t.used ≡ total t.buckets
    pub home : (q : K) (i : ℕ) → i ≢ index type t q → count type q (bucket t i) ≡ 0

  keys_differ : (t : Table K V) (q k : K) → index type t k ≢ index type t q → type.same q k ≡ false
  keys_differ t q k ne = by_test (Bool-cases (type.same q k))
    where
      by_test : (type.same q k ≡ true) ⊎ (type.same q k ≡ false) → type.same q k ≡ false
      by_test (inl e) = absurd (ne (ap (index type t) (sym ((type.same_iff q k).0 e))))
      by_test (inr e) = e

  pub index-lt : (t : Table K V) (q : K) → Placed t → 0 < t.size → index type t q < t.size
  unfolding index
  index-lt t q p h = omega (arith, p.mask, bit_and-le (type.hash q) t.sizemask)

  -- A null table has nothing to find.
  pub seen_null :
      (t : Table K V) (q : K) → Placed t → t.size ≡ 0 → (seen t q ≡ none) × (here t q ≡ 0)
  seen_null t q p e =
      let null = get_or_outside t.buckets (index type t q) [] (omega (arith, p.len)) in
      (rw null (unfold find in refl), rw null (unfold count in refl))

  pub used_null : (t : Table K V) → Placed t → t.size ≡ 0 → t.used ≡ 0
  used_null t p e = p.used ∙ no_buckets t.buckets (p.len ∙ e)
    where
      no_buckets : (bs : List (Chain K V)) → length bs ≡ 0 → total bs ≡ 0
      no_buckets [] h = unfold total in refl
      no_buckets (b ∷ bs) h = absurd (omega arith)

  pub reset-Placed : Placed (reset {K = K} {V = V})
  unfolding reset total count
  reset-Placed = record { len = refl; mask = omega arith; used = refl; home = λ q i h. refl }

  pub fresh_table-Placed : (n : ℕ) → Placed (fresh_table {K = K} {V = V} n)
  unfolding fresh_table count
  fresh_table-Placed n = record {
    len = length-replicate n [];
    mask = refl;
    used = sym (total-replicate (K × V) n);
    home = λ q i h. rw get_or-replicate;
  }

  pub fresh_table-seen :
      (n : ℕ) (q : K)
      → (seen (fresh_table {K = K} {V = V} n) q ≡ none)
        × (here (fresh_table {K = K} {V = V} n) q ≡ 0)
  unfolding fresh_table count find
  fresh_table-seen n q = (rw get_or-replicate, rw get_or-replicate)

  -- A key that a table holds once stands at most once in any bucket.
  pub bucket_once :
      (t : Table K V) (p : Placed t) (q : K) (i : ℕ) → here t q ≤ 1 → count type q (bucket t i) ≤ 1
  bucket_once t p q i once = elim (ℕ_discrete i (index type t q)) [
    | yes e ↦ rw e once
    | no ne ↦ omega (arith, p.home q i ne)
  ]

  -- A bucket `i` rewritten to `c`, with `used` corrected.
  abbrev pub written : Table K V → ℕ → Chain K V → ℕ → Table K V
  written t i c u = record t { buckets = set t.buckets i c; used = u }

  module _ (t : Table K V) (p : Placed t) (i : ℕ) (c : Chain K V) (u : ℕ) where
    pub bucket-written_self : i < t.size → bucket (written t i c u) i ≡ c
    bucket-written_self lt = get_or-set_self t.buckets i c [] (omega (arith, p.len))

    pub bucket-written_ne : (j : ℕ) → i ≢ j → bucket (written t i c u) j ≡ bucket t j
    bucket-written_ne j ne = get_or-set_ne t.buckets i j c [] ne

    pub written-Placed :
        i < t.size
        → u + length (bucket t i) ≡ t.used + length c
        → ((q : K) → i ≢ index type t q → count type q c ≡ 0)
        → Placed (written t i c u)
    unfolding index
    written-Placed lt size stray = record {
      len = length-set t.buckets i c ∙ p.len;
      mask = p.mask;
      used = omega (arith, total-set t.buckets i c (omega (arith, p.len)), p.used);
      home = λ q j ne. elim (ℕ_discrete i j) [
        | yes e ↦
            ap (λ x. count type q (bucket (written t i c u) x)) (sym e)
            ∙ ap (count type q) (bucket-written_self lt)
            ∙ stray q (λ x. ne (sym e ∙ x))
        | no other ↦ ap (count type q) (bucket-written_ne j other) ∙ p.home q j ne
      ];
    }

  -- The bucket of a key after the bucket of `k` was rewritten: it is that bucket, or another one
  -- that stayed.
  data Split (t : Table K V) (k : K) (c : Chain K V) (u : ℕ) (q : K) : Type ℓ where
    at_home :
        bucket (written t (index type t k) c u) (index type t q) ≡ c
        → bucket t (index type t q) ≡ bucket t (index type t k)
        → Split t k c u q
    away :
        type.same q k ≡ false
        → bucket (written t (index type t k) c u) (index type t q) ≡ bucket t (index type t q)
        → Split t k c u q

  split :
      (t : Table K V) (k : K) (c : Chain K V) (u : ℕ) (q : K)
      → Placed t
      → 0 < t.size
      → Split t k c u q
  split t k c u q p h = elim (ℕ_discrete (index type t k) (index type t q)) [
    | yes e ↦
        at_home
          (ap (bucket (written t (index type t k) c u)) (sym e)
            ∙ bucket-written_self t p (index type t k) c u (index-lt t k p h))
          (ap (bucket t) (sym e))
    | no ne ↦
        away (keys_differ t q k ne) (bucket-written_ne t p (index type t k) c u (index type t q) ne)
  ]

  -- A rewrite that changes what is found under `k` alone.
  module _ (t : Table K V) (k : K) (c : Chain K V) (u : ℕ) (p : Placed t) (h : 0 < t.size) where
    pub seen-written :
        (r : Option V) (q : K)
        → find type q c ≡ (if type.same q k then r else find type q (bucket t (index type t k)))
        → seen (written t (index type t k) c u) q ≡ (if type.same q k then r else seen t q)
    unfolding index
    seen-written r q e = by_split (split t k c u q p h)
      where
        by_split :
            Split t k c u q
            → seen (written t (index type t k) c u) q ≡ (if type.same q k then r else seen t q)
        by_split (at_home new old) = rw (new, old) e
        by_split (away ne same) = rw (same, ne)

    pub here-written :
        (n : ℕ) (q : K)
        → count type q c
          ≤ (if type.same q k then n else 0) + count type q (bucket t (index type t k))
        → here (written t (index type t k) c u) q ≤ (if type.same q k then n else 0) + here t q
    unfolding index
    here-written n q e = by_split (split t k c u q p h)
      where
        by_split :
            Split t k c u q
            → here (written t (index type t k) c u) q ≤ (if type.same q k then n else 0) + here t q
        by_split (at_home new old) = rw (new, old) e
        by_split (away ne same) = rw (same, ne) (omega arith)

    pub stray :
        ((q : K)
          → type.same q k ≡ false
          → count type q c ≤ count type q (bucket t (index type t k)))
        → (q : K) → index type t k ≢ index type t q
        → count type q c ≡ 0
    stray few q ne = omega (arith, few q (keys_differ t q k ne), p.home q (index type t k) ne)
