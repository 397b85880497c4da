-- ===== src/Dict/Rehash.antt =====
-- Incremental rehashing: moving a bucket keeps every entry, and the whole table is moved in the end.
use mmog.Common.{
  ℕ, zero, suc, ◌+◌, ◌≤◌, ◌<◌, ◌^◌, ◌≡◌, ◌≢◌, refl, sym, ap, ◌∙◌, ◌⊎◌, inl, inr, arith, true, false,
  Option, none, some, List, [], ◌∷◌, length, get_or, get_or_outside, if◌then◌else◌, Bool-cases,
  dec_lt,
}
use mmog.Dict.Types.{DictType, Chain, Table, Dict, bucket, find}
use mmog.Dict.Ops.{skip_empty, push, move_chain}
use mmog.Dict.Chains.{or_else, count, find-none}
use mmog.Dict.Tables.{total, here, seen, Placed}
use mmog.Dict.Writes.{push-Wrote}

-- With only empty buckets there is no entry.
total-zero {ℓ} : {A : Type ℓ} (bs : List (List A)) → ((i : ℕ) → get_or bs i [] ≡ []) → total bs ≡ 0
unfolding total
total-zero [] h = refl
total-zero (b ∷ bs) h = omega (arith, ap length (h 0), total-zero bs (λ i. h (suc i)))

-- The search for a bucket to move stops at the first that is not empty.
pub record Skipped {ℓ} {A : Type ℓ} (bs : List (List A)) (r : ℕ) : Type ℓ where
  pub inside : r < length bs
  pub empty_below : (i : ℕ) → i < r → get_or bs i [] ≡ []
  pub filled : get_or bs r [] ≢ []

-- One round, on the bucket `c` that it looks at.
skip_round {ℓ} :
    {A : Type ℓ} (bs : List (List A)) (c : List A) (next r : ℕ)
    → get_or bs r [] ≡ c
    → ((i : ℕ) → i < r → get_or bs i [] ≡ [])
    → (c ≡ [] → Skipped bs next)
    → Skipped bs (elim c [ [] ↦ next | _ ∷ _ ↦ r ])
skip_round bs [] next r e below rest = rest refl
skip_round bs (x ∷ c) next r e below rest = record {
  inside = elim (dec_lt r (length bs)) [
    | yes lt ↦ lt
    | no ge ↦ absurd (filled (sym (get_or_outside bs r [] (omega arith)) ∙ e))
  ];
  empty_below = below;
  filled = λ q. filled (sym q ∙ e);
}
  where
    filled : [] ≡ x ∷ c → ⊥
    filled q = cc

-- The buckets below `r + 1` are empty.
pub empty_next {ℓ} :
    {A : Type ℓ} (bs : List (List A)) (r : ℕ)
    → ((i : ℕ) → i < r → get_or bs i [] ≡ [])
    → get_or bs r [] ≡ []
    → (i : ℕ) → i < r + 1
    → get_or bs i [] ≡ []
empty_next bs r below e i lt = elim (dec_lt i r) [
  | yes l ↦ below i l
  | no ge ↦ ap (λ (x : ℕ). get_or bs x []) (omega arith) ∙ e
]

pub skip_empty-Skipped {ℓ} :
    {K V : Type ℓ} (fuel : ℕ) (bs : List (Chain K V)) (r : ℕ)
    → length bs ≤ r + fuel
    → total bs ≢ 0
    → ((i : ℕ) → i < r → get_or bs i [] ≡ [])
    → Skipped bs (skip_empty fuel bs r)
unfolding skip_empty
skip_empty-Skipped zero bs r short some_entry below = absurd (some_entry (total-zero bs all_empty))
  where
    all_empty : (i : ℕ) → get_or bs i [] ≡ []
    all_empty i = elim (dec_lt i r) [
      | yes l ↦ below i l
      | no ge ↦ get_or_outside bs i [] (omega arith)
    ]
skip_empty-Skipped (suc fuel) bs r short some_entry below =
    skip_round bs (get_or bs r []) (skip_empty fuel bs (r + 1)) r refl below
      λ e. skip_empty-Skipped fuel bs (r + 1) (omega arith) some_entry (empty_next bs r below e)

module _ {ℓ} {K V : Type ℓ} (type : DictType K) where
  -- The state of a dictionary between two calls.
  pub record IsValid (d : Dict K V) : Type ℓ where
    pub t0 : Placed type d.ht0
    pub t1 : Placed type d.ht1
    pub once : (q : K) → here type d.ht0 q + here type d.ht1 q ≤ 1
    pub idle : d.rehashidx ≡ none → d.ht1.size ≡ 0
    pub moving :
        (r : ℕ)
        → d.rehashidx ≡ some r
        → (0 < d.ht0.size) × (0 < d.ht1.size) × ((i : ℕ) → i < r → bucket d.ht0 i ≡ [])

  -- The indexes of both tables are an `int`.
  abbrev pub IsBounded : Dict K V → Type 0
  IsBounded d = (d.ht0.size < 2 ^ 31) × (d.ht1.size < 2 ^ 31)

  -- The map that a dictionary stands for.
  abbrev pub view : Dict K V → K → Option V
  view d q = or_else (seen type d.ht0 q) (seen type d.ht1 q)

  pub record Moved (c : Chain K V) (t t' : Table K V) : Type ℓ where
    pub placed : Placed type t'
    pub size : t'.size ≡ t.size
    pub used : t'.used ≡ t.used + length c
    pub sight : (q : K) → seen type t' q ≡ or_else (find type q c) (seen type t q)
    pub share : (q : K) → here type t' q ≤ count type q c + here type t q

  used-push : (t : Table K V) (k : K) (v : V) → (push type t k v).used ≡ t.used + 1
  unfolding push
  used-push t k v = refl

  pub move_chain-Moved :
      (c : Chain K V) (t : Table K V)
      → Placed type t
      → 0 < t.size
      → ((q : K) → count type q c + here type t q ≤ 1)
      → Moved c t (move_chain type c t)
  unfolding move_chain find count
  move_chain-Moved [] t p h once = record {
    placed = p;
    size = refl;
    used = omega arith;
    sight = λ q. refl;
    share = λ q. omega arith;
  }
  move_chain-Moved ((k, v) ∷ c) t p h once =
      let w = push-Wrote type t k p h v in
      let m =
        move_chain-Moved c (push type t k v) w.placed (omega (arith, w.size))
          (λ q. ground (arith, w.share q, once q)) in
      record {
        placed = m.placed;
        size = m.size ∙ w.size;
        used = omega (arith, m.used, used-push t k v);
        sight = λ q.
            m.sight q
            ∙ ap (or_else (find type q c)) (w.sight q)
            ∙ first_wins q (Bool-cases (type.same q k));
        share = λ q. ground (arith, m.share q, w.share q);
      }
    where
      first_wins :
          (q : K)
          → (type.same q k ≡ true) ⊎ (type.same q k ≡ false)
          → or_else (find type q c) (if type.same q k then some v else seen type t q)
            ≡ or_else (if type.same q k then some v else find type q c) (seen type t q)
      first_wins q (inl e) = rw (e, find-none type q c (ground (arith, once q)))
      first_wins q (inr e) = rw e
