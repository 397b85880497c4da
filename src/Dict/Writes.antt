-- ===== src/Dict/Writes.antt =====
-- An entry pushed, replaced or unlinked: each changes what one key finds, and nothing else.
use mmog.Common.{
  ℕ, ◌+◌, ◌-◌, ◌≤◌, ◌<◌, ◌≡◌, refl, sym, ap, ◌∙◌, arith, Option, none, some, [], ◌∷◌, length,
  if◌then◌else◌, ℕ_discrete,
}
use mmog.Dict.Types.{DictType, Chain, Table, bucket, index, find, assign, unlink}
use mmog.Dict.Ops.{push, delete_from}
use mmog.Dict.Chains.{
  count, find-assign, count-assign, length-assign, find-unlink, count-unlink-le, length-unlink,
}
use mmog.Dict.Tables.{
  here, seen, Placed, index-lt, bucket_once, length-le-total, written, written-Placed,
  bucket-written_self, bucket-written_ne, seen-written, here-written, stray,
}

module _ {ℓ} {K V : Type ℓ} (type : DictType K) where
  -- `t'` is `t` with `r` found under `k`, by at most `n` entries more.
  pub record Wrote (t : Table K V) (k : K) (r : Option V) (n : ℕ) (t' : Table K V) : Type ℓ where
    pub placed : Placed type t'
    pub size : t'.size ≡ t.size
    pub sight : (q : K) → seen type t' q ≡ (if type.same q k then r else seen type t q)
    pub share : (q : K) → here type t' q ≤ (if type.same q k then n else 0) + here type t q

  pub unlink_nil : (k : K) (c : Chain K V) → c ≡ [] → unlink type k c ≡ []
  unlink_nil k [] e = unfold unlink in refl
  unlink_nil k (x ∷ c) e = cc

  pub assign_nil : (k : K) (v : V) (c : Chain K V) → c ≡ [] → assign type k v c ≡ []
  assign_nil k v [] e = unfold assign in refl
  assign_nil k v (x ∷ c) e = cc

  module _ (t : Table K V) (k : K) (p : Placed type t) (h : 0 < t.size) where
    i : ℕ
    i = index type t k

    pub push-Wrote : (v : V) → Wrote t k (some v) 1 (push type t k v)
    unfolding push find count
    push-Wrote v = record {
      placed =
          written-Placed type t p (index type t k) c (t.used + 1) (index-lt type t k p h)
            (omega arith) (stray type t k c (t.used + 1) p h (λ q e. rw e (omega arith)));
      size = refl;
      sight = λ q. seen-written type t k c (t.used + 1) p h (some v) q refl;
      share = λ q. here-written type t k c (t.used + 1) p h 1 q (omega arith);
    }
      where
        c : Chain K V
        c = (k, v) ∷ bucket t (index type t k)

    -- The entry that `find` saw, with a new value.
    unfoldable pub assigned : V → Table K V
    assigned v =
        written type t (index type t k) (assign type k v (bucket t (index type t k))) t.used

    pub assign-Wrote : (v old : V) → seen type t k ≡ some old → Wrote t k (some v) 0 (assigned v)
    unfolding assigned
    assign-Wrote v old e = record {
      placed =
          written-Placed type t p (index type t k) c t.used (index-lt type t k p h)
            (omega (arith, length-assign type k v (bucket t (index type t k))))
            (stray type t k c t.used p h (λ q ne. omega (arith, counts q)));
      size = refl;
      sight = λ q.
          seen-written type t k c t.used p h (some v) q
            (find-assign type k q v old (bucket t (index type t k)) e);
      share = λ q. here-written type t k c t.used p h 0 q (ground (arith, counts q));
    }
      where
        c : Chain K V
        c = assign type k v (bucket t (index type t k))

        counts : (q : K) → count type q c ≡ count type q (bucket t (index type t k))
        counts q = count-assign type k q v (bucket t (index type t k))

    pub delete_from-Wrote :
        (old : V)
        → seen type t k ≡ some old
        → ((q : K) → here type t q ≤ 1)
        → Wrote t k none 0 (delete_from type t k)
    unfolding delete_from
    delete_from-Wrote old e once = record {
      placed =
          written-Placed type t p (index type t k) c (t.used - 1) (index-lt type t k p h)
            (omega (arith, shorter, filled))
            (stray type t k c (t.used - 1) p h (λ q ne. count-unlink-le type k q b));
      size = refl;
      sight = λ q.
          seen-written type t k c (t.used - 1) p h none q
            (find-unlink type k q b (bucket_once type t p q (index type t k) (once q)));
      share = λ q.
          here-written type t k c (t.used - 1) p h 0 q (ground (arith, count-unlink-le type k q b));
    }
      where
        b : Chain K V
        b = bucket t (index type t k)

        c : Chain K V
        c = unlink type k b

        shorter : length c + 1 ≡ length b
        shorter = length-unlink type k old b e

        filled : length b ≤ t.used
        filled = omega (arith, p.used, length-le-total t.buckets (index type t k))

  -- A rewrite of an empty bucket to an empty bucket.
  still_empty :
      (t : Table K V) (k : K) (c : Chain K V) (u : ℕ)
      → Placed type t
      → 0 < t.size
      → (bucket t (index type t k) ≡ [] → c ≡ [])
      → (i : ℕ) → bucket t i ≡ []
      → bucket (written type t (index type t k) c u) i ≡ []
  still_empty t k c u p h keeps i e = elim (ℕ_discrete (index type t k) i) [
    | yes same ↦
        ap (bucket (written type t (index type t k) c u)) (sym same)
        ∙ bucket-written_self type t p (index type t k) c u (index-lt type t k p h)
        ∙ keeps (ap (bucket t) same ∙ e)
    | no ne ↦ bucket-written_ne type t p (index type t k) c u i ne ∙ e
  ]

  pub delete_from_empty :
      (t : Table K V) (k : K)
      → Placed type t
      → 0 < t.size
      → (i : ℕ) → bucket t i ≡ []
      → bucket (delete_from type t k) i ≡ []
  unfolding delete_from
  delete_from_empty t k p h =
      still_empty t k _ (t.used - 1) p h (unlink_nil k (bucket t (index type t k)))

  pub assigned_empty :
      (t : Table K V) (k : K) (v : V) (p : Placed type t) (h : 0 < t.size)
      → (i : ℕ) → bucket t i ≡ []
      → bucket (assigned t k p h v) i ≡ []
  unfolding assigned
  assigned_empty t k v p h =
      still_empty t k _ t.used p h (assign_nil k v (bucket t (index type t k)))
