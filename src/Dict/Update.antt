-- ===== src/Dict/Update.antt =====
-- A write to one of the two tables is a write to the map.
use mmog.Common.{
  ℕ, ◌+◌, ◌≤◌, ◌≡◌, ap, ◌∙◌, ◌⊎◌, inl, inr, arith, true, false, Option, none, some, [],
  if◌then◌else◌, Bool-cases,
}
use mmog.Dict.Types.{DictType, Table, Dict, bucket}
use mmog.Dict.Chains.{or_else}
use mmog.Dict.Tables.{here, seen}
use mmog.Dict.Writes.{Wrote}
use mmog.Dict.Rehash.{IsValid, view}

module _ {ℓ} {K V : Type ℓ} (type : DictType K) where
  -- `d'` is `d` with `r` under `k`.
  pub record Updated (d : Dict K V) (k : K) (r : Option V) (d' : Dict K V) : Type ℓ where
    pub valid : IsValid type d'
    pub sight : (q : K) → view type d' q ≡ (if type.same q k then r else view type d q)

  -- The buckets that a rehashing has emptied stay empty.
  abbrev pub StaysEmpty : Dict K V → Table K V → Type ℓ
  StaysEmpty d t = (r : ℕ) → d.rehashidx ≡ some r → (i : ℕ) → bucket d.ht0 i ≡ [] → bucket t i ≡ []

  module _ (d : Dict K V) (v : IsValid type d) (k : K) (r : Option V) (n : ℕ) where
    same_key : (q : K) → type.same q k ≡ true → q ≡ k
    same_key q e = (type.same_iff q k).0 e

    pub write_old :
        (t : Table K V)
        → Wrote type d.ht0 k r n t
        → or_else r (seen type d.ht1 k) ≡ r
        → n + here type d.ht0 k + here type d.ht1 k ≤ 1
        → StaysEmpty d t
        → Updated d k r (record d { ht0 = t })
    write_old t w wins once empty = record {
      valid = record {
        t0 = w.placed;
        t1 = v.t1;
        once = λ q. once' q (Bool-cases (type.same q k));
        idle = v.idle;
        moving = λ s e.
            let (old, new, below) = v.moving s e in
            (rw w.size old, new, λ i lt. empty s e i (below i lt));
      };
      sight = λ q.
          ap (λ o. or_else o (seen type d.ht1 q)) (w.sight q)
          ∙ sight' q (Bool-cases (type.same q k));
    }
      where
        once' :
            (q : K)
            → (type.same q k ≡ true) ⊎ (type.same q k ≡ false)
            → here type t q + here type d.ht1 q ≤ 1
        once' q (inl e) =
            let few : here type t q ≤ n + here type d.ht0 q = rw e at (w.share q) in
            omega
              (arith, few, ap (here type d.ht0) (same_key q e), ap (here type d.ht1) (same_key q e))
        once' q (inr e) =
            let few : here type t q ≤ 0 + here type d.ht0 q = rw e at (w.share q) in
            omega (arith, few, v.once q)

        sight' :
            (q : K)
            → (type.same q k ≡ true) ⊎ (type.same q k ≡ false)
            → or_else (if type.same q k then r else seen type d.ht0 q) (seen type d.ht1 q)
              ≡ (if type.same q k then r else view type d q)
        sight' q (inl e) = rw e (ap (λ x. or_else r (seen type d.ht1 x)) (same_key q e) ∙ wins)
        sight' q (inr e) = rw e

    pub write_new :
        (t : Table K V)
        → Wrote type d.ht1 k r n t
        → seen type d.ht0 k ≡ none
        → n + here type d.ht0 k + here type d.ht1 k ≤ 1
        → Updated d k r (record d { ht1 = t })
    write_new t w absent once = record {
      valid = record {
        t0 = v.t0;
        t1 = w.placed;
        once = λ q. once' q (Bool-cases (type.same q k));
        idle = λ e. w.size ∙ v.idle e;
        moving = λ s e. let (old, new, below) = v.moving s e in (old, rw w.size new, below);
      };
      sight =
          λ q. ap (or_else (seen type d.ht0 q)) (w.sight q) ∙ sight' q (Bool-cases (type.same q k));
    }
      where
        once' :
            (q : K)
            → (type.same q k ≡ true) ⊎ (type.same q k ≡ false)
            → here type d.ht0 q + here type t q ≤ 1
        once' q (inl e) =
            let few : here type t q ≤ n + here type d.ht1 q = rw e at (w.share q) in
            omega
              (arith, few, ap (here type d.ht0) (same_key q e), ap (here type d.ht1) (same_key q e))
        once' q (inr e) =
            let few : here type t q ≤ 0 + here type d.ht1 q = rw e at (w.share q) in
            omega (arith, few, v.once q)

        sight' :
            (q : K)
            → (type.same q k ≡ true) ⊎ (type.same q k ≡ false)
            → or_else (seen type d.ht0 q) (if type.same q k then r else seen type d.ht1 q)
              ≡ (if type.same q k then r else view type d q)
        sight' q (inl e) =
            rw e (
              ap (λ x. or_else (seen type d.ht0 x) r) (same_key q e) ∙ ap (λ o. or_else o r) absent)
        sight' q (inr e) = rw e
