-- ===== src/Dict/Delete.antt =====
-- `dictGenericDelete`: what a deletion does to the map that a dictionary stands for.
use mmog.Common.{
  ℕ, ◌+◌, ◌≤◌, ◌<◌, ◌≡◌, refl, sym, ap, ◌∙◌, ◌⊎◌, inl, inr, arith, Bool, true, false, Option, none,
  some, [], ◌∷◌, length, ◌==◌, if◌then◌else◌, Bool-cases, Option-cases, none≢some, false≢true,
}
use mmog.Dict.Types.{DictType, Chain, Table, Dict, is_rehashing, dict_size, bucket, index, find}
use mmog.Dict.Ops.{delete_from, unlink_entry, dict_delete}
use mmog.Dict.Chains.{find-none}
use mmog.Dict.Tables.{seen, length-le-total, Placed, seen_null}
use mmog.Dict.Writes.{delete_from-Wrote, delete_from_empty}
use mmog.Dict.Rehash.{IsValid, IsBounded, view}
use mmog.Dict.Migrate.{Same, Same-refl, Same-trans, rehash_step-Same}
use mmog.Dict.Expand.{not_rehashing}
use mmog.Dict.Update.{write_old, write_new}
use mmog.Dict.Contract.{none_both, present, view_null}

module _ {ℓ} {K V : Type ℓ} (type : DictType K) where
  -- What a deletion returns and leaves behind.
  pub record Deletes (d : Dict K V) (k : K) (r : Bool × Dict K V) : Type ℓ where
    pub valid : IsValid type r.1
    pub found :
        (old : V)
        → view type d k ≡ some old
        → (r.0 ≡ true)
          × ((q : K) → view type r.1 q ≡ (if type.same q k then none else view type d q))
          × (dict_size r.1 + 1 ≡ dict_size d)
    pub absent : view type d k ≡ none → (r.0 ≡ false) × Same type d r.1

  Deletes-Same :
      {a b : Dict K V} (k : K) (r : Bool × Dict K V) → Same type a b → Deletes b k r → Deletes a k r
  Deletes-Same k r s h = record {
    valid = h.valid;
    found = λ old e.
        let (done, sight, size) = h.found old (s.sight k ∙ e) in
        (
          done,
          λ q. sight q ∙ ap (λ o. if type.same q k then none else o) (s.sight q),
          size ∙ s.size,
        );
    absent = λ e. let (none_done, t) = h.absent (s.sight k ∙ e) in (none_done, Same-trans type s t);
  }

  -- An entry that is there is counted.
  used_pos : (t : Table K V) (k : K) (x : V) → Placed type t → seen type t k ≡ some x → 1 ≤ t.used
  used_pos t k x p e = omega (
    arith,
    p.used,
    length-le-total t.buckets (index type t k),
    some_entry (bucket t (index type t k)) e,
  )
    where
      some_entry : (c : Chain K V) → find type k c ≡ some x → 1 ≤ length c
      some_entry [] q = absurd (none≢some x (unfold find in q))
      some_entry (y ∷ c) q = omega arith

  unlink-Deletes :
      (d : Dict K V) (k : K)
      → IsValid type d
      → 0 < d.ht0.size
      → Deletes d k (elim (seen type d.ht0 k) [
        | some _ ↦ (true, record d { ht0 = delete_from type d.ht0 k })
        | none ↦
            if is_rehashing d
            then elim (seen type d.ht1 k) [
              | some _ ↦ (true, record d { ht1 = delete_from type d.ht1 k })
              | none ↦ (false, d)
            ]
            else (false, d)
      ])
  unlink-Deletes d k v filled = elim (Option-cases (seen type d.ht0 k)) [
    | inr (x, e) ↦
        let gone : seen type d.ht1 k ≡ none =
          find-none type k _ (omega (arith, v.once k, present type d.ht0 k x e)) in
        let u =
          write_old type d v k none 0 (delete_from type d.ht0 k)
            (delete_from-Wrote type d.ht0 k v.t0 filled x e (λ q. omega (arith, v.once q))) gone
            (omega (arith, v.once k)) (λ r q. delete_from_empty type d.ht0 k v.t0 filled) in
        rw e (record {
          valid = u.valid;
          found = λ old q.
              (refl, u.sight, unfold delete_from in omega (arith, used_pos d.ht0 k x v.t0 e));
          absent = λ q. absurd (none≢some x (sym (none_both _ _ q).0 ∙ e));
        })
    | inl e ↦ rw e (elim (Bool-cases (is_rehashing d)) [
      | inl busy ↦ rw busy (second busy e (Option-cases (seen type d.ht1 k)))
      | inr still ↦
          let null = seen_null type d.ht1 k v.t1 (v.idle (not_rehashing type d still)) in
          rw still (nothing e null.0)
    ])
  ]
    where
      nothing : seen type d.ht0 k ≡ none → seen type d.ht1 k ≡ none → Deletes d k (false, d)
      nothing e f = record {
        valid = v;
        found = λ old q. absurd (none≢some old (sym (rw (e, f)) ∙ q));
        absent = λ q. (refl, Same-refl type v);
      }

      new_room : is_rehashing d ≡ true → (o : Option ℕ) → d.rehashidx ≡ o → 0 < d.ht1.size
      new_room busy (some r) q = (v.moving r q).1
      new_room busy none q = absurd (false≢true (rw q at busy))

      second :
          is_rehashing d ≡ true
          → seen type d.ht0 k ≡ none
          → (seen type d.ht1 k ≡ none) ⊎ ((x : V) × (seen type d.ht1 k ≡ some x))
          → Deletes d k (elim (seen type d.ht1 k) [
            | some _ ↦ (true, record d { ht1 = delete_from type d.ht1 k })
            | none ↦ (false, d)
          ])
      second busy e (inl f) = rw f (nothing e f)
      second busy e (inr (x, f)) =
          let u =
            write_new type d v k none 0 (delete_from type d.ht1 k)
              (delete_from-Wrote type d.ht1 k v.t1 (new_room busy d.rehashidx refl) x f
                (λ q. omega (arith, v.once q)))
              e (omega (arith, v.once k)) in
          rw f (record {
            valid = u.valid;
            found = λ old q.
                (refl, u.sight, unfold delete_from in omega (arith, used_pos d.ht1 k x v.t1 f));
            absent = λ q. absurd (none≢some x (sym (none_both _ _ q).1 ∙ f));
          })

  abbrev IsBoundedResult : Bool × Dict K V → Type 0
  IsBoundedResult r = IsBounded type r.1

  unlink_entry-IsBounded :
      (d : Dict K V) (k : K) → IsBounded type d → IsBoundedResult (unlink_entry type d k)
  unfolding unlink_entry delete_from
  unlink_entry-IsBounded d k h = by_old (find type k (bucket d.ht0 (index type d.ht0 k)))
    where
      by_new :
          (o : Option V)
          → IsBoundedResult (elim o [
            | some _ ↦ (true, record d { ht1 = delete_from type d.ht1 k })
            | none ↦ (false, d)
          ])
      by_new none = h
      by_new (some x) = h

      by_flag :
          (b : Bool)
          → IsBoundedResult (
              if b
              then elim (find type k (bucket d.ht1 (index type d.ht1 k))) [
                | some _ ↦ (true, record d { ht1 = delete_from type d.ht1 k })
                | none ↦ (false, d)
              ]
              else (false, d))
      by_flag true = by_new (find type k (bucket d.ht1 (index type d.ht1 k)))
      by_flag false = h

      by_old :
          (o : Option V)
          → IsBoundedResult (elim o [
            | some _ ↦ (true, record d { ht0 = delete_from type d.ht0 k })
            | none ↦
                if is_rehashing d
                then elim (find type k (bucket d.ht1 (index type d.ht1 k))) [
                  | some _ ↦ (true, record d { ht1 = delete_from type d.ht1 k })
                  | none ↦ (false, d)
                ]
                else (false, d)
          ])
      by_old none = by_flag (is_rehashing d)
      by_old (some x) = h

  -- `dictDelete` on a valid dictionary whose tables have fewer than 2 ^ 31 buckets: no assertion fails
  -- and no index overflows. The key is gone and nothing else changes in the map; where the key was not
  -- there, nothing changes. The tables stay within the bound.
  pub dict_delete-Deletes :
      (d : Dict K V) (k : K)
      → IsValid type d
      → IsBounded type d
      → (r : Bool × Dict K V) × (dict_delete type d k ≡ some r) × Deletes d k r × IsBounded type r.1
  unfolding dict_delete
  dict_delete-Deletes d k v h = elim (Bool-cases (d.ht0.size == 0)) [
    | inl null ↦
        let none_there = view_null type d k v (ground arith) in
        rw null (
          (false, d),
          refl,
          record {
            valid = v;
            found = λ old q. absurd (none≢some old (sym none_there ∙ q));
            absent = λ q. (refl, Same-refl type v);
          },
          h,
        )
    | inr filled ↦
        let (d', ran, s, h') = rehash_step-Same type d v h in
        let unlinked = unlink-Deletes d' k s.valid (s.room (ground arith)) in
        rw (filled, ran, dict_delete)
          (
            unlink_entry type d' k,
            refl,
            Deletes-Same k _ s (unfold unlink_entry in unlinked),
            unlink_entry-IsBounded d' k h',
          )
  ]
