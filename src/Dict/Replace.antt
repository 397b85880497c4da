-- ===== src/Dict/Replace.antt =====
-- `dictReplace`: the value under a key is set, whether or not the key was there.
use mmog.Common.{
  ◌<◌, ◌^◌, ◌≡◌, ◌↔◌, refl, sym, ◌∙◌, inl, inr, arith, Bool, true, false, Option, none, some,
  if◌then◌else◌, Option-cases, ℕ_discrete, none≢some, false≢true,
}
use mmog.Dict.Types.{DictType, Table, Dict, dict_size}
use mmog.Dict.Ops.{set_val, dict_replace}
use mmog.Dict.Tables.{seen, Placed, seen_null}
use mmog.Dict.Writes.{assigned, assign-Wrote, assigned_empty}
use mmog.Dict.Rehash.{IsValid, IsBounded, view}
use mmog.Dict.Migrate.{Same-trans}
use mmog.Dict.Update.{Updated, write_old, write_new}
use mmog.Dict.Contract.{dict_add-Adds, dict_find-view}

module _ {ℓ} {K V : Type ℓ} (type : DictType K) where
  -- A table in which something is found is allocated.
  found_size : (t : Table K V) (k : K) (x : V) → Placed type t → seen type t k ≡ some x → 0 < t.size
  found_size t k x p e = elim (ℕ_discrete t.size 0) [
    | yes z ↦ absurd (none≢some x (sym (seen_null type t k p z).0 ∙ e))
    | no n ↦ omega arith
  ]

  -- `dictSetVal` on the entry of a key that is there.
  set_val-Updated :
      (d : Dict K V) (k : K) (x old : V)
      → IsValid type d
      → view type d k ≡ some old
      → Updated type d k (some x) (set_val type d k x)
  unfolding set_val assigned
  set_val-Updated d k x old v held = elim (Option-cases (seen type d.ht0 k)) [
    | inr (y, e) ↦
        let room = found_size d.ht0 k y v.t0 e in
        rw (e, set_val)
          (write_old type d v k (some x) 0 (assigned type d.ht0 k v.t0 room x)
            (assign-Wrote type d.ht0 k v.t0 room x y e) refl (omega (arith, v.once k))
            (λ r q. assigned_empty type d.ht0 k x v.t0 room))
    | inl e ↦
        let f : seen type d.ht1 k ≡ some old = rw e at held in
        let room = found_size d.ht1 k old v.t1 f in
        rw (e, set_val)
          (write_new type d v k (some x) 0 (assigned type d.ht1 k v.t1 room x)
            (assign-Wrote type d.ht1 k v.t1 room x old f) e (omega (arith, v.once k)))
  ]

  -- What `dictReplace` returns and leaves behind.
  pub record Replaces (d : Dict K V) (k : K) (x : V) (r : Bool × Dict K V) : Type ℓ where
    pub valid : IsValid type r.1
    pub sight : (q : K) → view type r.1 q ≡ (if type.same q k then some x else view type d q)
    pub is_new : (r.0 ≡ true) ↔ (view type d k ≡ none)

  overwrite :
      (b : Bool) (o w : Option V) (x : V)
      → (b ≡ false → o ≡ w)
      → (if b then some x else o) ≡ (if b then some x else w)
  overwrite true o w x h = refl
  overwrite false o w x h = h refl

  -- `dictReplace` on a valid dictionary of fewer than 2 ^ 29 entries, whose tables have fewer than 2 ^ 31
  -- buckets, puts the value under the key and changes no other key. It returns true exactly if the key
  -- is new. No assertion fails and no index overflows.
  pub dict_replace-Replaces :
      (can_resize : Bool) (d : Dict K V) (k : K) (x : V)
      → IsValid type d
      → IsBounded type d
      → dict_size d < 2 ^ 29
      → (r : Bool × Dict K V) × (dict_replace type can_resize d k x ≡ some r) × Replaces d k x r
  unfolding dict_replace
  dict_replace-Replaces can_resize d k x v h few =
      let (r, ran, a) = dict_add-Adds type can_resize d k x v h few in
      elim (Option-cases (view type d k)) [
        | inl e ↦
            let (done, sight, size) = a.added e in
            rw (ran, dict_replace, done)
              (
                (true, r.1),
                refl,
                record { valid = a.valid; sight = sight; is_new = (λ _. e, λ _. refl) },
              )
        | inr (old, e) ↦
            let (not_done, s) = a.kept old e in
            let (d', found, t, h') = dict_find-view type r.1 k a.valid a.bounded in
            let whole = Same-trans type s t in
            let u = set_val-Updated d' k x old t.valid (whole.sight k ∙ e) in
            rw (ran, dict_replace, not_done, found)
              (
                (false, set_val type d' k x),
                refl,
                record {
                  valid = u.valid;
                  sight = λ q. u.sight q ∙ overwrite (type.same q k) _ _ x (λ _. whole.sight q);
                  is_new = (λ q. absurd (false≢true q), λ q. absurd (none≢some old (sym q ∙ e)));
                },
              )
      ]
