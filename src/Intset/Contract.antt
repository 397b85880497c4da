-- ===== src/Intset/Contract.antt =====
-- The contract of `intsetNew`, `intsetFind`, `intsetAdd` and `intsetRemove` as operations on a set.
use mmog.Common.{
  ℕ, ◌+◌, ◌^◌, ◌≤◌, ◌<◌, ◌≡◌, ◌≢◌, ◌↔◌, refl, sym, ap, ◌∙◌, ◌⊎◌, inl, inr, arith, Bool, true, false,
  ltb, leb, if◌then◌else◌, ℤ, pos, ltb_ℤ, Bool-cases, and_false,
}
use mmog.Memory.Signed.{Fits}
use mmog.Intset.{Intset, value_encoding, get, search, find, new, insert_at, add, remove}
use mmog.Intset.Slots.{IsValid, slot-Fits}
use mmog.Intset.Search.{Located, search-Located}
use mmog.Intset.Insert.{Inserted, insert_at-Inserted, get_lem}
use mmog.Intset.Upgrade.{
  end_of, value_encoding-Fits, Fits-value_encoding, upgrade_and_add-Inserted, extreme,
}
use mmog.Intset.Delete.{delete_at-Deleted}
use mmog.Intset.Members.{
  Holds, Separates, Separates-not-Holds, Inserted-IsValid, Inserted-Holds, Deleted-IsValid,
  Deleted-Holds,
}

-- A new set is valid and empty, whatever the allocator put into its block.
pub new-IsValid : (fresh : ℕ → ℕ) → IsValid (new fresh) × ((x : ℤ) → ¬ (Holds (new fresh) x))
unfolding new
new-IsValid fresh = (
  record {
    encoding = inl refl;
    size = refl;
    short = omega arith;
    sorted = λ i j lt bound. elim bound [ ];
  },
  λ x h. elim h.1 [ ],
)

module _ (s : Intset) (valid : IsValid s) (v : ℤ) where
  -- What the search found.
  data Searched : Type 0 where
    present : (p : ℕ) → search s v ≡ (true, p) → p < s.length → get s p ≡ v → Searched
    missing : (p : ℕ) → search s v ≡ (false, p) → Separates s v p → Searched

  searched : Searched
  searched = go (search s v).0 (search s v).1 refl (search-Located s valid v)
    where
      go :
          (b : Bool) (p : ℕ)
          → search s v ≡ (b, p)
          → Located s v (search s v).0 (search s v).1
          → Searched
      go true p e l = let (lt, same) : Located s v true p = rw e at l in present p e lt same
      go false p e l =
          let (le, less, more) : Located s v false p = rw e at l in
          missing p e (record { bound = le; less = less; more = more })

  Holds-narrow : Holds s v → leb (value_encoding v) s.encoding ≡ true
  Holds-narrow (i, lt, e) =
      let fits : Fits s.encoding v =
        rw (← e, get_lem s i valid.encoding) (slot-Fits s.contents i valid.encoding) in
      ground (arith, Fits-value_encoding v valid.encoding fits)

  -- `intsetFind` answers true exactly for the elements of a valid set.
  pub find_iff : (find s v ≡ true) ↔ Holds s v
  unfolding find
  find_iff = by_search searched
    where
      by_search : Searched → (find s v ≡ true) ↔ Holds s v
      by_search (present p e lt same) =
          let h : Holds s v = (p, lt, same) in (λ _. h, λ _. rw (e, Holds-narrow h))
      by_search (missing p e sep) = (
        λ found. cc (found, and_false (leb (value_encoding v) s.encoding), ap (λ r. r.0) e),
        λ h. absurd (Separates-not-Holds sep h),
      )

-- What `intsetAdd` leaves behind: a valid set with the value added, `*success` set exactly if it
-- was new, and the length counting it.
pub record AddsTo (s : Intset) (v : ℤ) (r : Bool × Intset) : Type 0 where
  pub valid : IsValid r.1
  pub success : (r.0 ≡ true) ↔ ¬ (Holds s v)
  pub holds : (x : ℤ) → Holds r.1 x ↔ ((x ≡ v) ⊎ Holds s x)
  pub count : r.1.length ≡ s.length + (if r.0 then 1 else 0)

-- What `intsetRemove` leaves behind: a valid set without the value, `*success` set exactly if it
-- was there, and the length counting it.
pub record RemovesFrom (s : Intset) (v : ℤ) (r : Bool × Intset) : Type 0 where
  pub valid : IsValid r.1
  pub success : (r.0 ≡ true) ↔ Holds s v
  pub holds : (x : ℤ) → Holds r.1 x ↔ ((x ≢ v) × Holds s x)
  pub count : r.1.length + (if r.0 then 1 else 0) ≡ s.length

module _ (fresh : ℕ → ℕ) (s : Intset) (valid : IsValid s) (v : ℤ) where
  Inserted-AddsTo :
      {t : Intset} {p : ℕ}
      → s.length + 1 < 2 ^ 28
      → Inserted s v p t
      → Separates s v p
      → AddsTo s v (true, t)
  Inserted-AddsTo room ins sep = record {
    valid = Inserted-IsValid ins sep valid room;
    success = (λ _. Separates-not-Holds sep, λ _. refl);
    holds = Inserted-Holds ins sep;
    count = ins.count;
  }

  Separates-end :
      s.length + 1 < 2 ^ 28 → s.encoding < value_encoding v → Fits 8 v → Separates s v (end_of s v)
  Separates-end room wider fits = elim (Bool-cases (ltb_ℤ v (pos 0))) [
    | inl e ↦ rw e (record {
      bound = omega arith;
      less = λ i lt. elim lt [ ];
      more = λ i lo hi. (extreme fresh s valid v room wider fits i hi).0 e;
    })
    | inr e ↦ rw e (record {
      bound = omega arith;
      less = λ i lt. (extreme fresh s valid v room wider fits i lt).1 e;
      more = λ i lo hi. absurd (omega arith);
    })
  ]

  -- `intsetAdd` of a 64-bit value to a valid set with room for one more element, for any bytes that
  -- the allocator adds: the value is added, on every path through an upgrade or a move.
  pub add-AddsTo : Fits 8 v → s.length + 1 < 2 ^ 28 → AddsTo s v (add fresh s v)
  unfolding add
  add-AddsTo fits room = elim (Bool-cases (ltb s.encoding (value_encoding v))) [
    | inl wide ↦
        let wider : s.encoding < value_encoding v = ground arith in
        rw wide (
          Inserted-AddsTo room (upgrade_and_add-Inserted fresh s valid v room wider fits)
            (Separates-end room wider fits))
    | inr narrow ↦ rw narrow (by_search (ground arith) (searched s valid v))
  ]
    where
      old : (p : ℕ) → p < s.length → get s p ≡ v → (x : ℤ) → (x ≡ v) ⊎ Holds s x → Holds s x
      old p lt same x (inl q) = (p, lt, same ∙ sym q)
      old p lt same x (inr h) = h

      by_search :
          value_encoding v ≤ s.encoding
          → Searched s valid v
          → AddsTo s v (
              let (found, i) = search s v in
              if found then (false, s) else (true, insert_at fresh s v i))
      by_search le (present p e lt same) = rw e (record {
        valid = valid;
        success = (λ q. cc, λ h. absurd (h (p, lt, same)));
        holds = λ x. (inr, old p lt same x);
        count = omega arith;
      })
      by_search le (missing p e sep) = rw e (
          Inserted-AddsTo room
            (insert_at-Inserted fresh s valid v p sep.bound room
              (value_encoding-Fits v valid.encoding fits le))
            sep)

  -- `intsetRemove` on a valid set.
  pub remove-RemovesFrom : RemovesFrom s v (remove fresh s v)
  unfolding remove
  remove-RemovesFrom = by_search (searched s valid v)
    where
      by_search : Searched s valid v → RemovesFrom s v (remove fresh s v)
      by_search (present p e lt same) =
          let del = delete_at-Deleted fresh s valid p lt in
          rw (e, Holds-narrow s valid v (p, lt, same))
            (record {
              valid = Deleted-IsValid del lt valid;
              success = (λ _. (p, lt, same), λ _. refl);
              holds = λ x. rw same at (Deleted-Holds del lt valid x);
              count = omega (arith, del.count);
            })
      by_search (missing p e sep) =
          rw (e, and_false)
            (record {
              valid = valid;
              success = (λ q. cc, λ h. absurd (Separates-not-Holds sep h));
              holds = λ x. (λ h. (λ q. Separates-not-Holds sep (h.0, h.1, h.2 ∙ q), h), λ h. h.1);
              count = omega arith;
            })
