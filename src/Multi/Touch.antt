-- ===== src/Multi/Touch.antt =====
-- `touchWatchedKey`: exactly the clients that watch the key are marked.
use mmog.Common.{
  ℕ, ◌+◌, ◌≡◌, refl, sym, ap, ◌∙◌, ◌⊎◌, inl, inr, arith, leb, Bool, true, false, List, [], ◌∷◌,
  ◌==◌, if◌then◌else◌, Bool-cases, Option-cases,
}
use mmog.Multi.{Key, WatchedKey, Client, Server, set_client, mark_dirty, touch_watched_key}
use mmog.Multi.Tally.{tally}
use mmog.Multi.Watch.{watching, Consistent}

-- The client with REDIS_DIRTY_CAS set.
abbrev pub dirty : Client → Client
dirty x = record x { dirty_cas = true }

abbrev pub dirty_if : Bool → Client → Client
dirty_if b x = if b then dirty x else x

dirty_twice : (b : Bool) (x : Client) → dirty_if b (dirty x) ≡ dirty x
dirty_twice true x = refl
dirty_twice false x = refl

mark_dirty-client :
    (s : Server) (cs : List ℕ) (q : ℕ)
    → (mark_dirty s cs).client q ≡ dirty_if (leb 1 (tally (λ x. x == q) cs)) (s.client q)
unfolding mark_dirty tally set_client
mark_dirty-client s [] q = refl
mark_dirty-client s (c ∷ cs) q =
    mark_dirty-client (set_client s c (dirty (s.client c))) cs q ∙ by_client (Bool-cases (q == c))
  where
    by_client :
        ((q == c) ≡ true) ⊎ ((q == c) ≡ false)
        → dirty_if
            (leb 1 (tally (λ x. x == q) cs))
            (if q == c then dirty (s.client c) else s.client q)
          ≡ dirty_if (leb 1 ((if c == q then 1 else 0) + tally (λ x. x == q) cs)) (s.client q)
    by_client (inl e) =
        let here : q ≡ c = ground arith in
        let back : (c == q) ≡ true = ground arith in
        let one : leb 1 (1 + tally (λ x. x == q) cs) ≡ true = ground arith in
        rw (e, back, one)
          (dirty_twice (leb 1 (tally (λ x. x == q) cs)) (s.client c)
            ∙ ap (λ x. dirty (s.client x)) (sym here))
    by_client (inr e) =
        let back : (c == q) ≡ false = ground arith in
        let same : leb 1 (0 + tally (λ x. x == q) cs) ≡ leb 1 (tally (λ x. x == q) cs) =
          ground arith in
        rw (e, back, same) refl

mark_dirty-keys : (s : Server) (cs : List ℕ) → (mark_dirty s cs).watched_keys ≡ s.watched_keys
unfolding mark_dirty set_client
mark_dirty-keys s [] = refl
mark_dirty-keys s (c ∷ cs) = mark_dirty-keys (set_client s c (dirty (s.client c))) cs

watched_keys-dirty_if : (b : Bool) (x : Client) → (dirty_if b x).watched_keys ≡ x.watched_keys
watched_keys-dirty_if true x = refl
watched_keys-dirty_if false x = refl

-- What `touchWatchedKey` leaves behind.
pub record Touches (s : Server) (wk : WatchedKey) (t : Server) : Type 0 where
  pub valid : Consistent t
  pub clients : (q : ℕ) → t.client q ≡ dirty_if (leb 1 (watching s q wk)) (s.client q)

mark_dirty-Consistent : (s : Server) (cs : List ℕ) → Consistent s → Consistent (mark_dirty s cs)
mark_dirty-Consistent s cs v =
    let keys : (c : ℕ) → ((mark_dirty s cs).client c).watched_keys ≡ (s.client c).watched_keys =
      λ c.
        ap (λ x. x.watched_keys) (mark_dirty-client s cs c)
        ∙ watched_keys-dirty_if _ (s.client c) in
    record {
      pairs = λ c k. rw (keys c, mark_dirty-keys s cs) (v.pairs c k);
      once = λ c k. rw (keys c) (v.once c k);
      filled = λ k. rw (mark_dirty-keys s cs) (v.filled k);
    }

-- `touchWatchedKey` sets REDIS_DIRTY_CAS in exactly the clients that watch the key, and changes
-- nothing else in any client; the server stays consistent.
pub touch_watched_key-Touches :
    (s : Server) (db : ℕ) (key : Key)
    → Consistent s
    → Touches s (key, db) (touch_watched_key s db key)
unfolding touch_watched_key
touch_watched_key-Touches s db key v = elim (Option-cases (s.watched_keys (key, db))) [
  | inl e ↦
      rw (e, touch_watched_key)
        (record {
          valid = v;
          clients = λ q.
              let unwatched : watching s q (key, db) ≡ 0 =
                sym (v.pairs q (key, db)) ∙ (rw e (unfold tally in refl)) in
              rw unwatched refl;
        })
  | inr (cs, e) ↦
      rw (e, touch_watched_key)
        (record {
          valid = mark_dirty-Consistent s cs v;
          clients = λ q.
              let listing : tally (λ x. x == q) cs ≡ watching s q (key, db) =
                rw e at (v.pairs q (key, db)) in
              mark_dirty-client s cs q ∙ ap (λ (n : ℕ). dirty_if (leb 1 n) (s.client q)) listing;
        })
]
