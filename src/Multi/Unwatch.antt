-- ===== src/Multi/Unwatch.antt =====
-- `unwatchAllKeys`: its assertion never fails, and it takes the client out of every list.
use mmog.Common.{
  ℕ, ◌+◌, ◌<◌, ◌≡◌, ◌≢◌, refl, sym, ap, ◌∙◌, ◌⊎◌, inl, inr, arith, true, false, Option, none, some,
  List, [], ◌∷◌, ◌==◌, and_false, if◌then◌else◌, Bool-cases, Option-cases,
}
use mmog.Multi.{
  WatchedKey, same_watched, Server, set_client, set_watchers, clients_of, delete_client,
  unwatch_key, unwatch_loop, unwatch_all_keys,
}
use mmog.Multi.Tally.{same_watched_iff, same_watched_sym, tally, tally-delete_client}
use mmog.Multi.Watch.{
  listed, watching, Consistent, at_pair, watching-set_client, listed-set_watchers,
}

-- What removing the client from lists leaves behind: its first keys are gone, `left` are not, and
-- nothing else changes in any client.
pub record Unwatches (s : Server) (c : ℕ) (left : List WatchedKey) (t : Server) : Type 0 where
  pub valid : Consistent t
  pub left_over : (t.client c).watched_keys ≡ left
  pub others : (q : ℕ) → q ≢ c → t.client q ≡ s.client q
  pub flags :
      (record (t.client c) { watched_keys = [] }) ≡ (record (s.client c) { watched_keys = [] })

-- A list that became empty is deleted.
abbrev kept : List ℕ → Option (List ℕ)
kept [] = none
kept (q ∷ qs) = some (q ∷ qs)

clients_of-kept : (l : List ℕ) → clients_of (kept l) ≡ l
clients_of-kept [] = refl
clients_of-kept (q ∷ qs) = refl

kept_filled : (l : List ℕ) → kept l ≢ some []
kept_filled [] e = cc
kept_filled (q ∷ qs) e = cc

abbrev removed : Server → ℕ → WatchedKey → List WatchedKey → List ℕ → Server
removed s c wk wks l =
    set_client (set_watchers s wk (kept (delete_client c l))) c
      (record (s.client c) { watched_keys = wks })

module _ (s : Server) (valid : Consistent s) (c : ℕ) (wk : WatchedKey) (wks : List WatchedKey)
    (first : (s.client c).watched_keys ≡ wk ∷ wks) where
  is_first : 0 < listed s c wk
  unfolding tally
  is_first =
      let here : watching s c wk ≡ 1 + tally (λ j. same_watched j wk) wks =
        rw (first, (same_watched_iff wk wk).1 refl) refl in
      omega (arith, valid.pairs c wk, here)

  module _ (l : List ℕ) (clients : s.watched_keys wk ≡ some l) where
    watching-removed :
        (q : ℕ) (k : WatchedKey)
        → watching (removed s c wk wks l) q k + at_pair c wk q k ≡ watching s q k
    unfolding set_watchers tally
    watching-removed q k =
        ap (λ (n : ℕ). n + at_pair c wk q k)
          (watching-set_client s (set_watchers s wk (kept (delete_client c l))) c q k wks)
        ∙ by_client (Bool-cases (q == c))
      where
        by_client :
            ((q == c) ≡ true) ⊎ ((q == c) ≡ false)
            → (if q == c then tally (λ j. same_watched j k) wks else watching s q k)
                + at_pair c wk q k
              ≡ watching s q k
        by_client (inl e) =
            let here : q ≡ c = ground arith in
            let back : (c == q) ≡ true = ground arith in rw (e, back, here, first) (omega arith)
        by_client (inr e) = let back : (c == q) ≡ false = ground arith in rw (e, back) (omega arith)

    listed-removed :
        (q : ℕ) (k : WatchedKey)
        → listed (removed s c wk wks l) q k + at_pair c wk q k ≡ listed s q k
    listed-removed q k =
        ap (λ (n : ℕ). n + at_pair c wk q k)
          (listed-set_watchers s c q _ wk k (kept (delete_client c l)))
        ∙ by_key (Bool-cases (same_watched k wk))
      where
        by_key :
            (same_watched k wk ≡ true) ⊎ (same_watched k wk ≡ false)
            → (if same_watched k wk
                  then tally (λ x. x == q) (clients_of (kept (delete_client c l)))
                  else listed s q k)
                + at_pair c wk q k
              ≡ listed s q k
        by_key (inl e) =
            let here = (same_watched_iff k wk).0 e in
            let there : 0 < tally (λ x. x == c) l = rw clients at is_first in
            rw
              (
                e,
                sym (same_watched_sym k wk),
                e,
                clients_of-kept (delete_client c l),
                here,
                clients,
              )
              (ap (λ (n : ℕ). tally (λ x. x == q) (delete_client c l) + n) (ground arith)
                ∙ tally-delete_client c q l there)
        by_key (inr e) = rw (e, sym (same_watched_sym k wk), e, and_false (c == q)) (omega arith)

    removed-Unwatches : Unwatches s c wks (removed s c wk wks l)
    unfolding set_client set_watchers
    removed-Unwatches = record {
      valid = record {
        pairs = λ q k. omega (arith, listed-removed q k, watching-removed q k, valid.pairs q k);
        once = λ q k. omega (arith, watching-removed q k, valid.once q k);
        filled = λ k. elim (Bool-cases (same_watched k wk)) [
          | inl e ↦ rw e (kept_filled (delete_client c l))
          | inr e ↦ rw e (valid.filled k)
        ];
      };
      left_over = let e : (c == c) ≡ true = ground arith in rw e refl;
      others = λ q ne. let e : (q == c) ≡ false = ground arith in rw e refl;
      flags = let e : (c == c) ≡ true = ground arith in rw e refl;
    }

  pub unwatch_key_lem : (t : Server) × (unwatch_key s c wk wks ≡ some t) × Unwatches s c wks t
  unfolding unwatch_key tally
  unwatch_key_lem = elim (Option-cases (s.watched_keys wk)) [
    | inl e ↦ absurd (omega (arith, rw e at is_first))
    | inr (l, e) ↦ (removed s c wk wks l, rw (e, unwatch_key) refl, removed-Unwatches l e)
  ]

Unwatches-trans :
    {s t u : Server} {c : ℕ} {ks ls : List WatchedKey}
    → Unwatches s c ks t
    → Unwatches t c ls u
    → Unwatches s c ls u
Unwatches-trans a b = record {
  valid = b.valid;
  left_over = b.left_over;
  others = λ q ne. b.others q ne ∙ a.others q ne;
  flags = b.flags ∙ a.flags;
}

unwatch_loop_lem :
    (s : Server) (c : ℕ) (ks : List WatchedKey)
    → Consistent s
    → (s.client c).watched_keys ≡ ks
    → (t : Server) × (unwatch_loop s c ks ≡ some t) × Unwatches s c [] t
unfolding unwatch_loop
unwatch_loop_lem s c [] v e =
    (s, refl, record { valid = v; left_over = e; others = λ q ne. refl; flags = refl })
unwatch_loop_lem s c (wk ∷ wks) v e =
    let (t, ran, a) = unwatch_key_lem s v c wk wks e in
    let (u, ran', b) = unwatch_loop_lem t c wks a.valid a.left_over in
    (u, rw (ran, unwatch_loop) ran', Unwatches-trans a b)

-- `unwatchAllKeys` on a consistent server never meets its assertion, and leaves a consistent server
-- where the client watches nothing; no other client changes, nor any other field of this one.
pub unwatch_all_keys-Unwatches :
    (s : Server) (c : ℕ)
    → Consistent s
    → (t : Server) × (unwatch_all_keys s c ≡ some t) × Unwatches s c [] t
unfolding unwatch_all_keys
unwatch_all_keys-Unwatches s c v = unwatch_loop_lem s c (s.client c).watched_keys v refl
