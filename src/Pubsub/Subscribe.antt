-- ===== src/Pubsub/Subscribe.antt =====
-- `pubsubSubscribeChannel` and `pubsubUnsubscribeChannel`.
use mmog.Common.{
  ℕ, ◌+◌, ◌≤◌, ◌<◌, ◌≡◌, ◌≢◌, ◌↔◌, refl, sym, ap, ◌∙◌, ◌⊎◌, inl, inr, arith, Bool, true, false,
  some, List, [], ◌∷◌, ◌++◌, ◌==◌, and_false, if◌then◌else◌, Bool-cases, Option-cases, false≢true,
  ℕ_discrete,
}
use mmog.Common.Bytes.{equal_strings, equal_strings_iff, equal_strings_sym}
use mmog.Multi.{Key, clients_of, delete_client}
use mmog.Multi.Tally.{tally, tally-append, tally-delete_client}
use mmog.Pubsub.{Server, has_key, delete_key, kept, subscribe_channel, unsubscribe_channel}
use mmog.Pubsub.Channels.{
  has_key-tally, has_key_none, has_client-tally, tally-delete_key, listed, subscribed, Consistent,
  at_pair, replaced, subscribed-replaced, listed-replaced, patterns-replaced, patterns_of-replaced,
  filled-replaced, Subscribes, at_pair_self, at_pair_iff, added_filled,
}

module _ (s : Server) (valid : Consistent s) (c : ℕ) (ch : Key) where
  abbrev added : Server
  added =
      replaced s c ch (some (clients_of (s.channels ch) ++ (c ∷ [])))
        ((s.client c).channels ++ (ch ∷ []))

  subscribed-added : (q : ℕ) (k : Key) → subscribed added q k ≡ subscribed s q k + at_pair c ch q k
  unfolding tally
  subscribed-added q k = subscribed-replaced s c ch _ _ q k ∙ by_client (Bool-cases (q == c))
    where
      by_client :
          ((q == c) ≡ true) ⊎ ((q == c) ≡ false)
          → (if q == c
              then tally (λ j. equal_strings j k) ((s.client c).channels ++ (ch ∷ []))
              else subscribed s q k)
            ≡ subscribed s q k + at_pair c ch q k
      by_client (inl e) =
          let here : q ≡ c = ground arith in
          let back : (c == q) ≡ true = ground arith in
          rw (e, back, here)
            (tally-append (λ j. equal_strings j k) (s.client c).channels (ch ∷ []) ∙ omega arith)
      by_client (inr e) = let back : (c == q) ≡ false = ground arith in rw (e, back) (omega arith)

  listed-added : (q : ℕ) (k : Key) → listed added q k ≡ listed s q k + at_pair c ch q k
  unfolding tally
  listed-added q k = listed-replaced s c ch _ _ q k ∙ by_key (Bool-cases (equal_strings k ch))
    where
      by_key :
          (equal_strings k ch ≡ true) ⊎ (equal_strings k ch ≡ false)
          → (if equal_strings k ch
              then tally (λ x. x == q) (clients_of (s.channels ch) ++ (c ∷ []))
              else listed s q k)
            ≡ listed s q k + at_pair c ch q k
      by_key (inl e) =
          let here = (equal_strings_iff k ch).0 e in
          rw (e, sym (equal_strings_sym k ch), e, here)
            (tally-append (λ x. x == q) (clients_of (s.channels ch)) (c ∷ []) ∙ ground arith)
      by_key (inr e) = rw (e, sym (equal_strings_sym k ch), e, and_false (c == q)) (omega arith)

  added-Subscribes : subscribed s c ch ≡ 0 → Subscribes 1 s c ch added
  added-Subscribes free = record {
    valid = record {
      pairs = λ q k. omega (arith, listed-added q k, valid.pairs q k, subscribed-added q k);
      once = λ q k. elim (ℕ_discrete (at_pair c ch q k) 0) [
        | yes z ↦ omega (arith, subscribed-added q k, valid.once q k)
        | no ne ↦
            let (here, this) = at_pair_iff c ch q k ne in
            let before : subscribed s q k ≡ 0 = rw (sym here, sym this) free in
            let most : at_pair c ch q k ≤ 1 = ground arith in
            omega (arith, subscribed-added q k, most)
      ];
      filled =
          filled-replaced s c ch _ _ (added_filled (clients_of (s.channels ch)) c) valid.filled;
      patterns = λ q. patterns_of-replaced s c ch _ _ q (valid.patterns q);
    };
    own = omega (arith, subscribed-added c ch, at_pair_self c ch);
    others = λ q k z. omega (arith, subscribed-added q k);
    patterns = patterns-replaced s c ch _ _;
  }

  -- `pubsubSubscribeChannel` keeps the two directions consistent: the client is subscribed to the
  -- channel once, no other subscription changes, and 1 is returned exactly if this one is new.
  pub subscribe_channel-Subscribes :
      let r = subscribe_channel s c ch in
      Subscribes 1 s c ch r.2 × ((r.0 ≡ true) ↔ (subscribed s c ch ≡ 0))
  unfolding subscribe_channel
  subscribe_channel-Subscribes = elim (Bool-cases (has_key ch (s.client c).channels)) [
    | inl e ↦
        let there = has_key-tally ch (s.client c).channels e in
        let one : subscribed s c ch ≡ 1 = omega (arith, valid.once c ch, there) in
        rw e (
          record { valid = valid; own = one; others = λ q k z. refl; patterns = λ q. refl },
          (λ f. absurd (false≢true f), λ f. absurd (omega (arith, f, one))),
        )
    | inr e ↦
        let free = has_key_none ch (s.client c).channels e in
        rw e (added-Subscribes free, (λ f. free, λ f. refl))
  ]

  module _ (l : List ℕ) (clients : s.channels ch ≡ some l) (there : 0 < subscribed s c ch) where
    abbrev removed : Server
    removed = replaced s c ch (kept (delete_client c l)) (delete_key ch (s.client c).channels)

    clients_of-kept : (xs : List ℕ) → clients_of (kept xs) ≡ xs
    clients_of-kept [] = refl
    clients_of-kept (q ∷ qs) = refl

    kept_filled : (xs : List ℕ) → kept xs ≢ some []
    kept_filled [] e = cc
    kept_filled (q ∷ qs) e = cc

    in_list : 0 < tally (λ x. x == c) l
    in_list = omega (arith, there, rw clients at (valid.pairs c ch))

    subscribed-removed :
        (q : ℕ) (k : Key) → subscribed removed q k + at_pair c ch q k ≡ subscribed s q k
    subscribed-removed q k =
        ap (λ (n : ℕ). n + at_pair c ch q k) (subscribed-replaced s c ch _ _ q k)
        ∙ by_client (Bool-cases (q == c))
      where
        by_client :
            ((q == c) ≡ true) ⊎ ((q == c) ≡ false)
            → (if q == c
                  then tally (λ j. equal_strings j k) (delete_key ch (s.client c).channels)
                  else subscribed s q k)
                + at_pair c ch q k
              ≡ subscribed s q k
        by_client (inl e) =
            let here : q ≡ c = ground arith in
            let back : (c == q) ≡ true = ground arith in
            rw (e, back, here) (tally-delete_key ch k (s.client c).channels there)
        by_client (inr e) = let back : (c == q) ≡ false = ground arith in rw (e, back) (omega arith)

    listed-removed : (q : ℕ) (k : Key) → listed removed q k + at_pair c ch q k ≡ listed s q k
    listed-removed q k =
        ap (λ (n : ℕ). n + at_pair c ch q k) (listed-replaced s c ch _ _ q k)
        ∙ by_key (Bool-cases (equal_strings k ch))
      where
        by_key :
            (equal_strings k ch ≡ true) ⊎ (equal_strings k ch ≡ false)
            → (if equal_strings k ch
                  then tally (λ x. x == q) (clients_of (kept (delete_client c l)))
                  else listed s q k)
                + at_pair c ch q k
              ≡ listed s q k
        by_key (inl e) =
            let here = (equal_strings_iff k ch).0 e in
            rw
              (
                e,
                sym (equal_strings_sym k ch),
                e,
                clients_of-kept (delete_client c l),
                here,
                clients,
              )
              (ap (λ (n : ℕ). tally (λ x. x == q) (delete_client c l) + n) (ground arith)
                ∙ tally-delete_client c q l in_list)
        by_key (inr e) = rw (e, sym (equal_strings_sym k ch), e, and_false (c == q)) (omega arith)

    removed-Subscribes : Subscribes 0 s c ch removed
    removed-Subscribes = record {
      valid = record {
        pairs = λ q k. omega (arith, listed-removed q k, subscribed-removed q k, valid.pairs q k);
        once = λ q k. omega (arith, subscribed-removed q k, valid.once q k);
        filled = filled-replaced s c ch _ _ (kept_filled (delete_client c l)) valid.filled;
        patterns = λ q. patterns_of-replaced s c ch _ _ q (valid.patterns q);
      };
      own = omega (arith, subscribed-removed c ch, at_pair_self c ch, valid.once c ch);
      others = λ q k z. omega (arith, subscribed-removed q k);
      patterns = patterns-replaced s c ch _ _;
    }

  -- `pubsubUnsubscribeChannel` on a consistent server never meets its assertions: the client is no
  -- longer subscribed to the channel, no other subscription changes, and 1 is returned exactly if
  -- the client was subscribed.
  pub unsubscribe_channel-Subscribes :
      (b : Bool) × (t : Server) × (unsubscribe_channel s c ch ≡ some (b, t))
      × Subscribes 0 s c ch t
      × ((b ≡ true) ↔ (subscribed s c ch ≡ 1))
  unfolding unsubscribe_channel tally
  unsubscribe_channel-Subscribes = elim (Bool-cases (has_key ch (s.client c).channels)) [
    | inr e ↦
        let free = has_key_none ch (s.client c).channels e in
        (
          false,
          s,
          rw (e, unsubscribe_channel) refl,
          record { valid = valid; own = free; others = λ q k z. refl; patterns = λ q. refl },
          (λ f. absurd (false≢true f), λ f. absurd (omega (arith, f, free))),
        )
    | inl e ↦
        let there = has_key-tally ch (s.client c).channels e in
        elim (Option-cases (s.channels ch)) [
          | inl n ↦ absurd (omega (arith, there, rw n at (valid.pairs c ch)))
          | inr (l, n) ↦ (
            true,
            removed l n there,
            rw (e, unsubscribe_channel, n, has_client-tally c l (in_list l n there)) refl,
            removed-Subscribes l n there,
            (λ f. omega (arith, valid.once c ch, there), λ f. refl),
          )
        ]
  ]
