-- ===== src/Pubsub/Publish.antt =====
-- `pubsubPublishMessage`: who is sent a message, and how often.
use mmog.Common.{ℕ, ◌+◌, ◌≡◌, refl, ap, ◌∙◌, inl, inr, arith, Bool, List, [], ◌∷◌, ◌==◌, Bool-cases}
use mmog.Multi.{Key, clients_of}
use mmog.Multi.Tally.{tally, tally-append}
use mmog.Pubsub.{Server, pattern_receivers, publish_message}
use mmog.Pubsub.Channels.{patterns_of, Consistent, subscribed}

module _ (matches : Key → Key → Bool) where
  tally-pattern_receivers :
      (ch : Key) (q : ℕ) (ps : List (ℕ × Key))
      → tally (λ x. x == q) (pattern_receivers matches ch ps)
        ≡ tally (λ p. matches p ch) (patterns_of q ps)
  unfolding pattern_receivers patterns_of tally
  tally-pattern_receivers ch q [] = refl
  tally-pattern_receivers ch q ((c, p) ∷ ps) = elim (Bool-cases (matches p ch)) [
    | inl e ↦ elim (Bool-cases (c == q)) [
      | inl f ↦ rw (e, f, e) (omega (arith, tally-pattern_receivers ch q ps))
      | inr f ↦ rw (e, f) (omega (arith, tally-pattern_receivers ch q ps))
    ]
    | inr e ↦ elim (Bool-cases (c == q)) [
      | inl f ↦ rw (e, f, e) (omega (arith, tally-pattern_receivers ch q ps))
      | inr f ↦ rw (e, f) (omega (arith, tally-pattern_receivers ch q ps))
    ]
  ]

  -- PUBLISH on a consistent server sends each client one copy of the message if it is subscribed to
  -- the channel, and one more for each of its patterns that matches the channel's name.
  pub tally-publish_message :
      (s : Server) (ch : Key) (q : ℕ)
      → Consistent s
      → tally (λ x. x == q) (publish_message matches s ch)
        ≡ subscribed s q ch + tally (λ p. matches p ch) (s.client q).patterns
  unfolding publish_message
  tally-publish_message s ch q v =
      tally-append (λ x. x == q) (clients_of (s.channels ch))
        (pattern_receivers matches ch s.patterns)
      ∙ omega (
        arith,
        v.pairs q ch,
        tally-pattern_receivers ch q s.patterns,
        ap (tally (λ p. matches p ch)) (v.patterns q),
      )
