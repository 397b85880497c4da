-- ===== src/Pubsub/Tests.antt =====
-- Concrete runs: client 1 subscribes to a channel and to a pattern.
use mmog.Common.{
  ◌+◌, ◌≡◌, ◌↔◌, refl, arith, Bool, true, false, not, none, some, [], ◌∷◌, ◌++◌, ◌==◌,
  if◌then◌else◌,
}
use mmog.Common.Bytes.{equal_strings}
use mmog.Glob.{stringmatchlen, match_loop, item, strip, is_empty}
use mmog.Multi.{Key}
use mmog.Multi.Tally.{tally}
use mmog.Pubsub.{
  Server, set_client, set_clients, has_key, delete_key, subscribe_channel, unsubscribe_channel,
  subscribe_pattern, unsubscribe_pattern, pattern_receivers, publish_message,
}
use mmog.Pubsub.Channels.{subscribed, patterns_of, Consistent, Subscribes}
use mmog.Pubsub.Subscribe.{subscribe_channel-Subscribes, unsubscribe_channel-Subscribes}
use mmog.Pubsub.Patterns.{Matches, patterns-Matches}
use mmog.Pubsub.Publish.{tally-publish_message}

abbrev start : Server
start = record {
  client = λ q. record { channels = []; patterns = [] };
  channels = λ k. none;
  patterns = [];
}

abbrev news : Key
news = b'n' ∷ []

-- The pattern "*" matches every channel.
abbrev every : Key
every = b'*' ∷ []

-- `stringmatchlen`, where no two cases of a letter are the same.
abbrev matches_glob : Key → Key → Bool
matches_glob p ch = elim (stringmatchlen (λ c. c) false p ch) [ none ↦ false | some b ↦ b ]

abbrev one : Server
one = (subscribe_channel start 1 news).2

abbrev two : Server
two = (subscribe_pattern one 1 every).2

-- Both the channel and the pattern bring the message.
two_copies : publish_message matches_glob two news ≡ 1 ∷ 1 ∷ []
unfolding publish_message pattern_receivers subscribe_channel subscribe_pattern set_client
    set_clients has_key equal_strings stringmatchlen match_loop item strip is_empty
two_copies = refl

start-Consistent : Consistent start
unfolding tally patterns_of
start-Consistent = record {
  pairs = λ c k. refl;
  once = λ c k. omega arith;
  filled = λ k e. cc;
  patterns = λ c. refl;
}

one-Consistent : Consistent one
one-Consistent = (subscribe_channel-Subscribes start start-Consistent 1 news).0.valid

two-Consistent : Consistent two
two-Consistent = (patterns-Matches one 1 every one-Consistent).0.valid

subscribe_channel-Subscribes_example :
    let r = subscribe_channel two 2 news in
    Subscribes 1 two 2 news r.2 × ((r.0 ≡ true) ↔ (subscribed two 2 news ≡ 0))
subscribe_channel-Subscribes_example = subscribe_channel-Subscribes two two-Consistent 2 news

unsubscribe_channel-Subscribes_example :
    (b : Bool) × (t : Server) × (unsubscribe_channel two 1 news ≡ some (b, t))
    × Subscribes 0 two 1 news t
    × ((b ≡ true) ↔ (subscribed two 1 news ≡ 1))
unsubscribe_channel-Subscribes_example = unsubscribe_channel-Subscribes two two-Consistent 1 news

patterns-Matches_example :
    let r = subscribe_pattern two 1 every in
    let u = unsubscribe_pattern two 1 every in
    let ps = (two.client 1).patterns in
    Matches two 1 (if r.0 then ps ++ (every ∷ []) else ps) r.2
    × Matches two 1 (if u.0 then delete_key every ps else ps) u.1
    × (r.0 ≡ not (has_key every ps))
    × (u.0 ≡ has_key every ps)
patterns-Matches_example = patterns-Matches two 1 every two-Consistent

tally-publish_message_example :
    tally (λ x. x == 1) (publish_message matches_glob two news)
    ≡ subscribed two 1 news + tally (λ p. matches_glob p news) (two.client 1).patterns
tally-publish_message_example = tally-publish_message matches_glob two news 1 two-Consistent
