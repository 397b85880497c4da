-- ===== src/Pubsub.antt =====
-- redis-stable/src/pubsub.c: channels, patterns and messages. Clients are numbers; a channel, a
-- pattern or a message is the list of its bytes.
pub mod Channels
pub mod Subscribe
pub mod Patterns
pub mod Publish
mod Tests
use mmog.Common.{
  ℕ, ◌+◌, ◌≡◌, ◌&&◌, Bool, true, false, Option, none, some, List, [], ◌∷◌, ◌++◌, map, length, ◌==◌,
  if◌then◌else◌,
}
use mmog.Common.Bytes.{equal_strings}
use mmog.Multi.{Key, clients_of, delete_client}

-- The part of `redisClient` that subscriptions use. The keys of the dictionary of channels stand in
-- the order in which they were added.
pub record Client : Type 0 where
  pub channels : List Key
  pub patterns : List Key

-- `server.pubsub_channels`, `server.pubsub_patterns` and the clients.
pub record Server : Type 0 where
  pub client : ℕ → Client
  pub channels : Key → Option (List ℕ)
  pub patterns : List (ℕ × Key)

unfoldable pub set_client : Server → ℕ → Client → Server
set_client s c x = record s { client = λ q. if q == c then x else s.client q }

unfoldable pub set_clients : Server → Key → Option (List ℕ) → Server
set_clients s ch l = record s { channels = λ q. if equal_strings q ch then l else s.channels q }

-- Whether a key is in a list or in a dictionary.
unfoldable pub has_key : Key → List Key → Bool
has_key k [] = false
has_key k (j ∷ js) = if equal_strings j k then true else has_key k js

unfoldable pub delete_key : Key → List Key → List Key
delete_key k [] = []
delete_key k (j ∷ js) = if equal_strings j k then js else j ∷ delete_key k js

unfoldable pub has_client : ℕ → List ℕ → Bool
has_client c [] = false
has_client c (q ∷ qs) = if q == c then true else has_client c qs

-- The number that each notice to the client carries.
abbrev pub subscriptions : Server → ℕ → ℕ
subscriptions s c = length (s.client c).channels + length (s.client c).patterns

-- `pubsubSubscribeChannel`: the return value, the number in the notice, and the server.
unfoldable pub subscribe_channel : Server → ℕ → Key → Bool × ℕ × Server
subscribe_channel s c ch =
    let x = s.client c in
    if has_key ch x.channels
    then (false, subscriptions s c, s)
    else let t =
        set_client (set_clients s ch (some (clients_of (s.channels ch) ++ (c ∷ [])))) c
          (record x { channels = x.channels ++ (ch ∷ []) }) in
      (true, subscriptions t c, t)

-- A list of clients that became empty is freed with its entry.
abbrev pub kept : List ℕ → Option (List ℕ)
kept [] = none
kept (q ∷ qs) = some (q ∷ qs)

-- `pubsubUnsubscribeChannel`: `none` where one of its assertions fails.
unfoldable pub unsubscribe_channel : Server → ℕ → Key → Option (Bool × Server)
unsubscribe_channel s c ch =
    let x = s.client c in
    if has_key ch x.channels
    then elim (s.channels ch) [
      | none ↦ none
      | some clients ↦
          if has_client c clients
          then some (
            true,
            set_client (set_clients s ch (kept (delete_client c clients))) c
                (record x { channels = delete_key ch x.channels }),
          )
          else none
    ]
    else some (false, s)

-- `pubsubSubscribePattern`
unfoldable pub subscribe_pattern : Server → ℕ → Key → Bool × ℕ × Server
subscribe_pattern s c p =
    let x = s.client c in
    if has_key p x.patterns
    then (false, subscriptions s c, s)
    else let t =
        set_client (record s { patterns = s.patterns ++ ((c, p) ∷ []) }) c
          (record x { patterns = x.patterns ++ (p ∷ []) }) in
      (true, subscriptions t c, t)

-- `listSearchKey` with `listMatchPubsubPattern`, and `listDelNode`.
unfoldable pub delete_pattern : ℕ → Key → List (ℕ × Key) → List (ℕ × Key)
delete_pattern c p [] = []
delete_pattern c p ((q, k) ∷ ks) =
    if q == c && equal_strings k p then ks else (q, k) ∷ delete_pattern c p ks

-- `pubsubUnsubscribePattern`
unfoldable pub unsubscribe_pattern : Server → ℕ → Key → Bool × Server
unsubscribe_pattern s c p =
    let x = s.client c in
    if has_key p x.patterns
    then (
      true,
      set_client (record s { patterns = delete_pattern c p s.patterns }) c
          (record x { patterns = delete_key p x.patterns }),
    )
    else (false, s)

-- The loops of `pubsubUnsubscribeAllChannels` and `pubsubUnsubscribeAllPatterns`, which count.
unfoldable pub unsubscribe_channels : Server → ℕ → List Key → ℕ → Option (ℕ × Server)
unsubscribe_channels s c [] n = some (n, s)
unsubscribe_channels s c (ch ∷ chs) n = elim (unsubscribe_channel s c ch) [
  | none ↦ none
  | some (gone, t) ↦ unsubscribe_channels t c chs (n + (if gone then 1 else 0))
]

unfoldable pub unsubscribe_all_channels : Server → ℕ → Option (ℕ × Server)
unsubscribe_all_channels s c = unsubscribe_channels s c (s.client c).channels 0

unfoldable pub unsubscribe_patterns : Server → ℕ → List Key → ℕ → ℕ × Server
unsubscribe_patterns s c [] n = (n, s)
unsubscribe_patterns s c (p ∷ ps) n =
    let (gone, t) = unsubscribe_pattern s c p in
    unsubscribe_patterns t c ps (n + (if gone then 1 else 0))

unfoldable pub unsubscribe_all_patterns : Server → ℕ → ℕ × Server
unsubscribe_all_patterns s c = unsubscribe_patterns s c (s.client c).patterns 0

-- `pubsubPublishMessage`. `matches` stands for `stringmatchlen`, which Glob models.
module _ (matches : Key → Key → Bool) where
  -- The clients of the patterns that match, in the order of the list.
  unfoldable pub pattern_receivers : Key → List (ℕ × Key) → List ℕ
  pattern_receivers ch [] = []
  pattern_receivers ch ((q, p) ∷ ps) =
      if matches p ch then q ∷ pattern_receivers ch ps else pattern_receivers ch ps

  -- The clients that are sent the message, once for each copy. The return value is their number.
  unfoldable pub publish_message : Server → Key → List ℕ
  publish_message s ch = clients_of (s.channels ch) ++ pattern_receivers ch s.patterns
