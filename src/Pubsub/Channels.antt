-- ===== src/Pubsub/Channels.antt =====
-- The two directions of SUBSCRIBE and PSUBSCRIBE, and what subscribing to a channel does to them.
use mmog.Common.{
  ℕ, ◌+◌, ◌≤◌, ◌<◌, ◌≡◌, ◌≢◌, refl, sym, ◌∙◌, inl, inr, arith, true, false, Option, some, List, [],
  ◌∷◌, ◌++◌, ◌==◌, ◌&&◌, if◌then◌else◌, Bool-cases, false≢true,
}
use mmog.Common.Bytes.{equal_strings, equal_strings_iff}
use mmog.Multi.{Key, clients_of}
use mmog.Multi.Tally.{tally}
use mmog.Pubsub.{Server, set_client, set_clients, has_key, delete_key, has_client}

pub has_key-tally :
    (k : Key) (ks : List Key) → has_key k ks ≡ true → 0 < tally (λ j. equal_strings j k) ks
unfolding tally has_key
has_key-tally k [] h = absurd (false≢true h)
has_key-tally k (j ∷ js) h = elim (Bool-cases (equal_strings j k)) [
  | inl e ↦ rw e (omega arith)
  | inr e ↦ rw e (omega (arith, has_key-tally k js (rw e at h)))
]

pub has_key_none :
    (k : Key) (ks : List Key) → has_key k ks ≡ false → tally (λ j. equal_strings j k) ks ≡ 0
unfolding tally has_key
has_key_none k [] h = refl
has_key_none k (j ∷ js) h = elim (Bool-cases (equal_strings j k)) [
  | inl e ↦ absurd (false≢true (sym (rw e at h)))
  | inr e ↦ rw e (omega (arith, has_key_none k js (rw e at h)))
]

pub has_client-tally : (c : ℕ) (cs : List ℕ) → 0 < tally (λ x. x == c) cs → has_client c cs ≡ true
unfolding tally has_client
has_client-tally c [] h = elim h [ ]
has_client-tally c (q ∷ qs) h = elim (Bool-cases (q == c)) [
  | inl e ↦ rw e refl
  | inr e ↦
      let later : 0 < tally (λ x. x == c) qs = omega (arith, rw e at h) in
      rw e (has_client-tally c qs later)
]

pub tally-delete_key :
    (k j : Key) (ks : List Key)
    → 0 < tally (λ x. equal_strings x k) ks
    → tally (λ x. equal_strings x j) (delete_key k ks) + (if equal_strings k j then 1 else 0)
      ≡ tally (λ x. equal_strings x j) ks
unfolding tally delete_key
tally-delete_key k j [] h = elim h [ ]
tally-delete_key k j (x ∷ xs) h = elim (Bool-cases (equal_strings x k)) [
  | inl e ↦ let here = (equal_strings_iff x k).0 e in rw (e, here) (omega arith)
  | inr e ↦
      let later : 0 < tally (λ y. equal_strings y k) xs = omega (arith, rw e at h) in
      rw e (omega (arith, tally-delete_key k j xs later))
]

-- How often a client stands in the list of a channel, and the channel among the client's.
abbrev pub listed : Server → ℕ → Key → ℕ
listed s c k = tally (λ x. x == c) (clients_of (s.channels k))

abbrev pub subscribed : Server → ℕ → Key → ℕ
subscribed s c k = tally (λ j. equal_strings j k) (s.client c).channels

-- The patterns of one client in the server's list.
unfoldable pub patterns_of : ℕ → List (ℕ × Key) → List Key
patterns_of c [] = []
patterns_of c ((q, p) ∷ ps) = if q == c then p ∷ patterns_of c ps else patterns_of c ps

pub record Consistent (s : Server) : Type 0 where
  pub pairs : (c : ℕ) (k : Key) → listed s c k ≡ subscribed s c k
  pub once : (c : ℕ) (k : Key) → subscribed s c k ≤ 1
  pub filled : (k : Key) → s.channels k ≢ some []
  pub patterns : (c : ℕ) → patterns_of c s.patterns ≡ (s.client c).patterns

-- 1 at the client and the channel given, else 0.
abbrev pub at_pair : ℕ → Key → ℕ → Key → ℕ
at_pair c ch q k = if c == q && equal_strings ch k then 1 else 0

-- The server with the two lists of one client and one channel replaced.
abbrev pub replaced : Server → ℕ → Key → Option (List ℕ) → List Key → Server
replaced s c ch l ks = set_client (set_clients s ch l) c (record (s.client c) { channels = ks })

module _ (s : Server) (c : ℕ) (ch : Key) (l : Option (List ℕ)) (ks : List Key) where
  pub subscribed-replaced :
      (q : ℕ) (k : Key)
      → subscribed (replaced s c ch l ks) q k
        ≡ (if q == c then tally (λ j. equal_strings j k) ks else subscribed s q k)
  unfolding set_client set_clients
  subscribed-replaced q k = elim (Bool-cases (q == c)) [ inl e ↦ rw e refl | inr e ↦ rw e refl ]

  pub listed-replaced :
      (q : ℕ) (k : Key)
      → listed (replaced s c ch l ks) q k
        ≡ (if equal_strings k ch then tally (λ x. x == q) (clients_of l) else listed s q k)
  unfolding set_client set_clients
  listed-replaced q k = elim (Bool-cases (equal_strings k ch)) [
    | inl e ↦ rw e refl
    | inr e ↦ rw e refl
  ]

  pub patterns-replaced :
      (q : ℕ) → ((replaced s c ch l ks).client q).patterns ≡ (s.client q).patterns
  unfolding set_client set_clients
  patterns-replaced q = elim (Bool-cases (q == c)) [
    | inl e ↦ let here : q ≡ c = ground arith in rw (e, here) refl
    | inr e ↦ rw e refl
  ]

  pub patterns_of-replaced :
      (q : ℕ)
      → patterns_of q s.patterns ≡ (s.client q).patterns
      → patterns_of q (replaced s c ch l ks).patterns ≡ ((replaced s c ch l ks).client q).patterns
  unfolding set_client set_clients
  patterns_of-replaced q h = h ∙ sym (patterns-replaced q)

  pub filled-replaced :
      l ≢ some []
      → ((k : Key) → s.channels k ≢ some [])
      → (k : Key) → (replaced s c ch l ks).channels k ≢ some []
  unfolding set_client set_clients
  filled-replaced new old k = elim (Bool-cases (equal_strings k ch)) [
    | inl e ↦ rw e new
    | inr e ↦ rw e (old k)
  ]

-- What a change of one subscription leaves behind: the client has the channel as often as told, and
-- no other subscription to a channel nor any pattern changes.
pub record Subscribes (n : ℕ) (s : Server) (c : ℕ) (ch : Key) (t : Server) : Type 0 where
  pub valid : Consistent t
  pub own : subscribed t c ch ≡ n
  pub others : (q : ℕ) (k : Key) → at_pair c ch q k ≡ 0 → subscribed t q k ≡ subscribed s q k
  pub patterns : (q : ℕ) → (t.client q).patterns ≡ (s.client q).patterns

pub at_pair_self : (c : ℕ) (ch : Key) → at_pair c ch c ch ≡ 1
at_pair_self c ch = let e = (equal_strings_iff ch ch).1 refl in rw e (ground arith)

pub at_pair_iff : (c : ℕ) (ch : Key) (q : ℕ) (k : Key) → at_pair c ch q k ≢ 0 → (c ≡ q) × (ch ≡ k)
at_pair_iff c ch q k h = elim (Bool-cases (c == q)) [
  | inl e ↦ elim (Bool-cases (equal_strings ch k)) [
    | inl f ↦ (ground arith, (equal_strings_iff ch k).0 f)
    | inr f ↦ absurd (h (rw (e, f) refl))
  ]
  | inr e ↦ absurd (h (rw e refl))
]

pub added_filled : (xs : List ℕ) (c : ℕ) → some (xs ++ (c ∷ [])) ≡ some [] → ⊥
added_filled [] c e = cc
added_filled (x ∷ xs) c e = cc
