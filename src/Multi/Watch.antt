-- ===== src/Multi/Watch.antt =====
-- The two directions of WATCH: the clients of each key, and the keys of each client.
use mmog.Common.{
  ℕ, ◌+◌, ◌≤◌, ◌≡◌, ◌≢◌, refl, sym, ap, ◌∙◌, inl, inr, arith, true, false, Option, some, List, [],
  ◌∷◌, ◌++◌, ◌==◌, ◌&&◌, and_false, if◌then◌else◌, Bool-cases, ℕ_discrete,
}
use mmog.Multi.{
  Key, WatchedKey, same_watched, is_watched, Client, Server, set_client, set_watchers, clients_of,
  watch_for_key,
}
use mmog.Multi.Tally.{
  same_watched_iff, same_watched_sym, tally, tally-append, is_watched_lem, is_watched-tally,
}

-- How often the client stands in the list of the key, and the key in the list of the client.
abbrev pub listed : Server → ℕ → WatchedKey → ℕ
listed s c k = tally (λ x. x == c) (clients_of (s.watched_keys k))

abbrev pub watching : Server → ℕ → WatchedKey → ℕ
watching s c k = tally (λ j. same_watched j k) (s.client c).watched_keys

-- The two agree, nothing is there twice, and no key keeps an empty list.
pub record Consistent (s : Server) : Type 0 where
  pub pairs : (c : ℕ) (k : WatchedKey) → listed s c k ≡ watching s c k
  pub once : (c : ℕ) (k : WatchedKey) → watching s c k ≤ 1
  pub filled : (k : WatchedKey) → s.watched_keys k ≢ some []

-- 1 at the client and the key given, else 0.
abbrev pub at_pair : ℕ → WatchedKey → ℕ → WatchedKey → ℕ
at_pair c wk q k = if c == q && same_watched wk k then 1 else 0

-- What a client's keys are after its list was replaced.
pub watching-set_client :
    (s t : Server) (c q : ℕ) (k : WatchedKey) (ks : List WatchedKey)
    → watching (set_client t c (record (s.client c) { watched_keys = ks })) q k
      ≡ (if q == c then tally (λ j. same_watched j k) ks else watching t q k)
unfolding set_client
watching-set_client s t c q k ks = elim (Bool-cases (q == c)) [
  | inl e ↦ rw e refl
  | inr e ↦ rw e refl
]

pub listed-set_watchers :
    (s : Server) (c q : ℕ) (x : Client) (wk k : WatchedKey) (l : Option (List ℕ))
    → listed (set_client (set_watchers s wk l) c x) q k
      ≡ (if same_watched k wk then tally (λ x. x == q) (clients_of l) else listed s q k)
unfolding set_client set_watchers
listed-set_watchers s c q x wk k l = elim (Bool-cases (same_watched k wk)) [
  | inl e ↦ rw e refl
  | inr e ↦ rw e refl
]

watching_added :
    (s : Server) (c q : ℕ) (wk k : WatchedKey)
    → (if q == c
        then tally (λ j. same_watched j k) ((s.client c).watched_keys ++ (wk ∷ []))
        else watching s q k)
      ≡ watching s q k + at_pair c wk q k
unfolding tally
watching_added s c q wk k = elim (Bool-cases (q == c)) [
  | inl e ↦
      let here : q ≡ c = ground arith in
      let back : (c == q) ≡ true = ground arith in
      rw (e, back, here)
        (tally-append (λ j. same_watched j k) (s.client c).watched_keys (wk ∷ []) ∙ omega arith)
  | inr e ↦ let back : (c == q) ≡ false = ground arith in rw (e, back) (omega arith)
]

listed_added :
    (s : Server) (c q : ℕ) (wk k : WatchedKey)
    → (if same_watched k wk
        then tally (λ x. x == q) (clients_of (s.watched_keys wk) ++ (c ∷ []))
        else listed s q k)
      ≡ listed s q k + at_pair c wk q k
unfolding tally
listed_added s c q wk k = elim (Bool-cases (same_watched k wk)) [
  | inl e ↦
      let here = (same_watched_iff k wk).0 e in
      rw (e, sym (same_watched_sym k wk), e, here)
        (tally-append (λ x. x == q) (clients_of (s.watched_keys wk)) (c ∷ []) ∙ ground arith)
  | inr e ↦ rw (e, sym (same_watched_sym k wk), e, and_false (c == q)) (omega arith)
]

-- What `watchForKey` leaves behind: the key is watched by the client, and nothing else changes.
pub record Watches (s : Server) (c : ℕ) (wk : WatchedKey) (t : Server) : Type 0 where
  pub valid : Consistent t
  pub watched : watching t c wk ≡ 1
  pub others : (q : ℕ) (k : WatchedKey) → at_pair c wk q k ≡ 0 → watching t q k ≡ watching s q k
  pub flags :
      (q : ℕ)
      → (record (t.client q) { watched_keys = [] }) ≡ (record (s.client q) { watched_keys = [] })

pub at_pair_self : (c : ℕ) (wk : WatchedKey) → at_pair c wk c wk ≡ 1
at_pair_self c wk = let e = (same_watched_iff wk wk).1 refl in rw e (ground arith)

pub at_pair-le : (c : ℕ) (wk : WatchedKey) (q : ℕ) (k : WatchedKey) → at_pair c wk q k ≤ 1
at_pair-le c wk q k = ground arith

pub at_pair_iff :
    (c : ℕ) (wk : WatchedKey) (q : ℕ) (k : WatchedKey) → at_pair c wk q k ≢ 0 → (c ≡ q) × (wk ≡ k)
at_pair_iff c wk q k h = elim (Bool-cases (c == q)) [
  | inl e ↦ elim (Bool-cases (same_watched wk k)) [
    | inl f ↦ (ground arith, (same_watched_iff wk k).0 f)
    | inr f ↦ absurd (h (rw (e, f) refl))
  ]
  | inr e ↦ absurd (h (rw e refl))
]

-- The server after `watchForKey` added the key.
abbrev added : Server → ℕ → WatchedKey → Server
added s c wk =
    set_client (set_watchers s wk (some (clients_of (s.watched_keys wk) ++ (c ∷ [])))) c
      (record (s.client c) { watched_keys = (s.client c).watched_keys ++ (wk ∷ []) })

added_filled : (xs : List ℕ) (c : ℕ) → some (xs ++ (c ∷ [])) ≡ some [] → ⊥
added_filled [] c e = cc
added_filled (x ∷ xs) c e = cc

module _ (s : Server) (valid : Consistent s) (c : ℕ) (wk : WatchedKey) where
  added_watching :
      (q : ℕ) (k : WatchedKey) → watching (added s c wk) q k ≡ watching s q k + at_pair c wk q k
  unfolding set_watchers
  added_watching q k =
      watching-set_client s (set_watchers s wk (some (clients_of (s.watched_keys wk) ++ (c ∷ []))))
        c q k ((s.client c).watched_keys ++ (wk ∷ []))
      ∙ watching_added s c q wk k

  added_listed :
      (q : ℕ) (k : WatchedKey) → listed (added s c wk) q k ≡ listed s q k + at_pair c wk q k
  added_listed q k = listed-set_watchers s c q _ wk k _ ∙ listed_added s c q wk k

  added-Watches : is_watched wk (s.client c).watched_keys ≡ false → Watches s c wk (added s c wk)
  unfolding set_client set_watchers
  added-Watches free =
      let none_yet = is_watched_lem wk (s.client c).watched_keys free in
      record {
        valid = record {
          pairs = λ q k.
              added_listed q k
              ∙ ap (λ (n : ℕ). n + at_pair c wk q k) (valid.pairs q k)
              ∙ sym (added_watching q k);
          once = λ q k. elim (ℕ_discrete (at_pair c wk q k) 0) [
            | yes z ↦ omega (arith, added_watching q k, valid.once q k)
            | no ne ↦
                let (here, this) = at_pair_iff c wk q k ne in
                let before : watching s q k ≡ 0 = rw (sym here, sym this) none_yet in
                omega (arith, added_watching q k, at_pair-le c wk q k)
          ];
          filled = λ k. elim (Bool-cases (same_watched k wk)) [
            | inl e ↦ rw e (added_filled _ c)
            | inr e ↦ rw e (valid.filled k)
          ];
        };
        watched = omega (arith, added_watching c wk, at_pair_self c wk);
        others = λ q k z. omega (arith, added_watching q k);
        flags = λ q. elim (Bool-cases (q == c)) [
          | inl e ↦ let here : q ≡ c = ground arith in rw (e, here) refl
          | inr e ↦ rw e refl
        ];
      }

-- `watchForKey` keeps the two directions consistent: the client watches the key of its selected
-- database exactly once afterwards, whether or not it did before, and no other key of any client,
-- flag, database or queue changes.
pub watch_for_key-Watches :
    (s : Server) (c : ℕ) (key : Key)
    → Consistent s
    → Watches s c (key, (s.client c).db) (watch_for_key s c key)
unfolding watch_for_key
watch_for_key-Watches s c key v =
    let wk : WatchedKey = (key, (s.client c).db) in
    elim (Bool-cases (is_watched wk (s.client c).watched_keys)) [
      | inl e ↦ rw e (record {
        valid = v;
        watched = omega (arith, v.once c wk, is_watched-tally wk (s.client c).watched_keys e);
        others = λ q k z. refl;
        flags = λ q. refl;
      })
      | inr e ↦ rw e (added-Watches s v c wk e)
    ]
