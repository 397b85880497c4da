-- ===== src/Pubsub/Patterns.antt =====
-- `pubsubSubscribePattern` and `pubsubUnsubscribePattern`: the server's list of patterns holds the
-- patterns of each client in the order of the client's own list.
use mmog.Common.{
  ℕ, ◌≡◌, ◌≢◌, refl, ap, ◌∙◌, inl, inr, arith, true, false, not, List, [], ◌∷◌, ◌++◌, ◌==◌, ◌&&◌,
  if◌then◌else◌, Bool-cases,
}
use mmog.Common.Bytes.{equal_strings}
use mmog.Multi.{Key}
use mmog.Pubsub.{
  Server, set_client, has_key, delete_key, subscribe_pattern, delete_pattern, unsubscribe_pattern,
}
use mmog.Pubsub.Channels.{patterns_of, Consistent}

patterns_of-append :
    (q c : ℕ) (p : Key) (ps : List (ℕ × Key))
    → patterns_of q (ps ++ ((c, p) ∷ []))
      ≡ (if c == q then patterns_of q ps ++ (p ∷ []) else patterns_of q ps)
unfolding patterns_of
patterns_of-append q c p [] = elim (Bool-cases (c == q)) [ inl e ↦ rw e refl | inr e ↦ rw e refl ]
patterns_of-append q c p ((d, k) ∷ ps) = elim (Bool-cases (c == q)) [
  | inl e ↦ elim (Bool-cases (d == q)) [
    | inl f ↦ rw (e, f) (ap (λ xs. k ∷ xs) (patterns_of-append q c p ps ∙ rw e refl))
    | inr f ↦ rw (e, f) (patterns_of-append q c p ps ∙ rw e refl)
  ]
  | inr e ↦ elim (Bool-cases (d == q)) [
    | inl f ↦ rw (e, f) (ap (λ xs. k ∷ xs) (patterns_of-append q c p ps ∙ rw e refl))
    | inr f ↦ rw (e, f) (patterns_of-append q c p ps ∙ rw e refl)
  ]
]

delete_pattern_own :
    (c : ℕ) (p : Key) (ps : List (ℕ × Key))
    → patterns_of c (delete_pattern c p ps) ≡ delete_key p (patterns_of c ps)
unfolding patterns_of delete_pattern delete_key
delete_pattern_own c p [] = refl
delete_pattern_own c p ((d, k) ∷ ps) = elim (Bool-cases (d == c)) [
  | inl f ↦ elim (Bool-cases (equal_strings k p)) [
    | inl g ↦ rw (f, g) refl
    | inr g ↦ rw (f, g) (rw f (ap (λ xs. k ∷ xs) (delete_pattern_own c p ps)))
  ]
  | inr f ↦ rw f (rw f (delete_pattern_own c p ps))
]

delete_pattern_ne :
    (q c : ℕ) (p : Key) (ps : List (ℕ × Key))
    → (c == q) ≡ false
    → patterns_of q (delete_pattern c p ps) ≡ patterns_of q ps
unfolding patterns_of delete_pattern
delete_pattern_ne q c p [] e = refl
delete_pattern_ne q c p ((d, k) ∷ ps) e = elim (Bool-cases (d == c && equal_strings k p)) [
  | inl f ↦
      let here : d ≡ c = ground arith in
      let gone : (d == q) ≡ false = ap (λ (n : ℕ). n == q) here ∙ e in rw (f, gone) refl
  | inr f ↦ elim (Bool-cases (d == q)) [
    | inl g ↦ rw (f, g) (ap (λ xs. k ∷ xs) (delete_pattern_ne q c p ps e))
    | inr g ↦ rw (f, g) (delete_pattern_ne q c p ps e)
  ]
]

-- What a change of one pattern leaves behind: the client has the list told, and no other list of
-- patterns nor any subscription to a channel changes.
pub record Matches (s : Server) (c : ℕ) (ps : List Key) (t : Server) : Type 0 where
  pub valid : Consistent t
  pub own : (t.client c).patterns ≡ ps
  pub others : (q : ℕ) → q ≢ c → t.client q ≡ s.client q
  pub channels : (q : ℕ) → (t.client q).channels ≡ (s.client q).channels

-- The server with the list of all patterns and that of one client replaced.
abbrev replaced : Server → ℕ → List (ℕ × Key) → List Key → Server
replaced s c all ps =
    set_client (record s { patterns = all }) c (record (s.client c) { patterns = ps })

replaced-Matches :
    (s : Server) (c : ℕ) (all : List (ℕ × Key)) (ps : List Key)
    → Consistent s
    → patterns_of c all ≡ ps
    → ((q : ℕ) → (c == q) ≡ false → patterns_of q all ≡ patterns_of q s.patterns)
    → Matches s c ps (replaced s c all ps)
unfolding set_client
replaced-Matches s c all ps v own rest =
    let same : (c == c) ≡ true = ground arith in
    let keep : (q : ℕ)
        → (if q == c then (record (s.client c) { patterns = ps }) else s.client q).channels
          ≡ (s.client q).channels =
      λ q. elim (Bool-cases (q == c)) [
        | inl e ↦ let here : q ≡ c = ground arith in rw (e, here) refl
        | inr e ↦ rw e refl
      ] in
    record {
      valid = record {
        pairs = λ q k. rw (keep q) (v.pairs q k);
        once = λ q k. rw (keep q) (v.once q k);
        filled = v.filled;
        patterns = λ q. elim (Bool-cases (q == c)) [
          | inl e ↦ let here : q ≡ c = ground arith in rw (e, here) own
          | inr e ↦ let back : (c == q) ≡ false = ground arith in rw e (rest q back ∙ v.patterns q)
        ];
      };
      own = rw same refl;
      others = λ q ne. let e : (q == c) ≡ false = ground arith in rw e refl;
      channels = keep;
    }

-- `pubsubSubscribePattern` and `pubsubUnsubscribePattern` on a consistent server keep it consistent
-- and change only this client's patterns: the first puts a new pattern at the end, the second
-- takes one out; both do nothing, and return 0, where there is nothing to change.
pub patterns-Matches :
    (s : Server) (c : ℕ) (p : Key)
    → Consistent s
    → let r = subscribe_pattern s c p in
      let u = unsubscribe_pattern s c p in
      let ps = (s.client c).patterns in
      Matches s c (if r.0 then ps ++ (p ∷ []) else ps) r.2
      × Matches s c (if u.0 then delete_key p ps else ps) u.1
      × (r.0 ≡ not (has_key p ps))
      × (u.0 ≡ has_key p ps)
unfolding subscribe_pattern unsubscribe_pattern
patterns-Matches s c p v = elim (Bool-cases (has_key p (s.client c).patterns)) [
  | inl e ↦ rw e (
    record { valid = v; own = refl; others = λ q ne. refl; channels = λ q. refl },
    replaced-Matches s c (delete_pattern c p s.patterns) _ v
        (delete_pattern_own c p s.patterns ∙ ap (delete_key p) (v.patterns c))
        (λ q ne. delete_pattern_ne q c p s.patterns ne),
    refl,
    refl,
  )
  | inr e ↦
      let same : (c == c) ≡ true = ground arith in
      rw e (
        replaced-Matches s c (s.patterns ++ ((c, p) ∷ [])) _ v
            (patterns_of-append c c p s.patterns
              ∙ rw same (ap (λ ps. ps ++ (p ∷ [])) (v.patterns c)))
            (λ q ne. patterns_of-append q c p s.patterns ∙ rw ne refl),
        record { valid = v; own = refl; others = λ q ne. refl; channels = λ q. refl },
        refl,
        refl,
      )
]
