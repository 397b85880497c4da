-- ===== src/Multi/Steps.antt =====
-- The transactions of several clients, interleaved: what EXEC does at the end of any sequence of
-- steps.
pub mod Exec
use mmog.Common.{
  ℕ, ◌≡◌, ◌≢◌, refl, sym, ap, ◌∙◌, ◌⊎◌, inl, inr, arith, leb, Bool, true, false, not, ◌||◌, Option,
  none, some, List, [], ◌∷◌, ◌==◌, if◌then◌else◌, Bool-cases,
}
use mmog.Multi.{
  Key, WatchedKey, MultiCmd, Client, Server, Reply, set_client, watch_for_key, unwatch_all_keys,
  touch_watched_key,
}
use mmog.Multi.Reply.{ok}
use mmog.Multi.Watch.{watching, Consistent, watch_for_key-Watches}
use mmog.Multi.Unwatch.{Unwatches, unwatch_all_keys-Unwatches}
use mmog.Multi.Touch.{dirty_if, touch_watched_key-Touches}
use mmog.Multi.Commands.{
  queue_multi_command, init_client_multi_state, discard_transaction, flag_transaction,
  multi_command, replied, discard_command, clear_dirty, unwatch_command, Executed, exec_command,
  touch_watched_keys_on_flush,
}

-- A write of one client that keeps its watched keys.
pub update-Consistent :
    (s : Server) (c : ℕ) (x : Client)
    → x.watched_keys ≡ (s.client c).watched_keys
    → Consistent s
    → Consistent (set_client s c x)
unfolding set_client
update-Consistent s c x e v =
    let keys : (q : ℕ)
        → (if q == c then x else s.client q).watched_keys ≡ (s.client q).watched_keys =
      λ q. elim (Bool-cases (q == c)) [
        | inl f ↦ let here : q ≡ c = ground arith in rw (f, here) e
        | inr f ↦ rw f refl
      ] in
    record {
      pairs = λ q k. rw (keys q) (v.pairs q k);
      once = λ q k. rw (keys q) (v.once q k);
      filled = v.filled;
    }

pub client-set_client :
    (s : Server) (c q : ℕ) (x : Client)
    → (set_client s c x).client q ≡ (if q == c then x else s.client q)
unfolding set_client
client-set_client s c q x = refl

-- A client after its transaction: only the database selected is left.
abbrev pub cleared : Client → Client
cleared x = record x {
  multi = false;
  dirty_cas = false;
  dirty_exec = false;
  watched_keys = [];
  commands = [];
}

-- What `discardTransaction` leaves behind.
pub record Discards (s : Server) (c : ℕ) (t : Server) : Type 0 where
  pub valid : Consistent t
  pub own : t.client c ≡ cleared (s.client c)
  pub others : (q : ℕ) → q ≢ c → t.client q ≡ s.client q

abbrev keyless : Client → Client
keyless x = record x { watched_keys = [] }

no_keys : (x : Client) → x.watched_keys ≡ [] → x ≡ keyless x
no_keys x e = ap (λ ks. record x { watched_keys = ks }) e

-- `discardTransaction` on a consistent server does not fail: the client is left with no flag, no
-- queue and no watched key, the others as they were.
pub discard_transaction-Discards :
    (s : Server) (c : ℕ)
    → Consistent s
    → (t : Server) × (discard_transaction s c ≡ some t) × Discards s c t
unfolding discard_transaction init_client_multi_state
discard_transaction-Discards s c v =
    let (t, ran, u) =
      unwatch_all_keys-Unwatches (set_client s c (init_client_multi_state (s.client c))) c
        (update-Consistent s c (init_client_multi_state (s.client c)) refl v) in
    let own : (c == c) ≡ true = ground arith in
    let start : (set_client s c (init_client_multi_state (s.client c))).client c
        ≡ init_client_multi_state (s.client c) =
      client-set_client s c c _ ∙ rw own refl in
    (
      t,
      ran,
      record {
        valid = u.valid;
        own = no_keys (t.client c) u.left_over ∙ u.flags ∙ ap keyless start;
        others = λ q ne.
            let apart : (q == c) ≡ false = ground arith in
            u.others q ne ∙ client-set_client s c q _ ∙ rw apart refl;
      },
    )

-- `freeClient` keeps no trace of a client in the lists of watching clients.
abbrev Freed : Server → ℕ → Server → Type 0
Freed s q t = unwatch_all_keys s q ≡ some t

-- One step of any client, short of an EXEC, DISCARD, UNWATCH or end of the connection of client `c`.
-- A key is touched by a command that some client runs; the commands of an EXEC of another client leave
-- client `c` connected and its state alone.
module _ (call : Server → ℕ → MultiCmd → Server) where
  -- A command that another client runs keeps the server consistent and does nothing to client `c`, but
  -- that it may touch its keys.
  abbrev pub IsQuiet : ℕ → MultiCmd → Type 0
  IsQuiet c mc =
      (s : Server) (q : ℕ)
      → q ≢ c
      → Consistent s
      → Consistent (call s q mc) × ((b : Bool) × ((call s q mc).client c ≡ dirty_if b (s.client c)))

  abbrev pub AreQuiet : ℕ → List MultiCmd → Type 0
  AreQuiet c [] = Unit
  AreQuiet c (mc ∷ mcs) = IsQuiet c mc × AreQuiet c mcs

  pub data Step (c : ℕ) (s : Server) : Server → Type 0 where
    watches : (q : ℕ) (key : Key) → Step c s (watch_for_key s q key)
    touches : (db : ℕ) (key : Key) → Step c s (touch_watched_key s db key)
    flushes :
        (clients : List ℕ) (dbid : Option ℕ) (present : WatchedKey → Bool)
        → Step c s (touch_watched_keys_on_flush s clients dbid present)
    selects : (q db : ℕ) → Step c s (set_client s q (record (s.client q) { db = db }))
    queues : (q : ℕ) (mc : MultiCmd) → Step c s (queue_multi_command s q mc)
    begins : (q : ℕ) → Step c s (multi_command s q).1
    fails : (q : ℕ) → Step c s (flag_transaction s q)
    unwatches :
        (q : ℕ) (r : Reply) (t : Server) → q ≢ c → unwatch_command s q ≡ some (r, t) → Step c s t
    discards :
        (q : ℕ) (r : Reply) (t : Server) → q ≢ c → discard_command s q ≡ some (r, t) → Step c s t
    executes :
        (q : ℕ) (e : Executed)
        → q ≢ c
        → AreQuiet c (s.client q).commands
        → exec_command call s q ≡ some e
        → Step c s e.server
    disconnects : (q : ℕ) (t : Server) → q ≢ c → Freed s q t → Step c s t

  pub data Steps (c : ℕ) (s : Server) : Server → Type 0 where
    done : Steps c s s
    next : {t u : Server} → Steps c s t → Step c t u → Steps c s u

-- A transaction that is going to fail.
pub record Doomed (c : ℕ) (s : Server) : Type 0 where
  pub valid : Consistent s
  pub multi : (s.client c).multi ≡ true
  pub dirty : (s.client c).dirty_cas ≡ true

pub update-Doomed :
    (c : ℕ) (s : Server) (q : ℕ) (x : Client)
    → x.watched_keys ≡ (s.client q).watched_keys
    → ((s.client q).multi ≡ true → x.multi ≡ true)
    → ((s.client q).dirty_cas ≡ true → x.dirty_cas ≡ true)
    → Doomed c s
    → Doomed c (set_client s q x)
update-Doomed c s q x keys m d h = record {
  valid = update-Consistent s q x keys h.valid;
  multi = elim (Bool-cases (c == q)) [
    | inl e ↦
        let here : c ≡ q = ground arith in
        rw (client-set_client s q c x, e) (m (rw here at h.multi))
    | inr e ↦ rw (client-set_client s q c x, e) h.multi
  ];
  dirty = elim (Bool-cases (c == q)) [
    | inl e ↦
        let here : c ≡ q = ground arith in
        rw (client-set_client s q c x, e) (d (rw here at h.dirty))
    | inr e ↦ rw (client-set_client s q c x, e) h.dirty
  ];
}
