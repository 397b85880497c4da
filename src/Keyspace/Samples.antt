-- ===== src/Keyspace/Samples.antt =====
-- A small server for the tests: every database holds `k`, the number 5, with a time, and `z`, a text.
use mmog.Common.{
  ◌≡◌, refl, inl, inr, true, false, none, some, [], ◌∷◌, length, ℤ, pos, Bool-cases, false≢true,
}
use mmog.Common.Bytes.{Bytes, equal_strings}
use mmog.Numbers.{string2ll}
use mmog.Rdb.{raw, int}
use mmog.Objects.{Strtoll}
use mmog.Keyspace.{string, Db, Server}
use mmog.Keyspace.Map.{lookup}
use mmog.Keyspace.Expiry.{IsValid}

abbrev pub k : Bytes
k = b'k' ∷ []

abbrev pub z : Bytes
z = b'z' ∷ []

abbrev pub missing_key : Bytes
missing_key = b'q' ∷ []

abbrev pub db : Db
db = record {
  dict = (k, string (int (pos 5))) ∷ (z, string (raw (b'a' ∷ b'b' ∷ b'c' ∷ []))) ∷ [];
  expires = (k, pos 500) ∷ [];
}

-- A master with an append-only file and no slave, at a time.
abbrev pub server_at : ℤ → Server
server_at now = record {
  db = λ d. db;
  dbnum = 16;
  loading = false;
  masterhost = false;
  mstime = now;
  dirty = 0;
  stat_keyspace_hits = 0;
  stat_keyspace_misses = 0;
  stat_expiredkeys = 0;
  aof_on = true;
  aof = [];
  has_slaves = false;
  slaves = [];
  modified = [];
  flushed = [];
  rewritten = none;
}

pub server-IsValid : (now : ℤ) → IsValid (server_at now)
unfolding lookup
server-IsValid now d key timed = elim (Bool-cases (equal_strings k key)) [
  | inl e ↦ rw e refl
  | inr e ↦ absurd (false≢true (rw e at timed))
]

-- `strtoll` for the numbers that `string2ll` reads, and nothing else.
abbrev pub strtoll : Bytes → Strtoll
strtoll s = elim (string2ll s) [
  | none ↦ record { value = pos 0; endptr = 0; erange = false }
  | some v ↦ record { value = v; endptr = length s; erange = false }
]

pub equal_strings-differ : equal_strings k z ≡ false
unfolding equal_strings
equal_strings-differ = refl
