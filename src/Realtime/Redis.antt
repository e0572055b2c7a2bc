-- ===== src/Realtime/Redis.antt =====
-- What the realtime services use of Redis, through apps/api/src/redis/redis.service.ts: values with an
-- expiry under keys. The server itself is a parameter, with what it documents of these commands; each
-- kind of key holds values of one type, which are stored as JSON and read back. Times are
-- milliseconds, and a command reads the clock once.
use mafia_casefile.Prelude.{
  ℕ, ◌+◌, ◌≤◌, ◌≡◌, refl, String, Bool, true, false, Option, none, some, [], ◌∷◌, Dict, lookup,
  insert, ltb, ◌==◌, eq_iff, lookup-insert, if◌then◌else◌, arith,
}

-- `SET … PX` (with `EX`, a thousandfold), `SET … NX PX`, `GET` and `DEL`.
pub record Redis (V : Type 0) : Type 1 where
  pub Store : Type 0
  pub get : ℕ → String → Store → Option V
  pub set : ℕ → String → V → ℕ → Store → Store
  pub set_nx : ℕ → String → V → ℕ → Store → Bool × Store
  pub del : String → Store → Store
  pub get-set :
      (now at : ℕ) (k j : String) (v : V) (ttl : ℕ) (s : Store)
      → now ≤ at
      → get at j (set now k v ttl s)
        ≡ (if k == j then (if ltb at (now + ttl) then some v else none) else get at j s)
  pub set_nx-eq :
      (now : ℕ) (k : String) (v : V) (ttl : ℕ) (s : Store)
      → set_nx now k v ttl s
        ≡ (elim (get now k s) [ none ↦ (true, set now k v ttl s) | some w ↦ (false, s) ])
  pub get-del :
      (at : ℕ) (k j : String) (s : Store)
      → get at j (del k s) ≡ (if k == j then none else get at j s)

-- `Number.isInteger(value) && value > 0 ? value : …`: a setting of the environment, or its default.
-- One that is no natural number is `none`.
unfoldable pub positive_or : ℕ → Option ℕ → ℕ
positive_or default none = default
positive_or default (some value) = if ltb 0 value then value else default

pub positive_or-pos : (default : ℕ) (raw : Option ℕ) → 1 ≤ default → 1 ≤ positive_or default raw
unfolding positive_or
positive_or-pos default none h = h
positive_or-pos default (some value) h = ground arith

-- A server that keeps each value with the time at which it expires.
module _ {V : Type 0} where
  unfoldable pub live : ℕ → Option (V × ℕ) → Option V
  live at none = none
  live at (some (v, expires)) = if ltb at expires then some v else none

  unfoldable pub remove : String → Dict (V × ℕ) → Dict (V × ℕ)
  remove k [] = []
  remove k ((j, v) ∷ d) = let rest = remove k d in if k == j then rest else (j, v) ∷ rest

  unfoldable pub memory_set : ℕ → String → V → ℕ → Dict (V × ℕ) → Dict (V × ℕ)
  memory_set now k v ttl d = insert k (v, now + ttl) d

  unfoldable pub memory_get : ℕ → String → Dict (V × ℕ) → Option V
  unfolding live
  memory_get at k d = live at (lookup k d)

  abbrev pub memory_set_nx : ℕ → String → V → ℕ → Dict (V × ℕ) → Bool × Dict (V × ℕ)
  memory_set_nx now k v ttl d = elim (memory_get now k d) [
    | none ↦ (true, memory_set now k v ttl d)
    | some w ↦ (false, d)
  ]

  pub memory_get-set :
      (now at : ℕ) (k j : String) (v : V) (ttl : ℕ) (d : Dict (V × ℕ))
      → now ≤ at
      → memory_get at j (memory_set now k v ttl d)
        ≡ (if k == j then (if ltb at (now + ttl) then some v else none) else memory_get at j d)
  unfolding memory_get memory_set
  memory_get-set now at k j v ttl d h = ground (arith, lookup-insert k j (v, now + ttl) d)

  lookup-remove :
      (k j : String) (d : Dict (V × ℕ))
      → lookup j (remove k d) ≡ (if k == j then none else lookup j d)
  unfolding remove lookup
  lookup-remove k j [] = ground arith
  lookup-remove k j ((i, v) ∷ d) =
      ground (arith, lookup-remove k j d, eq_iff k i, eq_iff i j, eq_iff k j)

  pub memory_get-del :
      (at : ℕ) (k j : String) (d : Dict (V × ℕ))
      → memory_get at j (remove k d) ≡ (if k == j then none else memory_get at j d)
  unfolding memory_get
  memory_get-del at k j d = ground (arith, lookup-remove k j d)

abbrev pub memory : (V : Type 0) → Redis V
memory V = record {
  Store = Dict (V × ℕ);
  get = memory_get;
  set = memory_set;
  set_nx = memory_set_nx;
  del = remove;
  get-set = memory_get-set;
  set_nx-eq = λ now k v ttl s. refl;
  get-del = memory_get-del;
}
