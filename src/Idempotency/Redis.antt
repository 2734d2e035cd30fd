-- ===== src/Idempotency/Redis.antt =====
-- The Redis client that app/middleware/idempotency.py calls, as an interface with its documented laws.
use task_buddy_backend.Prelude.{ℕ, ◌≡◌, Bool, true, false, Option, some, List, String}

-- A response as `_handle_response` stores it.
pub record Cached : Type 0 where
  pub status_code : ℕ
  pub body : String
  pub body_hash : Option String
  pub headers : List (String × String)
  pub media_type : Option String

-- A stored value after `json.loads`.
pub data Entry : Type 0 where
  in_progress : Entry
  cached : Cached → Entry
  malformed : Entry

-- What `get` does: it raises, finds no key, or finds a value.
pub data Fetched : Type 0 where
  unavailable : Fetched
  absent : Fetched
  found : Entry → Fetched

pub record Redis (W : Type 0) : Type 0 where
  pub fetch : W → String → Fetched
  -- `set(key, "IN_PROGRESS", ex=120, nx=True)`, false if it raises
  pub set_nx : W → String → Bool × W
  -- `set(key, value, ex=TTL)`, nothing if it raises
  pub store : W → String → Cached → Option W
  pub delete : W → String → W

-- The documented behaviour of GET, SET, SET NX and DEL on one key, with no expiry in between.
pub record IsRedis {W : Type 0} (r : Redis W) : Type 0 where
  pub set_nx_absent :
      (w : W) (k : String)
      → r.fetch w k ≡ absent
      → ((r.set_nx w k).0 ≡ true) × (r.fetch ((r.set_nx w k).1) k ≡ found in_progress)
  pub set_nx_found :
      (w : W) (k : String) (e : Entry) → r.fetch w k ≡ found e → r.set_nx w k ≡ (false, w)
  pub fetch_store :
      (w w' : W) (k : String) (c : Cached)
      → r.store w k c ≡ some w'
      → r.fetch w' k ≡ found (cached c)
  pub fetch_delete : (w : W) (k : String) → r.fetch (r.delete w k) k ≡ absent
