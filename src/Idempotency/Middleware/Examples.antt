-- ===== src/Idempotency/Middleware/Examples.antt =====
-- A store with one request in flight, and the theorems on it.
use mathlib.Core.Path.{subst, sym}
use task_buddy_backend.Prelude.{
  ℕ, suc, ◌≡◌, ◌≢◌, refl, Bool, true, false, Option, none, some, [], ◌∷◌, String, str_eq, eq_iff,
  if◌then◌else◌,
}
use task_buddy_backend.Json.{Json, Fields}
use task_buddy_backend.Idempotency.Http.{
  Request, Response, Reply, Served, served, failed, answered, streaming, problem,
  should_apply_idempotency,
}
use task_buddy_backend.Idempotency.Redis.{
  Entry, in_progress, cached, Fetched, absent, found, Redis, IsRedis,
}
use task_buddy_backend.Idempotency.Middleware.{
  close, process, rebuilt, Libraries, cache_key, key_problem, token_of, user_of, get_user_id,
  cache_payload, in_progress_detail, other_body_detail, dispatch,
}
use task_buddy_backend.Idempotency.Middleware.Retry.{
  dispatch_streams, dispatch_replays, dispatch_releases, dispatch_rejects,
}

-- A world: how often the application ran, and the entry of each key.
abbrev World : Type 0
World = ℕ × (String → Option Entry)

abbrev as_fetched : Option Entry → Fetched
as_fetched none = absent
as_fetched (some e) = found e

abbrev write_entry : String → Option Entry → World → World
write_entry k e (n, store) = (n, λ j. if str_eq j k then e else store j)

abbrev lock_entry : World → String → Option Entry → Bool × World
lock_entry w k none = (true, write_entry k (some in_progress) w)
lock_entry w k (some e) = (false, w)

abbrev memory : Redis World
memory = record {
  fetch = λ w k. as_fetched (w.1 k);
  set_nx = λ w k. lock_entry w k (w.1 k);
  store = λ w k c. some (write_entry k (some (cached c)) w);
  delete = λ w k. write_entry k none w;
}

str_eq_same : (k : String) → str_eq k k ≡ true
str_eq_same k = (eq_iff k k).1 refl

fetch-write_entry :
    (k : String) (e : Option Entry) (w : World) → memory.fetch (write_entry k e w) k ≡ as_fetched e
fetch-write_entry k e (n, store) = rw (str_eq_same k) refl

some_of_absent : (e : Option Entry) → as_fetched e ≡ absent → e ≡ none
some_of_absent none h = refl
some_of_absent (some e) h = absurd (cc)

some_of_found : (e : Option Entry) (x : Entry) → as_fetched e ≡ found x → e ≡ some x
some_of_found none x h = absurd (cc)
some_of_found (some e) x h = cc

some_world : (a b : World) → some a ≡ some b → a ≡ b
some_world a b h = cc

memory-IsRedis : IsRedis memory
memory-IsRedis = record {
  set_nx_absent =
      λ w k h. rw (some_of_absent (w.1 k) h) (refl, fetch-write_entry k (some in_progress) w);
  set_nx_found = λ w k e h. rw (some_of_found (w.1 k) e h) refl;
  fetch_store = λ w w' k c h.
      subst (λ x. memory.fetch x k ≡ found (cached c))
        (some_world (write_entry k (some (cached c)) w) w' h)
        (fetch-write_entry k (some (cached c)) w);
  fetch_delete = λ w k. fetch-write_entry k none w;
}

abbrev libraries : Libraries
libraries = record {
  is_uuid = λ s. true;
  int_of = λ s. none;
  sha256 = λ bytes. elim bytes [ [] ↦ "0" | b ∷ bs ↦ "1" ];
  jwt_decode = λ token. some (Fields.field "sub" (Json.str "ann") Fields.end);
  str_of = λ v. "ann";
  decode_utf8 = λ bytes. some "ok";
  encode_utf8 = λ s. 111 ∷ 107 ∷ [];
  hex = λ bytes. "";
  make_response = λ status content headers media. record {
    status_code = status;
    body = content;
    headers = headers;
    media_type = media;
  };
}

abbrev request : Request
request = record {
  method = "POST";
  path = "/api/v1/tasks/";
  idempotency_key = some "a-key-of-a-client";
  authorization = some "Bearer token";
  access_token = none;
  content_length = none;
  body = 123 ∷ 125 ∷ [];
}

abbrev response : Response
response = record {
  status_code = 201;
  body = 111 ∷ 107 ∷ [];
  headers = ("set-cookie", "a=1") ∷ ("vary", "Origin") ∷ ("set-cookie", "b=2") ∷ [];
  media_type = none;
}

-- The second cookie is lost.
test-rebuilt :
    (rebuilt libraries response).headers ≡ ("set-cookie", "a=1") ∷ ("vary", "Origin") ∷ []
unfolding rebuilt
test-rebuilt = refl

-- The application counts its runs.
abbrev application : World → Request → Served × World
application (n, store) r = (served response, (suc n, store))

-- An application that always raises.
abbrev broken : World → Request → Served × World
broken (n, store) r = (failed "boom", (suc n, store))

abbrev empty_world : World
empty_world = (0, λ k. none)

abbrev key : String
key = cache_key "ann" "a-key-of-a-client"

applies : should_apply_idempotency request ≡ true
unfolding should_apply_idempotency
applies = refl

valid : key_problem libraries "a-key-of-a-client" ≡ none
unfolding key_problem
valid = refl

known : get_user_id libraries request ≡ some "ann"
unfolding get_user_id token_of user_of
known = refl

abbrev locked : World
locked = (memory.set_nx empty_world key).1

abbrev ran : World
ran = (application locked request).1

abbrev stored : World
stored = write_entry key (some (cached (cache_payload libraries response "1"))) ran

dispatch_replays_example :
    (dispatch libraries memory true application empty_world request
      ≡ (answered (rebuilt libraries response), stored))
    × (dispatch libraries memory true application stored request
        ≡ (answered (rebuilt libraries response), stored))
dispatch_replays_example =
    dispatch_replays libraries memory application request "a-key-of-a-client" "ann" applies refl
      valid known refl memory-IsRedis empty_world refl ran stored response "ok" refl refl refl refl
      refl refl

dispatch_releases_example :
    memory.fetch ((dispatch libraries memory true broken empty_world request).1) key ≡ absent
dispatch_releases_example =
    dispatch_releases libraries memory broken request "a-key-of-a-client" "ann" applies refl valid
      known refl memory-IsRedis empty_world refl ((broken locked request).1) (failed "boom") refl
      (λ r h. absurd (cc))

-- A stream of events, which leaves the world as it is.
abbrev events : Response
events = record {
  status_code = 200;
  body = [];
  headers = ("content-type", "Text/Event-Stream; charset=utf-8") ∷ [];
  media_type = none;
}

abbrev streamer : World → Request → Served × World
streamer w r = (served events, w)

abbrev begun : Reply × World
begun = dispatch libraries memory true streamer empty_world request

abbrev closed : World
closed = close libraries memory true streamer (begun.0) (begun.1)

dispatch_streams_example :
    (begun ≡ (streaming events key, locked))
    × (dispatch libraries memory true streamer locked request
        ≡ (problem 409 in_progress_detail, locked))
    × (memory.fetch closed key ≡ absent)
    × (dispatch libraries memory true streamer closed request
        ≡ process libraries memory true streamer ((memory.set_nx closed key).1) key request)
dispatch_streams_example =
    dispatch_streams libraries memory streamer request "a-key-of-a-client" "ann" applies refl valid
      known refl memory-IsRedis empty_world refl locked events refl refl refl refl

-- Another request under the same key.
abbrev other : Request
other = record request { body = [] }

other_applies : should_apply_idempotency other ≡ true
unfolding should_apply_idempotency
other_applies = refl

other_known : get_user_id libraries other ≡ some "ann"
unfolding get_user_id token_of user_of
other_known = refl

other_hash : ◌≢◌ {A = String} "1" "0"
other_hash h = absurd (true_is_false (sym ((eq_iff "1" "0").1 h)))
  where
    true_is_false : true ≡ false → ⊥
    true_is_false e = cc

dispatch_rejects_example :
    (dispatch libraries memory true application empty_world request
      ≡ (answered (rebuilt libraries response), stored))
    × (dispatch libraries memory true application stored other
        ≡ (problem 422 other_body_detail, stored))
dispatch_rejects_example =
    dispatch_rejects libraries memory application request other "a-key-of-a-client" "ann" applies
      other_applies refl refl valid known other_known refl refl memory-IsRedis empty_world ran
      stored response refl refl refl refl refl other_hash
