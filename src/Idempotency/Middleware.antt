-- ===== src/Idempotency/Middleware.antt =====
-- `IdempotencyMiddleware` of app/middleware/idempotency.py.
pub mod Runs
pub mod Retry
mod Examples
use Prim.Native.Char.{code}
use Prim.Native.String.{◌++◌ as append}
use task_buddy_backend.Prelude.{
  ℕ, zero, suc, ◌≡◌, Bool, true, false, not, ◌&&◌, ◌||◌, Option, none, some, List, [], ◌∷◌, String,
  ℤ, pos, ltb, leb, ltb_ℤ, ◌==◌, str_eq, length, if◌then◌else◌,
}
use task_buddy_backend.Json.{Json, Fields, get, truthy}
use task_buddy_backend.Idempotency.Http.{
  Request, Response, Served, served, failed, Reply, answered, streaming, problem, raised, after,
  first_word, lower_starts, header, dict_of, should_apply_idempotency,
}
use task_buddy_backend.Idempotency.Redis.{
  Cached, Entry, in_progress, cached, malformed, Fetched, unavailable, absent, found, Redis,
}

abbrev pub max_body_bytes : ℕ
max_body_bytes = 1048576

abbrev pub in_progress_detail : String
in_progress_detail = "Request already in progress with this idempotency key."

abbrev pub other_body_detail : String
other_body_detail = "Idempotency key was already used with a different request body."

abbrev pub is_hex : ℕ → Bool
is_hex n = (leb 48 n && leb n 57) || (leb 65 n && leb n 70) || (leb 97 n && leb n 102)

-- `n` hexadecimal digits, then the end of the text; `$` also stands before a last newline.
abbrev pub hex_digits : ℕ → String → Bool
hex_digits zero String.[] = true
hex_digits zero (String.◌∷◌ c String.[]) = code c == 10
hex_digits zero (String.◌∷◌ c (String.◌∷◌ d s)) = false
hex_digits (suc n) String.[] = false
hex_digits (suc n) (String.◌∷◌ c s) = is_hex (code c) && hex_digits n s

abbrev pub chars : String → ℕ
chars String.[] = 0
chars (String.◌∷◌ c s) = suc (chars s)

-- The libraries that the middleware calls.
pub record Libraries : Type 0 where
  -- whether `uuid.UUID(s)` returns
  pub is_uuid : String → Bool
  -- `int(s)`, nothing on a `ValueError`
  pub int_of : String → Option ℤ
  -- `hashlib.sha256(b).hexdigest()`
  pub sha256 : List ℕ → String
  -- `jwt.decode`, nothing on an `InvalidTokenError`
  pub jwt_decode : String → Option Fields
  -- `str(value)` of a claim
  pub str_of : Json → String
  pub decode_utf8 : List ℕ → Option String
  pub encode_utf8 : String → List ℕ
  -- `bytes.hex()`
  pub hex : List ℕ → String
  -- Starlette's `Response(content, status_code, headers, media_type)`, which renders the headers
  pub make_response : ℕ → List ℕ → List (String × String) → Option String → Response

-- `_get_user_id`
unfoldable pub token_of : Request → Option String
token_of request = elim request.authorization [
  | none ↦ request.access_token
  | some line ↦ elim (after "Bearer " line) [
    | none ↦ request.access_token
    | some rest ↦ some (first_word rest)
  ]
]

unfoldable pub user_of : Libraries → Option String → Option String
user_of lib none = none
user_of lib (some token) =
    let claims = lib.jwt_decode token in
    if chars token == 0 then none else elim claims [
      | none ↦ none
      | some payload ↦ elim (get "sub" payload) [
        | none ↦ none
        | some sub ↦ if truthy sub then some (lib.str_of sub) else none
      ]
    ]

unfoldable pub get_user_id : Libraries → Request → Option String
unfolding token_of user_of
get_user_id lib request = user_of lib (token_of request)

abbrev pub or_hex : Option String → String → String
or_hex (some t) hex = t
or_hex none hex = hex

-- The entry that `_handle_response` stores.
unfoldable pub cache_payload : Libraries → Response → String → Cached
cache_payload lib response body_hash = record {
  status_code = response.status_code;
  body = or_hex (lib.decode_utf8 response.body) (lib.hex response.body);
  body_hash = some body_hash;
  headers = dict_of response.headers;
  media_type = response.media_type;
}

-- The response that `_handle_response` answers in place of one whose body it has consumed.
unfoldable pub rebuilt : Libraries → Response → Response
rebuilt lib response =
    lib.make_response response.status_code response.body (dict_of response.headers)
      response.media_type

-- The response that a cached entry replays.
unfoldable pub replay : Libraries → Cached → Response
replay lib c = lib.make_response c.status_code (lib.encode_utf8 c.body) c.headers c.media_type

abbrev pub differs : Option String → String → Bool
differs none hash = false
differs (some h) hash = not (str_eq h hash)

-- `_get_cached_response`
unfoldable pub get_cached_response : Libraries → Fetched → String → Option Reply
unfolding replay
get_cached_response lib unavailable body_hash = none
get_cached_response lib absent body_hash = none
get_cached_response lib (found malformed) body_hash = none
get_cached_response lib (found in_progress) body_hash = some (problem 409 in_progress_detail)
get_cached_response lib (found (cached c)) body_hash =
    if differs c.body_hash body_hash
    then some (problem 422 other_body_detail)
    else some (answered (replay lib c))

abbrev pub is_success : Response → Bool
is_success response = not (ltb response.status_code 200 || leb 300 response.status_code)

abbrev pub is_stream : Response → Bool
is_stream response = lower_starts (header "content-type" response.headers) "text/event-stream"

-- The test of the `content-length` header.
abbrev pub declares_oversize : Libraries → Option String → Bool
declares_oversize lib none = false
declares_oversize lib (some text) = elim (lib.int_of text) [
  | none ↦ false
  | some n ↦ ltb_ℤ (pos max_body_bytes) n
]

abbrev pub is_oversize : Libraries → Request → Bool
is_oversize lib request =
    declares_oversize lib request.content_length || ltb max_body_bytes (length request.body)

unfoldable pub cache_key : String → String → String
cache_key user_id idempotency_key =
    append "idempotency:" (append user_id (append ":" idempotency_key))

-- The checks of `dispatch` on a key that is present.
unfoldable pub key_problem : Libraries → String → Option String
key_problem lib key =
    if ltb (chars key) 8
    then some "Invalid X-Idempotency-Key format. Must be at least 8 characters."
    else if lib.is_uuid key || hex_digits 64 key
    then none
    else some "Invalid X-Idempotency-Key format. Must be a valid UUID or SHA-256 hash."

module _ {W : Type 0} (lib : Libraries) (redis : Redis W) (is_connected : Bool)
    (call_next : W → Request → Served × W) where
  -- `call_next` with nothing around it
  unfoldable pub pass_on : W → Request → Reply × W
  pass_on w request =
      let (outcome, w') = call_next w request in
      elim outcome [ served response ↦ (answered response, w') | failed e ↦ (raised e, w') ]

  -- `_handle_response`; a stream keeps the lock, and its iterator is wrapped.
  unfoldable pub handle_response : W → String → Response → String → Reply × W
  unfolding cache_payload rebuilt
  handle_response w key response body_hash =
      if not (is_success response)
      then (answered response, redis.delete w key)
      else if is_stream response
      then (streaming response key, w)
      else elim (redis.store w key (cache_payload lib response body_hash)) [
        | none ↦ (raised "redis", redis.delete w key)
        | some w' ↦ (answered (rebuilt lib response), w')
      ]

  -- The `finally` of the wrapped iterator, however the stream ends.
  unfoldable pub release_stream_lock : W → String → W
  release_stream_lock w key = redis.delete w key

  -- A reply that the server has sent to its end, or whose client has gone.
  unfoldable pub close : Reply → W → W
  unfolding release_stream_lock
  close (streaming response key) w = release_stream_lock w key
  close (answered response) w = w
  close (problem status detail) w = w
  close (raised e) w = w

  -- The `try` block under the lock.
  unfoldable pub process : W → String → Request → Reply × W
  unfolding handle_response
  process w key request =
      let (outcome, w') = call_next w request in
      elim outcome [
        | served response ↦ handle_response w' key response (lib.sha256 request.body)
        | failed e ↦ (raised e, redis.delete w' key)
      ]

  -- After a failed SET NX.
  unfoldable pub check_again : W → String → String → Reply
  unfolding get_cached_response
  check_again w key body_hash = elim (get_cached_response lib (redis.fetch w key) body_hash) [
    | some reply ↦ reply
    | none ↦ problem 409 in_progress_detail
  ]

  -- `_execute_idempotent_request` from the cache test on
  unfoldable pub execute_keyed : W → String → Request → Reply × W
  unfolding get_cached_response process check_again
  execute_keyed w key request =
      let hash = lib.sha256 request.body in
      elim (get_cached_response lib (redis.fetch w key) hash) [
        | some reply ↦ (reply, w)
        | none ↦
            let (locked, w') = redis.set_nx w key in
            elim locked [ true ↦ process w' key request | false ↦ (check_again w' key hash, w') ]
      ]

  unfoldable pub execute_idempotent_request : W → Request → String → String → Reply × W
  unfolding pass_on cache_key execute_keyed
  execute_idempotent_request w request user_id idempotency_key =
      if not is_connected || is_oversize lib request
      then pass_on w request
      else execute_keyed w (cache_key user_id idempotency_key) request

  unfoldable pub dispatch_keyed : W → Request → String → Reply × W
  unfolding key_problem get_user_id execute_idempotent_request
  dispatch_keyed w request key = elim (key_problem lib key) [
    | some detail ↦ (problem 400 detail, w)
    | none ↦ elim (get_user_id lib request) [
      | none ↦ pass_on w request
      | some user_id ↦ execute_idempotent_request w request user_id key
    ]
  ]

  unfoldable pub dispatch : W → Request → Reply × W
  unfolding should_apply_idempotency dispatch_keyed
  dispatch w request =
      if not (should_apply_idempotency request)
      then pass_on w request
      else elim request.idempotency_key [
        | none ↦ pass_on w request
        | some key ↦ if chars key == 0 then pass_on w request else dispatch_keyed w request key
      ]
