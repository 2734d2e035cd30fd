-- ===== src/Idempotency/Middleware/Runs.antt =====
-- The runs of app/middleware/idempotency.py under a cache key, past the guards of a request.
use mathlib.Core.Path.{ap}
use task_buddy_backend.Prelude.{
  ◌≡◌, ◌≢◌, refl, inl, inr, true, false, none, some, String, arith, str_eq, eq_iff, ltb, ◌==◌,
  Bool-cases,
}
use task_buddy_backend.Idempotency.Http.{
  Request, Response, Served, served, failed, answered, streaming, problem, dict_of,
}
use task_buddy_backend.Idempotency.Redis.{
  Cached, in_progress, cached, absent, found, Redis, IsRedis,
}
use task_buddy_backend.Idempotency.Middleware.{
  rebuilt, Libraries, key_problem, chars, is_success, is_stream, cache_payload, replay, differs,
  get_cached_response, in_progress_detail, other_body_detail, handle_response, process,
  execute_keyed,
}

str_eq_refl : (s : String) → str_eq s s ≡ true
str_eq_refl s = (eq_iff s s).1 refl

-- An entry that a run has stored fits the body of that run.
pub own_hash :
    (lib : Libraries) (response : Response) (hash : String)
    → differs (cache_payload lib response hash).body_hash hash ≡ false
unfolding cache_payload
own_hash lib response hash = rw (str_eq_refl hash) refl

pub key_nonempty :
    (lib : Libraries) (key : String) → key_problem lib key ≡ none → (chars key == 0) ≡ false
unfolding key_problem
key_nonempty lib key h = elim (Bool-cases (ltb (chars key) 8)) [
  | inl short ↦ absurd (ground (arith, h, short))
  | inr long ↦ ground (arith, long)
]

-- The replay of a response with a text body is the response that the first run answered.
replay_text :
    (lib : Libraries) (response : Response) (hash text : String)
    → lib.decode_utf8 response.body ≡ some text
    → lib.encode_utf8 text ≡ response.body
    → replay lib (cache_payload lib response hash) ≡ rebuilt lib response
unfolding cache_payload replay rebuilt
replay_text lib response hash text d e = rw d (
    ap
      (λ b. lib.make_response response.status_code b (dict_of response.headers) response.media_type)
      e)

module _ {W : Type 0} (lib : Libraries) (redis : Redis W) (call_next : W → Request → Served × W)
    (laws : IsRedis redis) (k : String) (request : Request) where
  pub runs :
      (w : W)
      → redis.fetch w k ≡ absent
      → execute_keyed lib redis true call_next w k request
        ≡ process lib redis true call_next ((redis.set_nx w k).1) k request
  unfolding execute_keyed get_cached_response
  runs w fresh = simp (execute_keyed, fresh, (laws.set_nx_absent w k fresh).0)

  pub processed :
      (w w1 w2 : W) (response : Response)
      → call_next w request ≡ (served response, w1)
      → is_success response ≡ true
      → is_stream response ≡ false
      → redis.store w1 k (cache_payload lib response (lib.sha256 request.body)) ≡ some w2
      → process lib redis true call_next w k request ≡ (answered (rebuilt lib response), w2)
  unfolding process handle_response
  processed w w1 w2 response call good whole stored =
      simp (process, call, handle_response, good, whole, stored)

  pub streamed :
      (w w1 : W) (response : Response)
      → call_next w request ≡ (served response, w1)
      → is_success response ≡ true
      → is_stream response ≡ true
      → process lib redis true call_next w k request ≡ (streaming response k, w1)
  unfolding process handle_response
  streamed w w1 response called good stream = simp (process, called, handle_response, good, stream)

  pub replays :
      (w1 w2 : W) (response : Response) (text : String)
      → redis.store w1 k (cache_payload lib response (lib.sha256 request.body)) ≡ some w2
      → lib.decode_utf8 response.body ≡ some text
      → lib.encode_utf8 text ≡ response.body
      → execute_keyed lib redis true call_next w2 k request ≡ (answered (rebuilt lib response), w2)
  unfolding execute_keyed
  replays w1 w2 response text stored decodes encodes = simp (
    execute_keyed,
    laws.fetch_store w1 w2 k (cache_payload lib response (lib.sha256 request.body)) stored,
    own_hash lib response (lib.sha256 request.body),
    replay_text lib response (lib.sha256 request.body) text decodes encodes,
  )

  pub excludes :
      (w : W)
      → redis.fetch w k ≡ found in_progress
      → execute_keyed lib redis true call_next w k request ≡ (problem 409 in_progress_detail, w)
  unfolding execute_keyed get_cached_response
  excludes w locked = simp (execute_keyed, locked)

  pub releases :
      (w w1 : W) (outcome : Served)
      → call_next w request ≡ (outcome, w1)
      → ((response : Response) → outcome ≡ served response → is_success response ≡ false)
      → redis.fetch ((process lib redis true call_next w k request).1) k ≡ absent
  unfolding process handle_response
  releases w w1 (served response) call bad =
      simp (process, call, handle_response, bad response refl) (laws.fetch_delete w1 k)
  releases w w1 (failed e) call bad = simp (process, call) (laws.fetch_delete w1 k)

str_eq_other : (s t : String) → s ≢ t → str_eq s t ≡ false
str_eq_other s t other = elim (Bool-cases (str_eq s t)) [
  | inl same ↦ absurd (other ((eq_iff s t).0 same))
  | inr e ↦ e
]

pub rejects :
    {W : Type 0} (lib : Libraries) (redis : Redis W) (call_next : W → Request → Served × W)
    (k : String) (request : Request) (w : W) (c : Cached) (hash : String)
    → redis.fetch w k ≡ found (cached c)
    → c.body_hash ≡ some hash
    → hash ≢ lib.sha256 request.body
    → execute_keyed lib redis true call_next w k request ≡ (problem 422 other_body_detail, w)
unfolding execute_keyed get_cached_response
rejects lib redis call_next k request w c hash stored with_hash other = simp (
  execute_keyed,
  stored,
  get_cached_response,
  with_hash,
  str_eq_other hash (lib.sha256 request.body) other,
)
