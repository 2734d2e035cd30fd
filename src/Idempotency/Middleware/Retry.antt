-- ===== src/Idempotency/Middleware/Retry.antt =====
-- What the key of a request protects: its runs under the lock and its retries.
use mathlib.Core.Path.{subst, sym, ◌∙◌}
use task_buddy_backend.Prelude.{◌≡◌, ◌≢◌, refl, true, false, none, some, String}
use task_buddy_backend.Idempotency.Http.{
  Request, Response, Served, served, answered, streaming, problem, should_apply_idempotency,
}
use task_buddy_backend.Idempotency.Redis.{absent, Redis, IsRedis}
use task_buddy_backend.Idempotency.Middleware.{
  release_stream_lock, close, rebuilt, Libraries, key_problem, get_user_id, is_oversize, cache_key,
  is_success, is_stream, cache_payload, in_progress_detail, other_body_detail, process,
  execute_keyed, execute_idempotent_request, dispatch_keyed, dispatch,
}
use task_buddy_backend.Idempotency.Middleware.Runs.{
  key_nonempty, runs, processed, streamed, replays, excludes, releases, rejects,
}

module _ {W : Type 0} (lib : Libraries) (redis : Redis W) (call_next : W → Request → Served × W)
    (request : Request) (key user : String) (applies : should_apply_idempotency request ≡ true)
    (keyed : request.idempotency_key ≡ some key) (valid : key_problem lib key ≡ none)
    (known : get_user_id lib request ≡ some user) (small : is_oversize lib request ≡ false) where
  key_reaches :
      (w : W)
      → dispatch_keyed lib redis true call_next w request key
        ≡ execute_keyed lib redis true call_next w (cache_key user key) request
  unfolding dispatch_keyed execute_idempotent_request
  key_reaches w = simp (dispatch_keyed, valid, known, execute_idempotent_request, small)

  -- Every guard passed, the request runs under its cache key.
  pub dispatch_reaches :
      (w : W)
      → dispatch lib redis true call_next w request
        ≡ execute_keyed lib redis true call_next w (cache_key user key) request
  unfolding dispatch
  dispatch_reaches w =
      let nonempty = key_nonempty lib key valid in
      simp (dispatch, applies, keyed, nonempty, key_reaches w)

  module _ (laws : IsRedis redis) (w : W)
      (fresh : redis.fetch w (cache_key user key) ≡ absent) where
    -- For a request that passes the guards under a fresh cache key, with Redis connected and
    -- lawful: if the application, run under the lock, answers 2xx with a body that is no stream,
    -- is stored and is UTF-8 text that encodes back to itself, then `dispatch` answers the
    -- response that Starlette builds of its status, body, media type and headers without repeated
    -- names, and a second `dispatch` of the same request from the world it left answers the same
    -- and leaves that world as it is.
    pub dispatch_replays :
        (w1 w2 : W) (response : Response) (text : String)
        → call_next ((redis.set_nx w (cache_key user key)).1) request ≡ (served response, w1)
        → is_success response ≡ true
        → is_stream response ≡ false
        → redis.store w1 (cache_key user key) (cache_payload lib response (lib.sha256 request.body))
          ≡ some w2
        → lib.decode_utf8 response.body ≡ some text
        → lib.encode_utf8 text ≡ response.body
        → (dispatch lib redis true call_next w request ≡ (answered (rebuilt lib response), w2))
          × (dispatch lib redis true call_next w2 request ≡ (answered (rebuilt lib response), w2))
    dispatch_replays w1 w2 response text call good whole stored decodes encodes =
        let k = cache_key user key in
        (
          dispatch_reaches w
              ∙ runs lib redis call_next laws k request w fresh
              ∙ processed lib redis call_next laws k request ((redis.set_nx w k).1) w1 w2 response
                  call good whole stored,
          dispatch_reaches w2
              ∙ replays lib redis call_next laws k request w1 w2 response text stored decodes
                  encodes,
        )

    -- For a request that passes the guards under a fresh cache key, with Redis connected and
    -- lawful: if the application, run under the lock, raises or answers outside 200 to 299, the
    -- cache key is absent after `dispatch`.
    pub dispatch_releases :
        (w1 : W) (outcome : Served)
        → call_next ((redis.set_nx w (cache_key user key)).1) request ≡ (outcome, w1)
        → ((response : Response) → outcome ≡ served response → is_success response ≡ false)
        → redis.fetch ((dispatch lib redis true call_next w request).1) (cache_key user key)
          ≡ absent
    dispatch_releases w1 outcome call bad =
        let k = cache_key user key in
        subst (λ reply. redis.fetch (reply.1) k ≡ absent)
          (sym (dispatch_reaches w ∙ runs lib redis call_next laws k request w fresh))
          (releases lib redis call_next laws k request ((redis.set_nx w k).1) w1 outcome call bad)

    -- For a request that passes the guards under a fresh cache key, with Redis connected and
    -- lawful: if the application, run under the lock, answers 2xx with an event stream and leaves
    -- the entry of the key as it found it, then `dispatch` answers that response with its iterator
    -- wrapped, a `dispatch` of the same request while it streams answers 409 and leaves the world
    -- as it is, and once the reply is closed, the cache key is absent and a `dispatch` of the
    -- request runs the application under a lock again.
    pub dispatch_streams :
        (w1 : W) (response : Response)
        → call_next ((redis.set_nx w (cache_key user key)).1) request ≡ (served response, w1)
        → is_success response ≡ true
        → is_stream response ≡ true
        → redis.fetch w1 (cache_key user key)
          ≡ redis.fetch ((redis.set_nx w (cache_key user key)).1) (cache_key user key)
        → let first = dispatch lib redis true call_next w request in
          let closed = close lib redis true call_next (first.0) (first.1) in
          (first ≡ (streaming response (cache_key user key), w1))
          × (dispatch lib redis true call_next w1 request ≡ (problem 409 in_progress_detail, w1))
          × (redis.fetch closed (cache_key user key) ≡ absent)
          × (dispatch lib redis true call_next closed request
              ≡ process lib redis true call_next
                  ((redis.set_nx closed (cache_key user key)).1)
                  (cache_key user key)
                  request)
    unfolding close release_stream_lock
    dispatch_streams w1 response called good stream untouched =
        let k = cache_key user key in
        let locked = untouched ∙ (laws.set_nx_absent w k fresh).1 in
        let first =
          dispatch_reaches w
          ∙ runs lib redis call_next laws k request w fresh
          ∙ streamed lib redis call_next laws k request ((redis.set_nx w k).1) w1 response called
              good stream in
        let ended = laws.fetch_delete w1 k in
        (
          first,
          dispatch_reaches w1 ∙ excludes lib redis call_next laws k request w1 locked,
          rw first ended,
          rw first (
              dispatch_reaches (redis.delete w1 k)
              ∙ runs lib redis call_next laws k request (redis.delete w1 k) ended),
        )

    -- For a request that passes the guards under a fresh cache key, with Redis connected and
    -- lawful: a `dispatch` of it in the world in which the lock has just been taken answers 409
    -- and leaves that world as it is.
    pub dispatch_excludes :
        dispatch lib redis true call_next ((redis.set_nx w (cache_key user key)).1) request
        ≡ (problem 409 in_progress_detail, (redis.set_nx w (cache_key user key)).1)
    dispatch_excludes =
        let k = cache_key user key in
        dispatch_reaches ((redis.set_nx w k).1)
        ∙ excludes lib redis call_next laws k request ((redis.set_nx w k).1)
            ((laws.set_nx_absent w k fresh).1)

module _ {W : Type 0} (lib : Libraries) (redis : Redis W) (call_next : W → Request → Served × W)
    (request other : Request) (key user : String)
    (applies : should_apply_idempotency request ≡ true)
    (applies' : should_apply_idempotency other ≡ true) (keyed : request.idempotency_key ≡ some key)
    (keyed' : other.idempotency_key ≡ some key) (valid : key_problem lib key ≡ none)
    (known : get_user_id lib request ≡ some user) (known' : get_user_id lib other ≡ some user)
    (small : is_oversize lib request ≡ false) (small' : is_oversize lib other ≡ false)
    (laws : IsRedis redis) where
  -- For two requests of one user under one key that pass the guards, with Redis connected and
  -- lawful and the cache key fresh: if the application, run under the lock, answers the first one
  -- 2xx with a body that is no stream and is stored, and the hashes of their bodies differ, then
  -- `dispatch` of the first answers the rebuilt response, and `dispatch` of the second from the
  -- world it left answers 422 and leaves that world as it is.
  pub dispatch_rejects :
      (w w1 w2 : W) (response : Response)
      → redis.fetch w (cache_key user key) ≡ absent
      → call_next ((redis.set_nx w (cache_key user key)).1) request ≡ (served response, w1)
      → is_success response ≡ true
      → is_stream response ≡ false
      → redis.store w1 (cache_key user key) (cache_payload lib response (lib.sha256 request.body))
        ≡ some w2
      → lib.sha256 request.body ≢ lib.sha256 other.body
      → (dispatch lib redis true call_next w request ≡ (answered (rebuilt lib response), w2))
        × (dispatch lib redis true call_next w2 other ≡ (problem 422 other_body_detail, w2))
  unfolding cache_payload
  dispatch_rejects w w1 w2 response fresh call good whole stored different =
      let k = cache_key user key in
      (
        dispatch_reaches lib redis call_next request key user applies keyed valid known small w
            ∙ runs lib redis call_next laws k request w fresh
            ∙ processed lib redis call_next laws k request ((redis.set_nx w k).1) w1 w2 response
                call good whole stored,
        dispatch_reaches lib redis call_next other key user applies' keyed' valid known' small' w2
            ∙ rejects lib redis call_next k other w2
                (cache_payload lib response (lib.sha256 request.body)) (lib.sha256 request.body)
                (laws.fetch_store w1 w2 k (cache_payload lib response (lib.sha256 request.body))
                  stored)
                refl different,
      )
