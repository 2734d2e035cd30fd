-- ===== src/Idempotency/Http.antt =====
-- Requests and responses, as far as app/middleware/idempotency.py reads them.
use Prim.Native.Char.{code}
use task_buddy_backend.Prelude.{
  ℕ, ◌+◌, Bool, true, false, ◌&&◌, Option, none, some, List, [], ◌∷◌, String, leb, ◌==◌, str_eq,
  any, if◌then◌else◌,
}

pub record Request : Type 0 where
  pub method : String
  pub path : String
  pub idempotency_key : Option String
  pub authorization : Option String
  pub access_token : Option String
  pub content_length : Option String
  pub body : List ℕ

pub record Response : Type 0 where
  pub status_code : ℕ
  pub body : List ℕ
  pub headers : List (String × String)
  pub media_type : Option String

-- What the application does with a request: it answers or raises.
pub data Served : Type 0 where
  served : Response → Served
  failed : String → Served

-- What the middleware does: a response, one of its own error responses, or an exception.
pub data Reply : Type 0 where
  answered : Response → Reply
  -- a response whose body iterator is wrapped: its end deletes the key
  streaming : Response → String → Reply
  problem : ℕ → String → Reply
  raised : String → Reply

-- `s.rstrip("/")`
abbrev pub rstrip_slash : String → String
rstrip_slash String.[] = String.[]
rstrip_slash (String.◌∷◌ c s) = elim (rstrip_slash s) [
  | String.[] ↦ if code c == 47 then String.[] else String.◌∷◌ c String.[]
  | String.◌∷◌ d r ↦ String.◌∷◌ c (String.◌∷◌ d r)
]

-- The rest of `s` after a prefix.
abbrev pub after : String → String → Option String
after String.[] s = some s
after (String.◌∷◌ c p) String.[] = none
after (String.◌∷◌ c p) (String.◌∷◌ d s) =
    let rest = after p s in if code c == code d then rest else none

-- The text up to the first space.
abbrev pub first_word : String → String
first_word String.[] = String.[]
first_word (String.◌∷◌ c s) =
    let rest = first_word s in if code c == 32 then String.[] else String.◌∷◌ c rest

abbrev pub lower_code : ℕ → ℕ
lower_code n = if leb 65 n && leb n 90 then n + 32 else n

-- `s.lower().startswith(p)` for ASCII texts, `p` in lower case
abbrev pub lower_starts : String → String → Bool
lower_starts s String.[] = true
lower_starts String.[] (String.◌∷◌ c p) = false
lower_starts (String.◌∷◌ d s) (String.◌∷◌ c p) = (lower_code (code d) == code c) && lower_starts s p

-- `headers.get(name, "")`
abbrev pub header : String → List (String × String) → String
header name [] = ""
header name ((k, v) ∷ hs) = let rest = header name hs in if str_eq k name then v else rest

abbrev pub without : String → List (String × String) → List (String × String)
without name [] = []
without name ((k, v) ∷ hs) =
    let rest = without name hs in if str_eq k name then rest else (k, v) ∷ rest

-- `dict(headers)`: a name that stands twice keeps its first value. ASGI spells names in lower case.
abbrev pub dict_of : List (String × String) → List (String × String)
dict_of [] = []
dict_of ((k, v) ∷ hs) = (k, v) ∷ without k (dict_of hs)

abbrev pub excluded_paths : List String
excluded_paths =
    "/api/v1/users/token" ∷ "/api/v1/users/register" ∷ "/api/v1/users/forgot-password"
    ∷ "/api/v1/users/reset-password" ∷ "/api/v1/users/resend-confirmation" ∷ []

-- `_should_apply_idempotency`
unfoldable pub should_apply_idempotency : Request → Bool
should_apply_idempotency request =
    if str_eq request.method "POST"
    then elim (any (λ p. str_eq p (rstrip_slash request.path)) excluded_paths) [
      | true ↦ false
      | false ↦ true
    ]
    else false
