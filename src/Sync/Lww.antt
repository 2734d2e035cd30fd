-- ===== src/Sync/Lww.antt =====
-- app/sync/lww.py: which fields a client may write, which values they take, and who wins.
-- `datetime.fromisoformat` is a parameter: whether it accepts a text, given by its code points.
pub mod Valid
use Prim.Native.Char.{code}
use task_buddy_backend.Prelude.{
  ℕ, suc, ltb, ◌==◌, String, Bool, true, false, not, ◌&&◌, Option, none, some, List, [], ◌∷◌, any,
  str_eq, if◌then◌else◌, Result, ok, value_error,
}
use task_buddy_backend.Json.{Json, Fields}

pub data SyncEntity : Type 0 where
  task subtask project : SyncEntity

-- `k in names`
abbrev pub in_names : List String → String → Bool
in_names names k = any (λ n. str_eq n k) names

abbrev pub model_whitelist : SyncEntity → List String
model_whitelist SyncEntity.task =
    "project_id" ∷ "title" ∷ "description" ∷ "completed" ∷ "priority" ∷ "due_date" ∷ []
model_whitelist SyncEntity.subtask =
    "task_id" ∷ "title" ∷ "description" ∷ "completed" ∷ "due_date" ∷ "position" ∷ []
model_whitelist SyncEntity.project = "name" ∷ "color" ∷ "icon" ∷ "position" ∷ []

abbrev pub nullable : SyncEntity → List String
nullable SyncEntity.task = "project_id" ∷ "description" ∷ "due_date" ∷ []
nullable SyncEntity.subtask = "description" ∷ "due_date" ∷ []
nullable SyncEntity.project = []

pub data FieldType : Type 0 where
  int_type str_type bool_type : FieldType

abbrev pub lookup {ℓ} : {A : Type ℓ} → String → List (String × A) → Option A
lookup k [] = none
lookup k ((j, a) ∷ d) = if str_eq j k then some a else lookup k d

abbrev pub field_types : SyncEntity → List (String × FieldType)
field_types SyncEntity.task =
    ("project_id", int_type)
    ∷ ("title", str_type)
    ∷ ("description", str_type)
    ∷ ("completed", bool_type)
    ∷ ("priority", str_type)
    ∷ ("due_date", str_type)
    ∷ []
field_types SyncEntity.subtask =
    ("task_id", int_type)
    ∷ ("title", str_type)
    ∷ ("description", str_type)
    ∷ ("completed", bool_type)
    ∷ ("due_date", str_type)
    ∷ ("position", int_type)
    ∷ []
field_types SyncEntity.project =
    ("name", str_type) ∷ ("color", str_type) ∷ ("icon", str_type) ∷ ("position", int_type) ∷ []

abbrev pub string_limits : SyncEntity → List (String × ℕ)
string_limits SyncEntity.task = ("title", 255) ∷ ("description", 10000) ∷ ("priority", 16) ∷ []
string_limits SyncEntity.subtask = ("title", 255) ∷ ("description", 10000) ∷ []
string_limits SyncEntity.project = ("name", 100) ∷ ("color", 50) ∷ ("icon", 50) ∷ []

abbrev pub priorities : List String
priorities = "LOW" ∷ "MEDIUM" ∷ "HIGH" ∷ []

-- A `datetime`: its instant, in microseconds from year 1, and whether it names its zone.
pub record DateTime : Type 0 where
  pub instant : ℕ
  pub is_aware : Bool

unfoldable pub decide_apply : DateTime → Option DateTime → Result Bool
decide_apply client none =
    if client.is_aware
    then value_error "server_ts must not be None; absence is not_found"
    else value_error "client_ts must be timezone-aware"
decide_apply client (some server) =
    if not client.is_aware
    then value_error "client_ts must be timezone-aware"
    else if not server.is_aware
    then value_error "server_ts must be timezone-aware"
    else if client.instant == server.instant
    then ok false
    else ok (ltb server.instant client.instant)

-- The whitelisted fields of a payload.
unfoldable pub merge_payload : List String → Fields → Fields
merge_payload whitelist Fields.end = Fields.end
merge_payload whitelist (Fields.field k v d) =
    let rest = merge_payload whitelist d in
    if in_names whitelist k then Fields.field k v rest else rest

pub data Fault : Type 0 where
  must_not_be_null wrong_type too_long invalid_datetime unknown_priority : Fault

-- `isinstance(value, expected)`: a Python `bool` is an `int` too.
abbrev pub is_instance : FieldType → Json → Bool
is_instance int_type (Json.int n) = true
is_instance int_type (Json.bool b) = true
is_instance str_type (Json.str s) = true
is_instance bool_type (Json.bool b) = true
is_instance _ _ = false

-- `len(s)`
abbrev pub chars : String → ℕ
chars String.[] = 0
chars (String.◌∷◌ c s) = suc (chars s)

-- The code points of `s.replace("Z", "+00:00")`.
abbrev pub iso_codes : String → List ℕ
iso_codes String.[] = []
iso_codes (String.◌∷◌ c s) =
    let rest = iso_codes s in
    if code c == b'Z' then b'+' ∷ b'0' ∷ b'0' ∷ b':' ∷ b'0' ∷ b'0' ∷ rest else code c ∷ rest

module _ (fromisoformat : List ℕ → Bool) where
  -- `_validate_string_field`: the first fault, or none.
  string_fault : SyncEntity → String → String → Option Fault
  string_fault e key value =
      if elim (lookup key (string_limits e)) [ none ↦ false | some n ↦ ltb n (chars value) ]
      then some too_long
      else if str_eq key "due_date" && not (fromisoformat (iso_codes value))
      then some invalid_datetime
      else if str_eq key "priority" && not (in_names priorities value)
      then some unknown_priority
      else none

  unfoldable pub text_fault : SyncEntity → String → Json → Option Fault
  unfolding string_fault
  text_fault e key (Json.str s) = string_fault e key s
  text_fault e key _ = none

  -- Every field on a whitelist has a type, so the lookup finds one.
  unfoldable pub typed_fault : SyncEntity → String → Json → Option Fault
  unfolding string_fault text_fault
  typed_fault e key value = elim (lookup key (field_types e)) [
    | none ↦ some wrong_type
    | some expected ↦ if is_instance expected value then text_fault e key value else some wrong_type
  ]

  -- `_validate_field`
  unfoldable pub field_fault : SyncEntity → String → Json → Option Fault
  unfolding string_fault text_fault typed_fault
  field_fault e key Json.null = if in_names (nullable e) key then none else some must_not_be_null
  field_fault e key value = typed_fault e key value

  -- `validate_payload`: the first invalid field and what is wrong with it, or none.
  unfoldable pub validate_payload : Fields → SyncEntity → Option (String × Fault)
  validate_payload Fields.end e = none
  validate_payload (Fields.field k v d) e =
      let rest = validate_payload d e in
      if in_names (model_whitelist e) k
      then elim (field_fault e k v) [ none ↦ rest | some f ↦ some (k, f) ]
      else rest
