-- ===== src/Sync/Lww/Valid.antt =====
-- The validation of app/sync/lww.py, and the order of stamps that decides who wins.
use task_buddy_backend.Prelude.{
  ℕ, ◌<◌, ◌≡◌, ◌↔◌, inl, inr, Bool, true, none, some, List, String, arith, Bool-cases, Option-cases,
  ok,
}
use task_buddy_backend.Json.{Json, Fields}
use task_buddy_backend.Sync.Lww.{
  SyncEntity, FieldType, DateTime, decide_apply, in_names, nullable, field_types, lookup,
  is_instance, model_whitelist, merge_payload, field_fault, typed_fault, validate_payload,
}

-- For two stamps with a time zone, `decide_apply` answers true if and only if the server's stamp
-- is strictly earlier than the client's.
pub decide_apply_iff :
    (client server : DateTime)
    → client.is_aware ≡ true
    → server.is_aware ≡ true
    → (decide_apply client (some server) ≡ ok true) ↔ (server.instant < client.instant)
unfolding decide_apply
decide_apply_iff client server c s = (λ h. ground arith, λ h. ground arith)

-- A value that a field takes: null where the column is nullable, else a value of the field's type.
abbrev pub Fits : SyncEntity → String → Json → Type 0
Fits e k Json.null = in_names (nullable e) k ≡ true
Fits e k v = (t : FieldType) × (lookup k (field_types e) ≡ some t) × (is_instance t v ≡ true)

abbrev pub AllFit : SyncEntity → Fields → Type 0
AllFit e Fields.end = Unit
AllFit e (Fields.field k v d) = (in_names (model_whitelist e) k ≡ true) × Fits e k v × AllFit e d

module _ (fromisoformat : List ℕ → Bool) where
  typed :
      (e : SyncEntity) (k : String) (v : Json)
      → typed_fault fromisoformat e k v ≡ none
      → (t : FieldType) × (lookup k (field_types e) ≡ some t) × (is_instance t v ≡ true)
  unfolding typed_fault
  typed e k v h = elim (Option-cases (lookup k (field_types e))) [
    | inl unknown ↦ absurd (ground (arith, h, unknown))
    | inr (t, found) ↦ (t, found, ground (arith, h, found))
  ]

  field_fault-Fits :
      (e : SyncEntity) (k : String) (v : Json) → field_fault fromisoformat e k v ≡ none → Fits e k v
  unfolding field_fault
  field_fault-Fits e k Json.null h = ground (arith, h)
  field_fault-Fits e k (Json.bool b) h = typed e k (Json.bool b) h
  field_fault-Fits e k (Json.int n) h = typed e k (Json.int n) h
  field_fault-Fits e k (Json.float m x) h = typed e k (Json.float m x) h
  field_fault-Fits e k (Json.str s) h = typed e k (Json.str s) h
  field_fault-Fits e k (Json.arr xs) h = typed e k (Json.arr xs) h
  field_fault-Fits e k (Json.obj d) h = typed e k (Json.obj d) h

  -- If `validate_payload` finds no fault, every field that the merge keeps of the payload is on
  -- the whitelist of its entity and has either a value of the type expected for it, or null where
  -- the column is nullable.
  pub validate_payload-AllFit :
      (e : SyncEntity) (payload : Fields)
      → validate_payload fromisoformat payload e ≡ none
      → AllFit e (merge_payload (model_whitelist e) payload)
  unfolding validate_payload merge_payload
  validate_payload-AllFit e Fields.end h = tt
  validate_payload-AllFit e (Fields.field k v d) h =
      elim (Bool-cases (in_names (model_whitelist e) k)) [
        | inr other ↦
            rw (other, merge_payload) (validate_payload-AllFit e d (ground (arith, h, other)))
        | inl listed ↦ elim (Option-cases (field_fault fromisoformat e k v)) [
          | inr (f, bad) ↦ absurd (ground (arith, h, listed, bad))
          | inl good ↦
              rw (listed, merge_payload)
                (
                  listed,
                  field_fault-Fits e k v good,
                  validate_payload-AllFit e d (ground (arith, h, listed, good)),
                )
        ]
      ]
