-- ===== src/Sync/Merge/Flips.antt =====
-- The completions that the merge of app/api/routers/sync.py flips, read off its applied changes.
use mathlib.Core.Path.{sym}
use task_buddy_backend.Prelude.{
  ℕ, ◌≡◌, refl, ap, ◌∙◌, inl, inr, Bool, true, Option, none, some, List, [], ◌∷◌, ◌++◌, String,
  arith, str_eq, eq_iff, Bool-cases, Option-cases,
}
use task_buddy_backend.Json.{Fields, get, truthy}
use task_buddy_backend.Sync.Lww.{SyncEntity, in_names, merge_payload, model_whitelist}
use task_buddy_backend.Sync.Tables.{Db}
use task_buddy_backend.Sync.Merge.{
  Change, SyncOp, Merge, record_applied, flip_of, merge_change, merge_loop, merge_changes,
}
use task_buddy_backend.Sync.Merge.Account.{
  Recorded, flips_of, merge_change-Recorded, unapplied_cases, some_eq,
}

-- The completion of one applied change: an update of a task may set it.
abbrev pub completion_of : Change → List (ℕ × Bool)
completion_of c = elim c.op [
  | SyncOp.delete ↦ []
  | SyncOp.update ↦ elim c.entity [
    | SyncEntity.task ↦ elim (get "completed" c.payload) [
      | none ↦ []
      | some v ↦ (c.id, truthy v) ∷ []
    ]
    | SyncEntity.subtask ↦ []
    | SyncEntity.project ↦ []
  ]
]

abbrev pub completions : List Change → List (ℕ × Bool)
completions [] = []
completions (c ∷ cs) = completion_of c ++ completions cs

-- A whitelisted field passes the merge as it is.
get-merge_payload :
    (names : List String) (key : String) (d : Fields)
    → in_names names key ≡ true
    → get key (merge_payload names d) ≡ get key d
unfolding merge_payload
get-merge_payload names key Fields.end h = refl
get-merge_payload names key (Fields.field k v d) h = elim (Bool-cases (str_eq k key)) [
  | inl same ↦
      let listed : in_names names k ≡ true = ap (in_names names) ((eq_iff k key).0 same) ∙ h in
      rw (listed, same) refl
  | inr other ↦ elim (Bool-cases (in_names names k)) [
    | inl listed ↦ rw (listed, other) (get-merge_payload names key d h)
    | inr unlisted ↦ rw (unlisted, other) (get-merge_payload names key d h)
  ]
]

flips_of-completion_of : (c : Change) → flips_of c ≡ completion_of c
unfolding flip_of
flips_of-completion_of c = by_op c.op c.entity refl refl
  where
    by_op : (o : SyncOp) (e : SyncEntity) → c.op ≡ o → c.entity ≡ e → flips_of c ≡ completion_of c
    by_op SyncOp.delete e o s = rw o refl
    by_op SyncOp.update SyncEntity.subtask o s = rw (o, flip_of, s) refl
    by_op SyncOp.update SyncEntity.project o s = rw (o, flip_of, s) refl
    by_op SyncOp.update SyncEntity.task o s =
        let listed : in_names (model_whitelist c.entity) "completed" ≡ true = rw s refl in
        let whole = get-merge_payload (model_whitelist c.entity) "completed" c.payload listed in
        elim (Option-cases (get "completed" c.payload)) [
          | inl missing ↦ rw (o, flip_of, s, whole, missing) refl
          | inr (v, given) ↦ rw (o, flip_of, s, whole, given) refl
        ]

append_nil {ℓ} : {A : Type ℓ} (xs : List A) → xs ++ [] ≡ xs
append_nil [] = refl
append_nil (x ∷ xs) = ap (λ zs. x ∷ zs) (append_nil xs)

append_assoc {ℓ} : {A : Type ℓ} (xs ys zs : List A) → (xs ++ ys) ++ zs ≡ xs ++ (ys ++ zs)
append_assoc [] ys zs = refl
append_assoc (x ∷ xs) ys zs = ap (λ ws. x ∷ ws) (append_assoc xs ys zs)

completions-snoc :
    (cs : List Change) (c : Change) → completions (cs ++ c ∷ []) ≡ completions cs ++ completion_of c
completions-snoc [] c = append_nil (completion_of c)
completions-snoc (d ∷ cs) c =
    ap (λ zs. completion_of d ++ zs) (completions-snoc cs c)
    ∙ sym (append_assoc (completion_of d) (completions cs) (completion_of c))

-- The flips so far are those of the changes applied so far.
abbrev IsFlipped : Merge → Type 0
IsFlipped m = m.completion_flips ≡ completions m.applied

Recorded-IsFlipped :
    (user : ℕ) (c : Change) (m m' : Merge) → Recorded user c m m' → IsFlipped m → IsFlipped m'
unfolding record_applied
Recorded-IsFlipped user c m m' (inl e) h = elim (unapplied_cases user c m) [
  | inl lost ↦ rw (e, lost) h
  | inr (r, met) ↦ rw (e, met) h
]
Recorded-IsFlipped user c m m' (inr (db, e)) h =
    rw (e, record_applied)
      (ap (λ xs. xs ++ flips_of c) h
        ∙ ap (λ ys. completions m.applied ++ ys) (flips_of-completion_of c)
        ∙ sym (completions-snoc m.applied c))

merge_loop-IsFlipped :
    (refuses : SyncEntity → Fields → Bool) (user : ℕ) (cs : List Change) (m m' : Merge)
    → merge_loop refuses user cs m ≡ some m'
    → IsFlipped m
    → IsFlipped m'
unfolding merge_loop
merge_loop-IsFlipped refuses user [] m m' e h = rw (← some_eq m m' e) h
merge_loop-IsFlipped refuses user (c ∷ cs) m m' e h =
    elim (Option-cases (merge_change refuses user c m)) [
      | inl refused ↦ absurd (ground (arith, e, refused))
      | inr (m1, went) ↦
          merge_loop-IsFlipped refuses user cs m1 m' (ground (arith, e, went))
            (Recorded-IsFlipped user c m m1 (merge_change-Recorded refuses user c m m1 went) h)
    ]

-- The flips of a merge are those of its applied changes, in their order.
pub merge_changes-flips :
    (refuses : SyncEntity → Fields → Bool) (user : ℕ) (since : Option ℕ) (changes : List Change)
    (db : Db) (m : Merge)
    → merge_changes refuses user since changes db ≡ some m
    → m.completion_flips ≡ completions m.applied
unfolding merge_changes
merge_changes-flips refuses user since changes db m e =
    merge_loop-IsFlipped refuses user changes
      (record {
        db = db;
        applied = [];
        conflicts = [];
        not_found = [];
        high_water = since;
        completion_flips = [];
      })
      m e refl
