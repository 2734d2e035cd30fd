-- ===== src/Sync/Merge/HighWater.antt =====
-- The high-water mark of the merge of app/api/routers/sync.py.
use task_buddy_backend.Prelude.{
  Bool, ℕ, ◌≤◌, ◌≡◌, refl, inl, inr, Option, none, some, List, [], ◌∷◌, ◌++◌, arith, Option-cases,
}
use task_buddy_backend.Json.{Fields}
use task_buddy_backend.Sync.Lww.{SyncEntity}
use task_buddy_backend.Sync.Tables.{Db}
use task_buddy_backend.Sync.Merge.{
  Change, Merge, raised, record_unapplied, record_applied, merge_change, merge_loop, merge_changes,
}
use task_buddy_backend.Sync.Merge.Account.{
  Recorded, merge_change-Recorded, unapplied_cases, some_eq,
}

-- `h` is at least `ts`; no mark at all is below every instant.
abbrev pub Covers : Option ℕ → ℕ → Type 0
Covers none ts = ⊥
Covers (some h) ts = ts ≤ h

abbrev pub AllCovered : Option ℕ → List Change → Type 0
AllCovered mark [] = Unit
AllCovered mark (c ∷ cs) = Covers mark c.client_updated_at × AllCovered mark cs

-- A mark only rises, and an applied change raises it to its own stamp at least.
Covers-raised : (mark : Option ℕ) (ts k : ℕ) → Covers mark k → Covers (raised mark ts) k
Covers-raised none ts k h = absurd h
Covers-raised (some m) ts k h = ground arith

Covers-raised_self : (mark : Option ℕ) (ts : ℕ) → Covers (raised mark ts) ts
Covers-raised_self none ts = omega arith
Covers-raised_self (some m) ts = ground arith

AllCovered-raised :
    (mark : Option ℕ) (ts : ℕ) (cs : List Change)
    → AllCovered mark cs
    → AllCovered (raised mark ts) cs
AllCovered-raised mark ts [] h = tt
AllCovered-raised mark ts (c ∷ cs) h =
    (Covers-raised mark ts c.client_updated_at h.0, AllCovered-raised mark ts cs h.1)

AllCovered-snoc :
    (mark : Option ℕ) (c : Change) (cs : List Change)
    → AllCovered mark cs
    → Covers mark c.client_updated_at
    → AllCovered mark (cs ++ c ∷ [])
AllCovered-snoc mark c [] h k = (k, tt)
AllCovered-snoc mark c (d ∷ cs) h k = (h.0, AllCovered-snoc mark c cs h.1 k)

-- The mark covers what was applied, and all that the mark before it covered.
record Risen (m m' : Merge) : Type 0 where
  pub applied : AllCovered m.high_water m.applied → AllCovered m'.high_water m'.applied
  pub keeps : (k : ℕ) → Covers m.high_water k → Covers m'.high_water k

same_mark : (m m' : Merge) → m'.high_water ≡ m.high_water → m'.applied ≡ m.applied → Risen m m'
same_mark m m' h a = record { applied = λ c. rw (h, a) c; keeps = λ k c. rw h c }

unapplied-Risen : (user : ℕ) (c : Change) (m : Merge) → Risen m (record_unapplied user c m)
unapplied-Risen user c m = elim (unapplied_cases user c m) [
  | inl e ↦ rw e (same_mark m (record m { not_found = m.not_found ++ c ∷ [] }) refl refl)
  | inr (r, e) ↦ rw e (same_mark m (record m { conflicts = m.conflicts ++ (c, r) ∷ [] }) refl refl)
]

Recorded-Risen : (user : ℕ) (c : Change) (m m' : Merge) → Recorded user c m m' → Risen m m'
unfolding record_applied
Recorded-Risen user c m m' (inl e) = rw e (unapplied-Risen user c m)
Recorded-Risen user c m m' (inr (db, e)) =
    rw (e, record_applied)
      (record {
        applied = λ h.
            AllCovered-snoc (raised m.high_water c.client_updated_at) c m.applied
              (AllCovered-raised m.high_water c.client_updated_at m.applied h)
              (Covers-raised_self m.high_water c.client_updated_at);
        keeps = λ k h. Covers-raised m.high_water c.client_updated_at k h;
      })

merge_loop-Risen :
    (refuses : SyncEntity → Fields → Bool) (user : ℕ) (cs : List Change) (m m' : Merge)
    → merge_loop refuses user cs m ≡ some m'
    → Risen m m'
unfolding merge_loop
merge_loop-Risen refuses user [] m m' e =
    rw (← some_eq m m' e) (record { applied = λ h. h; keeps = λ k h. h })
merge_loop-Risen refuses user (c ∷ cs) m m' e =
    elim (Option-cases (merge_change refuses user c m)) [
      | inl refused ↦ absurd (ground (arith, e, refused))
      | inr (m1, went) ↦
          let a = Recorded-Risen user c m m1 (merge_change-Recorded refuses user c m m1 went) in
          let b = merge_loop-Risen refuses user cs m1 m' (ground (arith, e, went)) in
          record { applied = λ h. b.applied (a.applied h); keeps = λ k h. b.keeps k (a.keeps k h) }
    ]

-- A mark that is at least another one, where that one is set.
abbrev pub NotBelow : Option ℕ → Option ℕ → Type 0
NotBelow mark none = Unit
NotBelow mark (some k) = Covers mark k

not_below :
    (since mark : Option ℕ) → ((k : ℕ) → Covers since k → Covers mark k) → NotBelow mark since
not_below none mark h = tt
not_below (some k) mark h = h k (omega arith)

-- If the merge does not fail, its high-water mark is at least the stamp of every applied change
-- and, where the client sent a mark, at least that mark.
pub merge_changes-AllCovered :
    (refuses : SyncEntity → Fields → Bool) (user : ℕ) (since : Option ℕ) (changes : List Change)
    (db : Db) (m : Merge)
    → merge_changes refuses user since changes db ≡ some m
    → AllCovered m.high_water m.applied × NotBelow m.high_water since
unfolding merge_changes
merge_changes-AllCovered refuses user since changes db m e =
    let r =
      merge_loop-Risen refuses user changes
        (record {
          db = db;
          applied = [];
          conflicts = [];
          not_found = [];
          high_water = since;
          completion_flips = [];
        })
        m e in
    (r.applied tt, not_below since m.high_water r.keeps)
