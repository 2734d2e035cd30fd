-- ===== src/Json.antt =====
-- JSON values as the program stores and receives them, and the `dict` calls that it makes on them.
use task_buddy_backend.Prelude.{
  ℕ, String, Bool, true, false, not, Option, none, some, ℤ, pos, eqb_ℤ, str_eq, if◌then◌else◌,
}

mutual
  pub data Json : Type 0 where
    null : Json
    bool : Bool → Json
    int : ℤ → Json
    -- a finite number that is no `int`: the mantissa and the power of two that divides it
    float : ℤ → ℕ → Json
    str : String → Json
    arr : Items → Json
    obj : Fields → Json

  pub data Items : Type 0 where
    nil : Items
    cons : Json → Items → Items

  pub data Fields : Type 0 where
    end : Fields
    field : String → Json → Fields → Fields

-- `d.get(k)`
abbrev pub get : String → Fields → Option Json
get k end = none
get k (field j v d) = if str_eq j k then some v else get k d

-- `d[k] = v`
abbrev pub put : String → Json → Fields → Fields
put k v end = field k v end
put k v (field j w d) = if str_eq j k then field j v d else field j w (put k v d)

abbrev pub truthy_items : Items → Bool
truthy_items nil = false
truthy_items (cons x xs) = true

abbrev pub truthy_fields : Fields → Bool
truthy_fields end = false
truthy_fields (field k v d) = true

-- `bool(v)`
abbrev pub truthy : Json → Bool
truthy null = false
truthy (bool b) = b
truthy (int n) = not (eqb_ℤ n (pos 0))
truthy (float m e) = not (eqb_ℤ m (pos 0))
truthy (str s) = not (str_eq s "")
truthy (arr xs) = truthy_items xs
truthy (obj d) = truthy_fields d

-- `v if isinstance(v, dict) else {}`
abbrev pub as_dict : Json → Fields
as_dict (obj d) = d
as_dict _ = end
