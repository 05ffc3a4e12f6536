-- ===== src/Spawner/Values.antt =====
-- The values that `json.loads` returns, and the operations on them that the program uses.
use overwatch_harness.Prelude.{Bool, true, false, not, ◌||◌, if◌then◌else◌}
use overwatch_harness.Text.{Text, codes, text_eq, is_blank}
use overwatch_harness.Text.Int.{ℤ, is_zero}

-- A float is its `repr`.
mutual
  pub data Json : Type 0 where
    null : Json
    bool : Bool → Json
    int : ℤ → Json
    float : Text → Json
    str : Text → Json
    arr : Items → Json
    obj : Fields → Json

  pub data Items : Type 0 where
    nil : Items
    cons : Json → Items → Items

  pub data Fields : Type 0 where
    end : Fields
    field : Text → Json → Fields → Fields

-- `d.get(key, default)`
unfoldable pub get_or : Text → Json → Fields → Json
unfolding text_eq
get_or key default end = default
get_or key default (field k v rest) = if text_eq k key then v else get_or key default rest

-- `d.get(key)`
unfoldable pub get : Text → Fields → Json
unfolding get_or
get key = get_or key null

-- `bool(value)`
unfoldable pub truthy : Json → Bool
unfolding text_eq
truthy null = false
truthy (bool b) = b
truthy (int n) = not (is_zero n)
truthy (float t) = not (text_eq t (codes "0.0") || text_eq t (codes "-0.0"))
truthy (str t) = not (is_blank t)
truthy (arr nil) = false
truthy (arr (cons j js)) = true
truthy (obj end) = false
truthy (obj (field k v rest)) = true

-- `a or b`
unfoldable pub or_value : Json → Json → Json
unfolding truthy
or_value a b = if truthy a then a else b

-- `value == "..."`
unfoldable pub is_text : Text → Json → Bool
unfolding text_eq
is_text t (str s) = text_eq s t
is_text t _ = false
