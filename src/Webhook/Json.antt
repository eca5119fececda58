-- ===== src/Webhook/Json.antt =====
-- The values that the webhooks and the logs hand to encoding/json: a map[string]interface{} is an
-- object, whose fields have one value each.
pub mod Fields
use slimwhats.Base.{
  ℕ, Bool, true, false, List, [], ◌∷◌, Option, none, some, Bytes, str_eq, str_eq_iff, arith, ◌≡◌,
  refl, if◌then◌else◌,
}

-- `real` is a float64, by its text.
mutual
  pub data Value : Type 0 where
    text real : Bytes → Value
    number : ℕ → Value
    flag : Bool → Value
    texts : List Bytes → Value
    object : Object → Value

  pub data Object : Type 0 where
    empty : Object
    field : Bytes → Value → Object → Object

-- `out[key] = value`
unfoldable pub set : Bytes → Value → Object → Object
set k v empty = field k v empty
set k v (field j w o) = let rest = set k v o in if str_eq j k then field j v o else field j w rest

-- `out[key]`
unfoldable pub value_at : Bytes → Object → Option Value
value_at k empty = none
value_at k (field j v o) = if str_eq j k then some v else value_at k o

-- `for k, v := range from { out[k] = v }`; the keys of `from` are distinct, so their order is free.
unfoldable pub set_all : Object → Object → Object
set_all empty out = out
set_all (field k v o) out = set_all o (set k v out)

pub value_at-set :
    (k j : Bytes) (v : Value) (o : Object)
    → value_at j (set k v o) ≡ (if str_eq k j then some v else value_at j o)
unfolding set value_at
value_at-set k j v empty = refl
value_at-set k j v (field i w o) =
    ground (arith, value_at-set k j v o, str_eq_iff i k, str_eq_iff i j, str_eq_iff k j)

-- What is not set by `from` stays.
pub value_at-set_all-none :
    (k : Bytes) (from out : Object)
    → value_at k from ≡ none
    → value_at k (set_all from out) ≡ value_at k out
unfolding set_all value_at
value_at-set_all-none k empty out h = refl
value_at-set_all-none k (field j v o) out h =
    ground (arith, value_at-set_all-none k o (set j v out), value_at-set j k v out)
