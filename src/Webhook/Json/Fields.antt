-- ===== src/Webhook/Json/Fields.antt =====
-- Objects with one value for each key, as the assignments of Go leave them.
use slimwhats.Base.{◌≡◌, refl, Option, none, some, Bytes, arith, str_eq, str_eq_iff, if_holds}
use slimwhats.Webhook.Json.{Value, Object, empty, field, set, value_at, set_all, value_at-set}

abbrev pub IsMap : Object → Type 0
IsMap empty = Unit
IsMap (field k v o) = (value_at k o ≡ none) × IsMap o

pub set-IsMap : (k : Bytes) (v : Value) (o : Object) → IsMap o → IsMap (set k v o)
unfolding set value_at
set-IsMap k v empty m = (refl, tt)
set-IsMap k v (field j w o) (a, m) =
    if_holds IsMap (str_eq j k) (λ here. (a, m))
      (λ later. (
        ground (arith, value_at-set k j v o, later, a, str_eq_iff j k, str_eq_iff k j),
        set-IsMap k v o m,
      ))

abbrev pub or_else : Option Value → Option Value → Option Value
or_else none old = old
or_else (some v) old = some v

pub value_at-set_all :
    (k : Bytes) (from out : Object)
    → IsMap from
    → value_at k (set_all from out) ≡ or_else (value_at k from) (value_at k out)
unfolding set_all value_at
value_at-set_all k empty out m = refl
value_at-set_all k (field j v o) out (a, m) =
    ground (arith, value_at-set_all k o (set j v out) m, value_at-set j k v out, a, str_eq_iff j k)
