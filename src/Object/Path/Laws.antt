-- ===== src/Object/Path/Laws.antt =====
-- Paths compose.
use qtjsondb.Prelude.{◌≡◌, refl, List, [], ◌∷◌, ◌++◌}
use qtjsondb.Qt.Text.{QString}
use qtjsondb.Qt.Json.{Value, obj, QJsonObject}
use qtjsondb.Qt.Calls.{QtCalls}
use qtjsondb.Object.Path.{walk, value_by_keys, step_into}

module _ (q : QtCalls) where
  walk-append :
      (v : Value) (path more : List QString) → walk q v (path ++ more) ≡ walk q (walk q v path) more
  unfolding walk
  walk-append v [] more = refl
  walk-append v (key ∷ path) more = walk-append (step_into q v key) path more

  value_by_keys-walk :
      (o : QJsonObject) (key : QString) (path : List QString)
      → value_by_keys q o (key ∷ path) ≡ walk q (obj o) (key ∷ path)
  unfolding value_by_keys
  value_by_keys-walk o key [] = refl
  value_by_keys-walk o key (more ∷ path) = refl

  -- The value at a path of several keys is found by walking on from the value at its beginning,
  -- through objects and arrays, also where that beginning is one key and looked up in the
  -- object at once.
  pub value_by_keys-append :
      (o : QJsonObject) (key : QString) (path more : List QString)
      → value_by_keys q o (key ∷ (path ++ more)) ≡ walk q (value_by_keys q o (key ∷ path)) more
  value_by_keys-append o key path more =
      rw (value_by_keys-walk o key (path ++ more), value_by_keys-walk o key path)
        (walk-append (obj o) (key ∷ path) more)
