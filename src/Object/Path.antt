-- ===== src/Object/Path.antt =====
-- src/partition/jsondbobject.cpp: valueByPath.
pub mod Laws
use qtjsondb.Prelude.{List, [], ◌∷◌, Option, some, ℤ, pos, length, ltb, if◌then◌else◌}
use qtjsondb.Qt.Text.{QString, split}
use qtjsondb.Qt.Json.{Value, undefined, arr, obj, QJsonArray, QJsonObject, to_list, value}
use qtjsondb.Qt.Calls.{QtCalls}
use qtjsondb.Object.History.{at}

-- An index that is no number or out of range gives Undefined.
unfoldable pub element : QJsonArray → Option ℤ → Value
element object_list (some (pos index)) =
    if ltb index (length object_list) then at object_list index else undefined
element object_list _ = undefined

module _ (q : QtCalls) where
  -- One round of the loop.
  unfoldable pub step_into : Value → QString → Value
  unfolding element
  step_into (arr xs) key = element (to_list xs) (q.to_int key)
  step_into (obj fs) key = value fs key
  step_into _ key = undefined

  unfoldable pub walk : Value → List QString → Value
  unfolding step_into
  walk v [] = v
  walk v (key ∷ path) = walk (step_into v key) path

  -- valueByPath(QStringList)
  unfoldable pub value_by_keys : QJsonObject → List QString → Value
  unfolding walk
  value_by_keys o [] = undefined
  value_by_keys o (key ∷ []) = value o key
  value_by_keys o (key ∷ more ∷ path) = walk (obj o) (key ∷ more ∷ path)

  -- valueByPath(QString)
  unfoldable pub value_by_path : QJsonObject → QString → Value
  unfolding value_by_keys
  value_by_path o path = value_by_keys o (split b'.' path)
