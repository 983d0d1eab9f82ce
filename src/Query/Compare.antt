-- ===== src/Query/Compare.antt =====
-- Comparing JSON values: operator == of QJsonValue, QJsonArray::contains, and
-- JsonDbIndexQuery::lessThan and greaterThan of src/partition/jsondbindexquery.cpp.
pub mod Symmetry
use qtjsondb.Prelude.{Bool, true, false, ◌&&◌, ◌||◌, [], ◌∷◌, not}
use qtjsondb.Qt.Text.{str_eq, str_lt}
use qtjsondb.Qt.Json.{
  Value, Items, Fields, undefined, null, bool, num, str, arr, obj, no_items, item, no_fields, field,
  QJsonArray,
}
use qtjsondb.Qt.Calls.{QtCalls}

abbrev pub bool_eq : Bool → Bool → Bool
bool_eq true b = b
bool_eq false b = not b

abbrev pub bool_lt : Bool → Bool → Bool
bool_lt true b = false
bool_lt false b = b

module _ (q : QtCalls) where
  unfoldable mutual
    pub value_eq : Value → Value → Bool
    value_eq undefined undefined = true
    value_eq null null = true
    value_eq (bool a) (bool b) = bool_eq a b
    value_eq (num a) (num b) = q.double_eq a b
    value_eq (str a) (str b) = str_eq a b
    value_eq (arr a) (arr b) = items_eq a b
    value_eq (obj a) (obj b) = fields_eq a b
    value_eq _ _ = false

    pub items_eq : Items → Items → Bool
    items_eq no_items no_items = true
    items_eq (item a xs) (item b ys) = value_eq a b && items_eq xs ys
    items_eq _ _ = false

    pub fields_eq : Fields → Fields → Bool
    fields_eq no_fields no_fields = true
    fields_eq (field j a fs) (field k b gs) = str_eq j k && (value_eq a b && fields_eq fs gs)
    fields_eq _ _ = false

  unfoldable pub contains_value : QJsonArray → Value → Bool
  contains_value [] v = false
  contains_value (w ∷ ws) v = value_eq w v || contains_value ws v

  unfoldable pub less_than : Value → Value → Bool
  less_than (num a) (num b) = q.double_lt a b
  less_than (str a) (str b) = str_lt a b
  less_than (bool a) (bool b) = bool_lt a b
  less_than _ _ = false

  unfoldable pub greater_than : Value → Value → Bool
  greater_than (num a) (num b) = q.double_lt b a
  greater_than (str a) (str b) = str_lt b a
  greater_than (bool a) (bool b) = bool_lt b a
  greater_than _ _ = false
