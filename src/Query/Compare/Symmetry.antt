-- ===== src/Query/Compare/Symmetry.antt =====
-- Equality of JSON values is symmetric, and the two orders are converses.
use qtjsondb.Prelude.{◌≡◌, refl, arith}
use qtjsondb.Qt.Text.{str_eq_comm}
use qtjsondb.Qt.Json.{
  Value, Items, Fields, undefined, null, bool, num, str, arr, obj, no_items, item, no_fields, field,
}
use qtjsondb.Qt.Calls.{QtCalls, DoubleLaws}
use qtjsondb.Query.Compare.{value_eq, items_eq, fields_eq}

module _ (q : QtCalls) (laws : DoubleLaws q) where
  mutual
    unfolding value_eq items_eq fields_eq

    value_comm : (a b : Value) → value_eq q a b ≡ value_eq q b a
    value_comm (bool a) (bool b) = ground arith
    value_comm (num a) (num b) = laws.double_eq_comm a b
    value_comm (str a) (str b) = str_eq_comm a b
    value_comm (arr a) (arr b) = items_comm a b
    value_comm (obj a) (obj b) = fields_comm a b
    value_comm undefined undefined = refl
    value_comm undefined _ = refl
    value_comm null null = refl
    value_comm null _ = refl
    value_comm (bool a) undefined = refl
    value_comm (bool a) _ = refl
    value_comm (num a) undefined = refl
    value_comm (num a) _ = refl
    value_comm (str a) undefined = refl
    value_comm (str a) _ = refl
    value_comm (arr a) undefined = refl
    value_comm (arr a) _ = refl
    value_comm (obj a) undefined = refl
    value_comm (obj a) _ = refl

    items_comm : (a b : Items) → items_eq q a b ≡ items_eq q b a
    items_comm (item a xs) (item b ys) = ground (arith, value_comm a b, items_comm xs ys)
    items_comm no_items no_items = refl
    items_comm no_items (item b ys) = refl
    items_comm (item a xs) no_items = refl

    fields_comm : (a b : Fields) → fields_eq q a b ≡ fields_eq q b a
    fields_comm (field j a fs) (field k b gs) =
        ground (arith, str_eq_comm j k, value_comm a b, fields_comm fs gs)
    fields_comm no_fields no_fields = refl
    fields_comm no_fields (field k b gs) = refl
    fields_comm (field j a fs) no_fields = refl

  pub value_eq_comm : (a b : Value) → value_eq q a b ≡ value_eq q b a
  value_eq_comm a b = value_comm a b
