-- ===== src/Index/Spec.antt =====
-- src/partition/jsondbindex.cpp and jsondbindex.h: the specification of an index, from the object that
-- defines it.
use qtjsondb.Prelude.{Bool, true, ◌&&◌, ◌||◌, not, List, [], ◌∷◌, is_empty, if◌then◌else◌, map}
use qtjsondb.Qt.Text.{QString, codes, str_eq}
use qtjsondb.Qt.Json.{
  Value, str, arr, QJsonObject, to_string, to_list, to_bool, value, contains, is_empty_object,
}
use qtjsondb.Qt.Calls.{QtCalls}
use qtjsondb.Strings.{type_str}
use qtjsondb.Object.Version.{type}
use qtjsondb.Query.Compare.{value_eq}

pub record JsonDbIndexSpec : Type 0 where
  pub name : QString
  pub property_name : QString
  pub property_function : QString
  pub property_type : QString
  pub locale : QString
  pub collation : QString
  pub case_preference : QString
  pub is_case_sensitive : Bool
  pub object_types : List QString

abbrev pub new_spec : JsonDbIndexSpec
new_spec = record {
  name = [];
  property_name = [];
  property_function = [];
  property_type = [];
  locale = [];
  collation = [];
  case_preference = [];
  is_case_sensitive = true;
  object_types = [];
}

abbrev index_type_str : QString
index_type_str = codes "Index"

abbrev types_of : Value → List QString
types_of (str s) = s ∷ []
types_of (arr xs) = map to_string (to_list xs)
types_of v = []

-- JsonDbIndexSpec::fromIndexObject
unfoldable pub from_index_object : QJsonObject → JsonDbIndexSpec
from_index_object o =
    let text = λ (s : QString). to_string (value o s) in
    let name = text (codes "name") in
    if not (str_eq (to_string (value o type_str)) index_type_str) then new_spec else record {
      name = if is_empty name then text (codes "propertyName") else name;
      property_name = text (codes "propertyName");
      property_function = text (codes "propertyFunction");
      property_type = text (codes "propertyType");
      locale = text (codes "locale");
      collation = text (codes "collation");
      case_preference = text (codes "casePreference");
      is_case_sensitive =
          if contains o (codes "caseSensitive")
          then to_bool (value o (codes "caseSensitive"))
          else true;
      object_types = types_of (value o (codes "objectType"));
    }

-- determineName
unfoldable pub determine_name : QJsonObject → QString
determine_name o =
    let name = to_string (value o (codes "name")) in
    if is_empty name then to_string (value o (codes "propertyName")) else name

-- setIndexSpec: a property name is preferred to a function.
unfoldable pub set_index_spec : JsonDbIndexSpec → JsonDbIndexSpec
set_index_spec spec =
    if not (is_empty spec.property_name) && not (is_empty spec.property_function)
    then record spec { property_function = [] }
    else spec

-- The messages of validateIndex, of which fine is the empty one.
pub data IndexMessage : Type 0 where
  fine one_of_name_and_function function_without_name : IndexMessage
  name_changed type_changed object_type_changed function_changed : IndexMessage

-- What is wrong with an index object of its own.
abbrev own_message : QJsonObject → IndexMessage
own_message new_index =
    let has_function = contains new_index (codes "propertyFunction") in
    let has_name = contains new_index (codes "propertyName") in
    if if has_function then has_name else not has_name
    then one_of_name_and_function
    else if has_function && not (contains new_index (codes "name"))
    then function_without_name
    else fine

-- validateIndex, of a new index object and the old one.
unfoldable pub validate_index : QtCalls → QJsonObject → QJsonObject → IndexMessage
validate_index q new_index old_index =
    let same_text =
      λ (s : QString). str_eq (to_string (value old_index s)) (to_string (value new_index s)) in
    let object_type = codes "objectType" in
    let own = own_message new_index in
    if is_empty_object new_index
      || (is_empty_object old_index || not (str_eq (type old_index) index_type_str))
    then own
    else if not (same_text (codes "propertyName"))
    then name_changed
    else if not (same_text (codes "propertyType"))
    then type_changed
    else if not (value_eq q (value old_index object_type) (value new_index object_type))
    then object_type_changed
    else if not (same_text (codes "propertyFunction"))
    then function_changed
    else own
