-- ===== src/Index/Objects.antt =====
-- src/partition/jsondbindex.cpp and jsondbindex.h: what an index has for an object. The state of an
-- index has the calls that it made of the B-tree, and whether a call succeeds is an argument; so are
-- toLower, the sort key of a text, which ICU makes, and what the script of a property function
-- emits, which Qt's engine runs. An index is open and being written.
pub mod Keys
mod Tests
use qtjsondb.Prelude.{
  ℕ, ◌/◌, ◌%◌, ◌+◌, ◌≡◌, Bool, true, false, ◌&&◌, ◌||◌, not, List, [], ◌∷◌, ◌++◌, Option, none,
  some, is_empty, if◌then◌else◌, map, ltb,
}
use qtjsondb.Qt.Text.{QString, codes, str_eq, split}
use qtjsondb.Qt.Json.{
  Value, str, arr, QJsonObject, to_string, to_array, to_list, to_bool, value, contains,
  is_empty_object, is_string,
}
use qtjsondb.Qt.Calls.{QtCalls}
use qtjsondb.Strings.{uuid_str, type_str}
use qtjsondb.Object.Version.{type, uuid}
use qtjsondb.Object.Path.{value_by_keys}
use qtjsondb.Index.Spec.{JsonDbIndexSpec}
use qtjsondb.Query.Term.{has_name, is_undefined}
use qtjsondb.Query.Compile.{make_field_value, truncate_field_value}
use qtjsondb.Query.Compare.{value_eq}
use qtjsondb.Index.Key.{make_forward_key, make_forward_value}
use qtjsondb.Index.Compare.{index_compare}
use qtjsondb.Index.Compare.Order.{is_zero}
use qtjsondb.Index.Offsets.{OffsetCache}

-- _q_bytesToHexString
unfoldable pub hex_digit : ℕ → ℕ
hex_digit n = if ltb n 10 then 48 + n else 87 + n

unfoldable pub bytes_to_hex_string : List ℕ → QString
unfolding hex_digit
bytes_to_hex_string [] = []
bytes_to_hex_string (b ∷ bytes) =
    hex_digit (b / 16 % 16) ∷ hex_digit (b % 16) ∷ bytes_to_hex_string bytes

-- A call of an index on the B-tree.
pub data BtreeCall : Type 0 where
  put : List ℕ → List ℕ → BtreeCall
  remove : List ℕ → BtreeCall

-- The calls on a transaction that succeeded, the last first.
abbrev pub Calls : Type 0
Calls = List BtreeCall

-- Whether a call succeeds after others, which the B-tree says.
abbrev pub Replies : Type 0
Replies = Calls → BtreeCall → Bool

-- A call, and the calls that have succeeded then.
unfoldable pub call_tree : Replies → Calls → BtreeCall → Bool × Calls
call_tree replies t c = if replies t c then (true, c ∷ t) else (false, t)

abbrev is_star : QString → Bool
is_star name = str_eq name (codes "*")

-- mPropertyNamePath without a star at its end, and whether it has one.
unfoldable pub path_of : List QString → List QString × Bool
path_of [] = ([], false)
path_of (name ∷ []) = if is_star name then ([], true) else (name ∷ [], false)
path_of (name ∷ more ∷ names) =
    let (path, starred) = path_of (more ∷ names) in (name ∷ path, starred)

-- The arguments that are not of the repository.
pub record IndexCalls : Type 0 where
  pub to_lower : QString → QString
  -- the bytes of the collator's sort key, where collation is supported
  pub sort_key : Option (QString → List ℕ)
  -- what the property function emits, if it can be evaluated
  pub emitted : Option (QJsonObject → List Value)

-- The calls on the transaction, and mOffsetCache.
pub record JsonDbIndex : Type 0 where
  pub tree : Calls
  pub offset_cache : OffsetCache

module _ (q : QtCalls) where
  -- indexCompareFunction finds no difference.
  abbrev pub same_key : List ℕ → List ℕ → Bool
  same_key a b = is_zero (index_compare q a b)

  -- The value of a key in the map that calls write, in which keys are the same if they compare equal.
  unfoldable pub written : Calls → List ℕ → Option (List ℕ)
  written [] key = none
  written (put k v ∷ calls) key =
      let rest = written calls key in if same_key k key then some v else rest
  written (remove k ∷ calls) key =
      let rest = written calls key in if same_key k key then none else rest

module _ (q : QtCalls) (calls : IndexCalls) (size : ℕ) (spec : JsonDbIndexSpec) where
  abbrev pub collated : Option (QString → List ℕ) → QString → QString → QString
  collated none s plain = plain
  collated (some key) s plain =
      if not (is_empty spec.collation) && not (is_empty spec.locale)
      then bytes_to_hex_string (key s)
      else plain

  -- indexValue
  unfoldable pub index_value : Value → Value
  unfolding bytes_to_hex_string
  index_value (str s) =
      str (collated calls.sort_key s (if not spec.is_case_sensitive then calls.to_lower s else s))
  index_value v = v

  abbrev pub value_if_any : Value → List Value
  value_if_any v = if is_undefined v then [] else index_value v ∷ []

  abbrev emitted_values : Option (QJsonObject → List Value) → QJsonObject → List Value
  emitted_values none object = []
  emitted_values (some emit) object = emit object

  -- indexValues
  unfoldable pub index_values : QJsonObject → List Value
  unfolding index_value path_of
  index_values object =
      let (path, starred) = path_of (split b'.' spec.property_name) in
      let v = value_by_keys q object path in
      if not (is_empty spec.property_function)
      then emitted_values calls.emitted object
      else if starred
      then map index_value (to_array v)
      else value_if_any v

  -- The value that is stored for a field value.
  abbrev pub stored_value : Value → Value
  stored_value v =
      truncate_field_value size spec.property_type (make_field_value q size v spec.property_type)

  abbrev pub key_of : ℕ → Value → List ℕ
  key_of object_key v = make_forward_key (stored_value v) object_key

  -- The index is not by uuid, and the object has one of its types.
  unfoldable pub is_indexed : QJsonObject → Bool
  is_indexed object =
      not (str_eq spec.property_name uuid_str)
      && (is_empty spec.object_types || has_name spec.object_types (type object))

  module _ (replies : Replies) where
    -- The loop of indexObject.
    unfoldable pub put_values : ℕ → List Value → Calls → Bool × Calls
    unfolding call_tree
    put_values object_key [] t = (true, t)
    put_values object_key (v ∷ vs) t =
        let (ok, t') =
          call_tree replies t (put (key_of object_key v) (make_forward_value object_key)) in
        let rest = put_values object_key vs t' in
        let skipped = put_values object_key vs t in
        if is_undefined (make_field_value q size v spec.property_type)
        then skipped
        else if ok
        then rest
        else (false, t')

    -- The loop of deindexObject.
    unfoldable pub remove_values : ℕ → List Value → Calls → Bool × Calls
    unfolding call_tree
    remove_values object_key [] t = (true, t)
    remove_values object_key (v ∷ vs) t =
        let (ok, t') = call_tree replies t (remove (key_of object_key v)) in
        let rest = remove_values object_key vs t' in
        let skipped = remove_values object_key vs t in
        if is_undefined (make_field_value q size v spec.property_type)
        then skipped
        else if ok
        then rest
        else (false, t')

    -- What indexObject and deindexObject share: the loop, and the cache of offsets is cleared.
    abbrev changed_index :
        JsonDbIndex → QJsonObject → (List Value → Calls → Bool × Calls) → Bool × JsonDbIndex
    changed_index index object loop =
        let field_values = index_values object in
        let (ok, t) = loop field_values index.tree in
        if not (is_indexed object) || is_empty field_values
        then (true, index)
        else (ok, record { tree = t; offset_cache = if ok then [] else index.offset_cache })

    -- indexObject
    unfoldable pub index_object : JsonDbIndex → QJsonObject → Bool × JsonDbIndex
    index_object index object = changed_index index object (put_values (uuid q object))

    -- deindexObject
    unfoldable pub deindex_object : JsonDbIndex → QJsonObject → Bool × JsonDbIndex
    deindex_object index object = changed_index index object (remove_values (uuid q object))
