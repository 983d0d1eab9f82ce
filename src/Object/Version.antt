-- ===== src/Object/Version.antt =====
-- src/partition/jsondbobject.cpp: the accessors of an object, its version "<count>-<hash>", the
-- hash of its content, and the order of versions. Update counts are naturals: tokenizeVersion
-- gives no negative one. The bytes of texts and doubles are those of a little-endian host.
pub mod Tokens
pub mod ContentHash
use qtjsondb.Prelude.{
  ℕ, zero, suc, ◌+◌, ◌/◌, ◌%◌, max, Bool, true, ◌||◌, List, [], ◌∷◌, ◌++◌, Option, none, some, ℤ,
  pos_part, ltb, ◌==◌, if◌then◌else◌, take, is_empty, not,
}
use qtjsondb.Qt.Text.{QString, codes, str_eq, str_lt, split}
use qtjsondb.Qt.Json.{
  Value, undefined, null, bool, num, str, arr, obj, QJsonObject, no_fields, field, to_list, to_bool,
  to_string, value, contains, insert,
}
use qtjsondb.Qt.Calls.{QtCalls}
use qtjsondb.Strings.{uuid_str, version_str, type_str, deleted_str, meta_str}

unfoldable pub version : QJsonObject → QString
version o = to_string (value o version_str)

unfoldable pub type : QJsonObject → QString
type o = to_string (value o type_str)

unfoldable pub is_deleted : QJsonObject → Bool
is_deleted o = to_bool (value o deleted_str)

unfoldable pub mark_deleted : QJsonObject → QJsonObject
mark_deleted o = insert o deleted_str (bool true)

-- JsonDbNamespace, the namespace of the uuids that are made from an identifier.
abbrev pub json_db_namespace : ℕ
json_db_namespace = 0x6ba7b8109dad11d180b400c04fd430c8

abbrev pub id_str : QString
id_str = codes "_id"

-- The bytes of a UTF-16 text.
unfoldable pub utf16_bytes : QString → List ℕ
utf16_bytes [] = []
utf16_bytes (c ∷ s) = (c % 256) ∷ (c / 256) ∷ utf16_bytes s

unfoldable pub le_bytes : ℕ → ℕ → List ℕ
le_bytes zero n = []
le_bytes (suc k) n = (n % 256) ∷ le_bytes k (n / 256)

-- QJsonValue::Type as a char.
unfoldable pub type_code : Value → ℕ
type_code null = 0
type_code (bool b) = 1
type_code (num n) = 2
type_code (str s) = 3
type_code (arr xs) = 4
type_code (obj fs) = 5
type_code undefined = 0x80

-- The members that do not count for the hash.
unfoldable pub is_unhashed : QString → Bool
is_unhashed key = str_eq key uuid_str || (str_eq key version_str || str_eq key meta_str)

unfoldable pub version_as_string : QtCalls → ℕ → QString → QString
version_as_string q update_count hash = q.number update_count ++ (b'-' ∷ hash)

module _ (q : QtCalls) where
  unfoldable pub uuid : QJsonObject → ℕ
  uuid o = q.parse_uuid (to_string (value o uuid_str))

  unfoldable pub create_uuid_from_string : QString → ℕ
  create_uuid_from_string identifier = q.create_uuid_v3 json_db_namespace identifier

  -- `fresh` is the result of QUuid::createUuid.
  unfoldable pub generate_uuid : ℕ → QJsonObject → QJsonObject
  unfolding create_uuid_from_string
  generate_uuid fresh o =
      if contains o id_str
      then insert o uuid_str
          (str (q.uuid_to_string (create_uuid_from_string (to_string (value o id_str)))))
      else insert o uuid_str (str (q.uuid_to_string fresh))

  -- toInt() without a flag: 0 on failure; then qMax(1, ...).
  abbrev pub count_of : Option ℤ → ℕ
  count_of none = 1
  count_of (some i) = max 1 (pos_part i)

  abbrev pub tokens_of : List QString → QString → ℕ × QString
  tokens_of (count ∷ hash ∷ []) whole = (count_of (q.to_int count), hash)
  tokens_of _ whole = (1, whole)

  unfoldable pub tokenize_version : QString → ℕ × QString
  tokenize_version version_in =
      if is_empty version_in then (0, []) else tokens_of (split b'-' version_in) version_in

  unfoldable pub value_bytes : Value → List ℕ
  unfolding utf16_bytes le_bytes
  value_bytes (bool b) = if b then b'1' ∷ [] else b'0' ∷ []
  value_bytes (num n) = le_bytes 8 n
  value_bytes (str s) = utf16_bytes s
  value_bytes (arr xs) = q.raw_array (to_list xs)
  value_bytes (obj fs) = q.raw_object fs
  value_bytes v = []

  unfoldable pub hash_input : QJsonObject → List ℕ
  hash_input no_fields = []
  hash_input (field key v fs) =
      let rest = hash_input fs in
      if is_unhashed key then rest else utf16_bytes key ++ (type_code v ∷ (value_bytes v ++ rest))

  unfoldable pub content_hash : QJsonObject → QString
  content_hash o = take 10 (q.md5_hex (hash_input o))

  -- computeVersion(int, QString, int *, QString *): none where it returns false, and the new
  -- count and hash where it returns true.
  unfoldable pub compute_version : QJsonObject → ℕ → QString → Option (ℕ × QString)
  compute_version o old_update_count old_hash =
      let computed_hash = content_hash o in
      if not (str_eq computed_hash old_hash)
      then some (old_update_count + 1, computed_hash)
      else none

  abbrev pub tokens_lt : ℕ × QString → ℕ × QString → Bool
  tokens_lt (my_count, my_hash) (other_count, other_hash) =
      if not (my_count == other_count) then ltb my_count other_count else str_lt my_hash other_hash

  -- operator <
  unfoldable pub version_lt : QJsonObject → QJsonObject → Bool
  version_lt a b = tokens_lt (tokenize_version (version a)) (tokenize_version (version b))
