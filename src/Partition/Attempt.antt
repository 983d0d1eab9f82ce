-- ===== src/Partition/Attempt.antt =====
-- src/partition/jsondbpartition.cpp: the modes and codes of updateObjects, its checks as attempts,
-- which a refusal ends, and what its loop carries along.
use qtjsondb.Prelude.{ℕ, Bool, true, false, List, if◌then◌else◌}
use qtjsondb.Qt.Text.{QString, codes}
use qtjsondb.Qt.Json.{Value, null, str, QJsonObject}
use qtjsondb.Owner.{JsonDbOwner}
use qtjsondb.Partition.{JsonDbUpdate, Partition}

pub data ConflictResolutionMode : Type 0 where
  reject_stale replace_object replicated_write view_object : ConflictResolutionMode

pub data ErrorCode : Type 0 where
  no_error partition_unavailable out_of_space missing_uuid missing_type failed_schema_validation
        invalid_type :
      ErrorCode
  missing_object operation_not_permitted invalid_request updating_stale_version invalid_definition
        database_error :
      ErrorCode

pub data Attempt (A : Type 0) : Type 0 where
  passed : A → Attempt A
  refused : ErrorCode → Attempt A

infixl 5 ◌>>=◌ ◌>>◌
unfoldable pub ◌>>=◌ : {A B : Type 0} → Attempt A → (A → Attempt B) → Attempt B
passed a >>= f = f a
refused code >>= f = refused code

abbrev pub ◌>>◌ : {B : Type 0} → Attempt (Unit {0}) → Attempt B → Attempt B
m >> k = m >>= λ _. k

unfoldable pub require : Bool → ErrorCode → Attempt (Unit {0})
require ok code = if ok then passed tt else refused code

abbrev pub is_view_object : ConflictResolutionMode → Bool
is_view_object view_object = true
is_view_object _ = false

abbrev pub is_replicated : ConflictResolutionMode → Bool
is_replicated replicated_write = true
is_replicated _ = false

abbrev pub is_null : Value → Bool
is_null null = true
is_null _ = false

-- type().isNull(): the member is no text.
abbrev pub has_null_type : Value → Bool
has_null_type (str s) = false
has_null_type _ = true

abbrev pub owner_str : QString
owner_str = codes "_owner"

-- An object to write, with the result of createUuid and of putOne.
pub record Request : Type 0 where
  pub object : QJsonObject
  pub fresh_uuid : ℕ
  pub put_ok : Bool

pub record Writer : Type 0 where
  pub owner_id : QString
  pub rights : JsonDbOwner
  pub enforces : Bool

-- What the checks of an object leave: it, and the object that is stored, with whether it is known.
pub record Checked : Type 0 where
  pub object : QJsonObject
  pub master : QJsonObject
  pub for_creation : Bool
  pub for_removal : Bool

-- What is to be stored.
pub record Prepared : Type 0 where
  pub master : QJsonObject
  pub old_master : QJsonObject
  pub version_written : QString
  pub for_creation : Bool
  pub for_removal : Bool

-- The partition, and the result as far as it is made.
pub record Writing (D : Type 0) : Type 0 where
  pub partition : Partition D
  pub code : ErrorCode
  pub state : ℕ
  pub objects_written : List QJsonObject
  pub updated : List JsonDbUpdate
