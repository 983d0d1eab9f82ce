-- ===== src/Qt/Calls.antt =====
-- The functions of Qt that the sources call and that are not modelled: an implementation of
-- them is an argument of every definition that calls one.
use qtjsondb.Prelude.{ℕ, ◌^◌, ◌<◌, ◌≡◌, Bool, false, List, Option, some, ℤ, pos}
use qtjsondb.Qt.Text.{QString, has_unit}
use qtjsondb.Qt.Json.{QJsonArray, QJsonObject}

-- QRegExp: its pattern, whether its syntax is Wildcard, and whether it ignores case.
pub record QRegExp : Type 0 where
  pub pattern : QString
  pub is_wildcard : Bool
  pub ignores_case : Bool

pub record QtCalls : Type 0 where
  -- QString::toInt, with none where it reports failure
  pub to_int : QString → Option ℤ
  -- QString::number
  pub number : ℕ → QString
  -- QCryptographicHash with Md5, then QByteArray::toHex
  pub md5_hex : List ℕ → QString
  -- QJsonDocument::rawData
  pub raw_array : QJsonArray → List ℕ
  pub raw_object : QJsonObject → List ℕ
  -- QJsonDocument::toBinaryData
  pub to_binary_data : QJsonObject → List ℕ
  -- QUuid(QString), QUuid::toString and QUuid::createUuidV3
  pub parse_uuid : QString → ℕ
  pub uuid_to_string : ℕ → QString
  pub create_uuid_v3 : ℕ → QString → ℕ
  -- operator < of QUuid
  pub uuid_lt : ℕ → ℕ → Bool
  -- QChar::isSpace
  pub is_space : ℕ → Bool
  -- == and < on doubles
  pub double_eq : ℕ → ℕ → Bool
  pub double_lt : ℕ → ℕ → Bool
  -- QString::number and QString::toDouble, and the conversion of an int
  pub number_of_double : ℕ → QString
  pub to_double : QString → Option ℕ
  pub double_of_int : ℤ → ℕ
  -- QRegExp::exactMatch
  pub exact_match : QRegExp → QString → Bool

-- What the documentation of QString says of decimal numbers.
pub record NumberLaws (q : QtCalls) : Type 0 where
  pub to_int-number : (n : ℕ) → n < 2 ^ 31 → q.to_int (q.number n) ≡ some (pos n)
  pub number_no_dash : (n : ℕ) → has_unit b'-' (q.number n) ≡ false

-- Comparing doubles does not depend on the order of the operands.
pub record DoubleLaws (q : QtCalls) : Type 0 where
  pub double_eq_comm : (a b : ℕ) → q.double_eq a b ≡ q.double_eq b a
