-- ===== src/Query/Parser/Json.antt =====
-- src/partition/jsondbqueryparser.cpp: parseJsonLiteral, parseJsonArray and parseJsonObject.
pub mod Total
use qtjsondb.Prelude.{
  ℕ, zero, suc, Bool, true, false, ◌||◌, List, [], ◌∷◌, ◌++◌, Option, none, some, ◌==◌, is_empty,
  pos, drop, if◌then◌else◌, not,
}
use qtjsondb.Qt.Text.{QString, codes, str_eq, starts_with}
use qtjsondb.Qt.Json.{
  Value, undefined, null, bool, num, str, obj, QJsonArray, QJsonObject, no_fields, array_value,
  insert,
}
use qtjsondb.Qt.Calls.{QtCalls}
use qtjsondb.Query.Tokenizer.{drop_last}
use qtjsondb.Query.Parser.Reader.{Reader, ◌>>=◌, pure, out_of_fuel, pop_token, next_identifier}

-- The value, the name that setVariable is called with, and *ok.
pub record Literal : Type 0 where
  pub value : Value
  pub variable : Option QString
  pub ok : Bool

abbrev literal : Value → Literal
literal v = record { value = v; variable = none; ok = true }

abbrev pub no_literal : Literal
no_literal = record { value = undefined; variable = none; ok = false }

-- The text is the word through its terminating 0.
abbrev is_word : QString → QString → Bool
is_word word json = starts_with (json ++ 0 ∷ []) (word ++ 0 ∷ [])

-- An Undefined that is appended to an array is stored as Null.
abbrev pub append_value : QJsonArray → Value → QJsonArray
append_value array undefined = array ++ null ∷ []
append_value array v = array ++ v ∷ []

abbrev pub is_bracket : ℕ → QString → Bool
is_bracket c token = str_eq token (c ∷ [])

-- A list that is being read, with *ok.
abbrev pub ArrayReader : Type 0
ArrayReader = QJsonArray → Bool → Reader (QJsonArray × Bool)

abbrev pub ObjectReader : Type 0
ObjectReader = QJsonObject → Bool → Reader (QJsonObject × Bool)

module _ (q : QtCalls) where
  abbrev number_literal : QString → Literal
  number_literal json = elim (q.to_int json) [
    | some i ↦ literal (num (q.double_of_int i))
    | none ↦ elim (q.to_double json) [
      | some d ↦ literal (num d)
      | none ↦ record (literal (num (q.double_of_int (pos 0)))) { ok = false }
    ]
  ]

  -- parseJsonLiteral, by the first unit.
  unfoldable pub parse_json_literal : QString → Literal
  unfolding starts_with
  parse_json_literal [] = no_literal
  parse_json_literal (c ∷ s) =
      if c == 34
      then literal (str (drop_last s))
      else if c == b't'
      then (if is_word (codes "true") (c ∷ s) then literal (bool true) else no_literal)
      else if c == b'f'
      then (if is_word (codes "false") (c ∷ s) then literal (bool false) else no_literal)
      else if c == b'%'
      then record (literal undefined) { variable = some s }
      else if c == 0
      then no_literal
      else number_literal (c ∷ s)

  -- The value that begins with a token, and *ok after it.
  unfoldable pub json_value : ArrayReader → ObjectReader → QString → Reader (Value × Bool)
  json_value arrays objects token =
      if is_bracket b'[' token
      then (do (array, ok) ← arrays [] true; pure (array_value array, ok))
      else if is_bracket b'{' token
      then (do (object, ok) ← objects no_fields true; pure (obj object, ok))
      else let l = parse_json_literal token in pure (l.value, l.ok)

  -- A round of the loop of parseJsonArray from its token on. *ok is what the last value left.
  unfoldable pub array_round :
      ArrayReader → ObjectReader → QJsonArray → QString → Bool → Reader (QJsonArray × Bool)
  array_round arrays objects array token ok =
      if is_empty token || (is_bracket b']' token || is_bracket b'|' token)
      then pure (array, ok)
      else do
        (v, ok') ← json_value arrays objects token
        sep ← pop_token q
        let array' = append_value array v
        if is_bracket b']' sep
            then pure (array', ok')
            else if not (is_bracket b',' sep)
            then pure (array', false)
            else arrays array' ok'

  unfoldable pub object_round :
      ArrayReader → ObjectReader → QJsonObject → QString → Bool → Reader (QJsonObject × Bool)
  object_round arrays objects object key ok =
      if is_empty key || (is_bracket b'}' key || is_bracket b'|' key) then pure (object, ok) else do
        colon ← pop_token q
        if not (is_bracket b':' colon) then pure (object, false) else do
          token ← pop_token q
          (v, ok') ← json_value arrays objects token
          sep ← pop_token q
          let object' = insert object key v
          if is_bracket b'}' sep
              then pure (object', ok')
              else if not (is_bracket b',' sep)
              then pure (object', false)
              else objects object' ok'

  unfoldable mutual
    -- parseJsonArray and parseJsonObject, from the next round on.
    pub parse_json_array : ℕ → ArrayReader
    parse_json_array zero array ok = out_of_fuel
    parse_json_array (suc fuel) array ok = pop_token q >>= λ token.
        array_round (parse_json_array fuel) (parse_json_object fuel) array token ok

    pub parse_json_object : ℕ → ObjectReader
    parse_json_object zero object ok = out_of_fuel
    parse_json_object (suc fuel) object ok = next_identifier q >>= λ key.
        object_round (parse_json_array fuel) (parse_json_object fuel) object key ok
