-- ===== src/Schema/Format.antt =====
-- src/partition/jsondbcheckpoints_p.h: CheckFormat. The cases of its switch compare hashes, except
-- for `time`, which has the hash of `date-time`.
use qtjsondb.Prelude.{
  Bool, true, false, Option, none, some, ◌==◌, ℤ, pos, negsuc, if◌then◌else◌, not,
}
use qtjsondb.Qt.Text.{QString, codes, str_eq}
use qtjsondb.Schema.Handle.{SchemaCalls, QRegularExpression}
use qtjsondb.Schema.Keyword.{hash}

abbrev pub date_time_exp : QRegularExpression
date_time_exp = record {
  pattern =
      codes
        "^[0-9]{4}-((0[1-9])|(1[0-2]))-(([0][1-9])|([12][0-9])|(3[01]))T(([01][0-9])|(2[0-3])):[0-5][0-9]:[0-5][0-9]([.][0-9]{3})?Z$";
  ignores_case = false;
}

abbrev pub date_exp : QRegularExpression
date_exp = record {
  pattern = codes "^([0-9]{4}-((0[1-9])|(1[0-2]))-(([0][1-9])|([12][0-9])|(3[01])))$";
  ignores_case = false;
}

abbrev pub time_exp : QRegularExpression
time_exp = record {
  pattern = codes "^((([01][0-9])|(2[0-3])):[0-5][0-9]:[0-5][0-9]([.][0-9]{3})?)$";
  ignores_case = false;
}

abbrev pub identifier_exp : QRegularExpression
identifier_exp = record { pattern = codes "^([a-z]+([.][a-z]+)+)$"; ignores_case = true }

abbrev pub version_exp : QRegularExpression
version_exp = record { pattern = codes "^([0-9]+([.][0-9]+)+)$"; ignores_case = false }

abbrev is_natural : Option ℤ → Bool
is_natural none = false
is_natural (some (pos n)) = true
is_natural (some (negsuc n)) = false

-- CheckFormat::doCheck at a text
unfoldable pub check_format : SchemaCalls → QString → QString → Bool
unfolding hash
check_format c format s =
    let h = hash (c.to_lower format) in
    if h == hash (codes "date-time")
    then (if str_eq format (codes "time")
        then c.has_match time_exp s
        else c.has_match date_time_exp s)
    else if h == hash (codes "date")
    then c.has_match date_exp s
    else if h == hash (codes "uuid")
    then not (c.qt.parse_uuid s == 0)
    else if h == hash (codes "regex")
    then c.is_valid_pattern s
    else if h == hash (codes "identifier")
    then c.has_match identifier_exp s
    else if h == hash (codes "version")
    then c.has_match version_exp s
    else if h == hash (codes "nonnegativeinteger")
    then is_natural (c.qt.to_int s)
    else true
