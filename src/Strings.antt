-- ===== src/Strings.antt =====
-- src/partition/jsondbstrings.cpp: the names of the members that the partition layer reads.
use qtjsondb.Qt.Text.{QString, codes}

abbrev pub uuid_str : QString
uuid_str = codes "_uuid"

abbrev pub version_str : QString
version_str = codes "_version"

abbrev pub type_str : QString
type_str = codes "_type"

abbrev pub deleted_str : QString
deleted_str = codes "_deleted"

abbrev pub meta_str : QString
meta_str = codes "_meta"

abbrev pub conflicts_str : QString
conflicts_str = codes "conflicts"

abbrev pub history_str : QString
history_str = codes "history"

abbrev pub local_str : QString
local_str = codes "_local"

abbrev pub index_value_str : QString
index_value_str = codes "_indexValue"
