-- ===== src/Object/Tests/Replicating.antt =====
-- src/partition/jsondbobject.cpp on small objects: replication.
use qtjsondb.Prelude.{◌≡◌, ◌+◌, ◌<◌, ◌^◌, refl, true, false, arith}
use qtjsondb.Qt.Text.{str_eq, split, has_unit}
use qtjsondb.Qt.Json.{value, contains, is_empty_object}
use qtjsondb.Qt.Sample.{sample, sample-NumberLaws}
use qtjsondb.Object.Version.{
  version, uuid, tokenize_version, content_hash, hash_input, utf16_bytes, type_code, value_bytes,
  is_unhashed, version_lt, compute_version,
}
use qtjsondb.Object.Optimistic.{update_version_optimistic}
use qtjsondb.Object.Replicate.{
  update_version_replicating, populate_merge, merge_conflicts, is_valid_source,
}
use qtjsondb.Object.Replicate.Accepted.{
  is_consistent, knows, replicating_winner, replicating_winner_local, replicating_keeps,
  replicating_keeps_local,
}
use qtjsondb.Object.Replicate.Source.{is_valid_source_progress}
use qtjsondb.Object.Tests.{stored, changed, rival, new_content, no_conflict, is_current}

accepted : (update_version_replicating sample stored rival).1 ≡ true
unfolding update_version_replicating populate_merge merge_conflicts is_valid_source compute_version
    version uuid value str_eq tokenize_version split content_hash hash_input is_unhashed utf16_bytes
    type_code value_bytes contains
accepted = refl

nonempty : is_empty_object stored ≡ false
nonempty = refl

consistent : is_consistent sample stored ≡ true
unfolding populate_merge merge_conflicts is_valid_source uuid value contains str_eq
consistent = refl

replicating_winner_example :
    version_lt sample (update_version_replicating sample stored rival).0 rival ≡ false
replicating_winner_example = replicating_winner sample stored rival accepted

replicating_winner_local_example :
    version_lt sample (update_version_replicating sample stored rival).0 stored ≡ false
replicating_winner_local_example =
    replicating_winner_local sample stored rival accepted nonempty consistent

replicating_keeps_example :
    knows sample
      (tokenize_version sample (version rival))
      (update_version_replicating sample stored rival).0
    ≡ true
replicating_keeps_example = replicating_keeps sample stored rival accepted

stored_count : 0 < (tokenize_version sample (version stored)).0
unfolding tokenize_version version value str_eq split
stored_count = omega arith

replicating_keeps_local_example :
    knows sample
      (tokenize_version sample (version stored))
      (update_version_replicating sample stored rival).0
    ≡ true
replicating_keeps_local_example =
    replicating_keeps_local sample stored rival accepted nonempty consistent stored_count

small_count : (tokenize_version sample (version changed)).0 + 1 < 2 ^ 31
unfolding tokenize_version version value str_eq split
small_count = omega arith

plain_hash : has_unit b'-' (content_hash sample changed) ≡ false
unfolding content_hash hash_input is_unhashed str_eq utf16_bytes value_bytes type_code has_unit
plain_hash = refl

is_valid_source_progress_example :
    is_valid_source sample
      (uuid sample changed)
      (update_version_optimistic sample stored changed true).head
      true
    ≡ true
is_valid_source_progress_example =
    is_valid_source_progress sample sample-NumberLaws stored changed true new_content
      (no_conflict (version changed)) is_current small_count plain_hash
