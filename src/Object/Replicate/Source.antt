-- ===== src/Object/Replicate/Source.antt =====
-- An object that an optimistic write made can be replicated.
use qtjsondb.Prelude.{
  ℕ, ◌+◌, ◌<◌, ◌^◌, ◌≡◌, refl, ◌∙◌, ap, sym, Bool, true, false, ◌||◌, ==_iff, none, arith, any,
  is_empty,
}
use qtjsondb.Qt.Text.{QString, str_eq, has_unit}
use qtjsondb.Qt.Json.{Value, QJsonObject, to_string}
use qtjsondb.Qt.Calls.{QtCalls, NumberLaws}
use qtjsondb.Strings.{uuid_str, version_str, meta_str}
use qtjsondb.Object.Version.{
  version, uuid, is_unhashed, tokenize_version, content_hash, compute_version,
}
use qtjsondb.Object.Version.Tokens.{tokenize_version-version_as_string}
use qtjsondb.Object.Version.ContentHash.{content_hash-insert, compute_version-eq_none_iff}
use qtjsondb.Object.Optimistic.{Update, Write, conflicts_of, prepare, update_version_optimistic}
use qtjsondb.Object.Optimistic.Accept.{has_version, is_own_version}
use qtjsondb.Object.Optimistic.Head.{written_head, update_version_optimistic_head}
use qtjsondb.Object.Optimistic.Progress.{update_version_optimistic_progress}
use qtjsondb.Object.Replicate.{is_valid_source}

module _ (q : QtCalls) where
  content_hash-written_head :
      (u : Update) (w : Write) → content_hash q (written_head q u w) ≡ content_hash q u.other
  content_hash-written_head u w =
      content_hash-insert q _ meta_str _ (unfold is_unhashed str_eq in refl)
      ∙ content_hash-insert q u.other version_str _ (unfold is_unhashed str_eq in refl)

  is_valid_source_of :
      (id : ℕ) (source : QJsonObject) (n : ℕ) (hash : QString)
      → uuid q source ≡ id
      → tokenize_version q (version source) ≡ (n + 1, hash)
      → compute_version q source (n + 1) hash ≡ none
      → is_valid_source q id source true ≡ true
  unfolding is_valid_source
  is_valid_source_of id source n hash same tokens own =
      rw (tokens, own) (ground (arith, ==_iff (uuid q source) id))

  -- Let `other`, whose content is not that of the version it carries, be written over an object
  -- that has this version or none, and no conflict of this version. If numbers read as they
  -- were written, the next count is an int and the hash has no dash, then the object after the
  -- write passes the checks of a replicating write: it has the uuid of `other`, and its version
  -- is that of its content.
  pub is_valid_source_progress :
      (laws : NumberLaws q) (o other : QJsonObject) (track : Bool)
      → is_own_version q other ≡ false
      → any (has_version (version other)) (conflicts_of o) ≡ false
      → (is_empty (version o) || str_eq (version o) (version other)) ≡ true
      → (tokenize_version q (version other)).0 + 1 < 2 ^ 31
      → has_unit b'-' (content_hash q other) ≡ false
      → is_valid_source q (uuid q other) (update_version_optimistic q o other track).head true
        ≡ true
  is_valid_source_progress laws o other track new clean current small plain =
      let n = (tokenize_version q (version other)).0 in
      let hash = content_hash q other in
      let (u, w) = prepare q o other track in
      let head = (update_version_optimistic q o other track).head in
      let form = update_version_optimistic_head q o other track new clean current in
      let after =
        update_version_optimistic_progress q o other track new clean current uuid_str
          (unfold str_eq in refl) (unfold str_eq in refl) in
      let same_hash : content_hash q head ≡ hash =
        ap (content_hash q) form.0 ∙ content_hash-written_head u w ∙ unfold prepare in refl in
      is_valid_source_of (uuid q other) head n hash
        (unfold uuid in ap (λ (v : Value). q.parse_uuid (to_string v)) after.3)
        (rw after.2
          (tokenize_version-version_as_string q laws (n + 1) hash (omega arith) small plain))
        ((compute_version-eq_none_iff q head (n + 1) hash).1 (sym same_hash))
