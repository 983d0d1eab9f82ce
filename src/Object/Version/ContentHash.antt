-- ===== src/Object/Version/ContentHash.antt =====
-- What the hash of an object depends on.
use qtjsondb.Prelude.{ℕ, ◌≡◌, refl, ◌↔◌, true, none, arith, ap, take}
use qtjsondb.Qt.Text.{QString, str_eq, str_eq_iff}
use qtjsondb.Qt.Json.{
  Value, undefined, null, bool, num, str, arr, obj, QJsonObject, no_fields, field, remove, put,
  insert,
}
use qtjsondb.Qt.Calls.{QtCalls}
use qtjsondb.Object.Version.{is_unhashed, hash_input, content_hash, compute_version}

is_unhashed_of_eq :
    (j k : QString) → str_eq j k ≡ true → is_unhashed k ≡ true → is_unhashed j ≡ true
is_unhashed_of_eq j k e h = rw ((str_eq_iff j k).0 e) h

module _ (q : QtCalls) where
  hash_input-remove :
      (o : QJsonObject) (k : QString)
      → is_unhashed k ≡ true
      → hash_input q (remove o k) ≡ hash_input q o
  unfolding hash_input remove
  hash_input-remove no_fields k h = refl
  hash_input-remove (field j v fs) k h =
      ground (arith, is_unhashed_of_eq j k, hash_input-remove fs k h)

  hash_input-put :
      (o : QJsonObject) (k : QString) (v : Value)
      → is_unhashed k ≡ true
      → hash_input q (put o k v) ≡ hash_input q o
  unfolding hash_input put
  hash_input-put no_fields k v h = rw h
  hash_input-put (field j w fs) k v h =
      ground (arith, is_unhashed_of_eq j k, hash_input-put fs k v h)

  hash_input-insert :
      (o : QJsonObject) (k : QString) (v : Value)
      → is_unhashed k ≡ true
      → hash_input q (insert o k v) ≡ hash_input q o
  unfolding insert
  hash_input-insert o k undefined h = hash_input-remove o k h
  hash_input-insert o k null h = hash_input-put o k null h
  hash_input-insert o k (bool b) h = hash_input-put o k (bool b) h
  hash_input-insert o k (num n) h = hash_input-put o k (num n) h
  hash_input-insert o k (str s) h = hash_input-put o k (str s) h
  hash_input-insert o k (arr xs) h = hash_input-put o k (arr xs) h
  hash_input-insert o k (obj fs) h = hash_input-put o k (obj fs) h

  -- Inserting any value at a key that does not count for the hash leaves the hash of the
  -- content.
  pub content_hash-insert :
      (o : QJsonObject) (k : QString) (v : Value)
      → is_unhashed k ≡ true
      → content_hash q (insert o k v) ≡ content_hash q o
  content_hash-insert o k v h =
      unfold content_hash in ap (λ s. take 10 (q.md5_hex s)) (hash_input-insert o k v h)

  -- There is no new version exactly when the old hash is that of the content.
  pub compute_version-eq_none_iff :
      (o : QJsonObject) (n : ℕ) (hash : QString)
      → (compute_version q o n hash ≡ none) ↔ (hash ≡ content_hash q o)
  unfolding compute_version
  compute_version-eq_none_iff o n hash = ground (arith, str_eq_iff (content_hash q o) hash)
