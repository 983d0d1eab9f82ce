-- ===== src/Object/Version/Tokens.antt =====
-- Versions as pairs of an update count and a hash: printing and reading, and their order.
use qtjsondb.Prelude.{ℕ, ◌^◌, ◌<◌, ◌≡◌, refl, ◌⊎◌, true, false, [], ◌∷◌, ◌++◌, arith, is_empty}
use qtjsondb.Qt.Text.{QString, has_unit, split_once, str_lt_irrefl, str_lt_trans, str_trichotomy}
use qtjsondb.Qt.Json.{QJsonObject}
use qtjsondb.Qt.Calls.{QtCalls, NumberLaws}
use qtjsondb.Object.Version.{version, tokenize_version, version_as_string, tokens_lt, version_lt}

not_empty : (s t : QString) (c : ℕ) → is_empty (s ++ c ∷ t) ≡ false
not_empty [] t c = refl
not_empty (_ ∷ s) t c = refl

module _ (q : QtCalls) where
  -- If numbers read as they were written, a version that is written from a positive count that
  -- is an int and from a hash without a dash is read as that count and that hash.
  pub tokenize_version-version_as_string :
      (laws : NumberLaws q) (n : ℕ) (hash : QString)
      → 0 < n
      → n < 2 ^ 31
      → has_unit b'-' hash ≡ false
      → tokenize_version q (version_as_string q n hash) ≡ (n, hash)
  unfolding tokenize_version version_as_string
  tokenize_version-version_as_string laws n hash pos small plain =
      rw
        (
          not_empty (q.number n) hash b'-',
          split_once b'-' (q.number n) hash (laws.number_no_dash n) plain,
          laws.to_int-number n small,
        )
        (ground arith)

  pub version_lt_irrefl : (a : QJsonObject) → version_lt q a a ≡ false
  unfolding version_lt
  version_lt_irrefl a =
      let (n, h) = tokenize_version q (version a) in ground (arith, str_lt_irrefl h)

  tokens_lt_trans :
      (n m k : ℕ) (h i j : QString)
      → tokens_lt q (n, h) (m, i) ≡ true
      → tokens_lt q (m, i) (k, j) ≡ true
      → tokens_lt q (n, h) (k, j) ≡ true
  tokens_lt_trans n m k h i j p r = ground (arith, str_lt_trans h i j)

  -- The order of objects by version is transitive.
  pub version_lt_trans :
      (a b c : QJsonObject)
      → version_lt q a b ≡ true
      → version_lt q b c ≡ true
      → version_lt q a c ≡ true
  unfolding version_lt
  version_lt_trans a b c =
      let (n, h) = tokenize_version q (version a) in
      let (m, i) = tokenize_version q (version b) in
      let (k, j) = tokenize_version q (version c) in tokens_lt_trans n m k h i j

  tokens_trichotomy :
      (n m : ℕ) (h i : QString)
      → (tokens_lt q (n, h) (m, i) ≡ true)
        ⊎ ((◌≡◌ {A = ℕ × QString} (n, h) (m, i)) ⊎ (tokens_lt q (m, i) (n, h) ≡ true))
  tokens_trichotomy n m h i = ground (arith, str_trichotomy h i)

  -- Of two objects one is below the other, or their versions have the same count and hash.
  pub version_trichotomy :
      (a b : QJsonObject)
      → (version_lt q a b ≡ true)
        ⊎ ((tokenize_version q (version a) ≡ tokenize_version q (version b))
            ⊎ (version_lt q b a ≡ true))
  unfolding version_lt
  version_trichotomy a b =
      let (n, h) = tokenize_version q (version a) in
      let (m, i) = tokenize_version q (version b) in tokens_trichotomy n m h i
