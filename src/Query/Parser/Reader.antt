-- ===== src/Query/Parser/Reader.antt =====
-- src/partition/jsondbqueryparser.cpp reads tokens from a tokenizer that its functions share: they
-- are actions on the tokenizer, which give none where a loop runs out of fuel.
pub mod Runs
pub mod Tokens
use qtjsondb.Prelude.{Option, none, some}
use qtjsondb.Qt.Text.{QString}
use qtjsondb.Qt.Calls.{QtCalls}
use qtjsondb.Query.Tokenizer.{Tokenizer, pop, peek, pop_identifier, push}

abbrev pub Reader : Type 0 → Type 0
Reader A = Tokenizer → Option (A × Tokenizer)

infixl 5 ◌>>=◌ ◌>>◌
unfoldable pub ◌>>=◌ : {A B : Type 0} → Reader A → (A → Reader B) → Reader B
◌>>=◌ m f tk = elim (m tk) [ none ↦ none | some (a, tk') ↦ f a tk' ]

abbrev pub ◌>>◌ : {B : Type 0} → Reader (Unit {0}) → Reader B → Reader B
m >> k = m >>= λ _. k

unfoldable pub pure : {A : Type 0} → A → Reader A
pure a tk = some (a, tk)

unfoldable pub out_of_fuel : {A : Type 0} → Reader A
out_of_fuel tk = none

unfoldable pub push_token : QString → Reader (Unit {0})
push_token t tk = some (tt, push tk t)

module _ (q : QtCalls) where
  unfoldable pub pop_token : Reader QString
  pop_token tk = some (pop q tk)

  unfoldable pub peek_token : Reader QString
  peek_token tk = some (peek q tk)

  unfoldable pub next_identifier : Reader QString
  next_identifier tk = some (pop_identifier q tk)
