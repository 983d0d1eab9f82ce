-- ===== src/Query/Tokenizer.antt =====
-- src/partition/jsondbquerytokenizer.cpp and jsondbquerytokenizer_p.h: the tokens of a query. The
-- position is kept as the text that is left, and an empty token means the end.
pub mod Progress
use qtjsondb.Prelude.{
  ℕ, zero, suc, ◌+◌, Bool, true, false, ◌&&◌, ◌||◌, List, [], ◌∷◌, ◌++◌, Option, none, some, not,
  is_empty, if◌then◌else◌, ◌==◌, length, drop, take,
}
use qtjsondb.Qt.Calls.{QtCalls}
use qtjsondb.Qt.Text.{QString, codes, starts_with}

-- sTokens, in the order in which they are tried.
abbrev pub s_tokens : List QString
s_tokens =
    codes "["
    ∷ codes "]"
    ∷ codes "{"
    ∷ codes "}"
    ∷ codes "/"
    ∷ codes "?"
    ∷ codes ","
    ∷ codes ":"
    ∷ codes "|"
    ∷ (92 ∷ [])
    ∷ codes "!=~"
    ∷ codes "=~"
    ∷ codes "!="
    ∷ codes "<="
    ∷ codes ">="
    ∷ codes "->"
    ∷ codes "="
    ∷ codes ">"
    ∷ codes "<"
    ∷ []

-- The first token of the list with which the next three units begin.
unfoldable pub find_token : List QString → QString → Option QString
find_token [] next = none
find_token (t ∷ tokens) next =
    if starts_with (take 3 next) t then some t else find_token tokens next

abbrev pub extend : ℕ → Option (QString × QString) → Option (QString × QString)
extend c none = none
extend c (some (body, rest)) = some (c ∷ body, rest)

-- The loop over a quoted string: the units through the closing quote, and what is left behind it.
unfoldable pub match_string : Bool → QString → Option (QString × QString)
match_string escaped [] = none
match_string escaped (c ∷ s) =
    let more = match_string (c == 92) s in
    if not escaped && (c == 34) then some (c ∷ [], s) else extend c more

-- What one round of the loop of getNextToken does: it returns a token, or goes on with the token
-- as far as it is read; both with the text that is left.
pub data Round : Type 0 where
  token : QString → QString → Round
  go_on : QString → QString → Round

abbrev pub quoted : QString → Option (QString × QString) → Round
quoted result none = token [] []
quoted result (some (body, rest)) = token (result ++ (34 ∷ body)) rest

abbrev pub operator_round : QString → ℕ → QString → Option QString → Round
operator_round result c s none = go_on (result ++ c ∷ []) s
operator_round result c s (some t) =
    if is_empty result then token t (drop (length t) (c ∷ s)) else token result (c ∷ s)

abbrev pub read_unit : QString → ℕ → QString → Round
read_unit result c s = operator_round result c s (find_token s_tokens (c ∷ s))

-- An index expression [n] or [*] is a part of a token, if there is one before it.
unfoldable pub index_round : QString → ℕ → QString → Round
unfolding find_token starts_with
index_round result c (a ∷ b ∷ s) =
    if not (is_empty result) && ((c == b'[') && (b == b']'))
    then go_on (result ++ (c ∷ a ∷ b ∷ [])) s
    else read_unit result c (a ∷ b ∷ s)
index_round result c s = read_unit result c s

abbrev pub proceed :
    (QString → QString → Option (QString × QString)) → Round → Option (QString × QString)
proceed k (token t rest) = some (t, rest)
proceed k (go_on result rest) = k result rest

module _ (q : QtCalls) where
  unfoldable pub next_round : QString → ℕ → QString → Round
  unfolding match_string index_round
  next_round result c s =
      if c == 34
      then quoted result (match_string false s)
      else if q.is_space c
      then (if is_empty result then go_on [] s else token result s)
      else index_round result c s

  -- The loop of getNextToken on fuel: none where the fuel runs out. At the end of the input the
  -- token that is read so far is dropped.
  unfoldable pub next_token : ℕ → QString → QString → Option (QString × QString)
  next_token zero result s = none
  next_token (suc fuel) result [] = some ([], [])
  next_token (suc fuel) result (c ∷ s) = proceed (next_token fuel) (next_round result c s)

  abbrev pub or_end : Option (QString × QString) → QString × QString
  or_end none = ([], [])
  or_end (some r) = r

  -- getNextToken()
  unfoldable pub get_next_token : QString → QString × QString
  unfolding next_token next_round
  get_next_token input = or_end (next_token (suc (length input)) [] input)

pub record Tokenizer : Type 0 where
  pub input : QString
  pub pushed : QString

abbrev pub new_tokenizer : QString → Tokenizer
new_tokenizer input = record { input = input; pushed = [] }

unfoldable pub push : Tokenizer → QString → Tokenizer
push tk t = record tk { pushed = t }

abbrev pub ends_with_quote : QString → Bool
ends_with_quote [] = false
ends_with_quote (c ∷ []) = c == 34
ends_with_quote (c ∷ d ∷ s) = ends_with_quote (d ∷ s)

abbrev pub drop_last : QString → QString
drop_last [] = []
drop_last (c ∷ []) = []
drop_last (c ∷ d ∷ s) = c ∷ drop_last (d ∷ s)

unfoldable pub unquote : QString → QString
unquote t = if starts_with t (34 ∷ []) && ends_with_quote t then drop_last (drop 1 t) else t

module _ (q : QtCalls) where
  unfoldable pub pop : Tokenizer → QString × Tokenizer
  unfolding get_next_token
  pop tk =
      let (t, rest) = get_next_token q tk.input in
      if is_empty tk.pushed
      then (t, record { input = rest; pushed = [] })
      else (tk.pushed, record tk { pushed = [] })

  unfoldable pub peek : Tokenizer → QString × Tokenizer
  unfolding get_next_token
  peek tk =
      let (t, rest) = get_next_token q tk.input in
      if is_empty tk.pushed then (t, record { input = rest; pushed = t }) else (tk.pushed, tk)

  unfoldable pub pop_identifier : Tokenizer → QString × Tokenizer
  unfolding pop unquote starts_with
  pop_identifier tk = let (t, tk') = pop tk in (unquote t, tk')
