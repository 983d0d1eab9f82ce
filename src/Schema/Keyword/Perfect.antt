-- ===== src/Schema/Keyword/Perfect.antt =====
-- src/partition/jsondbcheckpoints_p.h: createCheckPoint chooses by a hash and compares the name.
-- No two keywords share a hash, so the choice is that by the name alone.
use qtjsondb.Prelude.{
  ℕ, ◌≡◌, refl, Bool, true, false, ◌&&◌, ◌||◌, List, [], ◌∷◌, arith, ◌==◌, if◌then◌else◌, not,
}
use qtjsondb.Qt.Text.{QString, str_eq, str_eq_iff}
use qtjsondb.Schema.Keyword.{Keyword, null_key, hash, select, switch_cases, keyword_of}

-- The keyword by its name.
unfoldable pub named_keyword : List (QString × Keyword) → QString → Keyword
named_keyword [] key_name = null_key
named_keyword ((name, keyword) ∷ cases) key_name =
    let rest = named_keyword cases key_name in if str_eq name key_name then keyword else rest

unfoldable has_hash : ℕ → List (QString × Keyword) → Bool
has_hash h [] = false
has_hash h ((name, keyword) ∷ cases) = (hash name == h) || has_hash h cases

unfoldable distinct : List (QString × Keyword) → Bool
unfolding has_hash
distinct [] = true
distinct ((name, keyword) ∷ cases) = not (has_hash (hash name) cases) && distinct cases

named_elsewhere :
    (cases : List (QString × Keyword)) (key_name : QString)
    → has_hash (hash key_name) cases ≡ false
    → named_keyword cases key_name ≡ null_key
unfolding named_keyword has_hash
named_elsewhere [] key_name h = refl
named_elsewhere ((name, keyword) ∷ cases) key_name h =
    ground (arith, named_elsewhere cases key_name, str_eq_iff name key_name)

select-eq-named_keyword :
    (cases : List (QString × Keyword)) (key_name : QString)
    → distinct cases ≡ true
    → select cases (hash key_name) key_name ≡ named_keyword cases key_name
unfolding select named_keyword distinct
select-eq-named_keyword [] key_name h = refl
select-eq-named_keyword ((name, keyword) ∷ cases) key_name h = ground (
  arith,
  select-eq-named_keyword cases key_name,
  str_eq_iff name key_name,
  named_elsewhere cases key_name,
)

switch_cases-distinct : distinct switch_cases ≡ true
unfolding distinct has_hash switch_cases hash
switch_cases-distinct = refl

-- For every name the switch on its hash, with its comparison, chooses the keyword of that name,
-- or none where no keyword has it.
pub keyword_of-eq-named_keyword :
    (key_name : QString) → keyword_of key_name ≡ named_keyword switch_cases key_name
unfolding keyword_of
keyword_of-eq-named_keyword key_name =
    select-eq-named_keyword switch_cases key_name switch_cases-distinct
