-- ===== src/Schema/Keyword.antt =====
-- src/partition/jsondbcheckpoints_p.h: QStaticStringHash, and the choice of a check by the name of
-- a keyword in createCheckPoint.
pub mod Perfect
use Prim.Native.Nat.{bit_xor}
use qtjsondb.Prelude.{ℕ, ◌+◌, ◌%◌, ◌^◌, Bool, true, false, ◌&&◌, List, [], ◌∷◌, ◌==◌, if◌then◌else◌}
use qtjsondb.Qt.Text.{QString, codes, str_eq}

-- The hash of a text, an int of 32 bits.
unfoldable pub hash : QString → ℕ
hash [] = 0
hash (a ∷ s) = (bit_xor a (hash s) + 5) % 2 ^ 32

pub data Keyword : Type 0 where
  required_key maximum_key exclusive_maximum_key minimum_key exclusive_minimum_key : Keyword
  properties_key description_key title_key max_items_key min_items_key items_key : Keyword
  extends_key pattern_key min_length_key max_length_key ref_key type_key format_key : Keyword
  null_key : Keyword

-- The cases of the switch: a keyword with its name, which the static hash and the comparison take.
unfoldable pub switch_cases : List (QString × Keyword)
switch_cases =
    (codes "required", required_key)
    ∷ (codes "maximum", maximum_key)
    ∷ (codes "exclusivemaximum", exclusive_maximum_key)
    ∷ (codes "minimum", minimum_key)
    ∷ (codes "exclusiveminimum", exclusive_minimum_key)
    ∷ (codes "properties", properties_key)
    ∷ (codes "description", description_key)
    ∷ (codes "title", title_key)
    ∷ (codes "maxitems", max_items_key)
    ∷ (codes "minitems", min_items_key)
    ∷ (codes "items", items_key)
    ∷ (codes "extends", extends_key)
    ∷ (codes "pattern", pattern_key)
    ∷ (codes "minlength", min_length_key)
    ∷ (codes "maxlength", max_length_key)
    ∷ (codes "$ref", ref_key)
    ∷ (codes "type", type_key)
    ∷ (codes "format", format_key)
    ∷ []

-- The case of a hash, which compares the name; one that fails leaves the switch.
unfoldable pub select : List (QString × Keyword) → ℕ → QString → Keyword
unfolding hash
select [] h key_name = null_key
select ((name, keyword) ∷ cases) h key_name =
    let rest = select cases h key_name in
    if hash name == h then (if str_eq name key_name then keyword else null_key) else rest

-- The keyword of createCheckPoint, at a name in lower case.
unfoldable pub keyword_of : QString → Keyword
unfolding hash switch_cases select
keyword_of key_name = select switch_cases (hash key_name) key_name
