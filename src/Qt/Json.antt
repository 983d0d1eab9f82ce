-- ===== src/Qt/Json.antt =====
-- QJsonValue, QJsonArray and QJsonObject, with the operations that the sources call. An array
-- is used as the list of its values; an object is the list of its members in the order of keys,
-- which is the order of its iterators. A number is the bit pattern of its double.
use qtjsondb.Prelude.{ℕ, ◌≡◌, refl, Bool, true, false, ◌||◌, List, [], ◌∷◌, arith, if◌then◌else◌}
use qtjsondb.Qt.Text.{QString, str_eq, str_lt, str_eq_iff}

mutual
  pub data Value : Type 0 where
    undefined : Value
    null : Value
    bool : Bool → Value
    num : ℕ → Value
    str : QString → Value
    arr : Items → Value
    obj : Fields → Value

  pub data Items : Type 0 where
    no_items : Items
    item : Value → Items → Items

  pub data Fields : Type 0 where
    no_fields : Fields
    field : QString → Value → Fields → Fields

abbrev pub QJsonArray : Type 0
QJsonArray = List Value

abbrev pub QJsonObject : Type 0
QJsonObject = Fields

abbrev pub to_list : Items → QJsonArray
to_list no_items = []
to_list (item v xs) = v ∷ to_list xs

abbrev pub of_list : QJsonArray → Items
of_list [] = no_items
of_list (v ∷ vs) = item v (of_list vs)

-- The conversions of a value of another type give the default.
abbrev pub to_bool : Value → Bool
to_bool (bool b) = b
to_bool _ = false

abbrev pub to_string : Value → QString
to_string (str s) = s
to_string _ = []

abbrev pub to_array : Value → QJsonArray
to_array (arr xs) = to_list xs
to_array _ = []

abbrev pub to_object : Value → QJsonObject
to_object (obj fs) = fs
to_object _ = no_fields

abbrev pub is_string : Value → Bool
is_string (str s) = true
is_string _ = false

abbrev pub array_value : QJsonArray → Value
array_value vs = arr (of_list vs)

-- QJsonArray::contains at a text.
unfoldable pub contains_str : QJsonArray → QString → Bool
contains_str [] h = false
contains_str (str s ∷ vs) h = str_eq s h || contains_str vs h
contains_str (v ∷ vs) h = contains_str vs h

unfoldable pub value : QJsonObject → QString → Value
value no_fields k = undefined
value (field j v fs) k = if str_eq j k then v else value fs k

unfoldable pub contains : QJsonObject → QString → Bool
contains no_fields k = false
contains (field j v fs) k = str_eq j k || contains fs k

unfoldable pub remove : QJsonObject → QString → QJsonObject
remove no_fields k = no_fields
remove (field j v fs) k = let rest = remove fs k in if str_eq j k then rest else field j v rest

-- Puts a member at its place in the order of keys.
unfoldable pub put : QJsonObject → QString → Value → QJsonObject
put no_fields k v = field k v no_fields
put (field j w fs) k v =
    let rest = put fs k v in
    if str_eq j k
    then field k v fs
    else if str_lt k j
    then field k v (field j w fs)
    else field j w rest

-- QJsonObject::insert: the value Undefined removes the key.
unfoldable pub insert : QJsonObject → QString → Value → QJsonObject
insert o k undefined = remove o k
insert o k v = put o k v

abbrev pub is_empty_object : QJsonObject → Bool
is_empty_object no_fields = true
is_empty_object (field k v fs) = false

pub to_list-of_list : (vs : QJsonArray) → to_list (of_list vs) ≡ vs
to_list-of_list [] = refl
to_list-of_list (v ∷ vs) = rw (to_list-of_list vs)

pub value-remove :
    (o : QJsonObject) (k j : QString)
    → value (remove o k) j ≡ (if str_eq k j then undefined else value o j)
unfolding value remove
value-remove no_fields k j = ground arith
value-remove (field i v fs) k j =
    ground (arith, value-remove fs k j, str_eq_iff i k, str_eq_iff i j, str_eq_iff k j)

value-put :
    (o : QJsonObject) (k j : QString) (v : Value)
    → value (put o k v) j ≡ (if str_eq k j then v else value o j)
unfolding value put
value-put no_fields k j v = refl
value-put (field i w fs) k j v =
    ground (arith, value-put fs k j v, str_eq_iff i k, str_eq_iff i j, str_eq_iff k j)

-- What is read after an insertion, also where Undefined is inserted.
pub value-insert :
    (o : QJsonObject) (k j : QString) (v : Value)
    → value (insert o k v) j ≡ (if str_eq k j then v else value o j)
unfolding insert
value-insert o k j undefined = value-remove o k j
value-insert o k j null = value-put o k j null
value-insert o k j (bool b) = value-put o k j (bool b)
value-insert o k j (num n) = value-put o k j (num n)
value-insert o k j (str s) = value-put o k j (str s)
value-insert o k j (arr xs) = value-put o k j (arr xs)
value-insert o k j (obj fs) = value-put o k j (obj fs)
