-- ===== src/Client/Cache.antt =====
-- src/client/qjsondbmodelcache_p.cpp: the pages of objects that a model has read. Positions are not
-- negative; what an int is less than 0 for is written out. The static members of ModelCache are
-- fields of the cache. JsonDbModelIndexType is the list of the keys in the order of the model, and
-- JsonDbModelObjectType a map from keys to objects.
pub mod Operations
pub mod Chunks
pub mod Places
pub mod Split
pub mod Inserted
pub mod Insertion
mod Tests
use qtjsondb.Prelude.{
  ℕ, zero, suc, ◌+◌, ◌-◌, ◌*◌, ◌/◌, ◌%◌, Bool, true, false, ◌&&◌, ◌||◌, List, [], ◌∷◌, ◌++◌, Option,
  none, some, ◌==◌, ltb, leb, max, any, length, take, drop, if◌then◌else◌, not,
}
use qtjsondb.Qt.Text.{QString, str_eq}
use qtjsondb.Qt.Json.{QJsonObject, no_fields}

abbrev pub ObjectMap : Type 0
ObjectMap = List (QString × QJsonObject)

unfoldable pub object_at : ObjectMap → QString → QJsonObject
object_at [] key = no_fields
object_at ((k, o) ∷ objects) key = if str_eq k key then o else object_at objects key

unfoldable pub has_key : ObjectMap → QString → Bool
has_key objects key = any (λ e. str_eq e.0 key) objects

unfoldable pub remove_key : ObjectMap → QString → ObjectMap
remove_key [] key = []
remove_key ((k, o) ∷ objects) key =
    let rest = remove_key objects key in if str_eq k key then rest else (k, o) ∷ rest

-- QMap::insert, which replaces what was there.
unfoldable pub insert_key : ObjectMap → QString → QJsonObject → ObjectMap
unfolding remove_key
insert_key objects key o = (key, o) ∷ remove_key objects key

pub record ModelPage : Type 0 where
  pub index : ℕ
  pub count : ℕ
  pub counter : ℕ
  pub objects : ObjectMap

pub record ModelCache : Type 0 where
  pub pages : List ModelPage
  pub current_counter : ℕ
  pub page_size : ℕ
  pub max_pages : ℕ

unfoldable pub has_index : ModelPage → ℕ → Bool
has_index page pos = leb page.index pos && ltb pos (page.index + page.count)

-- Whether ModelPage::insert takes an item at a position, also the one behind its last.
unfoldable pub takes : ModelPage → ℕ → Bool
takes page pos = leb page.index pos && leb pos (page.index + page.count)

-- ModelPage::insert at a position that the page takes, with the next counter.
unfoldable pub page_insert : ModelPage → ℕ → QString → QJsonObject → ModelPage
unfolding insert_key
page_insert page n key o = record page {
  count = page.count + 1;
  counter = n;
  objects = insert_key page.objects key o;
}

unfoldable pub page_update : ModelPage → ℕ → QString → QJsonObject → ModelPage
unfolding insert_key
page_update page n key o = record page { counter = n; objects = insert_key page.objects key o }

unfoldable pub page_remove : ModelPage → ℕ → QString → ModelPage
unfolding remove_key
page_remove page n key = record page {
  count = page.count - 1;
  counter = n;
  objects = remove_key page.objects key;
}

-- findPage
unfoldable pub find_page : List ModelPage → ℕ → Option ModelPage
unfolding has_index
find_page [] pos = none
find_page (page ∷ pages) pos = if has_index page pos then some page else find_page pages pos

-- The loop that changes the first page for which a test holds; the flag says whether one did.
unfoldable pub change_first :
    (ModelPage → Bool) → (ModelPage → ModelPage) → List ModelPage → Bool × List ModelPage
change_first p f [] = (false, [])
change_first p f (page ∷ pages) =
    let (found, rest) = change_first p f pages in
    if p page then (true, f page ∷ pages) else (found, page ∷ rest)

-- The loop over the pages that start behind a position.
unfoldable pub shift_up : ℕ → List ModelPage → List ModelPage
shift_up pos [] = []
shift_up pos (page ∷ pages) =
    let rest = shift_up pos pages in
    (if ltb pos page.index then record page { index = page.index + 1 } else page) ∷ rest

unfoldable pub shift_down : ℕ → List ModelPage → List ModelPage
shift_down pos [] = []
shift_down pos (page ∷ pages) =
    let rest = shift_down pos pages in
    (if ltb pos page.index then record page { index = page.index - 1 } else page) ∷ rest

-- ModelCache::count
unfoldable pub count_pages : List ModelPage → ℕ
count_pages [] = 0
count_pages (page ∷ pages) = page.count + count_pages pages

-- The transfer of the items from a position on, each of which is read by value.
unfoldable pub transfer : List QString → ModelPage × ObjectMap → ℕ → (ModelPage × ObjectMap) × ℕ
unfolding object_at insert_key remove_key
transfer [] (page, moved) n = ((page, moved), n)
transfer (key ∷ keys) (page, moved) n =
    transfer keys
      (
        record page { counter = n + 1; objects = remove_key page.objects key },
        insert_key moved key (object_at page.objects key),
      )
      (n + 1)

-- splitPage: the first half of a page, the second one, and the counter.
unfoldable pub split_page : ModelPage → List QString → ℕ → (ModelPage × ModelPage) × ℕ
unfolding transfer
split_page page uuids n =
    let half = page.index + page.count / 2 in
    let half_count = page.count - (half - page.index) in
    let ((kept, moved), n') = transfer (take half_count (drop half uuids)) (page, []) n in
    (
      (
        record kept { count = page.count - half_count },
        record { index = half; count = half_count; counter = kept.counter; objects = moved },
      ),
      n',
    )

-- The pages by their counters, of which the QMap keeps one each: the last one that has it.
unfoldable pub put_lru : List (ℕ × ℕ) → ℕ → ℕ → List (ℕ × ℕ)
put_lru [] counter place = (counter, place) ∷ []
put_lru ((c, q) ∷ lru) counter place =
    let rest = put_lru lru counter place in
    if c == counter
    then (counter, place) ∷ lru
    else if ltb counter c
    then (counter, place) ∷ (c, q) ∷ lru
    else (c, q) ∷ rest

unfoldable pub lru_of : List ModelPage → ℕ → List (ℕ × ℕ) → List (ℕ × ℕ)
unfolding put_lru
lru_of [] place lru = lru
lru_of (page ∷ pages) place lru = lru_of pages (suc place) (put_lru lru page.counter place)

unfoldable pub drop_places : List (ℕ × ℕ) → List ModelPage → ℕ → List ModelPage
drop_places dropped [] place = []
drop_places dropped (page ∷ pages) place =
    let rest = drop_places dropped pages (suc place) in
    if any (λ e. e.1 == place) dropped then rest else page ∷ rest

-- dropLRUPages
unfoldable pub drop_lru_pages : ℕ → List ModelPage → List ModelPage
unfolding lru_of drop_places
drop_lru_pages n pages = drop_places (take n (lru_of pages 0 [])) pages 0
