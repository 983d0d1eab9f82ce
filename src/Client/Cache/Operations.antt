-- ===== src/Client/Cache/Operations.antt =====
-- src/client/qjsondbmodelcache_p.cpp: the operations of ModelCache. Dumping and deleting are left out.
use Prim.Native.Nat.{min}
use qtjsondb.Prelude.{
  ℕ, zero, suc, ◌+◌, ◌-◌, ◌*◌, ◌/◌, ◌%◌, Bool, true, false, ◌&&◌, List, [], ◌∷◌, ◌++◌, Option, none,
  some, ℤ, pos, negsuc, ◌==◌, ltb, leb, max, is_empty, length, take, drop, if◌then◌else◌,
}
use qtjsondb.Qt.Text.{QString}
use qtjsondb.Qt.Json.{QJsonObject}
use qtjsondb.Client.Cache.{
  ObjectMap, object_at, has_key, insert_key, ModelPage, ModelCache, has_index, takes, page_insert,
  page_update, page_remove, find_page, change_first, shift_up, shift_down, count_pages, split_page,
  drop_lru_pages,
}

-- valueAtPage and hasValueAtPage at a page, which read it twice and once.
unfoldable pub value_at_page : ModelPage → ℕ → QString → (QJsonObject × ModelPage) × ℕ
unfolding object_at
value_at_page page n key = ((object_at page.objects key, record page { counter = n + 2 }), n + 2)

unfoldable pub has_value_at_page : ModelPage → ℕ → QString → (Bool × ModelPage) × ℕ
unfolding has_key
has_value_at_page page n key = ((has_key page.objects key, record page { counter = n + 1 }), n + 1)

abbrev or_pages : Bool → List ModelPage → List ModelPage → List ModelPage
or_pages b changed pages = if b then changed else pages

-- The page that was inserted into is split where it has too many items.
unfoldable pub split_first :
    (ModelPage → Bool) → ℕ → List QString → List ModelPage → ℕ → List ModelPage × ℕ
unfolding split_page
split_first p size uuids [] n = ([], n)
split_first p size uuids (page ∷ pages) n =
    let (rest, n') = split_first p size uuids pages n in
    let ((kept, half), m) = split_page page uuids n in
    if p page
    then (if ltb size page.count then (kept ∷ pages ++ half ∷ [], m) else (page ∷ pages, n))
    else (page ∷ rest, n')

-- A cache without pages gets an empty one at the position.
unfoldable pub with_page : ModelCache → ℕ → ModelCache
with_page cache at =
    if is_empty cache.pages
    then record cache {
      pages =
          record { index = at; count = 0; counter = cache.current_counter + 1; objects = [] } ∷ [];
      current_counter = cache.current_counter + 1;
    }
    else cache

abbrev pub max_items : ModelCache → ℕ
max_items cache = cache.page_size * cache.max_pages

-- The pages after an insertion, before one of them is split: the item goes into the first page that
-- takes it, and the pages that start behind the position move up.
unfoldable pub insert_pages : ℕ → ℕ → QString → QJsonObject → List ModelPage → Bool × List ModelPage
unfolding change_first takes page_insert shift_up
insert_pages at n key o pages =
    let (found, changed) = change_first (λ p. takes p at) (λ p. page_insert p n key o) pages in
    (found, shift_up at changed)

-- ModelCache::insert. The page that took the item is the only one with the counter n.
unfoldable pub insert : ModelCache → ℕ → QString → QJsonObject → List QString → Bool × ModelCache
unfolding with_page insert_pages split_first count_pages drop_lru_pages
insert cache at key o uuids =
    let start = with_page cache at in
    let n = start.current_counter + 1 in
    let (found, pages) = insert_pages at n key o start.pages in
    let (halves, m) = split_first (λ p. p.counter == n) cache.page_size uuids pages n in
    let is_split = ltb (length pages) (length halves) in
    let is_over = ltb (max_items cache) (count_pages halves) in
    let kept = if is_split && is_over then drop_lru_pages 1 halves else halves in
    if found
    then (true, record start { pages = kept; current_counter = m })
    else (false, record start { pages = pages })

-- ModelCache::update
unfoldable pub update : ModelCache → QString → QJsonObject → Bool × ModelCache
unfolding change_first has_key page_update
update cache key o =
    let n = cache.current_counter + 1 in
    let (found, pages) =
      change_first (λ p. has_key p.objects key) (λ p. page_update p n key o) cache.pages in
    (
      found,
      record cache { pages = pages; current_counter = if found then n else cache.current_counter },
    )

-- The pages after a removal.
unfoldable pub remove_pages : ℕ → ℕ → QString → List ModelPage → Bool × List ModelPage
unfolding change_first has_index page_remove shift_down
remove_pages at n key pages =
    let (found, changed) = change_first (λ p. has_index p at) (λ p. page_remove p n key) pages in
    (found, shift_down at changed)

-- ModelCache::remove
unfoldable pub remove : ModelCache → ℕ → QString → Bool × ModelCache
unfolding remove_pages
remove cache at key =
    let n = cache.current_counter + 1 in
    let (found, pages) = remove_pages at n key cache.pages in
    (
      found,
      record cache { pages = pages; current_counter = if found then n else cache.current_counter },
    )

unfoldable pub objects_of : List QString → ObjectMap → ObjectMap → ObjectMap
unfolding object_at insert_key
objects_of [] objects made = made
objects_of (key ∷ keys) objects made =
    objects_of keys objects (insert_key made key (object_at objects key))

-- The loop of addObjects over the pages to add, from position j on, up to `end`.
unfoldable pub new_pages : ℕ → ℕ → ℕ → ℕ → List QString → ObjectMap → ℕ → List ModelPage × ℕ
unfolding objects_of
new_pages size zero j end uuids objects n = ([], n)
new_pages size (suc todo) j end uuids objects n =
    let made = objects_of (take (min size (end - j)) (drop j uuids)) objects [] in
    let (rest, m) = new_pages size todo (j + size) end uuids objects (n + 1) in
    (record { index = j; count = length made; counter = n + 1; objects = made } ∷ rest, m)

-- addObjects
unfoldable pub add_objects : ModelCache → ℕ → List QString → ObjectMap → ModelCache
unfolding drop_lru_pages new_pages
add_objects cache index uuids objects =
    let count = length objects in
    let to_add = count / cache.page_size + (if count % cache.page_size == 0 then 0 else 1) in
    let total = to_add + length cache.pages in
    let kept =
      if ltb cache.max_pages total
      then drop_lru_pages (total - cache.max_pages) cache.pages
      else cache.pages in
    let (added, n) =
      new_pages cache.page_size to_add index (index + count) uuids objects cache.current_counter in
    record cache { pages = kept ++ added; current_counter = n }

abbrev is_none : Option ModelPage → Bool
is_none none = true
is_none (some page) = false

-- checkFor: the start of the page for a position that no page has, if no page has the start either.
unfoldable pub check_for : ModelCache → ℤ → Option ℕ
unfolding find_page
check_for cache (negsuc n) = none
check_for cache (pos n) =
    let start = (n / cache.page_size) * cache.page_size in
    if is_none (find_page cache.pages n) && is_none (find_page cache.pages start)
    then some start
    else none

abbrev int_before : ℕ → ℤ
int_before zero = negsuc zero
int_before (suc n) = pos n

unfoldable pub prefetch_around : ModelCache → ℕ → ℕ → Option ModelPage → Option ℕ
unfolding check_for
prefetch_around cache at mark none = none
prefetch_around cache at mark (some page) =
    if leb (at - page.index) mark
    then check_for cache (int_before page.index)
    else if leb (page.index + page.count - at) mark
    then check_for cache (pos (page.index + page.count))
    else none

-- findPrefetchIndex, where none is -1.
unfoldable pub find_prefetch_index : ModelCache → ℕ → ℕ → Option ℕ
unfolding prefetch_around find_page
find_prefetch_index cache at mark = prefetch_around cache at mark (find_page cache.pages at)

-- setPageSize
unfoldable pub set_page_size : ModelCache → ℕ → ModelCache
set_page_size cache items =
    let size = max (min 100 (items / 4)) 25 in
    record cache {
      page_size = size;
      max_pages = max (items / size + (if items % size == 0 then 0 else 1)) 2;
    }
