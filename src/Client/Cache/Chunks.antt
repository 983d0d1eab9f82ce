-- ===== src/Client/Cache/Chunks.antt =====
-- src/client/qjsondbmodelcache_p.cpp: how much the model reads at once, and dropPage.
use Prim.Native.Nat.{min}
use qtjsondb.Prelude.{
  ℕ, zero, suc, ◌+◌, ◌-◌, ◌*◌, ◌/◌, Bool, true, ◌&&◌, List, [], ◌∷◌, Option, none, some, ltb,
  if◌then◌else◌,
}
use qtjsondb.Client.Cache.{ModelPage, ModelCache}

unfoldable pub chunk_size : ModelCache → ℕ
chunk_size cache = min (cache.page_size * 2) 100

abbrev closer : ℕ → Option ℕ → Bool
closer start none = true
closer start (some last) = ltb start last

-- The start of the closest page behind a position.
unfoldable pub next_start : List ModelPage → ℕ → Option ℕ → Option ℕ
next_start [] at last = last
next_start (page ∷ pages) at last =
    next_start pages at
      (if ltb at page.index && closer page.index last then some page.index else last)

abbrev up_to : ModelCache → ℕ → Option ℕ → ℕ
unfolding chunk_size
up_to cache at none = chunk_size cache
up_to cache at (some last) =
    if ltb last (at + chunk_size cache) then last - at else chunk_size cache

-- findChunkSize
unfoldable pub find_chunk_size : ModelCache → ℕ → ℕ
unfolding next_start up_to
find_chunk_size cache at = up_to cache at (next_start cache.pages at none)

-- findIndexNSize at a position that no page has: the start and the size.
unfoldable pub find_index_n_size : ModelCache → ℕ → ℕ × ℕ
unfolding chunk_size
find_index_n_size cache at = ((at / cache.page_size) * cache.page_size, chunk_size cache)

-- dropPage: the page's index and count, and the other pages.
unfoldable pub drop_page : List ModelPage → ℕ → Option ((ℕ × ℕ) × List ModelPage)
drop_page [] place = none
drop_page (page ∷ pages) zero = some ((page.index, page.count), pages)
drop_page (page ∷ pages) (suc place) = behind_first page (drop_page pages place)
  where
    behind_first : ModelPage → Option ((ℕ × ℕ) × List ModelPage) → Option ((ℕ × ℕ) × List ModelPage)
    behind_first page none = none
    behind_first page (some (dropped, rest)) = some (dropped, page ∷ rest)
