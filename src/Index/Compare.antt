-- ===== src/Index/Compare.antt =====
-- src/partition/jsondbindex.cpp: the order of an index's keys.
pub mod Order
use qtjsondb.Prelude.{
  ℕ, zero, suc, ◌+◌, ◌-◌, ◌*◌, ◌/◌, ◌%◌, ◌^◌, Bool, true, false, List, [], ◌∷◌, ◌==◌, ltb, ℤ, pos,
  negsuc, is_empty, if◌then◌else◌, take, drop, length,
}
use qtjsondb.Qt.Text.{QString}
use qtjsondb.Qt.Calls.{QtCalls}
use qtjsondb.Index.Key.{from_be, utf16_units}

-- a - b as an int.
unfoldable pub diff : ℕ → ℕ → ℤ
diff a b = if ltb a b then negsuc (b - a - 1) else pos (a - b)

-- -1, 0 or 1, given whether a number is less and whether it is greater.
unfoldable pub three_way : Bool → Bool → ℤ
three_way less greater = if less then negsuc 0 else if greater then pos 1 else pos 0

-- The int32 whose bits are n, as its distance from the least one.
abbrev signed : ℕ → ℕ
signed n = (n + 2 ^ 31) % 2 ^ 32

-- intcmp
unfoldable pub intcmp : List ℕ → List ℕ → ℤ
unfolding three_way from_be
intcmp a b =
    let m = signed (from_be 0 (take 4 a)) in
    let n = signed (from_be 0 (take 4 b)) in three_way (ltb m n) (ltb n m)

-- qstringcmp: the first difference of two units, or else that of the lengths.
unfoldable pub qstringcmp : QString → QString → ℤ
unfolding diff
qstringcmp [] t = diff 0 (length t)
qstringcmp (c ∷ s) [] = diff (length (c ∷ s)) 0
qstringcmp (c ∷ s) (d ∷ t) = let rest = qstringcmp s t in if c == d then rest else diff c d

abbrev pub or_else : ℤ → ℤ → ℤ
or_else (pos zero) rest = rest
or_else (pos (suc n)) rest = pos (suc n)
or_else (negsuc n) rest = negsuc n

module _ (q : QtCalls) where
  -- doublecmp
  unfoldable pub doublecmp : List ℕ → List ℕ → ℤ
  unfolding three_way from_be
  doublecmp a b =
      let m = from_be 0 (take 8 a) in
      let n = from_be 0 (take 8 b) in three_way (q.double_lt m n) (q.double_lt n m)

  -- The switch over the type of both values.
  unfoldable pub compare_data : ℕ → List ℕ → ℕ → List ℕ → ℕ → ℤ
  unfolding intcmp doublecmp qstringcmp utf16_units
  compare_data vt a asize b bsize =
      if vt == 1
      then intcmp a b
      else if vt == 2
      then doublecmp a b
      else if vt == 3
      then qstringcmp (utf16_units (take (2 * (asize / 2)) a))
          (utf16_units (take (2 * (bsize / 2)) b))
      else pos 0

  unfoldable pub compare_object_keys : ℕ → ℕ → ℤ
  compare_object_keys k l = if k == l then pos 0 else if q.uuid_lt k l then negsuc 0 else pos 1

  -- indexCompareFunction
  unfoldable pub index_compare : List ℕ → List ℕ → ℤ
  unfolding compare_data compare_object_keys from_be diff
  index_compare ab bb =
      let avt = from_be 0 (take 4 ab) in
      let bvt = from_be 0 (take 4 bb) in
      let asize = length ab - 4 - 16 in
      let bsize = length bb - 4 - 16 in
      let rv = compare_data avt (drop 4 ab) asize (drop 4 bb) bsize in
      let keys =
        compare_object_keys (from_be 0 (take 16 (drop (4 + asize) ab)))
          (from_be 0 (take 16 (drop (4 + bsize) bb))) in
      if is_empty bb
      then (if is_empty ab then pos 0 else pos 1)
      else if is_empty ab
      then negsuc 0
      else if avt == bvt
      then or_else rv keys
      else diff avt bvt
