-- ===== src/Index/Tests.antt =====
-- src/partition/jsondbindex.cpp: examples of keys.
use qtjsondb.Prelude.{◌≡◌, ◌<◌, ◌^◌, arith}
use qtjsondb.Qt.Text.{codes}
use qtjsondb.Qt.Json.{null, str}
use qtjsondb.Index.Key.{make_forward_key, forward_key_split}
use qtjsondb.Qt.Sample.{sample}
use qtjsondb.Index.Compare.{index_compare}
use qtjsondb.Index.Compare.Order.{is_negative, entry_lt, is_negative-index_compare}
use qtjsondb.Index.Key.RoundTrip.{IsKeyValue, forward_key_split-make_forward_key}

short_text : IsKeyValue (str (codes "ab"))
short_text = ((omega arith, (omega arith, tt)), omega arith)

small_key : 77 < 256 ^ 16
small_key = omega arith

forward_key_split-make_forward_key_example :
    forward_key_split null (make_forward_key (str (codes "ab")) 77) ≡ (str (codes "ab"), 77)
forward_key_split-make_forward_key_example =
    forward_key_split-make_forward_key null (str (codes "ab")) 77 short_text small_key

small_text : IsKeyValue (str (codes "b"))
small_text = ((omega arith, tt), omega arith)

is_negative-index_compare_example :
    is_negative (
      index_compare sample
        (make_forward_key (str (codes "ab")) 77)
        (make_forward_key (str (codes "b")) 5))
    ≡ entry_lt sample (str (codes "ab"), 77) (str (codes "b"), 5)
is_negative-index_compare_example =
    is_negative-index_compare sample (str (codes "ab")) (str (codes "b")) 77 5 short_text small_text
      small_key (omega arith)
