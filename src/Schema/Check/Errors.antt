-- ===== src/Schema/Check/Errors.antt =====
-- src/partition/jsondbschema_p.h: the error that SchemaPrivate::check leaves.
use qtjsondb.Prelude.{ℕ, zero, ◌≡◌, refl, ap, Bool, true, false, ◌&&◌, arith, ◌==◌, if◌then◌else◌}
use qtjsondb.Qt.Text.{QString, codes}
use qtjsondb.Qt.Json.{Value, str, QJsonObject, no_fields, field, put, insert, is_empty_object}
use qtjsondb.Schema.Handle.{SchemaCalls, Handle}
use qtjsondb.Schema.Compile.{Check, Checks, no_checks, check_and, Schema, schema, with_error}
use qtjsondb.Schema.Check.{
  Checking, and_next, report, compare_counts, do_check, run_checks, check_schema,
}
use qtjsondb.Schema.Check.Meaning.{conforms}
use qtjsondb.Schema.Check.Result.{check_schema-Gives}

put_something : (o : QJsonObject) (k : QString) (v : Value) → is_empty_object (put o k v) ≡ false
unfolding put
put_something no_fields k v = refl
put_something (field j w o) k v = ground arith

-- A run that says false leaves an error.
abbrev Reports : Bool × Checking → Type 0
Reports r = r.0 ≡ false → is_empty_object r.1.error ≡ false

module _ (c : SchemaCalls) where
  pub with_error_something :
      (e : QJsonObject) (m : QString) → is_empty_object (with_error c e m) ≡ false
  unfolding with_error insert
  with_error_something e m = put_something _ (codes "message") (str m)

  report-Reports : (check : Check) (v : Handle) (r : Bool × Checking) → Reports (report c check v r)
  unfolding report
  report-Reports check v (true, s) h = absurd (ground arith)
  report-Reports check v (false, s) h = with_error_something s.error _

  and_next-Reports :
      (r : Bool × Checking) (next : Checking → Bool × Checking)
      → Reports r
      → ((s : Checking) → Reports (next s))
      → Reports (and_next r next)
  and_next-Reports (true, s) next h k = k s
  and_next-Reports (false, s) next h k = h

  run_checks-Reports : (cs : Checks) (v : Handle) (s : Checking) → Reports (run_checks c cs v s)
  unfolding run_checks
  run_checks-Reports no_checks v s = λ h. absurd (ground arith)
  run_checks-Reports (check_and check cs) v s =
      and_next-Reports (report c check v (do_check c check v s)) (run_checks c cs v)
        (report-Reports check v (do_check c check v s)) (λ t. run_checks-Reports cs v t)

  chosen-Reports :
      (b : Bool) (t u : Checking)
      → is_empty_object u.error ≡ false
      → Reports (if b then (true, t) else (false, u))
  chosen-Reports true t u k h = absurd (ground arith)
  chosen-Reports false t u k h = k

  compare_counts-Reports :
      (max : ℕ) (r : Bool × Checking) → Reports r → Reports (compare_counts c max r)
  unfolding compare_counts
  compare_counts-Reports max (false, s) h = h
  compare_counts-Reports max (true, s) h =
      chosen-Reports (s.required_count == max) s _ (with_error_something s.error _)

  check_schema-Reports :
      (inner : Schema) (v : Handle) (s : Checking) → Reports (check_schema c inner v s)
  unfolding check_schema
  check_schema-Reports (schema cs max) v s =
      let t : Checking = record s { required_count = zero } in
      compare_counts-Reports max (run_checks c cs v t) (run_checks-Reports cs v t)

  -- After a schema has checked a value, there is no error exactly if there was none before and
  -- the value conforms to the schema: every check accepts it, and the number of the required
  -- checks that it reaches is m_maxRequired.
  pub check_schema-error :
      (inner : Schema) (v : Handle) (s : Checking)
      → is_empty_object (check_schema c inner v s).1.error
        ≡ (is_empty_object s.error && conforms c inner v)
  check_schema-error inner v s =
      let g = check_schema-Gives c inner v s in
      by_result (conforms c inner v) s (check_schema c inner v s) g.0
        (λ e. ap (λ (t : Checking). t.error) (g.1 e)) (check_schema-Reports inner v s)
    where
      by_result :
          (ok : Bool) (s : Checking) (r : Bool × Checking)
          → r.0 ≡ ok
          → (ok ≡ true → r.1.error ≡ s.error)
          → Reports r
          → is_empty_object r.1.error ≡ (is_empty_object s.error && ok)
      by_result true s r h k rep = ground (arith, k refl)
      by_result false s r h k rep = ground (arith, rep h)
