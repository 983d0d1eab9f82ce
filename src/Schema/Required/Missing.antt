-- ===== src/Schema/Required/Missing.antt =====
-- src/partition/jsondbschema_p.h: the required checks of a compiled schema, when a value is checked.
use qtjsondb.Prelude.{
  ℕ, ◌≤◌, ◌<◌, ◌≡◌, ap, sym, ◌∙◌, Bool, true, false, ◌&&◌, Option, some, arith, ◌==◌,
}
use qtjsondb.Qt.Text.{QString}
use qtjsondb.Qt.Json.{Fields, contains}
use qtjsondb.Schema.Handle.{SchemaCalls, Handle, to_map}
use qtjsondb.Schema.Compile.{Schema, schema, checks, max_of, Service, Compiling, compile, checks_of}
use qtjsondb.Schema.Check.{Checking, run_checks, check_schema}
use qtjsondb.Schema.Check.Meaning.{reached_checks, holds_checks, conforms}
use qtjsondb.Schema.Check.Result.{run_checks-Gives, check_schema-Gives}
use qtjsondb.Schema.Required.{required_below}
use qtjsondb.Schema.Required.Counted.{compile-IsCounted}
use qtjsondb.Schema.Required.Reached.{IsUnique, reached_checks-le, reached_checks-lt}

short_false : (b : Bool) (n max : ℕ) → n < max → (b && (n == max)) ≡ false
short_false b n max h = ground arith

module _ (c : SchemaCalls) (load : QString → Service → Option (Schema × Service)) where
  -- If a schema is compiled, no object in a value has a key twice, and the checks of the schema
  -- accept the value with a count that starts at 0, then the count ends at no more than
  -- m_maxRequired.
  pub required_count-le-max :
      (fs : Fields) (s t : Compiling) (inner : Schema) (v : Handle) (r : Checking)
      → compile (checks_of c load fs) s ≡ some (inner, t)
      → IsUnique v
      → r.required_count ≡ 0
      → (run_checks c (checks inner) v r).0 ≡ true
      → (run_checks c (checks inner) v r).1.required_count ≤ max_of inner
  required_count-le-max fs s t inner v r made unique start ok =
      let g = run_checks-Gives c (checks inner) v r in
      let count = ap (λ (u : Checking). u.required_count) (g.1 (sym g.0 ∙ ok)) in
      omega (
        arith,
        count,
        start,
        reached_checks-le (checks inner) v unique,
        (compile-IsCounted c load fs s t inner made).0,
      )

  short_count :
      (inner : Schema) (v : Handle)
      → reached_checks (checks inner) v < max_of inner
      → conforms c inner v ≡ false
  unfolding conforms
  short_count (schema cs n) v h = short_false (holds_checks c cs v) (reached_checks cs v) n h

  -- If a schema is compiled, a property of it has required checks, at any depth below it, no
  -- object in a value has a key twice, and the object that the value is read as has no property
  -- of that name, then the check of the value fails.
  pub missing_required :
      (fs : Fields) (s t : Compiling) (inner : Schema) (name : QString) (v : Handle) (r : Checking)
      → compile (checks_of c load fs) s ≡ some (inner, t)
      → IsUnique v
      → 0 < required_below (checks inner) name
      → contains (to_map v).0 name ≡ false
      → (check_schema c inner v r).0 ≡ false
  missing_required fs s t inner name v r made unique required absent =
      (check_schema-Gives c inner v r).0
      ∙ short_count inner v (
          omega (
            arith,
            reached_checks-lt (checks inner) name v unique absent required,
            (compile-IsCounted c load fs s t inner made).0,
          ))
