-- ===== src/Schema/Check/Result.antt =====
-- src/partition/jsondbschema_p.h: the result of SchemaPrivate::check.
use qtjsondb.Prelude.{
  ℕ, zero, ◌+◌, ◌≡◌, refl, Bool, true, false, ◌&&◌, List, [], ◌∷◌, arith, ◌==◌, if◌then◌else◌,
  all_of, ◌∙◌, ap, subst,
}
use qtjsondb.Qt.Text.{QString, str_eq}
use qtjsondb.Schema.Handle.{SchemaCalls, Handle, property, to_items, to_map, property_names}
use qtjsondb.Schema.Compile.{
  Check, null_check, type_check, properties_check, items_check, required_check, minimum_check,
  maximum_check, exclusive_minimum_check, exclusive_maximum_check, min_items_check, max_items_check,
  min_length_check, max_length_check, pattern_check, format_check, extends_check, ref_check, Checks,
  no_checks, check_and, Properties, no_properties, named, Schema, schema, Schemas, no_schemas,
  schema_and,
}
use qtjsondb.Schema.Check.{
  Checking, Run, and_next, each_of, items_from, report, compare_counts, outside, do_check,
  run_checks, check_property, check_schema, check_all,
}
use qtjsondb.Schema.Check.Meaning.{
  sum_of, sum_of_none, reached, reached_checks, reached_property, holds, holds_checks,
  holds_property, conforms, conforms_all,
}

-- The state after checks that accept.
abbrev pub counted : ℕ → Checking → Checking
counted n s = record s { required_count = n + s.required_count }

-- A run says `ok`, and where it says true it has counted n.
abbrev pub Gives : Bool → ℕ → Checking → Bool × Checking → Type 0
Gives ok n s r = (r.0 ≡ ok) × (ok ≡ true → r.1 ≡ counted n s)

counted_none : (s : Checking) → s ≡ counted 0 s
counted_none s = ap (λ k. record s { required_count = k }) (omega arith)

-- Two runs in a row.
counted_twice : (n m : ℕ) (s : Checking) → counted m (counted n s) ≡ counted (n + m) s
counted_twice n m s =
    rw (let e : m + (n + s.required_count) ≡ n + m + s.required_count = omega arith in e)

chain-Gives :
    (a b : Bool) (n m : ℕ) (s : Checking) (r : Bool × Checking) (next : Run)
    → Gives a n s r
    → ((t : Checking) → Gives b m t (next t))
    → Gives (a && b) (n + m) s (and_next r next)
chain-Gives true b n m s (true, t) next h k =
    rw (h.1 refl) ((k (counted n s)).0, λ e. (k (counted n s)).1 e ∙ counted_twice n m s)
chain-Gives true b n m s (false, t) next h k = absurd (ground (arith, h.0))
chain-Gives false b n m s (true, t) next h k = absurd (ground (arith, h.0))
chain-Gives false b n m s (false, t) next h k = (refl, λ e. absurd (ground arith))

each_of-Gives {ℓ} :
    {A : Type ℓ} (run : A → Run) (p : A → Bool) (n : A → ℕ)
    → ((x : A) (s : Checking) → Gives (p x) (n x) s (run x s))
    → (xs : List A) (s : Checking) → Gives (all_of p xs) (sum_of n xs) s (each_of run xs s)
unfolding all_of sum_of each_of
each_of-Gives run p n h [] s = (refl, λ e. counted_none s)
each_of-Gives run p n h (x ∷ xs) s =
    chain-Gives (p x) (all_of p xs) (n x) (sum_of n xs) s (run x s) (each_of run xs) (h x s)
      (λ t. each_of-Gives run p n h xs t)

uncounted-Gives {ℓ} :
    {A : Type ℓ} (run : A → Run) (p : A → Bool)
    → ((x : A) (s : Checking) → Gives (p x) 0 s (run x s))
    → (xs : List A) (s : Checking) → Gives (all_of p xs) 0 s (each_of run xs s)
uncounted-Gives run p h xs s =
    subst (λ n. Gives (all_of p xs) n s (each_of run xs s)) (sum_of_none xs)
      (each_of-Gives run p (λ x. 0) h xs s)

-- A run whose value was not of the right type.
flagged-Gives :
    (ok b : Bool) (n : ℕ) (s : Checking) (r : Bool × Checking)
    → Gives b n s r
    → Gives (ok && b) n s (if ok then r else (false, s))
flagged-Gives true b n s r h = h
flagged-Gives false b n s r h = (refl, λ e. absurd (ground arith))

-- A choice between two runs.
either-Gives :
    (b p p' : Bool) (n n' : ℕ) (s : Checking) (r r' : Bool × Checking)
    → Gives p n s r
    → Gives p' n' s r'
    → Gives (if b then p else p') (if b then n else n') s (if b then r else r')
either-Gives true p p' n n' s r r' h k = h
either-Gives false p p' n n' s r r' h k = k

decided :
    (b : Bool) (s t failed : Checking)
    → t.error ≡ s.error
    → Gives b 0 s (outside s.required_count (if b then (true, t) else (false, failed)))
decided true s t failed h = (refl, λ e. rw h (counted_none s))
decided false s t failed h = (refl, λ e. absurd (ground arith))

module _ (c : SchemaCalls) where
  report-Gives :
      (check : Check) (v : Handle) (ok : Bool) (n : ℕ) (s : Checking) (r : Bool × Checking)
      → Gives ok n s r
      → Gives ok n s (report c check v r)
  unfolding report
  report-Gives check v ok n s (true, t) h = h
  report-Gives check v ok n s (false, t) h = (h.0, λ e. absurd (ground (arith, h.0)))

  compare_counts-Gives :
      (ok : Bool) (n max : ℕ) (s : Checking) (r : Bool × Checking)
      → Gives ok n (record s { required_count = zero }) r
      → Gives (ok && (n == max)) 0 s (outside s.required_count (compare_counts c max r))
  unfolding compare_counts
  compare_counts-Gives true n max s (true, t) h =
      let same : t.required_count ≡ n =
        ap (λ (u : Checking). u.required_count) (h.1 refl) ∙ omega arith in
      rw same (
        decided (n == max) s (record t { required_count = n }) _
          (ap (λ (u : Checking). u.error) (h.1 refl)))
  compare_counts-Gives true n max s (false, t) h = absurd (ground (arith, h.0))
  compare_counts-Gives false n max s (true, t) h = absurd (ground (arith, h.0))
  compare_counts-Gives false n max s (false, t) h = (refl, λ e. absurd (ground arith))

  plain-Gives : (ok : Bool) (s : Checking) → Gives ok 0 s (ok, s)
  plain-Gives ok s = (refl, λ e. counted_none s)

  mutual
    unfolding do_check run_checks check_property check_schema check_all holds holds_checks
        holds_property conforms conforms_all reached reached_checks reached_property

    do_check-Gives :
        (check : Check) (v : Handle) (s : Checking)
        → Gives (holds c check v) (reached check v) s (do_check c check v s)
    do_check-Gives null_check v s = plain-Gives true s
    do_check-Gives (type_check n) v s = plain-Gives _ s
    do_check-Gives (properties_check ps) v s =
        let o = (to_map v).0 in
        flagged-Gives (to_map v).1
          (all_of (λ key. holds_property c ps key (property key o)) (property_names o))
          (reached (properties_check ps) v) s
          (each_of (λ key t. check_property c ps key (property key o) t) (property_names o) s)
          (each_of-Gives (λ key t. check_property c ps key (property key o) t)
            (λ key. holds_property c ps key (property key o))
            (λ key. reached_property ps key (property key o))
            (λ key t. check_property-Gives ps key (property key o) t) (property_names o) s)
    do_check-Gives (items_check inner) v s =
        let a = (to_items v).0 in
        flagged-Gives (to_items v).1 (all_of (λ h. conforms c inner h) (items_from a 0 a)) 0 s
          (each_of (λ h t. check_schema c inner h t) (items_from a 0 a) s)
          (uncounted-Gives (λ h t. check_schema c inner h t) (λ h. conforms c inner h)
            (λ h t. check_schema-Gives inner h t) (items_from a 0 a) s)
    do_check-Gives (required_check true) v s =
        (refl, λ e. ap (λ k. record s { required_count = k }) (omega arith))
    do_check-Gives (required_check false) v s = plain-Gives true s
    do_check-Gives (minimum_check d) v s = plain-Gives _ s
    do_check-Gives (maximum_check d) v s = plain-Gives _ s
    do_check-Gives (exclusive_minimum_check d) v s = plain-Gives _ s
    do_check-Gives (exclusive_maximum_check d) v s = plain-Gives _ s
    do_check-Gives (min_items_check m) v s = plain-Gives _ s
    do_check-Gives (max_items_check m) v s = plain-Gives _ s
    do_check-Gives (min_length_check m) v s = plain-Gives _ s
    do_check-Gives (max_length_check m) v s = plain-Gives _ s
    do_check-Gives (pattern_check p) v s = plain-Gives _ s
    do_check-Gives (format_check f) v s = plain-Gives _ s
    do_check-Gives (extends_check ss) v s = check_all-Gives ss v s
    do_check-Gives (ref_check inner) v s = check_schema-Gives inner v s

    pub run_checks-Gives :
        (cs : Checks) (v : Handle) (s : Checking)
        → Gives (holds_checks c cs v) (reached_checks cs v) s (run_checks c cs v s)
    run_checks-Gives no_checks v s = plain-Gives true s
    run_checks-Gives (check_and check cs) v s =
        chain-Gives (holds c check v) (holds_checks c cs v) (reached check v) (reached_checks cs v)
          s (report c check v (do_check c check v s)) (run_checks c cs v)
          (report-Gives check v (holds c check v) (reached check v) s (do_check c check v s)
            (do_check-Gives check v s))
          (λ t. run_checks-Gives cs v t)

    check_property-Gives :
        (ps : Properties) (key : QString) (v : Handle) (s : Checking)
        → Gives
            (holds_property c ps key v)
            (reached_property ps key v)
            s
            (check_property c ps key v s)
    check_property-Gives no_properties key v s = plain-Gives true s
    check_property-Gives (named name cs ps) key v s =
        either-Gives (str_eq name key) (holds_checks c cs v) (holds_property c ps key v)
          (reached_checks cs v) (reached_property ps key v) s (run_checks c cs v s)
          (check_property c ps key v s) (run_checks-Gives cs v s) (check_property-Gives ps key v s)

    pub check_schema-Gives :
        (inner : Schema) (v : Handle) (s : Checking)
        → Gives (conforms c inner v) 0 s (check_schema c inner v s)
    check_schema-Gives (schema cs max) v s =
        let t : Checking = record s { required_count = zero } in
        compare_counts-Gives (holds_checks c cs v) (reached_checks cs v) max s (run_checks c cs v t)
          (run_checks-Gives cs v t)

    check_all-Gives :
        (ss : Schemas) (v : Handle) (s : Checking)
        → Gives (conforms_all c ss v) 0 s (check_all c ss v s)
    check_all-Gives no_schemas v s = plain-Gives true s
    check_all-Gives (schema_and inner ss) v s =
        chain-Gives (conforms c inner v) (conforms_all c ss v) 0 0 s (check_schema c inner v s)
          (check_all c ss v) (check_schema-Gives inner v s) (λ t. check_all-Gives ss v t)
