-- ===== src/Query/Parser/Sections/Total.antt =====
-- Reading the sections of a query ends: each takes its opening bracket.
use qtjsondb.Prelude.{ℕ, zero, suc}
use qtjsondb.Qt.Text.{QString}
use qtjsondb.Qt.Calls.{QtCalls}
use qtjsondb.Query.Term.{Bindings}
use qtjsondb.Query.Parser.Reader.{Reader}
use qtjsondb.Query.Parser.Reader.Runs.{Runs, Runs-none, Runs-pure, Runs-if, runs_rules}
use qtjsondb.Query.Parser.Reader.Tokens.{Runs-pop, Runs-pop_token, Runs-next_identifier}
use qtjsondb.Query.Parser.Terms.{Progress}
use qtjsondb.Query.Parser.Terms.Total.{read_terms-Runs}
use qtjsondb.Query.Parser.Map.Total.{read_map-Runs}
use qtjsondb.Query.Parser.Sections.{
  Section, closes, stops, read_section, close_section, read_sections,
}

module _ (q : QtCalls) where
  read_section-Runs :
      (fuel : ℕ) (bindings : Bindings) (p : Progress) (token : QString)
      → Runs fuel (read_section q fuel bindings p token)
  unfolding read_section
  read_section-Runs fuel bindings p token =
      search
        (runs_rules, Runs-pop_token q, Runs-next_identifier q, read_terms-Runs q, read_map-Runs q)
        depth 14

  close_section-Runs :
      (fuel : ℕ) (sections : Progress → Reader Progress)
      → ((p : Progress) → Runs fuel (sections p))
      → (section : Section) → Runs fuel (close_section q sections section)
  unfolding close_section
  close_section-Runs fuel sections ih (stops p) = Runs-pure fuel p
  close_section-Runs fuel sections ih (closes p) = search (runs_rules, Runs-pop_token q, ih) depth 8

  pub read_sections-Runs :
      (fuel : ℕ) (bindings : Bindings) (p : Progress) → Runs fuel (read_sections q fuel bindings p)
  unfolding read_sections
  read_sections-Runs zero bindings p = Runs-none _
  read_sections-Runs (suc fuel) bindings p =
      let close = close_section-Runs fuel _ (read_sections-Runs fuel bindings) in
      Runs-if (suc fuel) p.parse_error _ _ (Runs-pure (suc fuel) p) (
        Runs-pop q fuel _
          (λ t ne. search (runs_rules, Runs-pop_token q, read_section-Runs, close) depth 12)
          (Runs-pure (suc fuel) p))
