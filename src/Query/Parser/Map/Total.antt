-- ===== src/Query/Parser/Map/Total.antt =====
-- Reading the map of a query ends, although a brace is put back.
use qtjsondb.Prelude.{ℕ, zero, suc}
use qtjsondb.Qt.Text.{QString, str_eq}
use qtjsondb.Qt.Calls.{QtCalls}
use qtjsondb.Query.Parser.Reader.{Reader, ◌>>=◌, pop_token}
use qtjsondb.Query.Parser.Reader.Runs.{Runs, Runs-none, Runs-pure, Runs-bind, runs_rules}
use qtjsondb.Query.Parser.Reader.Tokens.{
  Runs-identifier, Runs-pop_token, Runs-next_identifier, Pending-pop, Pending-Runs, Pending-if,
  Runs-peek, Popped-Runs, Popped-if, Popped-push, Runs-pop_put,
}
use qtjsondb.Query.Parser.Json.{is_bracket}
use qtjsondb.Query.Parser.Terms.{Progress, is_arrow}
use qtjsondb.Query.Parser.Map.{read_arrows, map_end, map_entry, read_map}

module _ (q : QtCalls) where
  read_arrows-Runs : (fuel : ℕ) (token : QString) → Runs fuel (read_arrows q fuel token)
  unfolding read_arrows str_eq
  read_arrows-Runs zero token = Runs-none _
  read_arrows-Runs (suc fuel) token =
      let ih = read_arrows-Runs fuel in
      Runs-peek q (suc fuel) _
        (λ t ne.
          Pending-if q (suc fuel) (is_arrow t) _ _
            (Pending-pop q fuel _
              (λ op. Runs-bind fuel _ _ (Runs-next_identifier q fuel) (λ name. ih _)))
            (Pending-Runs q (suc fuel) _ (Runs-pure (suc fuel) _)))
        (Runs-pure (suc fuel) _)

  module _ (fuel : ℕ) (entries : Progress → Reader Progress)
      (ih : (p : Progress) → Runs fuel (entries p)) where
    map_end-Runs : (p : Progress) → Runs fuel (pop_token q >>= λ comma. map_end q entries p comma)
    unfolding str_eq
    map_end-Runs p =
        Runs-pop_put q fuel _
          (λ t ne.
            Popped-if q fuel (is_bracket b'}' t) _ _ (Popped-push q fuel t _ (ih p))
              (Popped-Runs q fuel _ (search (runs_rules, ih))))
          (Runs-pure fuel _)

    map_entry-Runs : (p : Progress) (key : QString) → Runs fuel (map_entry q fuel entries p key)
    unfolding map_entry
    map_entry-Runs p key =
        search
          (runs_rules, Runs-pop_token q, Runs-next_identifier q, read_arrows-Runs, map_end-Runs)
          depth 12

  pub read_map-Runs : (fuel : ℕ) (p : Progress) → Runs fuel (read_map q fuel p)
  unfolding read_map
  read_map-Runs zero p = Runs-none _
  read_map-Runs (suc fuel) p =
      let ih = read_map-Runs fuel in
      Runs-identifier q fuel _ (λ key ne. search (runs_rules, map_entry-Runs, ih) depth 8)
        (Runs-pure (suc fuel) _)
