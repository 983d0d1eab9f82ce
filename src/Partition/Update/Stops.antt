-- ===== src/Partition/Update/Stops.antt =====
-- A list of objects that is refused in the middle.
use qtjsondb.Prelude.{
  ◌≡◌, refl, sym, ap, if◌then◌else◌, ◌∙◌, Bool, true, false, List, [], ◌∷◌, ◌++◌, not,
}
use qtjsondb.Qt.Calls.{QtCalls}
use qtjsondb.Partition.{Definitions, Partition}
use qtjsondb.Partition.Attempt.{
  Writing, Attempt, passed, refused, ErrorCode, ConflictResolutionMode, Request, Writer,
}
use qtjsondb.Partition.Update.{write_object, end_write, write_objects, begin, update_objects}

both_true :
    {A : Type 0} (a b : Bool) (x y z : A)
    → a ≡ true
    → b ≡ true
    → (if not a then x else if not b then y else z) ≡ z
both_true true true x y z h g = refl
both_true true false x y z h g = cc
both_true false b x y z h g = cc

module _ (q : QtCalls) (w : Writer) {D : Type 0} (d : Definitions D)
    (mode : ConflictResolutionMode) where
  abbrev AfterWrite : (Writing D → Type 0) → Attempt (Writing D) → Type 0
  AfterWrite Q (passed s) = Q s
  AfterWrite Q (refused code) = ⊥

  -- None of the objects is refused.
  abbrev pub AllPass : List Request → Writing D → Type 0
  AllPass [] s = Unit {0}
  AllPass (r ∷ requests) s = AfterWrite (AllPass requests) (write_object q w d mode s r)

  stops_at :
      (s : Writing D) (m : Attempt (Writing D)) (requests : List Request) (r : Request)
      (rest : List Request) (code : ErrorCode)
      → AfterWrite (AllPass requests) m
      → ((s' : Writing D)
          → AllPass requests s'
          → write_object q w d mode (write_objects q w d mode s' requests) r ≡ refused code
          → write_objects q w d mode s' (requests ++ r ∷ rest)
            ≡ record (write_objects q w d mode s' requests) { code = code })
      → write_object q w d mode (end_write q w d (λ s'. write_objects q w d mode s' requests) s m) r
        ≡ refused code
      → end_write q w d (λ s'. write_objects q w d mode s' (requests ++ r ∷ rest)) s m
        ≡ record (end_write q w d (λ s'. write_objects q w d mode s' requests) s m) { code = code }
  stops_at s (passed s') requests r rest code h next e = next s' h e
  stops_at s (refused c) requests r rest code h next e = absurd h

  write_objects_stop :
      (requests : List Request) (r : Request) (rest : List Request) (code : ErrorCode)
      (s : Writing D)
      → AllPass requests s
      → write_object q w d mode (write_objects q w d mode s requests) r ≡ refused code
      → write_objects q w d mode s (requests ++ r ∷ rest)
        ≡ record (write_objects q w d mode s requests) { code = code }
  unfolding write_objects
  write_objects_stop [] r rest code s h e = rw e refl
  write_objects_stop (r' ∷ requests) r rest code s h e =
      stops_at s (write_object q w d mode s r') requests r rest code h
        (write_objects_stop requests r rest code) e

  opened :
      (p : Partition D) (requests : List Request)
      → p.is_open ≡ true
      → p.has_space ≡ true
      → update_objects q w d mode p requests ≡ write_objects q w d mode (begin q w d p) requests
  unfolding update_objects
  opened p requests is_open has_space = both_true p.is_open p.has_space _ _ _ is_open has_space

  -- On an open partition with space, let none of some objects be refused, and let the next one
  -- be refused after them. Then updateObjects of these, that one and any others leaves what it
  -- leaves of these, and gives the code of the refusal.
  pub update_objects_stop :
      (p : Partition D) (requests : List Request) (r : Request) (rest : List Request)
      (code : ErrorCode)
      → p.is_open ≡ true
      → p.has_space ≡ true
      → AllPass requests (begin q w d p)
      → write_object q w d mode (update_objects q w d mode p requests) r ≡ refused code
      → update_objects q w d mode p (requests ++ r ∷ rest)
        ≡ record (update_objects q w d mode p requests) { code = code }
  update_objects_stop p requests r rest code is_open has_space h e =
      opened p (requests ++ r ∷ rest) is_open has_space
      ∙ (write_objects_stop requests r rest code (begin q w d p) h
            (ap (λ s. write_object q w d mode s r) (sym (opened p requests is_open has_space)) ∙ e)
          ∙ ap {A = Writing D} (λ s. record s { code = code })
              (sym (opened p requests is_open has_space)))
