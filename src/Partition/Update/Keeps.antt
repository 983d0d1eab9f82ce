-- ===== src/Partition/Update/Keeps.antt =====
-- What each write of an object keeps, updateObjects keeps.
use qtjsondb.Prelude.{List, [], ◌∷◌, not, Bool-cases, inl, inr}
use qtjsondb.Qt.Calls.{QtCalls}
use qtjsondb.Partition.{Definitions, Partition}
use qtjsondb.Partition.Attempt.{
  Writing, Attempt, passed, refused, ConflictResolutionMode, Request, Writer,
}
use qtjsondb.Partition.Update.{write_object, end_write, write_objects, begin, update_objects}
use qtjsondb.Partition.Update.Checks.{Passes}

module _ (q : QtCalls) (w : Writer) {D : Type 0} (d : Definitions D) (mode : ConflictResolutionMode)
    (P : Partition D → Type 0)
    (step : (s : Writing D) (r : Request)
      → P s.partition
      → Passes (λ s'. P s'.partition) (write_object q w d mode s r)) where
  end_write_keeps :
      (loop : Writing D → Writing D) (s : Writing D) (m : Attempt (Writing D))
      → ((s' : Writing D) → P s'.partition → P (loop s').partition)
      → P s.partition
      → Passes (λ s'. P s'.partition) m
      → P (end_write q w d loop s m).partition
  end_write_keeps loop s (passed s') next h g = next s' g
  end_write_keeps loop s (refused code) next h g = h

  write_objects_keep :
      (s : Writing D) (requests : List Request)
      → P s.partition
      → P (write_objects q w d mode s requests).partition
  unfolding write_objects
  write_objects_keep s [] h = h
  write_objects_keep s (r ∷ requests) h =
      end_write_keeps _ s (write_object q w d mode s r) (λ s' h'. write_objects_keep s' requests h')
        h (step s r h)

  pub update_objects_keep :
      (p : Partition D) (requests : List Request)
      → P p
      → P (update_objects q w d mode p requests).partition
  unfolding update_objects
  update_objects_keep p requests h = elim (Bool-cases (not p.is_open)) [
    | inl e ↦ rw e h
    | inr e ↦ rw e (elim (Bool-cases (not p.has_space)) [
      | inl g ↦ rw g h
      | inr g ↦ rw g (write_objects_keep (begin q w d p) requests h)
    ])
  ]
