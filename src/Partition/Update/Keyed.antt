-- ===== src/Partition/Update/Keyed.antt =====
-- Every table of a partition keeps its objects under their uuids.
use qtjsondb.Prelude.{
  ℕ, ◌≡◌, refl, Bool, true, false, ◌&&◌, List, [], ◌∷◌, Option, none, some, ◌==◌, ==_iff, not,
  Bool-cases, inl, inr,
}
use qtjsondb.Qt.Text.{QString, str_eq}
use qtjsondb.Qt.Json.{QJsonObject}
use qtjsondb.Qt.Calls.{QtCalls}
use qtjsondb.Object.Version.{uuid, type, is_deleted}
use qtjsondb.Partition.{
  JsonDbObjectTable, get_one, put_one, kept, get, store_state_change, Definitions, Partition,
  table_of, set_table, is_view, find_object_table, set_object_table, first_view, or_else,
  get_object,
}
use qtjsondb.Partition.Attempt.{Writing, ConflictResolutionMode, Request, Writer, Prepared}
use qtjsondb.Partition.Update.{put, store, write_object, update_objects}
use qtjsondb.Partition.Update.Checks.{Passes, Passes-next}
use qtjsondb.Partition.Update.Keeps.{update_objects_keep}

module _ (q : QtCalls) where
  abbrev pub AllKeyed : List (ℕ × QJsonObject) → Type 0
  AllKeyed [] = Unit {0}
  AllKeyed ((k, o) ∷ objects) = (uuid q o ≡ k) × AllKeyed objects

  abbrev pub TablesKeyed : List (QString × JsonDbObjectTable) → Type 0
  TablesKeyed [] = Unit {0}
  TablesKeyed ((n, t) ∷ tables) = AllKeyed t.objects × TablesKeyed tables

  abbrev pub IsKeyed : {D : Type 0} → Partition D → Type 0
  IsKeyed p = AllKeyed p.object_table.objects × TablesKeyed p.view_tables

  abbrev pub KeyedAt : ℕ → Option QJsonObject → Type 0
  KeyedAt key none = Unit {0}
  KeyedAt key (some o) = uuid q o ≡ key

  get_one-KeyedAt :
      (objects : List (ℕ × QJsonObject)) (key : ℕ)
      → AllKeyed objects
      → KeyedAt key (get_one objects key)
  unfolding get_one
  get_one-KeyedAt [] key h = tt
  get_one-KeyedAt ((k, o) ∷ objects) key h = elim (Bool-cases (k == key)) [
    | inl e ↦ rw (e, h.0) ((==_iff k key).0 e)
    | inr e ↦ rw e (get_one-KeyedAt objects key h.1)
  ]

  put_one-AllKeyed :
      (objects : List (ℕ × QJsonObject)) (o : QJsonObject)
      → AllKeyed objects
      → AllKeyed (put_one objects (uuid q o) o)
  unfolding put_one
  put_one-AllKeyed [] o h = (refl, tt)
  put_one-AllKeyed ((k, o') ∷ objects) o h = elim (Bool-cases (k == uuid q o)) [
    | inl e ↦ rw e (refl, h.1)
    | inr e ↦ rw e (h.0, put_one-AllKeyed objects o h.1)
  ]

  kept-KeyedAt :
      (include_deleted : Bool) (key : ℕ) (o : Option QJsonObject)
      → KeyedAt key o
      → KeyedAt key (kept include_deleted o)
  kept-KeyedAt include_deleted key none h = tt
  kept-KeyedAt include_deleted key (some o) h =
      elim (Bool-cases (not include_deleted && is_deleted o)) [ inl e ↦ rw e tt | inr e ↦ rw e h ]

  get-KeyedAt :
      (t : JsonDbObjectTable) (key : ℕ) (include_deleted : Bool)
      → AllKeyed t.objects
      → KeyedAt key (get t key include_deleted)
  unfolding get
  get-KeyedAt t key include_deleted h =
      kept-KeyedAt include_deleted key (get_one t.objects key) (get_one-KeyedAt t.objects key h)

  table_of-AllKeyed :
      (tables : List (QString × JsonDbObjectTable)) (name : QString)
      → TablesKeyed tables
      → AllKeyed (table_of tables name).objects
  unfolding table_of
  table_of-AllKeyed [] name h = tt
  table_of-AllKeyed ((n, t) ∷ tables) name h = elim (Bool-cases (str_eq n name)) [
    | inl e ↦ rw e h.0
    | inr e ↦ rw e (table_of-AllKeyed tables name h.1)
  ]

  set_table-TablesKeyed :
      (tables : List (QString × JsonDbObjectTable)) (name : QString) (t : JsonDbObjectTable)
      → TablesKeyed tables
      → AllKeyed t.objects
      → TablesKeyed (set_table tables name t)
  unfolding set_table
  set_table-TablesKeyed [] name t h g = (g, tt)
  set_table-TablesKeyed ((n, t') ∷ tables) name t h g = elim (Bool-cases (str_eq n name)) [
    | inl e ↦ rw e (g, h.1)
    | inr e ↦ rw e (h.0, set_table-TablesKeyed tables name t h.1 g)
  ]

  module _ {D : Type 0} (d : Definitions D) where
    first_view-KeyedAt :
        (p : Partition D) (key : ℕ) (names : List QString)
        → IsKeyed p
        → KeyedAt key (first_view d p key names)
    first_view-KeyedAt p key [] h = tt
    first_view-KeyedAt p key (n ∷ names) h =
        get-KeyedAt (table_of p.view_tables n) key false (table_of-AllKeyed p.view_tables n h.1)

    or_else-KeyedAt :
        (key : ℕ) (o o' : Option QJsonObject)
        → KeyedAt key o
        → KeyedAt key o'
        → KeyedAt key (or_else d o o')
    or_else-KeyedAt key none o' h g = g
    or_else-KeyedAt key (some o) o' h g = h

    find_object_table-AllKeyed :
        (p : Partition D) (t : QString) → IsKeyed p → AllKeyed (find_object_table d p t).objects
    unfolding find_object_table
    find_object_table-AllKeyed p t h = elim (Bool-cases (is_view d p t)) [
      | inl e ↦ rw e (table_of-AllKeyed p.view_tables t h.1)
      | inr e ↦ rw e h.0
    ]

    pub get_object-KeyedAt :
        (p : Partition D) (key : ℕ) (t : QString) (include_deleted : Bool)
        → IsKeyed p
        → KeyedAt key (get_object d p key t include_deleted)
    unfolding get_object
    get_object-KeyedAt p key t include_deleted h =
        or_else-KeyedAt key _ _
          (get-KeyedAt (find_object_table d p t) key include_deleted
            (find_object_table-AllKeyed p t h))
          (first_view-KeyedAt p key (d.views p.definitions) h)

    set_object_table-IsKeyed :
        (p : Partition D) (t : QString) (table : JsonDbObjectTable)
        → IsKeyed p
        → AllKeyed table.objects
        → IsKeyed (set_object_table d p t table)
    unfolding set_object_table
    set_object_table-IsKeyed p t table h g = elim (Bool-cases (is_view d p t)) [
      | inl e ↦ rw e (h.0, set_table-TablesKeyed p.view_tables t table h.1 g)
      | inr e ↦ rw e (g, h.1)
    ]

    module _ (w : Writer) where
      put-AllKeyed :
          (ok : Bool) (o : QJsonObject) (table : JsonDbObjectTable)
          → AllKeyed table.objects
          → AllKeyed (put q w d ok (uuid q o) o table).objects
      put-AllKeyed true o table h = put_one-AllKeyed table.objects o h
      put-AllKeyed false o table h = h

      pub store-IsKeyed :
          (p : Partition D) (r : Request) (t : QString) (x : Prepared)
          → IsKeyed p
          → IsKeyed (store q w d p r t x).0
      unfolding store store_state_change
      store-IsKeyed p r t x h = set_object_table-IsKeyed p t _ h (
          put-AllKeyed r.put_ok x.master (find_object_table d p t)
            (find_object_table-AllKeyed p t h))

      write_object-IsKeyed :
          (mode : ConflictResolutionMode) (s : Writing D) (r : Request)
          → IsKeyed s.partition
          → Passes (λ s'. IsKeyed s'.partition) (write_object q w d mode s r)
      unfolding write_object
      write_object-IsKeyed mode s r h =
          Passes-next (λ s'. IsKeyed s'.partition) _ _
            (λ c.
              Passes-next (λ s'. IsKeyed s'.partition) _ _
                (λ x. store-IsKeyed s.partition r (type c.object) x h))

      -- If the objects of every table stand under their uuids, then they do so after
      -- updateObjects, in any mode and with any objects.
      pub update_objects-IsKeyed :
          (mode : ConflictResolutionMode) (p : Partition D) (requests : List Request)
          → IsKeyed p
          → IsKeyed (update_objects q w d mode p requests).partition
      update_objects-IsKeyed mode p requests h =
          update_objects_keep q w d mode IsKeyed (write_object-IsKeyed mode) p requests h
