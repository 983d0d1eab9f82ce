-- ===== src/Schema/Compile/Loads.antt =====
-- src/partition/jsondbcheckpoints_p.h: which schemas the constructors of the checks load.
use qtjsondb.Prelude.{Bool, true, ◌&&◌, is_empty, if◌then◌else◌}
use qtjsondb.Qt.Text.{QString}
use qtjsondb.Qt.Json.{
  to_string, Value, str, arr, obj, Items, no_items, item, Fields, no_fields, field,
}
use qtjsondb.Schema.Handle.{SchemaCalls}
use qtjsondb.Schema.Keyword.{Keyword, properties_key, items_key, extends_key, ref_key, keyword_of}

module _ (c : SchemaCalls) (p : QString → Bool) where
  -- Every schema that is loaded for a check, or for the checks of a schema, has a name in p.
  unfoldable mutual
    unfolding keyword_of

    pub loads : Keyword → Value → Bool
    loads properties_key (obj fs) = loads_properties (loads_fields fs) fs
    loads items_key (obj fs) = loads_fields fs
    loads extends_key (obj fs) = loads_fields fs
    loads extends_key (str name) = p name
    loads extends_key (arr xs) = loads_items xs
    loads ref_key v = p (to_string v)
    loads keyword v = true

    pub loads_fields : Fields → Bool
    loads_fields no_fields = true
    loads_fields (field key v fs) = loads (keyword_of (c.to_lower key)) v && loads_fields fs

    pub loads_value : Value → Bool
    loads_value (obj fs) = loads_fields fs
    loads_value v = true

    pub loads_properties : Bool → Fields → Bool
    loads_properties whole no_fields = true
    loads_properties whole (field name v fs) =
        let rest = loads_properties whole fs in
        let here = loads_value v in (if is_empty name then whole else here) && rest

    pub loads_items : Items → Bool
    loads_items no_items = true
    loads_items (item v xs) = loads_value v && loads_items xs
