-- ===== src/Orm/Relations/Loading.antt =====
-- orm/hooks_relations.go: the rows of a relation, and Load and Preload over the fields of a parent.
-- What is set in the parent is the result. On an error nothing is handed back.
use dorm.Prelude.{Option, none, some, List, [], ◌∷◌, ◌++◌, Text, txt, is_nil, if◌then◌else◌}
use dorm.Value.{Any}
use dorm.Schema.Types.{Table}
use dorm.Schema.Names.{to_snake_case}
use dorm.Errors.{Kind, Result, Error, ok, err, new, wrap}
use dorm.Access.Policy.{Ctx}
use dorm.Orm.Exec.{Exec, ◌>>=◌, ◌>>◌, lift, raise, pure}
use dorm.Orm.Write.{Values, is_zero_value}
use dorm.Orm.Relations.{
  Relation, one, many, one_other, many_other, no_relation, Field, Fields, Loaded, zero_value,
  one_row, rows, Loader, struct_field_by_name, struct_field_by_candidates,
  primary_key_columns_for_table, relation_parts,
}

render_failed : Result Text → Result Text
render_failed (ok t) = ok t
render_failed (err e) = err (wrap Kind.unsupported_feature (txt "orm: render relation load") e)

first_loaded : List Values → Loaded
first_loaded [] = zero_value
first_loaded (row ∷ more) = one_row row

relation_error : Text → Text → Text → Error
relation_error before relation after = new Kind.invalid_schema (before ++ (relation ++ after))

module _ {W : Type 0} (l : Loader W) (ctx : Ctx) where
  -- The hooks of the rows, in order.
  unfoldable pub invoke_after_find_hooks : List Values → Exec W Unit
  invoke_after_find_hooks [] = pure tt
  invoke_after_find_hooks (row ∷ more) = do l.after_find row; invoke_after_find_hooks more

  unfoldable pub load_rows : Table → Text → Any → Exec W (List Values)
  unfolding relation_parts render_failed invoke_after_find_hooks
  load_rows table column v = do
    let (parts, args) = relation_parts l.dialect ctx table column v
    text ← lift (render_failed (l.dialect.render_select parts))
    found ← l.query text args
    invoke_after_find_hooks found
    pure found

  primary_key_field : Fields → List Text → Option Field
  unfolding struct_field_by_name struct_field_by_candidates
  primary_key_field parent [] =
      struct_field_by_candidates l parent (txt "ID" ∷ txt "Id" ∷ txt "id" ∷ [])
  primary_key_field parent (col ∷ cols) =
      let later = primary_key_field parent cols in
      elim (struct_field_by_name l parent col) [ some f ↦ some f | none ↦ later ]

  belongs_to_rows : Text → Table → List Text → Any → Exec W Loaded
  unfolding load_rows relation_error first_loaded
  belongs_to_rows relation target (col ∷ []) v = do
    found ← load_rows target col v
    pure (first_loaded found)
  belongs_to_rows relation target _ v = raise (
      relation_error (txt "orm: relation ") (l.quote relation)
        (txt " requires a single-column primary key"))

  load_belongs_to_relation : Fields → Table → Text → Exec W Loaded
  unfolding struct_field_by_candidates to_snake_case relation_error is_zero_value
      primary_key_columns_for_table belongs_to_rows
  load_belongs_to_relation parent target relation =
      elim (struct_field_by_candidates l parent (
        (relation ++ txt "ID")
        ∷ (relation ++ txt "Id")
        ∷ (to_snake_case l.unicode relation ++ txt "_id")
        ∷ [])) [
          | none ↦ raise (
              relation_error (txt "orm: parent model missing foreign key for relation ")
                (l.quote relation) [])
          | some key ↦
              if is_zero_value key.value
              then pure zero_value
              else belongs_to_rows relation target (primary_key_columns_for_table target) key.value
        ]

  load_has_many_relation : Fields → Table → Table → Text → Exec W Loaded
  unfolding primary_key_field primary_key_columns_for_table relation_error is_zero_value
      to_snake_case load_rows
  load_has_many_relation parent parent_table child relation =
      elim (primary_key_field parent (primary_key_columns_for_table parent_table)) [
        | none ↦ raise (
            relation_error (txt "orm: parent model missing primary key for relation ")
              (l.quote relation) [])
        | some key ↦ if is_zero_value key.value then pure (rows []) else (do
          found ←
              load_rows child (to_snake_case l.unicode parent_table.go_type_name ++ txt "_id")
                key.value
          pure (rows found))
      ]

  unfoldable pub load_struct_relation : Table → Text → Fields → Exec W Loaded
  unfolding struct_field_by_name relation_error load_belongs_to_relation load_has_many_relation
  load_struct_relation parent_table relation parent =
      elim (struct_field_by_name l parent relation) [
        | none ↦ raise (relation_error (txt "orm: relation ") (l.quote relation) (txt " not found"))
        | some f ↦ load_field f.relation
      ]
    where
      refuse : Text → Exec W Loaded
      refuse why = raise (relation_error (txt "orm: relation ") (l.quote relation) why)

      load_field : Relation → Exec W Loaded
      load_field (one target) = load_belongs_to_relation parent target relation
      load_field (many child) = load_has_many_relation parent parent_table child relation
      load_field one_other = refuse (txt " is not a struct or pointer to struct")
      load_field many_other = refuse (txt " is not a slice of structs")
      load_field no_relation = refuse (txt " is not loadable")

  -- The elements of a slice, or one struct, in order; nil pointers are left out before.
  load_value : Table → Text → List Fields → Exec W (List Loaded)
  unfolding load_struct_relation
  load_value table relation [] = pure []
  load_value table relation (item ∷ items) = do
    first ← load_struct_relation table relation item
    more ← load_value table relation items
    pure (first ∷ more)

  unfoldable pub load : Table → Text → List Fields → Exec W (List Loaded)
  unfolding load_value
  load table relation items =
      if is_nil relation
      then raise (new Kind.configuration (txt "orm: empty relation name"))
      else load_value table relation items

  unfoldable pub preload : Table → List Text → List Fields → Exec W (List (List Loaded))
  unfolding load
  preload table [] items = pure []
  preload table (relation ∷ relations) items = do
    loaded ← load table relation items
    more ← preload table relations items
    pure (loaded ∷ more)
