-- ===== src/Changeset/Planner.antt =====
-- The planner of src/server/db/sql/changeset.ts: planChangeset and buildChangesetSql.
use database_admin.Common.{
  ℕ, Bool, true, false, not, ◌&&◌, ◌||◌, Option, none, some, List, [], ◌∷◌, ◌++◌, map,
  if◌then◌else◌, is_empty, Text, codes, join, Result, ok, err, ◌>>=◌, ◌>>◌, traverse,
}
use database_admin.Lexer.Rules.{EngineKind}
use database_admin.Params.{ParamStyle, param_style_for, Placeholders}
use database_admin.Changeset.{
  ChangeKind, Failure, QuoteFns, DecodedCell, PreparedStatement, ChangesetPlan, add_warning, lift,
  next_holes, Members, CellFns, ChangeOp, Changeset, ColumnModel, has_own, writable_columns,
  key_terms, set_terms, set_display, decode_members, assert_bounded, unwritable,
}

module _ {Cell P : Type 0} (cells : CellFns Cell P) (quote : QuoteFns) where
  -- The `try` of one change: the statement that it adds, if any.
  abbrev pub Attempt : Type 0
  Attempt = Result Failure (Option (PreparedStatement P))

  abbrev emit : ChangeKind → Text → List P → Text → Attempt
  emit op sql params display =
      let statement : PreparedStatement P = record {
        op = op;
        sql = sql;
        params = params;
        display = display;
        expected = 1;
      } in
      ok (some statement)

  abbrev pub params_of : List (Text × DecodedCell P) → List P
  params_of = map (λ d. d.1.param)

  abbrev pub default_row : EngineKind → Text → Text
  default_row EngineKind.mysql target = codes "INSERT INTO " ++ (target ++ codes " () VALUES ()")
  default_row EngineKind.mariadb target = codes "INSERT INTO " ++ (target ++ codes " () VALUES ()")
  default_row _ target = codes "INSERT INTO " ++ (target ++ codes " DEFAULT VALUES")

  unfoldable pub plan_insert : EngineKind → Text → Placeholders → Members Cell → Attempt
  plan_insert engine target holes [] =
      emit ChangeKind.insert (default_row engine target) [] (default_row engine target)
  plan_insert engine target holes (m ∷ ms) = do
    decoded ← decode_members cells quote (m ∷ ms)
    idents ← traverse (λ (d : Text × DecodedCell P). lift (quote.ident d.0)) decoded
    let placeholders = (next_holes holes decoded).0
    let names = join (codes ", ") idents
    emit ChangeKind.insert
        (codes "INSERT INTO "
          ++ (target
              ++ (codes " ("
                  ++ (names
                      ++ (codes ") VALUES (" ++ (join (codes ", ") placeholders ++ codes ")"))))))
        (params_of decoded)
        (codes "INSERT INTO "
          ++ (target
              ++ (codes " ("
                  ++ (names
                      ++ (codes ") VALUES ("
                          ++ (join (codes ", ") (map (λ d. d.1.sql) decoded) ++ codes ")"))))))

  -- An UPDATE whose columns are all generated is dropped.
  unfoldable pub plan_update :
      Text → Placeholders → Members Cell → List Text → Members Cell → Attempt
  plan_update target holes key key_columns [] = ok none
  plan_update target holes key key_columns (m ∷ ms) = do
    decoded ← decode_members cells quote (m ∷ ms)
    sets ← set_terms cells quote holes decoded
    display ← set_display cells quote decoded
    where_ ← key_terms cells quote key sets.1 key_columns
    assert_bounded cells quote where_.0.terms (codes "UPDATE")
    emit ChangeKind.update
        (codes "UPDATE "
          ++ (target
              ++ (codes " SET "
                  ++ (join (codes ", ") sets.0
                      ++ (codes " WHERE " ++ join (codes " AND ") where_.0.terms)))))
        (params_of decoded ++ where_.0.params)
        (codes "UPDATE "
          ++ (target
              ++ (codes " SET "
                  ++ (join (codes ", ") display
                      ++ (codes " WHERE " ++ join (codes " AND ") where_.0.display_terms)))))

  unfoldable pub plan_delete : Text → Placeholders → Members Cell → List Text → Attempt
  plan_delete target holes key key_columns = do
    where_ ← key_terms cells quote key holes key_columns
    assert_bounded cells quote where_.0.terms (codes "DELETE")
    emit ChangeKind.delete
        (codes "DELETE FROM "
          ++ (target ++ (codes " WHERE " ++ join (codes " AND ") where_.0.terms)))
        where_.0.params
        (codes "DELETE FROM "
          ++ (target ++ (codes " WHERE " ++ join (codes " AND ") where_.0.display_terms)))

  abbrev op_name : ChangeKind → Text
  op_name ChangeKind.insert = codes "insert"
  op_name ChangeKind.update = codes "update"
  op_name ChangeKind.delete = codes "delete"

  -- The end of the `try`: a statement, nothing, or the `catch`.
  unfoldable pub close_attempt :
      Text → ChangeKind → ChangesetPlan P → Attempt → Result Failure (ChangesetPlan P)
  close_attempt table op plan (ok none) = ok plan
  close_attempt table op plan (ok (some s)) =
      ok (record plan { statements = plan.statements ++ s ∷ [] })
  close_attempt table op plan (err (unwritable message)) = ok (record plan {
    warnings = add_warning plan.warnings (
        codes "A "
        ++ (op_name op ++ (codes " on \"" ++ (table ++ (codes "\" was skipped: " ++ message)))));
  })
  close_attempt table op plan (err e) = err e

  -- The key columns of a change: those of the changeset, or what the row carried.
  abbrev pub keys_for : List Text → Members Cell → List Text
  keys_for [] key = map (λ m. m.0) key
  keys_for (c ∷ cs) key = c ∷ cs

  unfoldable pub missing_from : Members Cell → List Text → List Text
  missing_from key [] = []
  missing_from key (c ∷ cs) =
      let rest = missing_from key cs in if has_own key c then rest else c ∷ rest

  abbrev skipped : ChangeKind → List Text → List Text → Text
  skipped op [] missing =
      codes "A " ++ (op_name op ++ codes " was skipped: the row carried no key values at all.")
  skipped op (_ ∷ _) missing =
      codes "A "
      ++ (op_name op
          ++ (codes " was skipped: the row key is missing "
              ++ (join (codes ", ") missing ++ codes ".")))

  module _ (engine : EngineKind) (style : ParamStyle) (columns : List (ColumnModel Cell))
      (target : Text) (cs : Changeset Cell) where
    abbrev pub fresh_holes : Placeholders
    fresh_holes = record { style = style; n = 0 }

    -- An UPDATE or DELETE behind the check of its key.
    unfoldable pub keyed :
        ChangeKind
        → ChangesetPlan P
        → Members Cell
        → (List Text → Result Failure (ChangesetPlan P))
        → Result Failure (ChangesetPlan P)
    unfolding missing_from
    keyed op plan key act =
        let keys = keys_for cs.key_columns key in
        let missing = missing_from key keys in
        if is_empty keys || not (is_empty missing)
        then ok (record plan { warnings = add_warning plan.warnings (skipped op keys missing) })
        else act keys

    -- One round of the loop over the changes.
    unfoldable pub plan_change : ChangesetPlan P → ChangeOp Cell → Result Failure (ChangesetPlan P)
    unfolding keyed close_attempt
    plan_change plan (ChangeOp.insert values) =
        let (written, noted) = writable_columns columns plan.warnings values in
        close_attempt cs.table ChangeKind.insert (record plan { warnings = noted })
          (plan_insert engine target fresh_holes written)
    plan_change plan (ChangeOp.update key values) = keyed ChangeKind.update plan key (λ keys.
        let (written, noted) = writable_columns columns plan.warnings values in
        close_attempt cs.table ChangeKind.update (record plan { warnings = noted })
          (plan_update target fresh_holes key keys written))
    plan_change plan (ChangeOp.delete key) = keyed ChangeKind.delete plan key (λ keys.
        close_attempt cs.table ChangeKind.delete plan (plan_delete target fresh_holes key keys))

    unfoldable pub plan_changes :
        ChangesetPlan P → List (ChangeOp Cell) → Result Failure (ChangesetPlan P)
    unfolding plan_change
    plan_changes plan [] = ok plan
    plan_changes plan (c ∷ rest) = do next ← plan_change plan c; plan_changes next rest

  abbrev needs_key : List (ChangeOp Cell) → Bool
  needs_key [] = false
  needs_key (ChangeOp.insert _ ∷ rest) = needs_key rest
  needs_key (_ ∷ rest) = true

  abbrev no_key_message : Text → Text
  no_key_message table =
      codes "\""
      ++ (table
          ++ (codes
                "\" has no primary key or non-nullable unique index, so rows cannot be addressed reliably. "
              ++ codes
                  "Each change is matched on the values the grid loaded; if a statement matches more than one row the whole apply is rolled back."))

  -- `planChangeset`; `style` is the option `paramStyle`, `columns` the option `columns` or [].
  unfoldable pub plan_changeset :
      Changeset Cell
      → EngineKind
      → Option ParamStyle
      → List (ColumnModel Cell)
      → Result Failure (ChangesetPlan P)
  unfolding plan_changes
  plan_changeset cs engine style columns = do
    target ← lift (quote.qualified (cs.schema ∷ some cs.table ∷ []))
    let chosen : ParamStyle = elim style [ some s ↦ s | none ↦ param_style_for engine ]
    let initial : ChangesetPlan P = record {
      statements = [];
      warnings =
          if needs_key cs.changes && is_empty cs.key_columns
          then no_key_message cs.table ∷ []
          else [];
    }
    plan_changes engine chosen columns target cs initial cs.changes

-- `buildChangesetSql`: what the preview shows of a plan.
pub record ChangePreview : Type 0 where
  pub statements : List Text
  pub expected_affected : List ℕ
  pub warnings : List Text

unfoldable pub preview_of : {P : Type 0} → ChangesetPlan P → ChangePreview
preview_of plan = record {
  statements = map (λ (s : PreparedStatement _). s.display) plan.statements;
  expected_affected = map (λ (s : PreparedStatement _). s.expected) plan.statements;
  warnings = plan.warnings;
}

unfoldable pub build_changeset_sql :
    {Cell P : Type 0}
    → CellFns Cell P
    → QuoteFns
    → Changeset Cell
    → EngineKind
    → Option ParamStyle
    → List (ColumnModel Cell)
    → Result Failure ChangePreview
unfolding plan_changeset preview_of
build_changeset_sql cells quote cs engine style columns = do
  plan ← plan_changeset cells quote cs engine style columns
  ok (preview_of plan)
