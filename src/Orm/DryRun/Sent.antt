-- ===== src/Orm/DryRun/Sent.antt =====
-- What the recorder of a dry run holds before and after the statement of an update (orm/orm.go).
use dorm.Prelude.{
  List, [], ◌∷◌, ◌++◌, map, ◌≡◌, refl, ◌∙◌, ap, Text, txt, contains, if◌then◌else◌, All,
}
use dorm.Value.{Any}
use dorm.Schema.Types.{Table}
use dorm.Orm.Write.{Runtime}
use dorm.Orm.DryRun.{Recorder, ExecutionStatement, record_statement, set_table, set_operation}
use dorm.Orm.DryRun.Events.{Change, changed}
use dorm.Orm.DryRun.Events.Aside.{IsAside, changed-IsAside}

-- The statement as it is recorded, by which of the driver's calls it is sent.
abbrev pub sent : Runtime → Text × List Any → ExecutionStatement
unfolding contains
sent rt (text, args) = record {
  operation =
      if contains (txt " RETURNING ") (map rt.unicode.to_upper text)
      then txt "query"
      else txt "exec";
  sql = text;
  parameters = args;
}

-- What the recorder of an identifier holds once an update has sent its statement.
pub record HasSent (rt : Runtime) (statement : Text × List Any) (name : Text) (before : Recorder)
    (after : Recorder) : Type 0 where
  pub recorded : after.statements ≡ before.statements ++ sent rt statement ∷ []
  pub listed : after.report.statements ≡ before.report.statements ++ sent rt statement ∷ []
  pub table : after.report.table ≡ name
  pub operation : after.report.operation ≡ txt "update"

-- What the recorder holds before the statement of an update.
pub record HasTarget (name : Text) (before after : Recorder) : Type 0 where
  pub same_statements : after.statements ≡ before.statements
  pub same_listed : after.report.statements ≡ before.report.statements
  pub named : after.report.table ≡ name
  pub updating : after.report.operation ≡ txt "update"

pub aside-HasTarget :
    (fs : List Change) (name : Text) (before after : Recorder)
    → All IsAside fs
    → HasTarget name before after
    → HasTarget name before (changed fs after)
aside-HasTarget fs name before after h t =
    let all = changed-IsAside fs h in
    record {
      same_statements = all.kept_statements after ∙ t.same_statements;
      same_listed = all.kept_listed after ∙ t.same_listed;
      named = all.kept_table after ∙ t.named;
      updating = all.kept_operation after ∙ t.updating;
    }

pub record_statement-HasSent :
    (rt : Runtime) (statement : Text × List Any) (name : Text) (before after : Recorder)
    (tail : List Change)
    → All IsAside tail
    → HasTarget name before after
    → HasSent rt statement name before (
        changed tail (record_statement (sent rt statement).operation statement.0 statement.1 after))
unfolding record_statement sent
record_statement-HasSent rt statement name before after tail h t =
    let all = changed-IsAside tail h in
    let made = record_statement (sent rt statement).operation statement.0 statement.1 after in
    record {
      recorded = all.kept_statements made ∙ ap (λ l. l ++ sent rt statement ∷ []) t.same_statements;
      listed = all.kept_listed made ∙ ap (λ l. l ++ sent rt statement ∷ []) t.same_listed;
      table = all.kept_table made ∙ t.named;
      operation = all.kept_operation made ∙ t.updating;
    }

-- What comes before the table and the operation are set does not touch the statements.
pub target-HasTarget :
    (fs gs : List Change) (table : Table) (r : Recorder)
    → All IsAside fs
    → All IsAside gs
    → HasTarget table.name r (
        changed
          (set_table table.name ∷ set_operation (txt "update") ∷ [])
          (changed gs (changed fs r)))
unfolding changed set_table set_operation
target-HasTarget fs gs table r h i =
    let first = changed-IsAside fs h in
    let then_ = changed-IsAside gs i in
    record {
      same_statements = then_.kept_statements (changed fs r) ∙ first.kept_statements r;
      same_listed = then_.kept_listed (changed fs r) ∙ first.kept_listed r;
      named = refl;
      updating = refl;
    }
