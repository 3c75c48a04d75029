-- ===== src/Examples/Runs.antt =====
-- Dry runs, and the configuration of the driver.
use dorm.Prelude.{
  ◌==◌, ◌≡◌, refl, arith, false, Option, none, some, List, [], ◌∷◌, map, Text, txt, if◌then◌else◌,
}
use dorm.Value.{Any, ℤ, num, int64, pos}
use dorm.Orm.Exec.{Exec}
use dorm.Orm.DryRun.{
  DryRunStates, ExecutionReport, ExecutionStatement, new_recorder, exec_context, run,
}
use dorm.Orm.DryRun.Calls.{Call, hook, statement, calls}
use dorm.Orm.DryRun.Recording.{HasRecorded, calls-HasRecorded}
use dorm.Driver.Postgres.{Config, settings, dsn_of}
use dorm.Driver.Postgres.Dsn.{IsWithout, read_settings, read-dsn}

abbrev nobody : DryRunStates
nobody = record { states = []; seq = 0 }

abbrev one_delete : Text → Text × List Any
one_delete id = (txt "DELETE FROM notes WHERE id = $1", some (num int64 (pos 7)) ∷ [])

abbrev deleting : Text → Exec DryRunStates (Option ℤ)
deleting id w = exec_context id ((one_delete id).0) ((one_delete id).1) w

abbrev texts_of : ExecutionReport → List Text
texts_of report = map (λ (s : ExecutionStatement). s.sql) report.statements

delete_run :
    texts_of ((run none (txt "delete") deleting nobody).0.0)
    ≡ txt "DELETE FROM notes WHERE id = $1" ∷ []
unfolding run exec_context
delete_run = refl

abbrev told : List Call
told =
    hook (txt "BeforeUpdate") (txt "Note")
    ∷ statement (txt "exec") (txt "SELECT 1") []
    ∷ statement (txt "exec") (txt "SELECT 2") []
    ∷ []

calls-HasRecorded_example : HasRecorded told (calls told new_recorder)
calls-HasRecorded_example = calls-HasRecorded told

abbrev local : Config
local = record {
  dsn = [];
  driver_name = [];
  host = txt "localhost";
  port = 5432;
  database = txt "shop";
  username = [];
  password = [];
  ssl_mode = [];
  timezone = [];
  search_path = [];
  preflight_enabled = false;
  model_root = [];
  snapshot_path = [];
  schema_name = [];
  options = (txt "application_name", txt "desk") ∷ [];
  max_open_conns = 0;
  max_idle_conns = 0;
  conn_max_lifetime = 0;
  conn_max_idle_time = 0;
}

-- A form of escaping that writes plus signs for spaces, as for a query string.
abbrev pluses : Text → Text
pluses = map (λ c. if c == 32 then b'+' else c)

local_run :
    dsn_of pluses (record local { password = txt "a b" })
    ≡ txt "host=localhost port=5432 dbname=shop password=a+b application_name=desk"
unfolding dsn_of
local_run = refl

pluses-plain : (t : Text) → IsWithout 32 (pluses t)
pluses-plain [] = tt
pluses-plain (c ∷ t) = (ground arith, pluses-plain t)

read-dsn_example :
    read_settings (dsn_of pluses local)
    ≡ map (λ (e : Text × Text). some (e.0, pluses (e.1))) (settings local)
unfolding settings
read-dsn_example = read-dsn pluses local pluses-plain refl refl (search tt)
