-- ===== src/Examples/Raw.antt =====
-- A raw statement over a log of the driver, before and after the acknowledgement.
use dorm.Prelude.{true, Option, none, some, List, [], ◌∷◌, ◌≡◌, Text, txt}
use dorm.Value.{Any, ℤ}
use dorm.Errors.{Kind, Error, ok, err, is}
use dorm.Dialect.Placeholders.{bind_placeholders}
use dorm.Dialect.Postgres.{postgres}
use dorm.Orm.Exec.{Exec}
use dorm.Orm.Write.{Values}
use dorm.Orm.Raw.{raw, without_policy, scan, exec_raw, raw_guarded}
use dorm.Examples.Data.{seven}

abbrev Log : Type 0
Log = List (Text × List Any)

abbrev query : Text → List Any → Exec Log (List Values)
query t args log = (ok [], (t, args) ∷ log)

abbrev exec : Text → List Any → Exec Log (Option ℤ)
exec t args log = (ok none, (t, args) ∷ log)

guarded_example :
    let text = txt "DELETE FROM notes WHERE id = ?" in
    let bound = bind_placeholders text (some postgres) in
    ((e : Error) × (scan query exec (some postgres) (raw text (seven ∷ [])) [] ≡ (err e, []))
      × (is e Kind.raw_sql_policy_required ≡ true))
    × ((e : Error) × (exec_raw query exec (some postgres) (raw text (seven ∷ [])) [] ≡ (err e, []))
        × (is e Kind.raw_sql_policy_required ≡ true))
    × (scan query exec (some postgres) (without_policy (raw text (seven ∷ []))) []
        ≡ query bound (seven ∷ []) [])
    × (exec_raw query exec (some postgres) (without_policy (raw text (seven ∷ []))) []
        ≡ exec bound (seven ∷ []) [])
guarded_example =
    raw_guarded query exec postgres (txt "DELETE FROM notes WHERE id = ?") (seven ∷ []) []
