-- ===== src/Orm/Raw.antt =====
-- orm/raw.go: the builder of raw SQL, which runs nothing before it is told that no policy applies.
-- The context, spans and log entries are left out; a builder always has a database handle.
use dorm.Prelude.{
  Bool, true, false, Option, none, some, List, ◌≡◌, refl, Text, txt, text_eq, if◌then◌else◌,
}
use dorm.Value.{Any, ℤ}
use dorm.Errors.{Kind, Error, err, is, detailed, Details}
use dorm.Dialect.{Dialect}
use dorm.Dialect.Placeholders.{bind_placeholders}
use dorm.Orm.Exec.{Exec, raise}
use dorm.Orm.Write.{Values}

pub record RawBuilder : Type 0 where
  pub query : Text
  pub args : List Any
  pub without_policy : Bool

unfoldable pub raw : Text → List Any → RawBuilder
raw query args = record { query = query; args = args; without_policy = false }

unfoldable pub without_policy : RawBuilder → RawBuilder
without_policy r = record r { without_policy = true }

raw_sql_policy_hint : Text → Text
unfolding text_eq
raw_sql_policy_hint operation =
    if text_eq operation (txt "exec")
    then txt "Did you mean: db.Raw(ctx, query, args...).WithoutPolicy().Exec()"
    else txt "Did you mean: db.Raw(ctx, query, args...).WithoutPolicy().Scan(...)"

policy_error : Text → Error
unfolding raw_sql_policy_hint
policy_error operation =
    detailed Kind.raw_sql_policy_required
      (Details.raw_sql_policy_error operation (raw_sql_policy_hint operation))

-- `run`, with what is to be done with the bound text.
unfoldable pub run_raw :
    {W A : Type 0} → Option Dialect → RawBuilder → Text → (Text → Exec W A) → Exec W A
unfolding bind_placeholders policy_error
run_raw none r operation fn = raise (Error.external (txt "orm: nil dialect"))
run_raw (some d) r operation fn =
    if r.without_policy
    then fn (bind_placeholders r.query (some d))
    else raise (policy_error operation)

module _ {W : Type 0} (query : Text → List Any → Exec W (List Values))
    (exec : Text → List Any → Exec W (Option ℤ)) where
  -- `Scan`: the rows that are added to the destination.
  unfoldable pub scan : Option Dialect → RawBuilder → Exec W (List Values)
  unfolding run_raw
  scan d r = run_raw d r (txt "scan") (λ text. query text r.args)

  -- `Exec`
  unfoldable pub exec_raw : Option Dialect → RawBuilder → Exec W (Option ℤ)
  unfolding run_raw
  exec_raw d r = run_raw d r (txt "exec") (λ text. exec text r.args)

  -- Without the acknowledgement a raw statement is refused, whether it is to be scanned or executed,
  -- with an error that is known as that of a missing decision on the policy, and nothing is sent;
  -- with it, the text with its placeholders bound is sent, and the arguments as they are.
  pub raw_guarded :
      (d : Dialect) (text : Text) (args : List Any) (w : W)
      → let bound = bind_placeholders text (some d) in
        ((e : Error) × (scan (some d) (raw text args) w ≡ (err e, w))
          × (is e Kind.raw_sql_policy_required ≡ true))
        × ((e : Error) × (exec_raw (some d) (raw text args) w ≡ (err e, w))
            × (is e Kind.raw_sql_policy_required ≡ true))
        × (scan (some d) (without_policy (raw text args)) w ≡ query bound args w)
        × (exec_raw (some d) (without_policy (raw text args)) w ≡ exec bound args w)
  unfolding scan exec_raw raw without_policy is policy_error
  raw_guarded d text args w = ((_, refl, refl), (_, refl, refl), refl, refl)
