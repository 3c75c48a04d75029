-- ===== src/Orm/Query/Options.antt =====
-- orm/orm.go: the query state of Find and of Count, and the options that change it.
use dorm.Prelude.{
  Bool, true, not, ◌&&◌, ◌||◌, Option, some, List, [], ◌∷◌, ◌++◌, Text, txt, text_eq, trim, is_nil,
  if◌then◌else◌,
}
use dorm.Value.{Any, ℤ, pos, negsuc}
use dorm.Schema.Types.{Table}
use dorm.Errors.{Kind, Error, new}
use dorm.Access.Engine.{Predicate}

-- `predicate` and `access.Predicate` have the same two fields.
pub record JoinClause : Type 0 where
  pub kind : Text
  pub table : Text
  pub on : Text
  pub args : List Any

pub record QueryState : Type 0 where
  pub table : Table
  pub columns : List Text
  pub select_columns : List Text
  pub distinct : Bool
  pub joins : List JoinClause
  pub where_ : List Predicate
  pub group_by : List Text
  pub having : List Predicate
  pub order_by : List Text
  pub limit : Option ℤ
  pub offset : Option ℤ
  pub with_deleted : Bool
  pub error : Option Error

abbrev pub Update : Type 0
Update = QueryState → QueryState

configuration_error : Text → Error
configuration_error message = new Kind.configuration message

fail : Text → Update
unfolding configuration_error
fail message q = record q { error = some (configuration_error message) }

select : Text → Update
unfolding trim fail
select e q =
    if is_nil (trim e)
    then fail (txt "orm: select requires a non-empty expression") q
    else record q { select_columns = trim e ∷ [] }

unfoldable pub distinct : Update
distinct q = record q { distinct = true }

unfoldable pub where_ : Text → List Any → Update
unfolding trim fail
where_ e args q =
    if is_nil (trim e)
    then fail (txt "orm: where requires a non-empty expression") q
    else record q { where_ = q.where_ ++ record { sql = trim e; args = args } ∷ [] }

join_option : Text → Text → Text → List Any → Update
unfolding trim fail text_eq
join_option kind table on args q =
    if is_nil (trim kind) || is_nil (trim table)
    then fail (txt "orm: join requires a non-empty table") q
    else if not (text_eq (trim kind) (txt "CROSS JOIN")) && is_nil (trim on)
    then fail (txt "orm: join requires a non-empty join condition") q
    else record q {
      joins =
          q.joins
          ++ record { kind = trim kind; table = trim table; on = trim on; args = args } ∷ [];
    }

left_join : Text → Text → List Any → Update
unfolding join_option
left_join = join_option (txt "LEFT JOIN")

right_join : Text → Text → List Any → Update
unfolding join_option
right_join = join_option (txt "RIGHT JOIN")

inner_join : Text → Text → List Any → Update
unfolding join_option
inner_join = join_option (txt "INNER JOIN")

cross_join : Text → Update
unfolding trim fail
cross_join table q =
    if is_nil (trim table)
    then fail (txt "orm: cross join requires a non-empty table") q
    else record q {
      joins =
          q.joins
          ++ record { kind = txt "CROSS JOIN"; table = trim table; on = []; args = [] } ∷ [];
    }

unfoldable pub group_by : Text → Update
unfolding trim fail
group_by e q =
    if is_nil (trim e)
    then fail (txt "orm: group by requires a non-empty expression") q
    else record q { group_by = q.group_by ++ trim e ∷ [] }

unfoldable pub having : Text → List Any → Update
unfolding trim fail
having e args q =
    if is_nil (trim e)
    then fail (txt "orm: having requires a non-empty expression") q
    else record q { having = q.having ++ record { sql = trim e; args = args } ∷ [] }

unfoldable pub order_by : Text → Update
unfolding trim fail
order_by e q =
    if is_nil (trim e)
    then fail (txt "orm: order by requires a non-empty expression") q
    else record q { order_by = q.order_by ++ trim e ∷ [] }

unfoldable pub limit : ℤ → Update
unfolding fail
limit (pos n) q = record q { limit = some (pos n) }
limit (negsuc n) q = fail (txt "orm: limit must be non-negative") q

unfoldable pub offset : ℤ → Update
unfolding fail
offset (pos n) q = record q { offset = some (pos n) }
offset (negsuc n) q = fail (txt "orm: offset must be non-negative") q

-- Go's `QueryOption` is a function on the unexported query state, so outside the package it is
-- always one of these calls.
pub data QueryOption : Type 0 where
  select_option : Text → QueryOption
  distinct_option : QueryOption
  where_option : Text → List Any → QueryOption
  left_join_option right_join_option inner_join_option : Text → Text → List Any → QueryOption
  cross_join_option group_by_option : Text → QueryOption
  having_option : Text → List Any → QueryOption
  order_by_option : Text → QueryOption
  limit_option offset_option : ℤ → QueryOption

unfoldable pub run_option : QueryOption → Update
unfolding select distinct where_ left_join right_join inner_join cross_join group_by having order_by
    limit offset
run_option (select_option e) = select e
run_option distinct_option = distinct
run_option (where_option e args) = where_ e args
run_option (left_join_option table on args) = left_join table on args
run_option (right_join_option table on args) = right_join table on args
run_option (inner_join_option table on args) = inner_join table on args
run_option (cross_join_option table) = cross_join table
run_option (group_by_option e) = group_by e
run_option (having_option e args) = having e args
run_option (order_by_option e) = order_by e
run_option (limit_option n) = limit n
run_option (offset_option n) = offset n
