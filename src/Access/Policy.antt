-- ===== src/Access/Policy.antt =====
-- access/policy.go and access/context.go: the policy levels and the access context.
-- A `context.Context` is what `FromContext` finds in it: the access context, or nothing. A nil
-- parent of `WithPolicy` is replaced by an empty context there, so it is `none` too.
use dorm.Prelude.{
  Bool, true, false, not, Option, none, some, List, [], ◌++◌, ◌≡◌, refl, arith, Text, txt,
}
use dorm.Value.{Any}
use dorm.Schema.Types.{ScopeKind, company}

-- `level_default` and its companions are the named constants, `empty` is "".
pub data PolicyLevel : Type 0 where
  empty level_default level_ignore_company level_ignore_rls level_system : PolicyLevel
  other : Text → PolicyLevel

pub record Policy : Type 0 where
  pub level : PolicyLevel

pub record Context : Type 0 where
  pub user_id : Any
  pub company_id : Any
  pub tenant_id : Any
  pub organization_id : Any
  pub workspace_id : Any
  pub warehouse_id : Any
  pub values : List (Text × Any)
  pub policy : Policy

abbrev pub default : Policy
default = record { level = level_default }

abbrev pub ignore_company : Policy
ignore_company = record { level = level_ignore_company }

abbrev ignore_rls : Policy
ignore_rls = record { level = level_ignore_rls }

abbrev pub system : Policy
system = record { level = level_system }

normalize_level : PolicyLevel → Policy → Policy
normalize_level empty p = default
normalize_level _ p = p

unfoldable pub normalize : Policy → Policy
unfolding normalize_level
normalize p = normalize_level p.level p

level_text : PolicyLevel → Text
level_text empty = []
level_text level_default = txt "default"
level_text level_ignore_company = txt "ignore_company"
level_text level_ignore_rls = txt "ignore_rls"
level_text level_system = txt "system"
level_text (other t) = t

unfoldable pub policy_name : Policy → Text
unfolding normalize level_text
policy_name p = txt "policy." ++ level_text (normalize p).level

is_level_system : PolicyLevel → Bool
is_level_system level_system = true
is_level_system _ = false

is_level_default : PolicyLevel → Bool
is_level_default level_default = true
is_level_default _ = false

unfoldable pub is_default : Policy → Bool
unfolding normalize is_level_default
is_default p = is_level_default (normalize p).level

unfoldable pub is_system : Policy → Bool
unfolding normalize is_level_system
is_system p = is_level_system (normalize p).level

unfoldable pub enforces_soft_delete : Policy → Bool
unfolding is_system
enforces_soft_delete p = not (is_system p)

unfoldable pub enforces_audit : Policy → Bool
unfolding is_system
enforces_audit p = not (is_system p)

is_not_company : ScopeKind → Bool
is_not_company company = false
is_not_company _ = true

level_allows : PolicyLevel → ScopeKind → Bool
unfolding is_not_company
level_allows level_default s = true
level_allows level_ignore_company s = is_not_company s
level_allows level_ignore_rls s = false
level_allows level_system s = false
level_allows _ s = true

unfoldable pub allows_scope : Policy → ScopeKind → Bool
unfolding normalize level_allows
allows_scope p s = level_allows (normalize p).level s

abbrev pub Ctx : Type 0
Ctx = Option Context

abbrev pub empty_context : Context
empty_context = record {
  user_id = none;
  company_id = none;
  tenant_id = none;
  organization_id = none;
  workspace_id = none;
  warehouse_id = none;
  values = [];
  policy = record { level = empty };
}

with_context : Ctx → Context → Ctx
with_context parent value = some value

-- The value, and the zero context where there is none.
unfoldable pub from_context : Ctx → Context × Bool
from_context none = (empty_context, false)
from_context (some ac) = (ac, true)

unfoldable pub with_policy : Ctx → Policy → Ctx
unfolding from_context with_context normalize
with_policy parent policy =
    with_context parent (record (from_context parent).0 { policy = normalize policy })

unfoldable pub policy_from_context : Ctx → Policy
unfolding from_context normalize
policy_from_context ctx = normalize (from_context ctx).0.policy

-- Normalising twice is normalising once.
normalize_idem : (p : Policy) → normalize (normalize p) ≡ normalize p
unfolding normalize
normalize_idem p = ground arith

-- The policy that `with_policy` sets, normalised, is the one that later calls read, and the
-- identities of the context are those of the parent.
pub policy_from_context-with_policy :
    (ctx : Ctx) (p : Policy)
    → let ac = (from_context (with_policy ctx p)).0 in
      let was = (from_context ctx).0 in
      (policy_from_context (with_policy ctx p) ≡ normalize p)
      × (ac.user_id ≡ was.user_id)
      × (ac.company_id ≡ was.company_id)
      × (ac.tenant_id ≡ was.tenant_id)
      × (ac.organization_id ≡ was.organization_id)
      × (ac.workspace_id ≡ was.workspace_id)
      × (ac.warehouse_id ≡ was.warehouse_id)
unfolding with_policy policy_from_context from_context with_context
policy_from_context-with_policy ctx p = (normalize_idem p, refl, refl, refl, refl, refl, refl)

-- A policy that lets some scope through enforces the audit fields and soft deletion.
pub allows_scope-not_system :
    (p : Policy) (s : ScopeKind) → allows_scope p s ≡ true → is_system p ≡ false
unfolding allows_scope is_system
allows_scope-not_system p s h = ground arith
