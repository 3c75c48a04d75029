-- ===== src/Errors/Matching.antt =====
-- `errors.Is` against the list of the kinds of an error and of its causes.
use dorm.Prelude.{Bool, ◌||◌, List, [], ◌∷◌, ◌++◌, any, ◌≡◌, refl, arith}
use dorm.Errors.{
  Kind, invalid_context, missing_company, policy_denied, access_violation, Error, new, wrap, typed,
  join, context, external, same_kind, is_missing_context, is_context_kind, is, kind_text,
  missing_context_error,
}

-- The kinds by which an error is known, its own first, then those of its causes.
unfoldable pub kinds : Error → List Kind
unfolding is_missing_context
kinds (new k m) = k ∷ []
kinds (wrap k m e) = k ∷ kinds e
kinds (typed (missing_context_error o f r) b) =
    invalid_context ∷ missing_company ∷ policy_denied ∷ access_violation ∷ kinds b
kinds (typed d b) = kinds b
kinds (join a b) = kinds a ++ kinds b
kinds (context m e) = kinds e
kinds (external m) = []

any-append :
    {A : Type 0} (p : A → Bool) (xs ys : List A) → any p (xs ++ ys) ≡ (any p xs || any p ys)
any-append p [] ys = refl
any-append p (x ∷ xs) ys = ground (arith, any-append p xs ys)

is_context_kind_lem :
    (t : Kind)
    → is_context_kind t
      ≡ any
          (λ k. same_kind k t)
          (invalid_context ∷ missing_company ∷ policy_denied ∷ access_violation ∷ [])
unfolding is_context_kind same_kind kind_text
is_context_kind_lem t = ground arith

pub is_kinds : (e : Error) (t : Kind) → is e t ≡ any (λ k. same_kind k t) (kinds e)
unfolding is kinds is_missing_context
is_kinds (new k m) t = ground arith
is_kinds (wrap k m e) t = ground (arith, is_kinds e t)
is_kinds (typed (missing_context_error o f r) b) t =
    ground (arith, is_context_kind_lem t, is_kinds b t)
is_kinds (typed _ b) t = is_kinds b t
is_kinds (join a b) t =
    ground (arith, is_kinds a t, is_kinds b t, any-append (λ k. same_kind k t) (kinds a) (kinds b))
is_kinds (context m e) t = is_kinds e t
is_kinds (external m) t = refl
