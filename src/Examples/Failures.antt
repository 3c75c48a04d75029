-- ===== src/Examples/Failures.antt =====
-- An error that is wrapped, joined and typed, and the kinds by which it is known.
use dorm.Prelude.{[], ◌≡◌, refl, txt, join}
use dorm.Errors.{Kind, Error, Details, wrap, error_text, detailed_by}

abbrev refused : Error
refused = Error.context (txt "BeforeCreate(User)") (
    detailed_by Kind.commit_failed (Details.transaction_error (txt "commit") (txt "sp_1"))
      (wrap Kind.runtime_query [] (Error.external (txt "closed"))))

refused_text :
    error_text refused
    ≡ txt
        "BeforeCreate(User): transaction error: operation=commit: savepoint=sp_1: runtime_query: closed"
unfolding error_text join
refused_text = refl
