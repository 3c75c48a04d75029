-- ===== src/Driver/Postgres/Registration.antt =====
-- The registration of the driver's name with database/sql.
use dorm.Prelude.{
  ℕ, ◌+◌, ◌≤◌, true, false, List, [], ◌∷◌, ◌≡◌, refl, ap, arith, Text, text_eq, text_eq_iff,
  text_eq_refl, trim, is_nil, Bool-cases, inl, inr, if◌then◌else◌,
}
use dorm.Driver.Postgres.{DriverRegistry, default_driver_name, is_listed, ensure_registered}

unfoldable pub times : Text → List Text → ℕ
unfolding text_eq
times k [] = 0
times k (n ∷ ns) = (if text_eq n k then 1 else 0) + times k ns

-- What is marked as registered is registered, and no name is registered twice, on which database/sql
-- panics.
pub record IsRegistered (r : DriverRegistry) : Type 0 where
  pub held : (n : Text) → is_listed r.registered n ≡ true → is_listed r.drivers n ≡ true
  pub once : (n : Text) → times n r.drivers ≤ 1

times-is_listed : (n : Text) (ns : List Text) → is_listed ns n ≡ false → times n ns ≡ 0
unfolding times is_listed
times-is_listed n [] h = refl
times-is_listed n (m ∷ ns) h = ground (arith, times-is_listed n ns, h)

-- Whatever the name: ensuring that it is registered keeps what is marked registered and every name
-- registered once, and afterwards the name, without the space around it and the default where it is
-- blank, is registered.
pub ensure_registered-IsRegistered :
    (given : Text) (r : DriverRegistry)
    → IsRegistered r
    → let name = if is_nil (trim given) then default_driver_name else trim given in
      IsRegistered (ensure_registered given r)
      × (is_listed (ensure_registered given r).drivers name ≡ true)
unfolding ensure_registered is_listed times
ensure_registered-IsRegistered given r h =
    by (if is_nil (trim given) then default_driver_name else trim given)
  where
    stored : Text → DriverRegistry
    stored name = record r { registered = name ∷ r.registered }

    outcome : Text → DriverRegistry
    outcome name =
        if is_listed r.registered name
        then r
        else if is_listed r.drivers name
        then stored name
        else record (stored name) { drivers = name ∷ r.drivers }

    by :
        (name : Text) → IsRegistered (outcome name) × (is_listed (outcome name).drivers name ≡ true)
    by name = elim (Bool-cases (is_listed r.registered name)) [
      | inl known ↦ rw known (h, h.held name known)
      | inr new ↦ elim (Bool-cases (is_listed r.drivers name)) [
        | inl there_ ↦
            rw (new, there_)
              (
                record {
                  held = λ n e. elim (Bool-cases (text_eq name n)) [
                    | inl same ↦ let it = (text_eq_iff name n).0 same in rw (← it) there_
                    | inr other ↦ h.held n (ground (arith, e, other))
                  ];
                  once = h.once;
                },
                there_,
              )
        | inr absent ↦
            rw (new, absent)
              (
                record {
                  held = λ n e. elim (Bool-cases (text_eq name n)) [
                    | inl same ↦ rw same refl
                    | inr other ↦ rw other (h.held n (ground (arith, e, other)))
                  ];
                  once = λ n. elim (Bool-cases (text_eq name n)) [
                    | inl same ↦
                        let it = (text_eq_iff name n).0 same in
                        rw same (
                          omega (
                            arith,
                            times-is_listed name r.drivers absent,
                            ap (λ k. times k r.drivers) it,
                          ))
                    | inr other ↦ rw other (omega (arith, h.once n))
                  ];
                },
                rw (text_eq_refl name) refl,
              )
      ]
    ]
