-- ===== src/Purchase/Lookup.antt =====
-- What the look-up of a row by its key gives.
use vyaparaflowai.Prelude.{
  ℕ, ◌≡◌, refl, subst, inl, inr, List, arith, ◌==◌, find, find-In, In, Bool-cases, Option-cases,
}
use vyaparaflowai.Errors.{ok, err, not_found, IsHandled, answered, refused, ok-inj}
use vyaparaflowai.Purchase.Tables.{get_owned}

module _ {A : Type 0} (id_of org_of : A → ℕ) (org_id id : ℕ) (rows : List A) where
  pub get_owned-IsHandled : IsHandled (get_owned id_of org_of org_id id rows)
  unfolding get_owned
  get_owned-IsHandled = elim (Option-cases (find (λ row. id_of row == id) rows)) [
    | inl e ↦ refused not_found (rw (get_owned, e) refl) tt
    | inr (row, e) ↦ elim (Bool-cases (org_of row == org_id)) [
      | inl own ↦ answered row (rw (get_owned, e, own) refl)
      | inr other ↦ refused not_found (rw (get_owned, e, other) refl) tt
    ]
  ]

  -- The row that is found has the key, and is the organization's.
  pub get_owned-In :
      (row : A)
      → get_owned id_of org_of org_id id rows ≡ ok row
      → In row rows × (id_of row ≡ id) × (org_of row ≡ org_id)
  unfolding get_owned
  get_owned-In row h = elim (Option-cases (find (λ r. id_of r == id) rows)) [
    | inl e ↦ let none_found : err not_found ≡ ok row = rw (get_owned, e) at h in cc
    | inr (found, e) ↦ elim (Bool-cases (org_of found == org_id)) [
      | inr other ↦ let refused : err not_found ≡ ok row = rw (get_owned, e, other) at h in cc
      | inl own ↦
          let same : ok found ≡ ok row = rw (get_owned, e, own) at h in
          let (m, key) = find-In (λ r. id_of r == id) rows found e in
          subst (λ r. In r rows × (id_of r ≡ id) × (org_of r ≡ org_id)) (ok-inj same)
            (m, ground (arith, key), ground (arith, own))
    ]
  ]
