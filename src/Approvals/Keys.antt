-- ===== src/Approvals/Keys.antt =====
-- The rows of `approvals` by their primary key, through the updates.
use vyaparaflowai.Prelude.{
  same_key-eq, ℕ, ◌≡◌, ◌≢◌, refl, sym, subst, ap, ◌∙◌, inl, inr, Bool, true, false, List, [], ◌∷◌,
  ◌++◌, arith, if◌then◌else◌, All, Pairwise, In, Bool-cases,
}
use vyaparaflowai.Errors.{ok}
use vyaparaflowai.Approvals.Chain.{Approval, is_open, update_where, has_id}
use vyaparaflowai.Approvals.Decisions.{get_approval}
use vyaparaflowai.Approvals.Gate.{get_approval-In}

-- The primary key of the table.
abbrev pub UniqueIds : List Approval → Type 0
UniqueIds rows = Pairwise (λ (a b : Approval). a.id ≢ b.id) rows

pub In-update_where :
    (test : Approval → Bool) (change : Approval → Approval) (rows : List Approval) (row : Approval)
    → In row rows
    → test row ≡ false
    → In row (update_where test change rows)
unfolding update_where
In-update_where test change [] row m h = m
In-update_where test change (x ∷ rows) row (inl e) h =
    inl (subst (λ r. (if test r then change r else r) ≡ row) (sym e) (rw h refl))
In-update_where test change (x ∷ rows) row (inr m) h =
    inr (In-update_where test change rows row m h)

pub In-append : (xs ys : List Approval) (row : Approval) → In row xs → In row (xs ++ ys)
In-append [] ys row m = absurd m
In-append (x ∷ xs) ys row (inl e) = inl e
In-append (x ∷ xs) ys row (inr m) = inr (In-append xs ys row m)

All-id-update_where :
    (id : ℕ) (test : Approval → Bool) (change : Approval → Approval)
    → ((r : Approval) → (change r).id ≡ r.id)
    → (rows : List Approval) → All (λ (r : Approval). id ≢ r.id) rows
    → All (λ (r : Approval). id ≢ r.id) (update_where test change rows)
unfolding update_where
All-id-update_where id test change keeps [] h = tt
All-id-update_where id test change keeps (x ∷ rows) h = (
  elim (Bool-cases (test x)) [ inl e ↦ rw e (λ same. h.0 (same ∙ keeps x)) | inr e ↦ rw e h.0 ],
  All-id-update_where id test change keeps rows h.1,
)

pub UniqueIds-update_where :
    (test : Approval → Bool) (change : Approval → Approval)
    → ((r : Approval) → (change r).id ≡ r.id)
    → (rows : List Approval) → UniqueIds rows
    → UniqueIds (update_where test change rows)
unfolding update_where
UniqueIds-update_where test change keeps [] h = tt
UniqueIds-update_where test change keeps (x ∷ rows) h =
    let rest = UniqueIds-update_where test change keeps rows h.1 in
    let apart = All-id-update_where x.id test change keeps rows h.0 in
    elim (Bool-cases (test x)) [
      | inl e ↦ rw e (
        subst (λ id. All (λ (r : Approval). id ≢ r.id) (update_where test change rows))
            (sym (keeps x)) apart,
        rest,
      )
      | inr e ↦ rw e (apart, rest)
    ]

-- A settled row has not the id of an open one.
pub settled_elsewhere :
    (rows : List Approval) (org_id id : ℕ) (found row : Approval)
    → UniqueIds rows
    → get_approval org_id id rows ≡ ok found
    → is_open found.status ≡ true
    → In row rows
    → is_open row.status ≡ false
    → has_id id row ≡ false
settled_elsewhere rows org_id id found row unique at_id open_ m closed =
    let (mf, same_id, _) = get_approval-In org_id id rows found at_id in
    elim (Bool-cases (has_id id row)) [
      | inr e ↦ e
      | inl e ↦
          let eq : found ≡ row =
            same_key-eq (λ (r : Approval). r.id) rows found row unique mf m
              (ground (arith, same_id, e)) in
          let clash : true ≡ false =
            sym open_ ∙ ap (λ (r : Approval). is_open r.status) eq ∙ closed in
          cc
    ]

-- A row of the table after an update was there before, changed or not.
pub update_where-In :
    (test : Approval → Bool) (change : Approval → Approval) (rows : List Approval) (row : Approval)
    → In row (update_where test change rows)
    → (old : Approval) × In old rows × ((if test old then change old else old) ≡ row)
unfolding update_where
update_where-In test change [] row m = absurd m
update_where-In test change (x ∷ rows) row (inl e) = (x, inl refl, e)
update_where-In test change (x ∷ rows) row (inr m) =
    let (old, old_in, eq) = update_where-In test change rows row m in (old, inr old_in, eq)

pub In-updated :
    (test : Approval → Bool) (change : Approval → Approval) (rows : List Approval) (row : Approval)
    → In row rows
    → test row ≡ true
    → In (change row) (update_where test change rows)
unfolding update_where
In-updated test change [] row m h = m
In-updated test change (x ∷ rows) row (inl e) h =
    inl (subst (λ r. (if test r then change r else r) ≡ change row) (sym e) (rw h refl))
In-updated test change (x ∷ rows) row (inr m) h = inr (In-updated test change rows row m h)
