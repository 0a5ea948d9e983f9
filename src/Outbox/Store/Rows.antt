-- ===== src/Outbox/Store/Rows.antt =====
-- Lemmas on `updateMany` over the rows of the task outbox.
use oculus_business.Common.{
  inl, inr, Bool-cases, Bool, true, false, ◌≡◌, ◌≢◌, refl, [], ◌∷◌, All, Has, arith,
}
use oculus_business.Outbox.Store.{TaskRow, Table, update_where}

-- No two rows share an identifier.
abbrev pub UniqueIds : Table → Type 0
UniqueIds [] = Unit
UniqueIds (r ∷ t) = All (λ (x : TaskRow). x.id ≢ r.id) t × UniqueIds t

module _ (p : TaskRow → Bool) (f : TaskRow → TaskRow) where
  -- A condition that no row meets changes nothing.
  pub update_where_none : (t : Table) → All (λ r. p r ≡ false) t → update_where p f t ≡ (t, 0)
  unfolding update_where
  update_where_none [] h = refl
  update_where_none (r ∷ t) h = ground (arith, update_where_none t h.1)

  -- What holds of all rows and is kept by the change of a matching row holds after it.
  pub All-update_where :
      (P : TaskRow → Type 0) (t : Table)
      → ((r : TaskRow) → P r → p r ≡ true → P (f r))
      → All P t
      → All P (update_where p f t).0
  unfolding update_where
  All-update_where P [] keep h = tt
  All-update_where P (r ∷ t) keep h = ground (arith, All-update_where P t keep h.1, keep r h.0)

  pub UniqueIds-update_where :
      (t : Table)
      → ((r : TaskRow) → (f r).id ≡ r.id)
      → UniqueIds t
      → UniqueIds (update_where p f t).0
  unfolding update_where
  UniqueIds-update_where [] same u = tt
  UniqueIds-update_where (r ∷ t) same u =
      let rest = UniqueIds-update_where t same u.1 in
      let apart = All-update_where (λ x. x.id ≢ r.id) t (λ x h e. rw (same x) h) u.0 in
      elim (Bool-cases (p r)) [
        | inl e ↦ rw e (rw (same r) apart, rest)
        | inr e ↦ rw e (apart, rest)
      ]

  -- A row that does not match is still there.
  pub Has-update_where :
      (x : TaskRow) (t : Table) → Has x t → p x ≡ false → Has x (update_where p f t).0
  unfolding update_where
  Has-update_where x [] h e = h
  Has-update_where x (r ∷ t) h e = ground (arith, Has-update_where x t)
