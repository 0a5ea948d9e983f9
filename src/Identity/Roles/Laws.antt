-- ===== src/Identity/Roles/Laws.antt =====
-- What a change of role guarantees (`updateRole`, backend/src/modules/users).
use mathlib.Core.Path.{subst}
use oculus_business.Common.{
  ℕ, true, false, not, ◌&&◌, ◌==◌, Option, none, some, List, [], ◌∷◌, find, any, leb, ◌≡◌, ◌≢◌, ◌⊎◌,
  inl, inr, refl, arith, Has, Bool-cases, ==_iff, if◌then◌else◌,
}
use oculus_business.Identity.{User, Role, user, admin, same_role}
use oculus_business.Common.Rows.{find-Has, Has-update_many, Has-update_many_changed}
use oculus_business.Identity.Reset.{Accounts}
use oculus_business.Identity.Reset.Laws.{
  IsSignedOut, IsTokenFree, revoke_sessions_of-IsSignedOut, use_tokens_of-IsTokenFree,
}
use oculus_business.Identity.Roles.{
  rejected, admin_required, has_id, is_admin, is_admin_row, set_role, apply_role, update_role_of,
  update_role_found, update_role, admin_count,
}

Has-any : (u : User) (t : List User) → Has u t → is_admin u ≡ true → any is_admin t ≡ true
Has-any u [] m h = elim m [ ]
Has-any u (x ∷ t) m h = ground (arith, Has-any u t)

-- The acting administrator is still one after the role of another, or of himself to admin, is set.
actor_stays :
    (actor : User) (id : ℕ) (role : Role) (t : List User)
    → Has actor t
    → is_admin actor ≡ true
    → (id == actor.id && not (same_role role admin)) ≡ false
    → any is_admin (set_role id role t) ≡ true
unfolding set_role
actor_stays actor id role t m h guard = elim (Bool-cases (actor.id == id)) [
  | inl e ↦
      Has-any (record actor { role = role }) _
        (Has-update_many_changed (has_id id) (λ (u : User). record u { role = role }) actor t m e)
        (ground arith)
  | inr e ↦ Has-any actor _ (Has-update_many (has_id id) _ actor t m e) h
]

-- A change that was carried out.
abbrev pub IsRoleChange : ℕ → ℕ → Role → Accounts → Accounts → Type 0
IsRoleChange actor_id target_id role a a' =
    ((actor : User) × Has actor a.users × (actor.id ≡ actor_id) × (is_admin actor ≡ true))
    × (any is_admin a'.users ≡ true)
    × IsSignedOut target_id a'.sessions
    × IsTokenFree target_id a'.reset_tokens
    × ((target_id ≢ actor_id) ⊎ (same_role role admin ≡ true))

module _ (actor_id : ℕ) (role : Role) (now : ℕ) (a : Accounts) where
  apply_role-IsRoleChange :
      (actor : User) (id : ℕ)
      → Has actor a.users
      → actor.id ≡ actor_id
      → is_admin actor ≡ true
      → (id == actor_id && not (same_role role admin)) ≡ false
      → IsRoleChange actor_id id role a (apply_role id role now a)
  unfolding apply_role
  apply_role-IsRoleChange actor id m e h guard = (
    (actor, m, e, h),
    actor_stays actor id role a.users m h (ground arith),
    revoke_sessions_of-IsSignedOut now id a.sessions,
    use_tokens_of-IsTokenFree now id a.reset_tokens,
    ground arith,
  )

  update_role_of-cases :
      (actor target : User)
      → Has actor a.users
      → actor.id ≡ actor_id
      → is_admin actor ≡ true
      → let r = update_role_of actor_id target role now a in
        (r.0 ≡ a) ⊎ IsRoleChange actor_id target.id role a r.0
  unfolding update_role_of
  update_role_of-cases actor target m e h = elim (Bool-cases (same_role target.role role)) [
    | inl p ↦ rw p (inl refl)
    | inr p ↦ elim (Bool-cases (target.id == actor_id && not (same_role role admin))) [
      | inl q ↦ rw (p, q) (inl refl)
      | inr q ↦
          elim (Bool-cases
            (is_admin target && same_role role user && leb (admin_count a.users) 1)) [
              | inl s ↦ rw (p, q, s) (inl refl)
              | inr s ↦ rw (p, q, s) (inr (apply_role-IsRoleChange actor target.id m e h q))
            ]
    ]
  ]

  update_role_found-cases :
      (actor : User) (target_id : ℕ) (o : Option User)
      → find (has_id target_id) a.users ≡ o
      → Has actor a.users
      → actor.id ≡ actor_id
      → is_admin actor ≡ true
      → let r = update_role_found actor_id o role now a in
        (r.0 ≡ a) ⊎ IsRoleChange actor_id target_id role a r.0
  update_role_found-cases actor target_id none q m e h = inl refl
  update_role_found-cases actor target_id (some u) q m e h =
      let (_, p) = find-Has (has_id target_id) u a.users q in
      subst
        (λ id.
          let r = update_role_found actor_id (some u) role now a in
          (r.0 ≡ a) ⊎ IsRoleChange actor_id id role a r.0)
        ((==_iff u.id target_id).0 p) (update_role_of-cases actor u m e h)

  acting-cases :
      (target_id : ℕ) (o : Option User)
      → find (has_id actor_id) a.users ≡ o
      → let r =
          if is_admin_row o
          then update_role_found actor_id (find (has_id target_id) a.users) role now a
          else (a, rejected admin_required) in
        (r.0 ≡ a) ⊎ IsRoleChange actor_id target_id role a r.0
  acting-cases target_id none q = inl refl
  acting-cases target_id (some x) q =
      let (m, p) = find-Has (has_id actor_id) x a.users q in
      elim (Bool-cases (is_admin x)) [
        | inl e ↦ rw e (update_role_found-cases x target_id _ refl m ((==_iff x.id actor_id).0 p) e)
        | inr e ↦ rw e (inl refl)
      ]

  -- A change of role changes nothing, or it was asked for by an administrator, who does not take
  -- the role from himself; then at least one administrator is left, and the user has no open
  -- session and no unused reset token.
  pub update_role-IsRoleChange :
      (target_id : ℕ)
      → let r = update_role actor_id target_id role now a in
        (r.0 ≡ a) ⊎ IsRoleChange actor_id target_id role a r.0
  unfolding update_role
  update_role-IsRoleChange target_id = acting-cases target_id _ refl
