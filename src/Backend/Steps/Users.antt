-- ===== src/Backend/Steps/Users.antt =====
-- An active admin remains along any sequence of steps.
use mathlib.Core.Path.{subst}
use mathlib.Core.Option.{some-injective}
use ai_finance_controller.Common.{
  ℕ, ◌≡◌, refl, sym, ◌∙◌, Bool, true, false, not, ◌&&◌, Option, none, some, arith, is_some,
  is_empty, if_elim, inl, inr,
}
use ai_finance_controller.Common.Text.{
  Text, text_eq, text_eq_refl, strip, lower, or_empty, is_blank,
}
use ai_finance_controller.Common.Keys.{text_cases}
use ai_finance_controller.Domain.Enums.{UserRole, admin}
use ai_finance_controller.Backend.Store.{
  User, Accounts, add_audit, new_user, get_user, find_user_by_email, update_user_role,
  set_user_active, revoke_family, find_refresh,
}
use ai_finance_controller.Backend.Auth.{Crypto, Settings}
use ai_finance_controller.Backend.Access.{same_role}
use ai_finance_controller.Backend.Sessions.{Fresh, UserDto, family_of, revoke_found, logout}
use ai_finance_controller.Backend.Users.{
  Reply, Demo, Draw, change_role, set_found_role, set_user_role, switch_off, deactivate_found,
  deactivate_user, seed_one, promote, bootstrap_admin,
}
use ai_finance_controller.Backend.Users.Managed.{
  IsIndexed, is_active_admin, SameUsers, update_user_role-IsIndexed, set_user_active-IsIndexed,
  update_user_role-has_admin, set_user_active-has_admin, promoted-has_admin,
}
use ai_finance_controller.Backend.Users.Admitted.{IsSignedIn, as_admin-keeps}
use ai_finance_controller.Backend.Steps.{
  Step, registers, logs_in, refreshes, logs_out, creates, sets_role, deactivates, seeds, bootstraps,
  Reach, here, after,
}
use ai_finance_controller.Backend.Steps.Managed.{
  IsManaged, IsManaged-same, IsManaged-new, refresh-IsManaged, register-IsManaged, login-IsManaged,
  create_user_as_admin-IsManaged,
}

revoke_found-SameUsers :
    (o : Option Text) (now : ℕ) (s : Accounts) → SameUsers s (revoke_found o now s)
unfolding revoke_family
revoke_found-SameUsers none now s = refl
revoke_found-SameUsers (some f) now s = refl

logout-IsManaged :
    (c : Crypto) (now : ℕ) (cookie : Option Text) (s : Accounts)
    → IsManaged s
    → IsManaged (logout c now cookie s).accounts
unfolding logout
logout-IsManaged c now cookie s h =
    if_elim IsManaged (is_blank cookie) (λ _. h)
      (λ _.
        IsManaged-same s _
          (revoke_found-SameUsers (family_of (find_refresh (c.digest (or_empty cookie)) s)) now s)
          h)

-- Two stored users with different ids stand at different keys.
keys_apart :
    (s : Accounts) (k j : Text) (t u : User)
    → IsIndexed s
    → get_user k s ≡ some t
    → get_user j s ≡ some u
    → text_eq t.user_id u.user_id ≡ false
    → text_eq k j ≡ false
keys_apart s k j t u i f g d = rw⁻¹ (i k t f, i j u g) d

module _ (now : ℕ) (fresh : Fresh) (s : Accounts) (h : IsManaged s) where
  switch_off-IsManaged :
      (k j : Text) (t u : User)
      → text_eq k j ≡ false
      → get_user j s ≡ some u
      → is_active_admin u ≡ true
      → IsManaged (switch_off now fresh k t u s).accounts
  unfolding switch_off add_audit
  switch_off-IsManaged k j t u d g a =
      IsManaged-same (set_user_active k false s) _ refl
        (set_user_active-IsIndexed k false s h.0, set_user_active-has_admin k j false u s d g a)

  deactivate_found-IsManaged :
      (k : Text) (o : Option User) (u : User)
      → get_user k s ≡ o
      → IsSignedIn s u
      → is_active_admin u ≡ true
      → IsManaged (deactivate_found now fresh k o u s).accounts
  unfolding deactivate_found
  deactivate_found-IsManaged k none u f g a = h
  deactivate_found-IsManaged k (some t) u f (j, g, _) a =
      if_elim (λ (o : Reply UserDto). IsManaged o.accounts) (text_eq t.user_id u.user_id) (λ _. h)
        (λ d.
          if_elim (λ (o : Reply UserDto). IsManaged o.accounts) (not t.is_active) (λ _. h)
            (λ _. switch_off-IsManaged k j t u (keys_apart s k j t u h.0 f g d) g a))

  deactivate_user-IsManaged :
      (k : Text) (u : User)
      → IsSignedIn s u
      → is_active_admin u ≡ true
      → IsManaged (deactivate_user now fresh k u s).accounts
  unfolding deactivate_user
  deactivate_user-IsManaged k u g a = deactivate_found-IsManaged k (get_user k s) u refl g a

  change_role-IsManaged :
      (k j : Text) (role : UserRole) (t u : User)
      → text_eq k j ≡ false
      → get_user j s ≡ some u
      → is_active_admin u ≡ true
      → IsManaged (change_role now fresh k t role u s).accounts
  unfolding change_role add_audit
  change_role-IsManaged k j role t u d g a =
      IsManaged-same (update_user_role k role s) _ refl
        (update_user_role-IsIndexed k role s h.0, update_user_role-has_admin k j role u s d g a)

  -- Where neither guard nor the no-op applies, the target is not the actor.
  role_target_apart :
      (k j : Text) (role : UserRole) (t u : User)
      → get_user k s ≡ some t
      → get_user j s ≡ some u
      → (text_eq t.user_id u.user_id && not (same_role role u.role)) ≡ false
      → same_role t.role role ≡ false
      → text_eq k j ≡ false
  role_target_apart k j role t u f g d e = elim (text_cases k j) [
    | inl q ↦
        let same : t ≡ u = some-injective _ _ (sym f ∙ rw q g) in
        let d' =
          subst (λ v. (text_eq v.user_id u.user_id && not (same_role role u.role)) ≡ false) same
            d in
        let e' = subst (λ (v : User). same_role v.role role ≡ false) same e in
        absurd (ground (arith, d', e', text_eq_refl u.user_id))
    | inr q ↦ q
  ]

  set_found_role-IsManaged :
      (k : Text) (o : Option User) (role : UserRole) (u : User)
      → get_user k s ≡ o
      → IsSignedIn s u
      → is_active_admin u ≡ true
      → IsManaged (set_found_role now fresh k o role u s).accounts
  unfolding set_found_role
  set_found_role-IsManaged k none role u f g a = h
  set_found_role-IsManaged k (some t) role u f (j, g, _) a =
      if_elim (λ (o : Reply UserDto). IsManaged o.accounts)
        (text_eq t.user_id u.user_id && not (same_role role u.role)) (λ _. h)
        (λ d.
          if_elim (λ (o : Reply UserDto). IsManaged o.accounts) (same_role t.role role) (λ _. h)
            (λ e. change_role-IsManaged k j role t u (role_target_apart k j role t u f g d e) g a))

  set_user_role-IsManaged :
      (k : Text) (role : UserRole) (u : User)
      → IsSignedIn s u
      → is_active_admin u ≡ true
      → IsManaged (set_user_role now fresh k role u s).accounts
  unfolding set_user_role
  set_user_role-IsManaged k role u g a = set_found_role-IsManaged k (get_user k s) role u refl g a

module _ (settings : Settings) (now : ℕ) (s : Accounts) (h : IsManaged s) where
  seed_one-IsManaged :
      (c : Crypto) (draw : Draw) (d : Demo)
      → get_user draw.user_id s ≡ none
      → IsManaged (seed_one c settings now draw d s).0
  unfolding seed_one new_user
  seed_one-IsManaged c draw d n =
      if_elim (λ (o : Accounts × Bool). IsManaged o.0) (is_some (find_user_by_email d.email s))
        (λ _. h) (λ _. IsManaged-new _ s n h)

  promote-IsManaged :
      (event_id email : Text) (o : Option User) → IsManaged (promote now event_id email o s).0
  unfolding promote add_audit
  promote-IsManaged event_id email none = h
  promote-IsManaged event_id email (some u) =
      if_elim (λ (o : Accounts × Option Text). IsManaged o.0) (same_role u.role admin) (λ _. h)
        (λ _.
          IsManaged-same (update_user_role u.user_id admin s) _ refl
            (update_user_role-IsIndexed u.user_id admin s h.0, promoted-has_admin u.user_id s h.1))

  bootstrap_admin-IsManaged :
      (event_id : Text) → IsManaged (bootstrap_admin settings now event_id s).0
  unfolding bootstrap_admin
  bootstrap_admin-IsManaged event_id =
      if_elim (λ (o : Accounts × Option Text). IsManaged o.0)
        (is_empty (lower (strip (or_empty settings.bootstrap_admin_email)))) (λ _. h)
        (λ _. promote-IsManaged event_id _ (find_user_by_email _ s))

module _ (c : Crypto) (settings : Settings) where
  Step-IsManaged : (s r : Accounts) → Step c settings s r → IsManaged s → IsManaged r
  Step-IsManaged s r (registers now fresh email password full_name n e) h =
      subst IsManaged (sym e)
        (register-IsManaged c settings now fresh email password full_name s n.new_id h)
  Step-IsManaged s r (logs_in now fresh email password n e) h =
      subst IsManaged (sym e) (login-IsManaged c settings now fresh email password s h)
  Step-IsManaged s r (refreshes now fresh cookie n e) h =
      subst IsManaged (sym e) (refresh-IsManaged c settings now fresh cookie s h)
  Step-IsManaged s r (logs_out now cookie e) h =
      subst IsManaged (sym e) (logout-IsManaged c now cookie s h)
  Step-IsManaged s r (creates now fresh email password full_name role authorization n e) h =
      subst IsManaged (sym e) (
        as_admin-keeps IsManaged c now _ authorization s h (λ u _ _.
          create_user_as_admin-IsManaged c settings now fresh email password full_name role u s
            n.new_id h))
  Step-IsManaged s r (sets_role now fresh user_id role authorization e) h =
      subst IsManaged (sym e) (
        as_admin-keeps IsManaged c now _ authorization s h
          (λ u g a. set_user_role-IsManaged now fresh s h user_id role u g a))
  Step-IsManaged s r (deactivates now fresh user_id authorization e) h = subst IsManaged (sym e) (
      as_admin-keeps IsManaged c now _ authorization s h
        (λ u g a. deactivate_user-IsManaged now fresh s h user_id u g a))
  Step-IsManaged s r (seeds now draw d n e) h =
      subst IsManaged (sym e) (seed_one-IsManaged settings now s h c draw d n)
  Step-IsManaged s r (bootstraps now event_id e) h =
      subst IsManaged (sym e) (bootstrap_admin-IsManaged settings now s h event_id)

  -- Once the store has an active admin, with every user stored at its id, it has one after any
  -- registrations, logins, refreshes, logouts, changes of users by admins, seeds and promotions in
  -- which no id is drawn twice: no handler demotes or deactivates the last one.
  pub Reach-IsManaged : (s r : Accounts) → Reach c settings s r → IsManaged s → IsManaged r
  Reach-IsManaged s _ here h = h
  Reach-IsManaged s _ (after m r w t) h = Step-IsManaged m r t (Reach-IsManaged s m w h)
