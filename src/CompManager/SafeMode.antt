-- ===== src/CompManager/SafeMode.antt =====
-- Safe mode of comp_manager.cpp, and the displays that are on and that are configured.
use platform_hardware_qcom_d.Base.{
  ℕ, ◌≡◌, ◌≢◌, ◌≤◌, refl, sym, ◌∙◌, ap, Bool, true, false, some, List, arith, Bool-cases,
  Option-cases, inl, inr, ◌⊎◌, length, ◌==◌, if◌then◌else◌,
}
use platform_hardware_qcom_d.Base.Int.{ℤ}
use platform_hardware_qcom_d.Types.{
  DisplayState, state_off, state_on, state_doze, state_doze_suspend, state_standby, DisplayError,
}
use platform_hardware_qcom_d.Strategy.{Extension, purge}
use platform_hardware_qcom_d.CompManager.{
  ResourceInterface, CompManager, DisplayCompositionContext, contains, insert, erase, locked_run,
  display, on_resource, set_display,
}
use platform_hardware_qcom_d.CompManager.Keys.{
  Distinct, Within, contains-insert, contains-insert_old, insert-Distinct, contains-erase_self,
  contains-erase_ne, erase-Distinct, length-erase, length-insert, length-Within_all,
}
use platform_hardware_qcom_d.CompManager.Frames.{mark_configured, post_commit, purge_display}
use platform_hardware_qcom_d.CompManager.Power.{
  power_on, power_off, configured_off, set_display_state, switch_state, update_strategy_constraints,
  enter_state,
}

-- The tables that safe mode goes by: every configured display is on, and outside safe mode at most
-- one display is on or every display that is on is configured.
abbrev pub Settled : List ℕ → List ℕ → Bool → Type 0
Settled configured on safe =
    Distinct configured
    × Within configured on
    × (safe ≡ false → (length on ≤ 1) ⊎ Within on configured)

commit-Settled :
    (id : ℕ) (configured on : List ℕ) (safe : Bool)
    → contains id on ≡ true
    → Settled configured on safe
    → Settled
        (insert id configured)
        on
        (if length on == length (insert id configured) then false else safe)
commit-Settled id configured on safe there (d, w, open_mode) = (
  d',
  w',
  λ off. elim (Bool-cases (length on == length (insert id configured))) [
    | inl e ↦ inr (length-Within_all (insert id configured) on d' w' (ground arith))
    | inr e ↦ elim (open_mode (ground arith)) [
      | inl few ↦ inl few
      | inr all ↦ inr (λ k m. contains-insert_old k id configured (all k m))
    ]
  ],
)
  where
    d' : Distinct (insert id configured)
    d' = insert-Distinct id configured d

    w' : Within (insert id configured) on
    w' k m = elim (contains-insert k id configured m) [
      | inl same ↦ ap (λ z. contains z on) same ∙ there
      | inr old ↦ w k old
    ]

off-Settled :
    (id : ℕ) (configured on : List ℕ) (safe : Bool)
    → Settled configured on safe
    → Settled (erase id configured) (erase id on) safe
off-Settled id configured on safe (d, w, open_mode) = (
  erase-Distinct id configured d,
  within configured on w,
  λ off. elim (open_mode off) [
    | inl few ↦ inl (omega (arith, length-erase id on))
    | inr all ↦ inr (within on configured all)
  ],
)
  where
    within : (xs ys : List ℕ) → Within xs ys → Within (erase id xs) (erase id ys)
    within xs ys v k m = elim (Bool-cases (k == id)) [
      | inl e ↦ absurd (ground (arith, contains-erase_self id xs))
      | inr e ↦
          let ne : k ≢ id = λ same. ground arith in
          contains-erase_ne k id ys ne ∙ v k (sym (contains-erase_ne k id xs ne) ∙ m)
    ]

on-Settled :
    (id : ℕ) (configured on : List ℕ) (safe : Bool)
    → Settled configured on safe
    → Settled configured (insert id on) (if length on == 0 then safe else true)
on-Settled id configured on safe (d, w, open_mode) = (
  d,
  λ k m. contains-insert_old k id on (w k m),
  λ off. inl (elim (Bool-cases (length on == 0)) [
    | inl e ↦ let z : length on ≡ 0 = ground arith in omega (arith, z, length-insert id on)
    | inr e ↦ absurd (ground arith)
  ]),
)

module _ {F R X : Type 0} (ri : ResourceInterface F R) where
  post_commit-tables :
      (h : ℕ) (fd : ℤ) (s t : CompManager R X) (c : DisplayCompositionContext X) (e : DisplayError)
      → s.contexts h ≡ some c
      → post_commit ri h fd s ≡ some (e, t)
      → (t.configured_displays ≡ insert c.display_id s.configured_displays)
        × (t.powered_on_displays ≡ s.powered_on_displays)
        × (t.safe_mode ≡ (
            if length s.powered_on_displays == length (insert c.display_id s.configured_displays)
            then false
            else s.safe_mode))
  unfolding post_commit locked_run display on_resource mark_configured set_display
  post_commit-tables h fd s t c e known done = ground arith

  -- PostCommit of a display that is on, where it returns, keeps the tables settled: every
  -- configured display is on, and outside safe mode at most one display is on or all displays that
  -- are on are configured.
  pub post_commit-Settled :
      (h : ℕ) (fd : ℤ) (s t : CompManager R X) (c : DisplayCompositionContext X) (e : DisplayError)
      → s.contexts h ≡ some c
      → contains c.display_id s.powered_on_displays ≡ true
      → Settled s.configured_displays s.powered_on_displays s.safe_mode
      → post_commit ri h fd s ≡ some (e, t)
      → Settled t.configured_displays t.powered_on_displays t.safe_mode
  post_commit-Settled h fd s t c e known there settled done =
      let (x, y, z) = post_commit-tables h fd s t c e known done in
      rw (x, y, z)
        (commit-Settled c.display_id s.configured_displays s.powered_on_displays s.safe_mode there
          settled)

module _ {F R X : Type 0} (ri : ResourceInterface F R) (ext : Extension F X) where
  purge_display-tables :
      (h : ℕ) (s t : CompManager R X) (c : DisplayCompositionContext X)
      → s.contexts h ≡ some c
      → purge_display ri ext h s ≡ some (tt, t)
      → (t.configured_displays ≡ s.configured_displays)
        × (t.powered_on_displays ≡ s.powered_on_displays)
        × (t.safe_mode ≡ s.safe_mode)
        × (c' : DisplayCompositionContext X) × (t.contexts h ≡ some c')
        × (c'.display_id ≡ c.display_id)
  unfolding purge_display locked_run display on_resource set_display
  purge_display-tables h s t c known done = elim (Option-cases c.strategy) [
    | inl f ↦ absurd (ground arith)
    | inr (st, f) ↦ (
      ground arith,
      ground arith,
      ground arith,
      record c { strategy = some (purge ext st).1 },
      ground arith,
      refl,
    )
  ]

  state_on-tables :
      (h : ℕ) (fd : ℤ) (s t : CompManager R X) (c : DisplayCompositionContext X) (b : Bool)
      → s.contexts h ≡ some c
      → set_display_state ri ext state_on h c.display_id fd s ≡ some (b, t)
      → (t.configured_displays ≡ s.configured_displays)
        × (t.powered_on_displays ≡ insert c.display_id s.powered_on_displays)
        × (t.safe_mode ≡ (if length s.powered_on_displays == 0 then s.safe_mode else true))
  unfolding set_display_state switch_state enter_state configured_off power_off power_on display
      on_resource update_strategy_constraints
  state_on-tables h fd s t c b known done = (ground arith, ground arith, ground arith)

  state_doze-tables :
      (h : ℕ) (fd : ℤ) (s t : CompManager R X) (c : DisplayCompositionContext X) (b : Bool)
      → s.contexts h ≡ some c
      → set_display_state ri ext state_doze h c.display_id fd s ≡ some (b, t)
      → (t.configured_displays ≡ s.configured_displays)
        × (t.powered_on_displays ≡ insert c.display_id s.powered_on_displays)
        × (t.safe_mode ≡ (if length s.powered_on_displays == 0 then s.safe_mode else true))
  unfolding set_display_state switch_state enter_state configured_off power_off power_on display
      on_resource update_strategy_constraints
  state_doze-tables h fd s t c b known done = (ground arith, ground arith, ground arith)

  state_doze_suspend-tables :
      (h : ℕ) (fd : ℤ) (s t : CompManager R X) (c : DisplayCompositionContext X) (b : Bool)
      → s.contexts h ≡ some c
      → set_display_state ri ext state_doze_suspend h c.display_id fd s ≡ some (b, t)
      → (t.configured_displays ≡ erase c.display_id s.configured_displays)
        × (t.powered_on_displays ≡ erase c.display_id s.powered_on_displays)
        × (t.safe_mode ≡ s.safe_mode)
  unfolding set_display_state switch_state enter_state configured_off power_off power_on display
      on_resource update_strategy_constraints
  state_doze_suspend-tables h fd s t c b known done = (ground arith, ground arith, ground arith)

  state_standby-tables :
      (h : ℕ) (fd : ℤ) (s t : CompManager R X) (c : DisplayCompositionContext X) (b : Bool)
      → s.contexts h ≡ some c
      → set_display_state ri ext state_standby h c.display_id fd s ≡ some (b, t)
      → (t.configured_displays ≡ s.configured_displays)
        × (t.powered_on_displays ≡ s.powered_on_displays)
        × (t.safe_mode ≡ s.safe_mode)
  unfolding set_display_state switch_state enter_state configured_off power_off power_on display
      on_resource update_strategy_constraints
  state_standby-tables h fd s t c b known done = (ground arith, ground arith, ground arith)

  state_off-tables :
      (h : ℕ) (fd : ℤ) (s t : CompManager R X) (c : DisplayCompositionContext X) (b : Bool)
      → s.contexts h ≡ some c
      → set_display_state ri ext state_off h c.display_id fd s ≡ some (b, t)
      → (t.configured_displays ≡ erase c.display_id s.configured_displays)
        × (t.powered_on_displays ≡ erase c.display_id s.powered_on_displays)
        × (t.safe_mode ≡ s.safe_mode)
  unfolding set_display_state switch_state enter_state configured_off power_off power_on display
      on_resource update_strategy_constraints
  state_off-tables h fd s t c b known done =
      elim (Option-cases (
        purge_display ri ext h (record s {
          display_state = λ k. if c.display_id == k then some state_off else s.display_state k;
        }))) [
          | inl f ↦ absurd (ground arith)
          | inr ((tt, u), f) ↦
              let (x, y, z, c', at, same) =
                purge_display-tables h
                  (record s {
                    display_state =
                        λ k. if c.display_id == k then some state_off else s.display_state k;
                  })
                  u c known f in
              (ground arith, ground arith, ground arith)
        ]

  -- SetDisplayState for the id of the display whose handle it gets, where it returns, keeps the
  -- tables settled, for every state: every configured display is on, and outside safe mode at most
  -- one display is on or all displays that are on are configured.
  pub set_display_state-Settled :
      (state : DisplayState) (h : ℕ) (fd : ℤ) (s t : CompManager R X)
      (c : DisplayCompositionContext X) (b : Bool)
      → s.contexts h ≡ some c
      → Settled s.configured_displays s.powered_on_displays s.safe_mode
      → set_display_state ri ext state h c.display_id fd s ≡ some (b, t)
      → Settled t.configured_displays t.powered_on_displays t.safe_mode
  set_display_state-Settled state_off h fd s t c b known settled done =
      let (x, y, z) = state_off-tables h fd s t c b known done in
      rw (x, y, z)
        (off-Settled c.display_id s.configured_displays s.powered_on_displays s.safe_mode settled)
  set_display_state-Settled state_on h fd s t c b known settled done =
      let (x, y, z) = state_on-tables h fd s t c b known done in
      rw (x, y, z)
        (on-Settled c.display_id s.configured_displays s.powered_on_displays s.safe_mode settled)
  set_display_state-Settled state_doze h fd s t c b known settled done =
      let (x, y, z) = state_doze-tables h fd s t c b known done in
      rw (x, y, z)
        (on-Settled c.display_id s.configured_displays s.powered_on_displays s.safe_mode settled)
  set_display_state-Settled state_doze_suspend h fd s t c b known settled done =
      let (x, y, z) = state_doze_suspend-tables h fd s t c b known done in
      rw (x, y, z)
        (off-Settled c.display_id s.configured_displays s.powered_on_displays s.safe_mode settled)
  set_display_state-Settled state_standby h fd s t c b known settled done =
      let (x, y, z) = state_standby-tables h fd s t c b known done in rw (x, y, z) settled
