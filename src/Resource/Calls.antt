-- ===== src/Resource/Calls.antt =====
-- The calls that a client makes on the resource manager of resource_default.cpp, as steps, and what
-- each step does to the table of source pipes.
use platform_hardware_qcom_d.Base.{
  ℕ, ◌≡◌, refl, inl, inr, Bool, true, false, Option, some, map, arith, Option-cases, ◌⊎◌, ◌&&◌,
  ◌==◌,
}
use platform_hardware_qcom_d.Base.Int.{ℤ}
use platform_hardware_qcom_d.Base.Float.{Float}
use platform_hardware_qcom_d.Types.{
  DisplayError, DisplayType, hw_primary, block_eq, HwDisplayAttributes, HwMixerAttributes, HwLayers,
}
use platform_hardware_qcom_d.Resource.{ResourceDefault, DisplayResourceContext}
use platform_hardware_qcom_d.Resource.Pipes.{reset_pipes}
use platform_hardware_qcom_d.Resource.Prepare.{prepare}
use platform_hardware_qcom_d.Resource.Display.{
  register_display, unregister_display, reconfigure_display, start, stop, post_prepare, commit,
  post_commit, purge, set_max_mixer_stages, hand_off,
}

-- A call that returns.
pub data Call {F : Type 0} (fl : Float F) (s t : ResourceDefault) : Type 0 where
  registers :
      (type : DisplayType) (a : HwDisplayAttributes) (m : HwMixerAttributes)
      (r : DisplayError × Option ℕ)
      → register_display type a m s ≡ some (r, t)
      → Call fl s t
  unregisters : (h : ℕ) (e : DisplayError) → unregister_display h s ≡ some (e, t) → Call fl s t
  reconfigures :
      (h : ℕ) (a : HwDisplayAttributes) (m : HwMixerAttributes) (e : DisplayError)
      → reconfigure_display h a m s ≡ some (e, t)
      → Call fl s t
  starts : (h : ℕ) (e : DisplayError) → start h s ≡ some (e, t) → Call fl s t
  stops : (h : ℕ) (e : DisplayError) → stop h s ≡ some (e, t) → Call fl s t
  prepares :
      (h : ℕ) (hl hl' : HwLayers F) (e : DisplayError)
      → prepare ⦃fl = fl⦄ h hl s ≡ some ((e, hl'), t)
      → Call fl s t
  post_prepares : (h : ℕ) (e : DisplayError) → post_prepare h s ≡ some (e, t) → Call fl s t
  commits : (h : ℕ) (e : DisplayError) → commit h s ≡ some (e, t) → Call fl s t
  post_commits :
      (h : ℕ) (fd : ℤ) (e : DisplayError) → post_commit h fd s ≡ some (e, t) → Call fl s t
  purges : (h : ℕ) → purge h s ≡ some (tt, t) → Call fl s t
  sets_stages :
      (h n : ℕ) (e : DisplayError) → set_max_mixer_stages h n s ≡ some (e, t) → Call fl s t

-- The states that calls lead to.
pub data Calls {F : Type 0} (fl : Float F) (s : ResourceDefault) : ResourceDefault → Type 0 where
  here : Calls fl s s
  then : {t u : ResourceDefault} → Calls fl s t → Call fl t u → Calls fl s u

pub register_display-src_pipes :
    (type : DisplayType) (a : HwDisplayAttributes) (m : HwMixerAttributes)
    (r : DisplayError × Option ℕ) (s t : ResourceDefault)
    → register_display type a m s ≡ some (r, t)
    → t.src_pipes ≡ s.src_pipes
unfolding register_display
register_display-src_pipes type a m r s t h = ground arith

pub unregister_display-src_pipes :
    (h : ℕ) (e : DisplayError) (s t : ResourceDefault)
    → unregister_display h s ≡ some (e, t)
    → (ctx : DisplayResourceContext) × (s.contexts h ≡ some ctx)
      × (t.src_pipes ≡ reset_pipes ctx.hw_block_type s.src_pipes)
unfolding unregister_display
unregister_display-src_pipes h e s t done = elim (Option-cases (s.contexts h)) [
  | inl f ↦ ground arith
  | inr (ctx, f) ↦ (ctx, f, ground arith)
]

pub purge-src_pipes :
    (h : ℕ) (s t : ResourceDefault)
    → purge h s ≡ some (tt, t)
    → (ctx : DisplayResourceContext) × (s.contexts h ≡ some ctx)
      × (t.src_pipes ≡ reset_pipes ctx.hw_block_type s.src_pipes)
unfolding purge
purge-src_pipes h s t done = elim (Option-cases (s.contexts h)) [
  | inl f ↦ ground arith
  | inr (ctx, f) ↦ (ctx, f, ground arith)
]

pub reconfigure_display-src_pipes :
    (h : ℕ) (a : HwDisplayAttributes) (m : HwMixerAttributes) (e : DisplayError)
    (s t : ResourceDefault)
    → reconfigure_display h a m s ≡ some (e, t)
    → t.src_pipes ≡ s.src_pipes
unfolding reconfigure_display
reconfigure_display-src_pipes h a m e s t done = ground arith

pub start-src_pipes :
    (h : ℕ) (e : DisplayError) (s t : ResourceDefault)
    → start h s ≡ some (e, t)
    → t.src_pipes ≡ s.src_pipes
unfolding start
start-src_pipes h e s t done = ground arith

pub stop-src_pipes :
    (h : ℕ) (e : DisplayError) (s t : ResourceDefault)
    → stop h s ≡ some (e, t)
    → t.src_pipes ≡ s.src_pipes
unfolding stop
stop-src_pipes h e s t done = ground arith

pub post_prepare-src_pipes :
    (h : ℕ) (e : DisplayError) (s t : ResourceDefault)
    → post_prepare h s ≡ some (e, t)
    → t.src_pipes ≡ s.src_pipes
unfolding post_prepare
post_prepare-src_pipes h e s t done = ground arith

pub commit-src_pipes :
    (h : ℕ) (e : DisplayError) (s t : ResourceDefault)
    → commit h s ≡ some (e, t)
    → t.src_pipes ≡ s.src_pipes
unfolding commit
commit-src_pipes h e s t done = ground arith

pub set_max_mixer_stages-src_pipes :
    (h n : ℕ) (e : DisplayError) (s t : ResourceDefault)
    → set_max_mixer_stages h n s ≡ some (e, t)
    → t.src_pipes ≡ s.src_pipes
unfolding set_max_mixer_stages
set_max_mixer_stages-src_pipes h n e s t done = ground arith

-- PostCommit hands pipes off only for the first frame of the primary block.
pub post_commit-src_pipes :
    (h : ℕ) (fd : ℤ) (e : DisplayError) (s t : ResourceDefault)
    → post_commit h fd s ≡ some (e, t)
    → (t.src_pipes ≡ s.src_pipes)
      ⊎ ((ctx : DisplayResourceContext) × (block_eq ctx.hw_block_type hw_primary ≡ true)
          × (t.src_pipes ≡ map (hand_off ctx.hw_block_type) s.src_pipes))
unfolding post_commit
post_commit-src_pipes h fd e s t done = elim (Option-cases (s.contexts h)) [
  | inl f ↦ ground arith
  | inr (ctx, f) ↦
      first_frame ctx f (ctx.frame_count == 0 && block_eq ctx.hw_block_type hw_primary) refl
]
  where
    first_frame :
        (ctx : DisplayResourceContext)
        → s.contexts h ≡ some ctx
        → (b : Bool) → ctx.frame_count == 0 && block_eq ctx.hw_block_type hw_primary ≡ b
        → (t.src_pipes ≡ s.src_pipes)
          ⊎ ((ctx : DisplayResourceContext) × (block_eq ctx.hw_block_type hw_primary ≡ true)
              × (t.src_pipes ≡ map (hand_off ctx.hw_block_type) s.src_pipes))
    first_frame ctx f true g = inr (ctx, ground arith, ground arith)
    first_frame ctx f false g = inl (ground arith)
