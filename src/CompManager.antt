-- ===== src/CompManager.antt =====
-- sdm/libs/core/comp_manager.cpp and comp_manager.h: the composition manager, which tries
-- composition strategies for a display's frame until the resource manager has pipes for one. This
-- file has its state and the interface to the resource manager (resource_interface.h).
pub mod Displays
pub mod Frames
pub mod Power
pub mod Default
pub mod Fallback
pub mod Loop
pub mod Attempts
pub mod Registry
pub mod Register
pub mod Keys
pub mod SafeMode
use platform_hardware_qcom_d.Base.{
  ℕ, ◌≡◌, Bool, true, false, if◌then◌else◌, Option, none, some, List, [], ◌∷◌, Run, pure, ◌>>=◌,
  ◌>>◌, ◌==◌,
}
use platform_hardware_qcom_d.Base.Int.{ℤ}
use platform_hardware_qcom_d.Types.{
  DisplayError, DisplayType, DisplayState, HwResourceInfo, HwPanelInfo, HwMixerAttributes,
  HwDisplayAttributes, DisplayConfigVariableInfo, HwLayers,
}
use platform_hardware_qcom_d.Strategy.{Strategy, StrategyConstraints}

-- The commands of ResourceInterface::Perform that the composition manager gives.
pub data Command : Type 0 where
  get_default_clk reset_scalar_lut : Command
  update_sync_handle : ℤ → Command

-- ResourceInterface on an object in state `R`. A handle is an address and 0 is NULL.
pub record ResourceInterface (F R : Type 0) : Type 0 where
  pub register_display :
      ℕ
      → DisplayType
      → HwDisplayAttributes
      → HwPanelInfo
      → HwMixerAttributes
      → Run R (DisplayError × ℕ)
  pub unregister_display : ℕ → Run R DisplayError
  pub reconfigure_display :
      ℕ → HwDisplayAttributes → HwPanelInfo → HwMixerAttributes → Run R DisplayError
  pub start : ℕ → Run R DisplayError
  pub stop : ℕ → Run R DisplayError
  pub prepare : ℕ → HwLayers F → Run R (DisplayError × HwLayers F)
  pub post_prepare : ℕ → Run R DisplayError
  pub commit : ℕ → Run R DisplayError
  pub post_commit : ℕ → ℤ → Run R DisplayError
  pub purge : ℕ → Run R (Unit {0})
  pub set_max_mixer_stages : ℕ → ℕ → Run R DisplayError
  pub perform : Command → ℕ → Run R DisplayError

-- DisplayCompositionContext. pu_enable is pu_constraints.enable.
pub record DisplayCompositionContext (X : Type 0) : Type 0 where
  pub strategy : Option (Strategy X)
  pub constraints : StrategyConstraints
  pub display_resource_ctx : ℕ
  pub display_id : ℕ
  pub display_type : DisplayType
  pub max_strategies : ℕ
  pub remaining_strategies : ℕ
  pub idle_fallback : Bool
  pub thermal_fallback : Bool
  pub is_primary_panel : Bool
  pub pu_enable : Bool
  pub fb_config : DisplayConfigVariableInfo

-- CompManager. A display id is the 32-bit pattern of its int32_t. The two maps to bool only ever
-- hold 1, so they are lists of their keys, like the set of the displays that are on. `contexts` is
-- the heap of the display contexts with `next_handle` the next address, and `locked` the state of
-- locker_.
pub record CompManager (R X : Type 0) : Type 0 where
  pub locked : Bool
  pub resource : R
  pub registered_displays : List ℕ
  pub configured_displays : List ℕ
  pub powered_on_displays : List ℕ
  pub display_state : ℕ → Option DisplayState
  pub safe_mode : Bool
  pub hw_res_info : HwResourceInfo
  pub max_layers : ℕ
  pub max_sde_ext_layers : ℕ
  pub max_sde_builtin_layers : ℕ
  pub contexts : ℕ → Option (DisplayCompositionContext X)
  pub next_handle : ℕ

-- std::map and std::set: membership, insertion, erasure.
unfoldable pub contains : ℕ → List ℕ → Bool
contains k [] = false
contains k (x ∷ xs) = if k == x then true else contains k xs

unfoldable pub insert : ℕ → List ℕ → List ℕ
unfolding contains
insert k xs = if contains k xs then xs else k ∷ xs

unfoldable pub erase : ℕ → List ℕ → List ℕ
erase k [] = []
erase k (x ∷ xs) = let rest : List ℕ = erase k xs in if k == x then rest else x ∷ rest

module _ {X : Type 0} where
  abbrev pub update_heap :
      (ℕ → Option (DisplayCompositionContext X))
      → ℕ
      → Option (DisplayCompositionContext X)
      → ℕ
      → Option (DisplayCompositionContext X)
  update_heap f h c k = if h == k then c else f k

module _ {R X : Type 0} where
  -- SCOPE_LOCK(locker_) around a body.
  unfoldable pub locked_run : {A : Type 0} → Run (CompManager R X) A → Run (CompManager R X) A
  locked_run body s = elim s.locked [
    | true ↦ none
    | false ↦ elim (body (record s { locked = true })) [
      | none ↦ none
      | some (a, t) ↦ some (a, record t { locked = false })
    ]
  ]

  -- A call of resource_intf_.
  unfoldable pub on_resource : {A : Type 0} → Run R A → Run (CompManager R X) A
  on_resource call s = elim (call s.resource) [
    | none ↦ none
    | some (a, r) ↦ some (a, record s { resource = r })
  ]

  -- reinterpret_cast<DisplayCompositionContext *>(handle), read.
  unfoldable pub display : ℕ → Run (CompManager R X) (DisplayCompositionContext X)
  display h s = elim (s.contexts h) [ none ↦ none | some c ↦ some (c, s) ]

  -- Writes through that pointer.
  unfoldable pub set_display : ℕ → DisplayCompositionContext X → Run (CompManager R X) (Unit {0})
  set_display h c s = some (tt, record s { contexts = update_heap s.contexts h (some c) })
