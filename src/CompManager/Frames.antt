-- ===== src/CompManager/Frames.antt =====
-- comp_manager.cpp: the calls of one frame. PrePrepare and Prepare get the same HWLayers object, to
-- which the strategy keeps a pointer between the two.
use platform_hardware_qcom_d.Base.{
  ℕ, zero, suc, ◌+◌, ◌-◌, ◌%◌, ◌^◌, Bool, true, false, ◌&&◌, ◌||◌, not, if◌then◌else◌, Option, none,
  some, List, Run, pure, ◌>>=◌, ◌>>◌, ◌==◌, leb, length,
}
use platform_hardware_qcom_d.Base.Int.{ℤ}
use platform_hardware_qcom_d.Base.Float.{Float}
use platform_hardware_qcom_d.Types.{
  DisplayError, error_none, error_undefined, is_ok, primary, type_code, HwLayers,
}
use platform_hardware_qcom_d.Strategy.{
  Strategy, StrategyConstraints, Extension, Frame, start, stop, purge, get_next_strategy,
}
use platform_hardware_qcom_d.CompManager.{
  ResourceInterface, CompManager, DisplayCompositionContext, insert, update_heap, locked_run,
  on_resource, display, set_display,
}

-- What the loop of Prepare leaves.
pub record Attempt (F R X : Type 0) : Type 0 where
  pub error : DisplayError
  pub remaining : ℕ
  pub strategy : Strategy X
  pub frame : Frame F
  pub resource : R

-- display_type == kBuiltIn.
abbrev is_builtin : {X : Type 0} → DisplayCompositionContext X → Bool
is_builtin c = type_code c.display_type == type_code primary

module _ {F R X : Type 0} where
  -- PrepareStrategyConstraints: the constraints that it stores.
  unfoldable pub strategy_constraints :
      CompManager R X → DisplayCompositionContext X → Frame F → StrategyConstraints
  strategy_constraints s c f =
      let info = s.hw_res_info in
      let low_end : Bool = leb (info.num_vig_pipe + info.num_rgb_pipe + info.num_dma_pipe) 4 in
      let app_layer_count : ℕ = (length f.stack % 2 ^ 32 + (2 ^ 32 - 1)) % 2 ^ 32 in
      let safe : Bool =
        if c.is_primary_panel
        then s.safe_mode
        else if low_end && not info.separate_rotator
        then true
        else s.safe_mode in
      let retried : Bool = not (c.remaining_strategies == c.max_strategies) in
      record {
        safe_mode =
            if app_layer_count == 1
            then false
            else retried || (c.idle_fallback || c.thermal_fallback) || safe;
        max_layers =
            if c.is_primary_panel
            then s.max_layers
            else if is_builtin c
            then s.max_sde_builtin_layers
            else s.max_sde_ext_layers;
      }

  -- PrepareStrategyConstraints on the display's context.
  unfoldable pub constrain :
      DisplayCompositionContext X → Frame F → Run (CompManager R X) (DisplayCompositionContext X)
  constrain c f s = some (record c { constraints = strategy_constraints s c f }, s)

module _ {R X : Type 0} where
  -- The tables in PostCommit: the display is configured, and safe mode ends where there are as
  -- many configured displays as displays that are on.
  unfoldable pub mark_configured : ℕ → Run (CompManager R X) (Unit {0})
  mark_configured id s =
      let configured : List ℕ = insert id s.configured_displays in
      some (
        tt,
        record s {
          configured_displays = configured;
          safe_mode =
              if length s.powered_on_displays == length configured then false else s.safe_mode;
        },
      )

module _ {F R X : Type 0} (ri : ResourceInterface F R) where
  -- Commit.
  unfoldable pub commit : ℕ → Run (CompManager R X) DisplayError
  commit h = locked_run (do c ← display h; on_resource (ri.commit c.display_resource_ctx))

  -- ReConfigure.
  unfoldable pub re_configure : ℕ → HwLayers F → Run (CompManager R X) (DisplayError × HwLayers F)
  re_configure h hw = locked_run (do
    c ← display h
    _ ← on_resource (ri.start c.display_resource_ctx)
    (error, hw') ← on_resource (ri.prepare c.display_resource_ctx hw)
    _ ← on_resource (ri.stop c.display_resource_ctx)
    elim (is_ok error) [
      | true ↦ pure (error, hw')
      | false ↦ do last ← on_resource (ri.post_prepare c.display_resource_ctx); pure (last, hw')
    ])

  -- PostCommit, with the fence of the frame.
  unfoldable pub post_commit : ℕ → ℤ → Run (CompManager R X) DisplayError
  post_commit h sync_handle = locked_run (do
    c ← display h
    mark_configured c.display_id
    error ← on_resource (ri.post_commit c.display_resource_ctx sync_handle)
    elim (is_ok error) [
      | false ↦ pure error
      | true ↦ do set_display h (record c { idle_fallback = false }); pure error_none
    ])

module _ {F R X : Type 0} (ri : ResourceInterface F R) (ext : Extension F X) where
  -- PostPrepare.
  unfoldable pub post_prepare : ℕ → Run (CompManager R X) DisplayError
  post_prepare h = locked_run (do
    c ← display h
    error ← on_resource (ri.post_prepare c.display_resource_ctx)
    elim (is_ok error) [
      | false ↦ pure error
      | true ↦ elim c.strategy [
        | none ↦ λ _. none
        | some st ↦ do set_display h (record c { strategy = some (stop ext st).1 }); pure error_none
      ]
    ])

  -- Purge.
  unfoldable pub purge_display : ℕ → Run (CompManager R X) (Unit {0})
  purge_display h = locked_run (do
    c ← display h
    on_resource (ri.purge c.display_resource_ctx)
    elim c.strategy [
      | none ↦ λ _. none
      | some st ↦ set_display h (record c { strategy = some (purge ext st).1 })
    ])

module _ {F R X : Type 0} ⦃fl : Float F⦄ (ext : Extension F X) where
  -- PrePrepare.
  unfoldable pub pre_prepare : ℕ → Frame F → Run (CompManager R X) (Frame F)
  pre_prepare h f = locked_run (do
    c ← display h
    elim c.strategy [
      | none ↦ λ _. none
      | some strategy ↦
          let r : DisplayError × (ℕ × (Frame F × Strategy X)) =
            start ext c.pu_enable c.max_strategies f strategy in
          do
            set_display h (record c {
              strategy = some r.1.1.1;
              max_strategies = r.1.0;
              remaining_strategies = r.1.0;
            })
            pure r.1.1.0
    ])

module _ {F R X : Type 0} ⦃fl : Float F⦄ (ri : ResourceInterface F R) (ext : Extension F X) where
  -- The loop of Prepare for `count` strategies that remain, on `error` so far.
  unfoldable pub prepare_loop :
      ℕ → StrategyConstraints → ℕ → DisplayError → Strategy X → Frame F → R → Option (Attempt F R X)
  prepare_loop ctx k zero error st f r =
      some (record { error = error; remaining = 0; strategy = st; frame = f; resource = r })
  prepare_loop ctx k (suc count) error st f r = elim (get_next_strategy ext k f st) [
    | none ↦ none
    | some (e, (f', st')) ↦ elim (is_ok e) [
      | false ↦
          some (record { error = e; remaining = count; strategy = st'; frame = f'; resource = r })
      | true ↦ elim (ri.prepare ctx f'.hw r) [
        | none ↦ none
        | some ((e', hw'), r') ↦ elim (is_ok e') [
          | true ↦ some (record {
            error = e';
            remaining = count;
            strategy = st';
            frame = record f' { hw = hw' };
            resource = r';
          })
          | false ↦ prepare_loop ctx k count e' st' (record f' { hw = hw' }) r'
        ]
      ]
    ]
  ]

  -- The loop, from the context's count on and with its effects written back.
  unfoldable pub try_strategies :
      ℕ
      → DisplayCompositionContext X
      → Strategy X
      → Frame F
      → Run (CompManager R X) (DisplayError × Frame F)
  try_strategies h c st f s =
      elim (prepare_loop c.display_resource_ctx c.constraints c.remaining_strategies error_undefined
        st f s.resource) [
          | none ↦ none
          | some a ↦
              let c' : DisplayCompositionContext X = record c {
                strategy = some a.strategy;
                remaining_strategies = a.remaining;
              } in
              some (
                (a.error, a.frame),
                record s { resource = a.resource; contexts = update_heap s.contexts h (some c') },
              )
        ]

  -- Prepare.
  unfoldable pub prepare : ℕ → Frame F → Run (CompManager R X) (DisplayError × Frame F)
  prepare h f = locked_run (do
    c₀ ← display h
    c ← constrain c₀ f
    _ ← on_resource (ri.start c.display_resource_ctx)
    elim c.strategy [
      | none ↦ λ _. none
      | some st ↦ do
        (error, f') ← try_strategies h c st f
        stopped ← on_resource (ri.stop c.display_resource_ctx)
        pure (if is_ok error then stopped else error, f')
    ])
