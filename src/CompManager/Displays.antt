-- ===== src/CompManager/Displays.antt =====
-- comp_manager.cpp: a display comes, changes its mode and goes.
use platform_hardware_qcom_d.Base.{
  ℕ, ◌+◌, true, false, if◌then◌else◌, none, some, Run, pure, ◌>>=◌, ◌>>◌, ◌==◌,
}
use platform_hardware_qcom_d.Types.{
  DisplayError, error_none, error_parameters, is_ok, DisplayType, primary, hdmi, type_code,
  HwPanelInfo, HwMixerAttributes, HwDisplayAttributes, DisplayConfigVariableInfo,
}
use platform_hardware_qcom_d.Strategy.{Strategy, Extension, init, reconfigure}
use platform_hardware_qcom_d.CompManager.{
  ResourceInterface, CompManager, DisplayCompositionContext, get_default_clk, insert, erase,
  update_heap, locked_run, on_resource, display, set_display,
}

-- kMaxSDELayers.
abbrev pub max_sde_layers : ℕ
max_sde_layers = 16

module _ {X : Type 0} where
  -- new DisplayCompositionContext with its strategy: the context as `new` leaves it, but for
  -- display_id, which is -1 until the end of RegisterDisplay and read by nobody before.
  abbrev pub blank_context : Strategy X → DisplayCompositionContext X
  blank_context strategy = record {
    strategy = some strategy;
    constraints = record { safe_mode = false; max_layers = max_sde_layers };
    display_resource_ctx = 0;
    display_id = 0;
    display_type = primary;
    max_strategies = 0;
    remaining_strategies = 0;
    idle_fallback = false;
    thermal_fallback = false;
    is_primary_panel = false;
    pu_enable = true;
    fb_config = record { x_pixels = 0; y_pixels = 0 };
  }

module _ {R X : Type 0} where
  -- The handle of the new context.
  unfoldable pub new_context : Strategy X → Run (CompManager R X) ℕ
  new_context strategy s = some (
    s.next_handle,
    record s {
      contexts = update_heap s.contexts s.next_handle (some (blank_context strategy));
      next_handle = s.next_handle + 1;
    },
  )

  -- delete display_comp_ctx.
  unfoldable pub delete_context : ℕ → Run (CompManager R X) (Unit {0})
  delete_context h s = some (tt, record s { contexts = update_heap s.contexts h none })

  -- The end of RegisterDisplay: the context of the handle is filled in, with the tables.
  -- `ext_max_layers` is Debug::GetExtMaxlayers().
  unfoldable pub add_display :
      ℕ
      → ℕ
      → DisplayType
      → HwPanelInfo
      → DisplayConfigVariableInfo
      → ℕ
      → ℕ
      → Run (CompManager R X) (DisplayError × ℕ)
  unfolding insert display
  add_display h id type panel fb ext_max_layers resource_ctx = do
    c ← display h
    λ s.
        let c' : DisplayCompositionContext X = record c {
          display_resource_ctx = resource_ctx;
          display_id = id;
          display_type = type;
          is_primary_panel = panel.is_primary_panel;
          fb_config = fb;
        } in
        let s' : CompManager R X = record s {
          registered_displays = insert (type_code type) s.registered_displays;
          contexts = update_heap s.contexts h (some c');
        } in
        some (
          (error_none, h),
          if panel.is_primary_panel
              then s'
              else record s' { safe_mode = true; max_sde_ext_layers = ext_max_layers },
        )

  -- The end of UnregisterDisplay.
  unfoldable pub drop_display : ℕ → DisplayCompositionContext X → Run (CompManager R X) DisplayError
  drop_display h c s =
      let s' : CompManager R X = record s {
        registered_displays = erase c.display_id s.registered_displays;
        configured_displays = erase c.display_id s.configured_displays;
        powered_on_displays = erase c.display_id s.powered_on_displays;
        contexts = update_heap s.contexts h none;
      } in
      some (
        error_none,
        if type_code c.display_type == type_code hdmi
            then record s' { max_layers = max_sde_layers }
            else s',
      )

  -- The end of ReconfigureDisplay.
  unfoldable pub resize_display :
      ℕ
      → DisplayCompositionContext X
      → HwPanelInfo
      → DisplayConfigVariableInfo
      → Run (CompManager R X) DisplayError
  resize_display h c panel fb s =
      let s' : CompManager R X = record s {
        contexts = update_heap s.contexts h (some (record c { fb_config = fb }));
      } in
      some (
        error_none,
        if type_code c.display_type == type_code hdmi
            then record s' { max_layers = if panel.has_s3d_mode then 0 else max_sde_layers }
            else s',
      )

module _ {F R X : Type 0} (ri : ResourceInterface F R) where
  -- UnregisterDisplay. strategy->Deinit() on NULL faults.
  unfoldable pub unregister_display : ℕ → Run (CompManager R X) DisplayError
  unregister_display h = locked_run (elim (h == 0) [
    | true ↦ pure error_parameters
    | false ↦ do
      c ← display h
      _ ← on_resource (ri.unregister_display c.display_resource_ctx)
      elim c.strategy [ none ↦ λ _. none | some _ ↦ drop_display h c ]
  ])

module _ {F R X : Type 0} (ri : ResourceInterface F R) (ext : Extension F X) where
  -- RegisterDisplay from the resource manager's part on, for the new context at a handle; on an
  -- error the context is deleted and the client's handle stays NULL.
  unfoldable pub register_resources :
      ℕ
      → ℕ
      → DisplayType
      → HwDisplayAttributes
      → HwPanelInfo
      → HwMixerAttributes
      → DisplayConfigVariableInfo
      → ℕ
      → Run (CompManager R X) (DisplayError × ℕ)
  unfolding add_display delete_context
  register_resources h id type attributes panel mixer fb ext_max_layers = do
    (error, ctx) ← on_resource (ri.register_display id type attributes panel mixer)
    elim (is_ok error) [
      | false ↦ do delete_context h; pure (error, 0)
      | true ↦ do
        clk ← on_resource (ri.perform get_default_clk ctx)
        elim (is_ok clk) [
          | false ↦ do _ ← on_resource (ri.unregister_display ctx); delete_context h; pure (clk, 0)
          | true ↦ add_display h id type panel fb ext_max_layers ctx
        ]
    ]

  -- RegisterDisplay. `fresh` is the new strategy object.
  unfoldable pub register_display :
      ℕ
      → DisplayType
      → HwDisplayAttributes
      → HwPanelInfo
      → HwMixerAttributes
      → DisplayConfigVariableInfo
      → ℕ
      → Strategy X
      → Run (CompManager R X) (DisplayError × ℕ)
  unfolding register_resources new_context delete_context
  register_display id type attributes panel mixer fb ext_max_layers fresh =
      let created : DisplayError × Strategy X = init ext fresh in
      locked_run (do
        h ← new_context created.1
        elim (is_ok created.0) [
          | false ↦ do delete_context h; pure (created.0, 0)
          | true ↦ register_resources h id type attributes panel mixer fb ext_max_layers
        ])

  -- The strategy's part of ReconfigureDisplay: a strategy that fails is deleted.
  unfoldable pub reconfigure_strategy :
      ℕ
      → DisplayCompositionContext X
      → HwDisplayAttributes
      → HwPanelInfo
      → HwMixerAttributes
      → DisplayConfigVariableInfo
      → Run (CompManager R X) DisplayError
  reconfigure_strategy h c attributes panel mixer fb = elim c.strategy [
    | none ↦ resize_display h c panel fb
    | some strategy ↦
        let r : DisplayError × Strategy X = reconfigure ext panel attributes mixer fb strategy in
        elim (is_ok r.0) [
          | true ↦ resize_display h (record c { strategy = some r.1 }) panel fb
          | false ↦ do set_display h (record c { strategy = none }); pure r.0
        ]
  ]

  -- ReconfigureDisplay.
  unfoldable pub reconfigure_display :
      ℕ
      → HwDisplayAttributes
      → HwPanelInfo
      → HwMixerAttributes
      → DisplayConfigVariableInfo
      → Run (CompManager R X) DisplayError
  reconfigure_display h attributes panel mixer fb = locked_run (do
    c ← display h
    error ← on_resource (ri.reconfigure_display c.display_resource_ctx attributes panel mixer)
    elim (is_ok error) [
      | false ↦ pure error
      | true ↦ do
        clk ← on_resource (ri.perform get_default_clk c.display_resource_ctx)
        elim (is_ok clk) [
          | false ↦ pure clk
          | true ↦ reconfigure_strategy h c attributes panel mixer fb
        ]
    ])
