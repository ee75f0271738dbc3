-- ===== src/DisplayBase/Cycle.antt =====
-- display_base.cpp: Prepare and Commit of a frame.
use platform_hardware_qcom_d.Base.{
  ℕ, Bool, true, false, not, ◌&&◌, ◌||◌, Run, pure, ◌>>=◌, ◌>>◌, Option, none, some,
}
use platform_hardware_qcom_d.Base.Float.{Float}
use platform_hardware_qcom_d.Types.{
  DisplayError, error_none, error_permission, error_parameters, error_not_validated, is_ok,
}
use platform_hardware_qcom_d.Strategy.{Extension}
use platform_hardware_qcom_d.CompManager.{ResourceInterface}
use platform_hardware_qcom_d.CompManager.Frames
use platform_hardware_qcom_d.CompManager.Power
use platform_hardware_qcom_d.DisplayBase.{Device, Session, on_comp, on_device, members, set_members}
use platform_hardware_qcom_d.DisplayBase.States.{disable_partial_update_one_frame}
use platform_hardware_qcom_d.DisplayBase.Protocol.{
  LayerStack, set_frame, checked, commit_layer_params, handle_hdr, validate_hdr,
  build_layer_stack_stats, validate_loop,
}

module _ {F R X H : Type 0} (device : Device F H) where
  -- The part of Prepare on partial update.
  unfoldable pub update_partial_update : Run (Session F R X H) (Unit {0})
  unfolding members set_members on_comp on_device disable_partial_update_one_frame
  update_partial_update = do
    d ← members
    disable ← elim d.has_color_mgr [
      | true ↦ on_device device.needs_partial_update_disable
      | false ↦ pure false
    ]
    set_members (elim disable [ true ↦ disable_partial_update_one_frame d | false ↦ d ])
    now ← members
    elim (not now.partial_update_control
        || now.disable_pu_one_frame
        || now.disable_pu_on_dest_scaler) [
          | false ↦ pure tt
          | true ↦ do
            on_comp (Power.control_partial_update now.display_comp_ctx false)
            set_members (record now { disable_pu_one_frame = false })
        ]

module _ {F R X H : Type 0} ⦃fl : Float F⦄ (ri : ResourceInterface F R) (ext : Extension F X)
    (device : Device F H) where
  -- The end of Prepare's validation: PostPrepare, unless the loop has returned.
  unfoldable pub post_validate :
      ℕ → Option (DisplayError × Bool) → Run (Session F R X H) (Option (DisplayError × Bool))
  unfolding on_comp
  post_validate comp_ctx none = pure none
  post_validate comp_ctx (some (error, true)) = pure (some (error, true))
  post_validate comp_ctx (some (error, false)) =
      on_comp (Frames.post_prepare ri ext comp_ctx) >>= λ last. pure (some (error, false))

  -- The end of Prepare: the HDR check of a validated frame.
  unfoldable pub finish_prepare :
      LayerStack F → Option (DisplayError × Bool) → Run (Session F R X H) (Option DisplayError)
  unfolding validate_hdr
  finish_prepare stack none = pure none
  finish_prepare stack (some (error, returned)) = elim (is_ok error && not returned) [
    | false ↦ pure (some error)
    | true ↦ do last ← validate_hdr device stack; pure (some last)
  ]

  -- The validation in Prepare, from PrePrepare to PostPrepare, with fuel for its loop.
  unfoldable pub validate_frame : ℕ → Run (Session F R X H) (Option (DisplayError × Bool))
  unfolding members set_members on_comp set_frame validate_loop post_validate
  validate_frame fuel = do
    d ← members
    frame ← on_comp (Frames.pre_prepare ext d.display_comp_ctx d.hw_layers)
    set_frame frame
    outcome ← validate_loop ri ext device fuel
    post_validate d.display_comp_ctx outcome

  -- Prepare from BuildLayerStackStats on.
  unfoldable pub prepare_stack : ℕ → LayerStack F → Run (Session F R X H) (Option DisplayError)
  unfolding build_layer_stack_stats handle_hdr update_partial_update validate_frame finish_prepare
  prepare_stack fuel stack = do
    built ← build_layer_stack_stats stack
    elim (is_ok built) [
      | false ↦ pure (some built)
      | true ↦ do
        handled ← handle_hdr device stack
        elim (is_ok handled) [
          | false ↦ pure (some handled)
          | true ↦ do
            update_partial_update device
            outcome ← validate_frame fuel
            finish_prepare stack outcome
        ]
    ]

  -- Prepare of a layer stack, which may be null; none is that the fuel has run out.
  unfoldable pub prepare : ℕ → Option (LayerStack F) → Run (Session F R X H) (Option DisplayError)
  unfolding members set_members prepare_stack
  prepare fuel layer_stack = do
    d ← members
    set_members (record d { needs_validate = true; gpu_fallback = false })
    elim d.active [
      | false ↦ pure (some error_permission)
      | true ↦ elim layer_stack [
        | none ↦ pure (some error_parameters)
        | some stack ↦ prepare_stack fuel stack
      ]
    ]

  -- The second validation in Commit, where the attributes of the layer stack have changed.
  unfoldable pub revalidate : LayerStack F → Run (Session F R X H) DisplayError
  unfolding members set_members on_comp on_device set_frame
  revalidate stack = elim stack.attributes_changed [
    | false ↦ pure error_none
    | true ↦ do
      d ← members
      (error, hw) ← on_comp (Frames.re_configure ri d.display_comp_ctx d.hw_layers.hw)
      set_frame (record d.hw_layers { hw = hw })
      elim (is_ok error) [
        | false ↦ pure error
        | true ↦ do
          (verdict, frame) ← on_device (device.validate (record d.hw_layers { hw = hw }))
          set_frame frame
          pure verdict
      ]
  ]

  -- The end of Commit after the device has taken the frame.
  unfoldable pub finish_commit : Run (Session F R X H) DisplayError
  unfolding members set_members on_comp
  finish_commit = do
    d ← members
    elim d.partial_update_control [
      | true ↦ on_comp (Power.control_partial_update d.display_comp_ctx true)
      | false ↦ pure tt
    ]
    error ← on_comp (Frames.post_commit ri d.display_comp_ctx d.hw_layers.hw.sync_handle)
    elim (is_ok error) [
      | false ↦ pure error
      | true ↦ do set_members (record d { drop_hw_vsync = false }); pure error_none
    ]

  -- Commit from CommitLayerParams on.
  unfoldable pub commit_frame : LayerStack F → Run (Session F R X H) DisplayError
  unfolding members on_comp on_device set_frame checked commit_layer_params finish_commit
  commit_frame stack = do
    d ← members
    let f = d.hw_layers
    layers ← checked (commit_layer_params stack.layers f.gpu_target_index f.index f.hw.layers)
    set_frame (record f { hw = record f.hw { layers = layers } })
    granted ← on_comp (Frames.commit ri d.display_comp_ctx)
    elim (is_ok granted) [
      | false ↦ pure granted
      | true ↦ do
        coloured ← elim d.has_color_mgr [
          | true ↦ on_device device.color_commit
          | false ↦ pure granted
        ]
        now ← members
        (error, frame) ← on_device (device.commit now.hw_layers)
        set_frame frame
        elim (is_ok error) [ false ↦ pure error | true ↦ finish_commit ]
    ]

  -- Commit of a layer stack, which may be null.
  unfoldable pub commit : Option (LayerStack F) → Run (Session F R X H) DisplayError
  unfolding members set_members revalidate commit_frame
  commit layer_stack = do
    d ← members
    elim d.active [
      | false ↦ do set_members (record d { needs_validate = true }); pure error_permission
      | true ↦ elim layer_stack [
        | none ↦ pure error_parameters
        | some stack ↦ elim d.needs_validate [
          | true ↦ pure error_not_validated
          | false ↦ do
            error ← revalidate stack
            elim (is_ok error) [ false ↦ pure error | true ↦ commit_frame stack ]
        ]
      ]
    ]
