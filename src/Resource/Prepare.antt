-- ===== src/Resource/Prepare.antt =====
-- resource_default.cpp: Prepare, which configures the pipes of a frame and reserves them.
use platform_hardware_qcom_d.Base.{
  ℕ, Bool, true, false, ◌&&◌, ◌||◌, not, if◌then◌else◌, Option, none, some, List, [], ◌∷◌, Run, ltb,
  leb, length, get_elem?,
}
use platform_hardware_qcom_d.Base.Float.{Float}
use platform_hardware_qcom_d.Types.{
  DisplayError, error_none, error_resources, error_parameters, is_ok, HwBlockType, HwResourceInfo,
  Layer, LayerComposition, composition_gpu_target, HwPipeInfo, HwLayerConfig, HwLayers,
}
use platform_hardware_qcom_d.Resource.{SourcePipe, DisplayResourceContext, ResourceDefault}
use platform_hardware_qcom_d.Resource.Pipes.{Searched, reset_pipes, get_pipe}
use platform_hardware_qcom_d.Resource.Scaling.{is_scaling_needed, set_decimation_factor}
use platform_hardware_qcom_d.Resource.Split.{config}

abbrev pub is_gpu_target : LayerComposition → Bool
is_gpu_target composition_gpu_target = true
is_gpu_target _ = false

-- What Prepare leaves: its result, config[0], and the source pipes.
pub record Prepared (F : Type 0) : Type 0 where
  pub error : DisplayError
  pub config : HwLayerConfig F
  pub src_pipes : List SourcePipe

module _ {F : Type 0} ⦃fl : Float F⦄ where
  abbrev set_pipe_id : HwPipeInfo F → ℕ → HwPipeInfo F
  set_pipe_id pipe id = record pipe { pipe_id = id }

  -- The end of Prepare for a single pipe: its id is that of src_pipes_[left_index].
  unfoldable pub assign_single : ℕ → ℕ → HwLayerConfig F → List SourcePipe → Option (Prepared F)
  assign_single num_pipe left_index c ps =
      if ltb left_index num_pipe
      then elim (get_elem? ps left_index) [
        | none ↦ none
        | some p ↦ some (record {
          error = error_none;
          config = record c { left_pipe = set_pipe_id c.left_pipe p.mdss_pipe_id };
          src_pipes = ps;
        })
      ]
      else some (record { error = error_none; config = c; src_pipes = ps })

  -- The end of Prepare for two pipes: the one of the higher priority goes to the left, the ids are
  -- assigned, and the right pipe gets its decimation.
  unfoldable pub assign_dual :
      HwResourceInfo → ℕ → ℕ → HwLayerConfig F → List SourcePipe → Option (Prepared F)
  assign_dual info left_index right_index c ps = elim (get_elem? ps right_index) [
    | none ↦ none
    | some r ↦ elim (get_elem? ps left_index) [
      | none ↦ none
      | some l ↦
          let swapped : Bool = ltb r.priority l.priority in
          let left_id : ℕ = if swapped then r.mdss_pipe_id else l.mdss_pipe_id in
          let right_id : ℕ = if swapped then l.mdss_pipe_id else r.mdss_pipe_id in
          let decimated : DisplayError × HwPipeInfo F =
            set_decimation_factor info (set_pipe_id c.right_pipe right_id) in
          some (record {
            error = if is_ok decimated.0 then error_none else error_resources;
            config = record {
              left_pipe = set_pipe_id c.left_pipe left_id;
              right_pipe = decimated.1;
            };
            src_pipes = ps;
          })
    ]
  ]

  -- Prepare from the reset of the display's pipes on; none where the reset of num_pipe_ pipes or a
  -- search reads past the end of src_pipes_.
  unfoldable pub reserve_pipes :
      HwResourceInfo → ℕ → HwBlockType → HwLayerConfig F → List SourcePipe → Option (Prepared F)
  reserve_pipes info num_pipe b c ps =
      let free : List SourcePipe = reset_pipes b ps in
      let left : Searched =
        if c.left_pipe.valid
        then get_pipe info num_pipe b (is_scaling_needed c.left_pipe) free
        else (num_pipe, free, false) in
      let decimated : DisplayError × HwPipeInfo F = set_decimation_factor info c.left_pipe in
      let c' : HwLayerConfig F = record c { left_pipe = decimated.1 } in
      let right : Searched = get_pipe info num_pipe b (is_scaling_needed c.right_pipe) left.1 in
      if ltb (length ps) num_pipe || left.2
      then none
      else if c.left_pipe.valid && leb num_pipe left.0
      then some (record { error = error_resources; config = c; src_pipes = left.1 })
      else if not (is_ok decimated.0)
      then some (record { error = error_resources; config = c'; src_pipes = left.1 })
      else if not c.right_pipe.valid
      then assign_single num_pipe left.0 c' left.1
      else if right.2
      then none
      else if leb num_pipe right.0
      then some (record { error = error_resources; config = c'; src_pipes = right.1 })
      else assign_dual info left.0 right.0 c' right.1

  -- Prepare on the one layer that it accepts.
  unfoldable pub prepare_layer :
      HwResourceInfo
      → ℕ
      → DisplayResourceContext
      → Layer F
      → HwLayerConfig F
      → List SourcePipe
      → Option (Prepared F)
  prepare_layer info num_pipe ctx layer c ps =
      let configured : DisplayError × HwLayerConfig F = config info ctx.mixer_attributes layer c in
      if not (is_gpu_target layer.composition)
      then some (record { error = error_parameters; config = c; src_pipes = ps })
      else if not (is_ok configured.0)
      then some (record { error = configured.0; config = configured.1; src_pipes = ps })
      else reserve_pipes info num_pipe ctx.hw_block_type configured.1 ps

  -- The frame's layers: none faults (vector::at), more than one is refused.
  unfoldable pub prepare_layers :
      HwResourceInfo
      → ℕ
      → DisplayResourceContext
      → HwLayers F
      → List (Layer F)
      → List SourcePipe
      → Option (Prepared F)
  prepare_layers info num_pipe ctx hw_layers [] ps = none
  prepare_layers info num_pipe ctx hw_layers (layer ∷ []) ps =
      prepare_layer info num_pipe ctx layer hw_layers.config ps
  prepare_layers info num_pipe ctx hw_layers (layer ∷ other ∷ rest) ps =
      some (record { error = error_resources; config = hw_layers.config; src_pipes = ps })

  -- Prepare: its result and the frame as it leaves it.
  unfoldable pub prepare : ℕ → HwLayers F → Run ResourceDefault (DisplayError × HwLayers F)
  prepare h hw_layers s = elim (s.contexts h) [
    | none ↦ none
    | some ctx ↦
        elim (prepare_layers s.hw_res_info s.num_pipe ctx hw_layers hw_layers.layers s.src_pipes) [
          | none ↦ none
          | some p ↦ some (
            (p.error, record hw_layers { config = p.config }),
            record s { src_pipes = p.src_pipes },
          )
        ]
  ]
