-- ===== src/Resource/Total.antt =====
-- Prepare of resource_default.cpp never reads past the end of src_pipes_.
use platform_hardware_qcom_d.Base.{
  ℕ, ◌≡◌, ◌≢◌, ◌<◌, ◌≤◌, refl, sym, ap, ◌∙◌, inl, inr, Bool, true, false, none, some, List, [], ◌∷◌,
  arith, Option-cases, length, length-replicate,
}
use platform_hardware_qcom_d.Base.{get_elem?-ne-none}
use platform_hardware_qcom_d.Base.Float.{Float}
use platform_hardware_qcom_d.Types.{
  error_none, is_ok, HwBlockType, HwResourceInfo, HwLayers, HwLayerConfig, HwMixerAttributes, Layer,
}
use platform_hardware_qcom_d.Resource.{
  SourcePipe, ResourceDefault, DisplayResourceContext, new_source_pipe,
}
use platform_hardware_qcom_d.Resource.Scaling.{is_scaling_needed, set_decimation_factor}
use platform_hardware_qcom_d.Resource.Split.{config}
use platform_hardware_qcom_d.Resource.Pipes.{reset_pipes}
use platform_hardware_qcom_d.Resource.Prepare.{
  assign_single, assign_dual, reserve_pipes, prepare_layer, prepare_layers, prepare,
}
use platform_hardware_qcom_d.Resource.Ownership.{get_pipe-Moves, reset_pipes-Moves}
use platform_hardware_qcom_d.Resource.Isolation.{left_search, right_search, left_search-Moves}
use platform_hardware_qcom_d.Resource.Change.{Moves-indices, Calls-indices}
use platform_hardware_qcom_d.Resource.Reads.{
  length-indices, Moves-length, get_pipe-within, Calls-hw_res_info,
}
use platform_hardware_qcom_d.Resource.Calls.{Calls}
use platform_hardware_qcom_d.Resource.Init.{init, pipe_count}
use platform_hardware_qcom_d.Resource.Start.{init_inversion, init-Remade}

module _ {F : Type 0} ⦃fl : Float F⦄ where
  -- A configuration that Config accepts has a left pipe.
  config-valid :
      (info : HwResourceInfo) (m : HwMixerAttributes) (layer : Layer F) (c : HwLayerConfig F)
      → is_ok (config info m layer c).0 ≡ true
      → (config info m layer c).1.left_pipe.valid ≡ true
  unfolding config
  config-valid info m layer c h = ground arith

  assign_single-ne-none :
      (n i : ℕ) (c : HwLayerConfig F) (ps : List SourcePipe)
      → length ps ≡ n
      → assign_single n i c ps ≢ none
  unfolding assign_single
  assign_single-ne-none n i c ps l = λ e. ground (arith, get_elem?-ne-none ps i)

  assign_dual-ne-none :
      (info : HwResourceInfo) (i j : ℕ) (c : HwLayerConfig F) (ps : List SourcePipe)
      → i < length ps
      → j < length ps
      → assign_dual info i j c ps ≢ none
  unfolding assign_dual
  assign_dual-ne-none info i j c ps a b =
      λ e. ground (arith, get_elem?-ne-none ps i a, get_elem?-ne-none ps j b)

  right_search-length :
      (info : HwResourceInfo) (n : ℕ) (b : HwBlockType) (c : HwLayerConfig F) (ps : List SourcePipe)
      → (length (left_search info n b c ps).1 ≡ length ps)
        × (length (right_search info n b c ps).1 ≡ length ps)
  right_search-length info n b c ps =
      let left = left_search-Moves info n b c ps in
      let right =
        get_pipe-Moves info n b (is_scaling_needed c.right_pipe) (left_search info n b c ps).1 in
      (
        length-indices ps _ (Moves-indices left),
        length-indices ps _ (Moves-indices right ∙ Moves-indices left),
      )

  searches-within :
      (info : HwResourceInfo) (n : ℕ) (b : HwBlockType) (c : HwLayerConfig F) (ps : List SourcePipe)
      → pipe_count info ≤ length ps
      → ((left_search info n b c ps).2 ≡ false) × ((right_search info n b c ps).2 ≡ false)
  searches-within info n b c ps l =
      let reset = Moves-length (reset_pipes-Moves b ps) in
      let (left_length, _) = right_search-length info n b c ps in
      (
        ground (
          arith,
          get_pipe-within info n b (is_scaling_needed c.left_pipe) (reset_pipes b ps)
              (omega (arith, reset)),
        ),
        get_pipe-within info n b (is_scaling_needed c.right_pipe) (left_search info n b c ps).1
            (omega (arith, left_length)),
      )

  -- With a left pipe and a table of the right length that holds all the pipes of the hardware, the reservation ends with a result.
  reserve_pipes-ne-none :
      (info : HwResourceInfo) (n : ℕ) (b : HwBlockType) (c : HwLayerConfig F) (ps : List SourcePipe)
      → length ps ≡ n
      → pipe_count info ≤ length ps
      → c.left_pipe.valid ≡ true
      → reserve_pipes info n b c ps ≢ none
  unfolding reserve_pipes
  reserve_pipes-ne-none info n b c ps l all v = λ e.
      let c' : HwLayerConfig F = record c {
        left_pipe = (set_decimation_factor info c.left_pipe).1;
      } in
      let lengths = right_search-length info n b c ps in
      let within = searches-within info n b c ps all in
      ground (
        arith,
        assign_single-ne-none n (left_search info n b c ps).0 c' (left_search info n b c ps).1,
        assign_dual-ne-none info (left_search info n b c ps).0 (right_search info n b c ps).0 c'
            (right_search info n b c ps).1,
      )

  prepare_layer-ne-none :
      (info : HwResourceInfo) (n : ℕ) (ctx : DisplayResourceContext) (layer : Layer F)
      (c : HwLayerConfig F) (ps : List SourcePipe)
      → length ps ≡ n
      → pipe_count info ≤ length ps
      → prepare_layer info n ctx layer c ps ≢ none
  unfolding prepare_layer
  prepare_layer-ne-none info n ctx layer c ps l all = λ e. ground (
    arith,
    config-valid info ctx.mixer_attributes layer c,
    reserve_pipes-ne-none info n ctx.hw_block_type (config info ctx.mixer_attributes layer c).1 ps l
        all,
  )

  prepare_layers-ne-none :
      (info : HwResourceInfo) (n : ℕ) (ctx : DisplayResourceContext) (hl : HwLayers F)
      (layers : List (Layer F)) (ps : List SourcePipe)
      → length ps ≡ n
      → pipe_count info ≤ length ps
      → layers ≢ []
      → prepare_layers info n ctx hl layers ps ≢ none
  unfolding prepare_layers
  prepare_layers-ne-none info n ctx hl [] ps l all some_layer = absurd (some_layer refl)
  prepare_layers-ne-none info n ctx hl (x ∷ []) ps l all some_layer =
      prepare_layer-ne-none info n ctx x hl.config ps l all
  prepare_layers-ne-none info n ctx hl (x ∷ y ∷ rest) ps l all some_layer = λ e. cc

  -- After any calls on a resource manager that Init has set up, Prepare with a live handle and at
  -- least one layer ends with a result: no reset, search or index goes past the end of src_pipes_.
  pub prepare_total :
      (v : Bool) (info : HwResourceInfo) {s t : ResourceDefault} (h : ℕ) (hl : HwLayers F)
      → init v info ≡ some (error_none, s)
      → Calls fl s t
      → t.contexts h ≢ none
      → hl.layers ≢ []
      → prepare h hl t ≢ none
  unfolding prepare
  prepare_total v info {s} {t} h hl started calls live some_layer =
      let (e, n) = Calls-indices fl calls in
      let (_, _, _, m, same_pipes) = init_inversion v info s started in
      let l = (init-Remade v info s started).0 in
      let sized : length t.src_pipes ≡ t.num_pipe =
        length-indices s.src_pipes t.src_pipes e
        ∙ (l ∙ length-replicate (pipe_count info) new_source_pipe ∙ sym (n ∙ m)) in
      let all : pipe_count t.hw_res_info ≤ length t.src_pipes =
        rw (ap pipe_count (Calls-hw_res_info fl calls) ∙ same_pipes) (omega (arith, n, m, sized)) in
      elim (Option-cases (t.contexts h)) [
        | inl f ↦ absurd (live f)
        | inr (ctx, f) ↦ λ d. ground (
          arith,
          prepare_layers-ne-none t.hw_res_info t.num_pipe ctx hl hl.layers t.src_pipes sized all
              some_layer,
        )
      ]
