-- ===== src/Resource/Isolation.antt =====
-- Prepare of resource_default.cpp leaves the pipes of other displays and of the kernel alone.
use platform_hardware_qcom_d.Base.{
  ℕ, ◌≡◌, inl, inr, some, List, [], ◌∷◌, arith, Bool-cases, Option-cases, ◌⊎◌, if◌then◌else◌, false,
}
use platform_hardware_qcom_d.Base.Float.{Float}
use platform_hardware_qcom_d.Types.{
  DisplayError, HwBlockType, HwResourceInfo, HwLayers, HwLayerConfig, Layer,
}
use platform_hardware_qcom_d.Resource.{SourcePipe, ResourceDefault, DisplayResourceContext}
use platform_hardware_qcom_d.Resource.Pipes.{Searched, reset_pipes, get_pipe}
use platform_hardware_qcom_d.Resource.Scaling.{is_scaling_needed, set_decimation_factor}
use platform_hardware_qcom_d.Resource.Split.{config}
use platform_hardware_qcom_d.Resource.Prepare.{
  assign_single, assign_dual, reserve_pipes, prepare_layer, prepare_layers, prepare, Prepared,
}
use platform_hardware_qcom_d.Resource.Ownership.{
  Moves, Moves-refl, Moves-trans, reset_pipes-Moves, get_pipe-Moves,
}

module _ {F : Type 0} ⦃fl : Float F⦄ where
  assign_single-src_pipes :
      (n i : ℕ) (c : HwLayerConfig F) (ps : List SourcePipe) (r : Prepared F)
      → assign_single n i c ps ≡ some r
      → r.src_pipes ≡ ps
  unfolding assign_single
  assign_single-src_pipes n i c ps r h = ground arith

  pub assign_dual-src_pipes :
      (info : HwResourceInfo) (i j : ℕ) (c : HwLayerConfig F) (ps : List SourcePipe)
      (r : Prepared F)
      → assign_dual info i j c ps ≡ some r
      → r.src_pipes ≡ ps
  unfolding assign_dual
  assign_dual-src_pipes info i j c ps r h = ground arith

  -- The search for the left pipe, as reserve_pipes makes it.
  abbrev pub left_search :
      HwResourceInfo → ℕ → HwBlockType → HwLayerConfig F → List SourcePipe → Searched
  left_search info n b c ps =
      let free : List SourcePipe = reset_pipes b ps in
      if c.left_pipe.valid
      then get_pipe info n b (is_scaling_needed c.left_pipe) free
      else (n, free, false)

  abbrev pub right_search :
      HwResourceInfo → ℕ → HwBlockType → HwLayerConfig F → List SourcePipe → Searched
  right_search info n b c ps =
      get_pipe info n b (is_scaling_needed c.right_pipe) (left_search info n b c ps).1

  reserve_pipes-src_pipes :
      (info : HwResourceInfo) (n : ℕ) (b : HwBlockType) (c : HwLayerConfig F) (ps : List SourcePipe)
      (r : Prepared F)
      → reserve_pipes info n b c ps ≡ some r
      → (r.src_pipes ≡ (left_search info n b c ps).1)
        ⊎ (r.src_pipes ≡ (right_search info n b c ps).1)
  unfolding reserve_pipes
  reserve_pipes-src_pipes info n b c ps r h = ground (
    arith,
    assign_single-src_pipes n (left_search info n b c ps).0
        (record c { left_pipe = (set_decimation_factor info c.left_pipe).1 })
        (left_search info n b c ps).1 r,
    assign_dual-src_pipes info (left_search info n b c ps).0 (right_search info n b c ps).0
        (record c { left_pipe = (set_decimation_factor info c.left_pipe).1 })
        (right_search info n b c ps).1 r,
  )

  pub left_search-Moves :
      (info : HwResourceInfo) (n : ℕ) (b : HwBlockType) (c : HwLayerConfig F) (ps : List SourcePipe)
      → Moves b ps (left_search info n b c ps).1
  left_search-Moves info n b c ps =
      Moves-trans (reset_pipes-Moves b ps) (elim (Bool-cases c.left_pipe.valid) [
        | inl e ↦ rw e (get_pipe-Moves info n b _ (reset_pipes b ps))
        | inr e ↦ rw e (Moves-refl b (reset_pipes b ps))
      ])

  reserve_pipes-Moves :
      (info : HwResourceInfo) (n : ℕ) (b : HwBlockType) (c : HwLayerConfig F) (ps : List SourcePipe)
      (r : Prepared F)
      → reserve_pipes info n b c ps ≡ some r
      → Moves b ps r.src_pipes
  reserve_pipes-Moves info n b c ps r h = elim (reserve_pipes-src_pipes info n b c ps r h) [
    | inl e ↦ rw e (left_search-Moves info n b c ps)
    | inr e ↦ rw e (Moves-trans (left_search-Moves info n b c ps) (get_pipe-Moves info n b _ _))
  ]

  prepare_layer-Moves :
      (info : HwResourceInfo) (n : ℕ) (ctx : DisplayResourceContext) (layer : Layer F)
      (c : HwLayerConfig F) (ps : List SourcePipe) (r : Prepared F)
      → prepare_layer info n ctx layer c ps ≡ some r
      → Moves ctx.hw_block_type ps r.src_pipes
  unfolding prepare_layer
  prepare_layer-Moves info n ctx layer c ps r h = ground (
    arith,
    Moves-refl ctx.hw_block_type ps,
    reserve_pipes-Moves info n ctx.hw_block_type (config info ctx.mixer_attributes layer c).1 ps r,
  )

  prepare_layers-Moves :
      (info : HwResourceInfo) (n : ℕ) (ctx : DisplayResourceContext) (hl : HwLayers F)
      (layers : List (Layer F)) (ps : List SourcePipe) (r : Prepared F)
      → prepare_layers info n ctx hl layers ps ≡ some r
      → Moves ctx.hw_block_type ps r.src_pipes
  unfolding prepare_layers
  prepare_layers-Moves info n ctx hl [] ps r h = cc
  prepare_layers-Moves info n ctx hl (l ∷ []) ps r h =
      prepare_layer-Moves info n ctx l hl.config ps r h
  prepare_layers-Moves info n ctx hl (l ∷ m ∷ rest) ps r h =
      ground (arith, Moves-refl ctx.hw_block_type ps)

  -- A call of Prepare that does not fault, taken apart.
  pub prepare_inversion :
      (h : ℕ) (hl hl' : HwLayers F) (s s' : ResourceDefault) (e : DisplayError)
      → prepare h hl s ≡ some ((e, hl'), s')
      → (ctx : DisplayResourceContext) × (r : Prepared F) × (s.contexts h ≡ some ctx)
        × (prepare_layers s.hw_res_info s.num_pipe ctx hl hl.layers s.src_pipes ≡ some r)
        × (s' ≡ record s { src_pipes = r.src_pipes })
        × (e ≡ r.error)
        × (hl' ≡ record hl { config = r.config })
  unfolding prepare
  prepare_inversion h hl hl' s s' e done = elim (Option-cases (s.contexts h)) [
    | inl f ↦ ground arith
    | inr (ctx, f) ↦
        elim (Option-cases (prepare_layers s.hw_res_info s.num_pipe ctx hl hl.layers s.src_pipes)) [
          | inl g ↦ ground arith
          | inr (r, g) ↦ (ctx, r, f, g, ground arith, ground arith, ground arith)
        ]
  ]

  -- Prepare for a display changes no field of the resource manager but the source pipes, and of
  -- these only user-mode pipes that are free or that the display's block holds: such a pipe is
  -- reserved for the block, released, or kept as it is, and every other pipe is kept as it is.
  pub prepare-Moves :
      (h : ℕ) (hl hl' : HwLayers F) (s s' : ResourceDefault) (ctx : DisplayResourceContext)
      (e : DisplayError)
      → s.contexts h ≡ some ctx
      → prepare h hl s ≡ some ((e, hl'), s')
      → Moves ctx.hw_block_type s.src_pipes s'.src_pipes
        × (s' ≡ record s { src_pipes = s'.src_pipes })
  prepare-Moves h hl hl' s s' ctx e found done =
      let (ctx', r, f, g, k, _, _) = prepare_inversion h hl hl' s s' e done in
      let same : ctx' ≡ ctx = cc in
      let moves : Moves ctx.hw_block_type s.src_pipes r.src_pipes =
        rw same at
          (prepare_layers-Moves s.hw_res_info s.num_pipe ctx' hl hl.layers s.src_pipes r g) in
      (rw k moves, rw k)
