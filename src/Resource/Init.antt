-- ===== src/Resource/Init.antt =====
-- resource_default.cpp: how the table of source pipes is set up from the pipes of the hardware.
use platform_hardware_qcom_d.Base.{
  ℕ, zero, suc, ◌+◌, Bool, true, false, ◌||◌, if◌then◌else◌, Option, none, some, List, [], ◌∷◌, ltb,
  ◌==◌, replicate,
}
use platform_hardware_qcom_d.Types.{
  DisplayError, error_none, error_parameters, is_ok, PipeType, pipe_vig, pipe_rgb, pipe_dma,
  HwPipeCaps, HwResourceInfo,
}
use platform_hardware_qcom_d.Resource.{kernel_mode, SourcePipe, new_source_pipe, ResourceDefault}

-- src_pipes_[i] changed; none past the end of the vector.
unfoldable pub modify : ℕ → (SourcePipe → SourcePipe) → List SourcePipe → Option (List SourcePipe)
modify i f [] = none
modify zero f (p ∷ ps) = some (f p ∷ ps)
modify (suc i) f (p ∷ ps) = elim (modify i f ps) [ none ↦ none | some qs ↦ some (p ∷ qs) ]

-- The counters of the loop in Init.
pub record PipeCursor : Type 0 where
  pub vig_index : ℕ
  pub rgb_index : ℕ
  pub dma_index : ℕ

abbrev pub bound_pipe : PipeType → ℕ → ℕ → SourcePipe → SourcePipe
bound_pipe type i id p = record p { pipe_type = type; index = i; mdss_pipe_id = id }

-- One round of the loop: the pipe goes to the next slot of its type.
unfoldable pub place_pipe :
    ℕ → PipeType → ℕ → PipeCursor → List SourcePipe → Option (PipeCursor × List SourcePipe)
place_pipe i pipe_vig id c ps = elim (modify c.vig_index (bound_pipe pipe_vig i id) ps) [
  | none ↦ none
  | some qs ↦ some (record c { vig_index = c.vig_index + 1 }, qs)
]
place_pipe i pipe_rgb id c ps = elim (modify c.rgb_index (bound_pipe pipe_rgb i id) ps) [
  | none ↦ none
  | some qs ↦ some (record c { rgb_index = c.rgb_index + 1 }, qs)
]
place_pipe i pipe_dma id c ps = elim (modify c.dma_index (bound_pipe pipe_dma i id) ps) [
  | none ↦ none
  | some qs ↦ some (record c { dma_index = c.dma_index + 1 }, qs)
]
place_pipe i _ id c ps = some (c, ps)

-- The loop of Init over `rounds` pipes of the hardware from index `i` on; none where hw_pipes is
-- too short (vector::at) or a slot lies past the end.
unfoldable pub place_pipes :
    ℕ → ℕ → List HwPipeCaps → PipeCursor → List SourcePipe → Option (List SourcePipe)
place_pipes zero i caps c ps = some ps
place_pipes (suc rounds) i [] c ps = none
place_pipes (suc rounds) i (cap ∷ caps) c ps = elim (place_pipe i cap.pipe_type cap.id c ps) [
  | none ↦ none
  | some (c', qs) ↦ place_pipes rounds (i + 1) caps c' qs
]

-- The priorities of Init.
unfoldable pub set_priorities : ℕ → List SourcePipe → List SourcePipe
set_priorities i [] = []
set_priorities i (p ∷ ps) = record p { priority = i } ∷ set_priorities (i + 1) ps

-- The two pipes that show the splash screen belong to the kernel.
abbrev pub keep_for_kernel : SourcePipe → SourcePipe
keep_for_kernel p = record p { owner = kernel_mode }

unfoldable pub keep_splash : Bool → ℕ → List SourcePipe → Option (List SourcePipe)
keep_splash true rgb_index ps = some ps
keep_splash false rgb_index ps = elim (modify rgb_index keep_for_kernel ps) [
  | none ↦ none
  | some qs ↦ modify (rgb_index + 1) keep_for_kernel qs
]

-- The object that the constructor leaves; the address 0 is NULL.
unfoldable pub new_resource_default : HwResourceInfo → ResourceDefault
new_resource_default info = record {
  locked = false;
  hw_res_info = info;
  is_in_use = λ b. false;
  src_pipes = [];
  num_pipe = 0;
  contexts = λ h. none;
  next_handle = 1;
  closed = [];
}

-- num_pipe_, and the counters at the start of the loop.
abbrev pub pipe_count : HwResourceInfo → ℕ
pipe_count info = info.num_vig_pipe + info.num_rgb_pipe + info.num_dma_pipe

abbrev pub first_cursor : HwResourceInfo → PipeCursor
first_cursor info = record {
  vig_index = 0;
  rgb_index = info.num_vig_pipe;
  dma_index = info.num_vig_pipe + info.num_rgb_pipe;
}

-- Init. `virtual_driver` tells whether SDM_VIRTUAL_DRIVER is defined.
unfoldable pub init : Bool → HwResourceInfo → Option (DisplayError × ResourceDefault)
init virtual_driver info =
    let num_pipe : ℕ = pipe_count info in
    let rgb_index : ℕ = info.num_vig_pipe in
    let info' : HwResourceInfo =
      if ltb info.max_scale_down 1 || ltb info.max_scale_up 1
      then record info { max_scale_down = 1; max_scale_up = 1 }
      else info in
    let fresh : ResourceDefault = new_resource_default info in
    if num_pipe == 0
    then some (error_parameters, fresh)
    else elim (place_pipes num_pipe 0 info.hw_pipes (first_cursor info)
        (replicate num_pipe new_source_pipe)) [
          | none ↦ none
          | some ps ↦ elim (keep_splash virtual_driver rgb_index (set_priorities 0 ps)) [
            | none ↦ none
            | some qs ↦ some (
              error_none,
              record fresh { num_pipe = num_pipe; src_pipes = qs; hw_res_info = info' },
            )
          ]
        ]

-- CreateResourceDefault: the result, and the object that *resource_intf points to, which is none
-- where it has been deleted.
unfoldable pub create_resource_default :
    Bool → HwResourceInfo → Option (DisplayError × Option ResourceDefault)
unfolding init
create_resource_default virtual_driver info = elim (init virtual_driver info) [
  | none ↦ none
  | some (error, s) ↦ some (error_none, if is_ok error then some s else none)
]
