-- ===== src/Resource/Pipes.antt =====
-- resource_default.cpp: how a free source pipe is searched for and reserved.
use platform_hardware_qcom_d.Base.{
  ℕ, zero, suc, ◌+◌, Bool, true, false, ◌&&◌, ◌||◌, not, if◌then◌else◌, List, [], ◌∷◌, map, leb,
}
use platform_hardware_qcom_d.Types.{
  HwBlockType, PipeType, HwResourceInfo, hw_block_max, block_eq, pipe_vig, pipe_rgb, pipe_dma,
}
use platform_hardware_qcom_d.Resource.{SourcePipe, is_user_mode}

-- The test of SearchPipe.
unfoldable pub is_free : SourcePipe → Bool
is_free p = is_user_mode p.owner && block_eq p.hw_block_type hw_block_max

-- ResetState on the pipes that a display block holds in user mode.
unfoldable pub reset_pipe : HwBlockType → SourcePipe → SourcePipe
reset_pipe b p =
    if block_eq p.hw_block_type b && is_user_mode p.owner
    then record p { hw_block_type = hw_block_max }
    else p

unfoldable pub reset_pipes : HwBlockType → List SourcePipe → List SourcePipe
unfolding reset_pipe
reset_pipes b = map (reset_pipe b)

-- What a search gives: the index, the pipes that it leaves, and whether it has read past the end of
-- src_pipes_, which has no defined outcome: the caller of the search faults then.
abbrev pub Searched : Type 0
Searched = ℕ × List SourcePipe × Bool

-- SearchPipe over the first `num` pipes of the list: the index field of the first free one, which
-- it reserves, or `none_found`, which is num_pipe_.
unfoldable pub search_pipe : ℕ → HwBlockType → ℕ → List SourcePipe → Searched
search_pipe none_found b zero ps = (none_found, ps, false)
search_pipe none_found b (suc num) [] = (none_found, [], true)
search_pipe none_found b (suc num) (p ∷ ps) =
    let rest : Searched = search_pipe none_found b num ps in
    if is_free p
    then (p.index, record p { hw_block_type = b } ∷ ps, false)
    else (rest.0, p ∷ rest.1, rest.2)

-- SearchPipe over `num` pipes from &src_pipes_[first] on.
unfoldable pub search_pipe_from : ℕ → ℕ → HwBlockType → ℕ → List SourcePipe → Searched
unfolding search_pipe
search_pipe_from zero none_found b num ps = search_pipe none_found b num ps
search_pipe_from (suc first) none_found b num [] = (none_found, [], true)
search_pipe_from (suc first) none_found b num (p ∷ ps) =
    let rest : Searched = search_pipe_from first none_found b num ps in (rest.0, p ∷ rest.1, rest.2)

-- NextPipe: the segment of src_pipes_ that holds the pipes of a type.
unfoldable pub next_pipe : HwResourceInfo → ℕ → PipeType → HwBlockType → List SourcePipe → Searched
next_pipe info num_pipe pipe_vig b ps = search_pipe_from 0 num_pipe b info.num_vig_pipe ps
next_pipe info num_pipe pipe_rgb b ps =
    search_pipe_from info.num_vig_pipe num_pipe b info.num_rgb_pipe ps
next_pipe info num_pipe _ b ps =
    search_pipe_from (info.num_vig_pipe + info.num_rgb_pipe) num_pipe b info.num_dma_pipe ps

-- One step of GetPipe: search a class of pipes where `wanted` and nothing is found yet.
unfoldable pub try_pipe : HwResourceInfo → ℕ → HwBlockType → PipeType → Bool → Searched → Searched
try_pipe info num_pipe b type wanted found =
    let next : Searched = next_pipe info num_pipe type b found.1 in
    if leb num_pipe found.0 && wanted then (next.0, next.1, found.2 || next.2) else found

-- GetPipe: DMA pipes for a layer that needs no scaling, then RGB pipes, then VIG pipes.
unfoldable pub get_pipe : HwResourceInfo → ℕ → HwBlockType → Bool → List SourcePipe → Searched
get_pipe info num_pipe b need_scale ps =
    let dma : Searched = try_pipe info num_pipe b pipe_dma (not need_scale) (num_pipe, ps, false) in
    let rgb : Searched =
      try_pipe info num_pipe b pipe_rgb (not need_scale || not info.has_non_scalar_rgb) dma in
    try_pipe info num_pipe b pipe_vig true rgb
