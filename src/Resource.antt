-- ===== src/Resource.antt =====
-- sdm/libs/core/resource_default.cpp and resource_default.h: the default resource manager, which
-- hands the source pipes of the display hardware out to displays. This file has its state; the
-- operations and the proofs are in the modules below.
pub mod Pipes
pub mod Scaling
pub mod Split
pub mod Prepare
pub mod Display
pub mod Init
pub mod Ownership
pub mod Isolation
pub mod Calls
pub mod Change
pub mod Splash
pub mod Start
pub mod Boot
pub mod Choice
pub mod Select
pub mod Reads
pub mod Total
pub mod Slots
pub mod Assign
pub mod Roundtrip
use platform_hardware_qcom_d.Base.{
  ℕ, ◌+◌, ◌≡◌, Bool, true, false, ◌&&◌, if◌then◌else◌, Option, none, some, List, Run, pure, ◌>>=◌,
  ◌>>◌, ◌==◌,
}
use platform_hardware_qcom_d.Types.{
  HwBlockType, PipeType, HwResourceInfo, HwDisplayAttributes, HwMixerAttributes, hw_block_max,
  block_eq, pipe_unused,
}

-- PipeOwner.
pub data PipeOwner : Type 0 where
  user_mode kernel_mode : PipeOwner

-- owner == kPipeOwnerUserMode.
abbrev pub is_user_mode : PipeOwner → Bool
is_user_mode user_mode = true
is_user_mode kernel_mode = false

-- SourcePipe. A priority is an index, so never negative.
pub record SourcePipe : Type 0 where
  pub pipe_type : PipeType
  pub owner : PipeOwner
  pub mdss_pipe_id : ℕ
  pub index : ℕ
  pub hw_block_type : HwBlockType
  pub priority : ℕ

-- SourcePipe().
abbrev pub new_source_pipe : SourcePipe
new_source_pipe = record {
  pipe_type = pipe_unused;
  owner = user_mode;
  mdss_pipe_id = 0;
  index = 0;
  hw_block_type = hw_block_max;
  priority = 0;
}

-- DisplayResourceContext, the object behind a display's handle.
pub record DisplayResourceContext : Type 0 where
  pub display_attributes : HwDisplayAttributes
  pub hw_block_type : HwBlockType
  pub frame_count : ℕ
  pub mixer_attributes : HwMixerAttributes

-- ResourceDefault. `is_in_use` is hw_block_ctx_, `contexts` the heap of the display contexts with
-- `next_handle` the next address, `locked` the state of locker_, and `closed` the descriptors
-- given to Sys::close_, the latest first.
pub record ResourceDefault : Type 0 where
  pub locked : Bool
  pub hw_res_info : HwResourceInfo
  pub is_in_use : HwBlockType → Bool
  pub src_pipes : List SourcePipe
  pub num_pipe : ℕ
  pub contexts : ℕ → Option DisplayResourceContext
  pub next_handle : ℕ
  pub closed : List ℕ

-- An entry of a table written anew.
abbrev pub update_context :
    (ℕ → Option DisplayResourceContext)
    → ℕ
    → Option DisplayResourceContext
    → ℕ
    → Option DisplayResourceContext
update_context f h c k = if h == k then c else f k

abbrev pub update_in_use : (HwBlockType → Bool) → HwBlockType → Bool → HwBlockType → Bool
update_in_use f b v k = if block_eq b k then v else f k

-- Lock waits for ever where the same thread holds the lock already.
unfoldable pub lock : Run ResourceDefault (Unit {0})
lock s = elim s.locked [ true ↦ none | false ↦ some (tt, record s { locked = true }) ]

unfoldable pub unlock : Run ResourceDefault (Unit {0})
unlock s = some (tt, record s { locked = false })

-- reinterpret_cast<DisplayResourceContext *>(display_ctx), read.
unfoldable pub context : ℕ → Run ResourceDefault DisplayResourceContext
context h s = elim (s.contexts h) [ none ↦ none | some c ↦ some (c, s) ]
