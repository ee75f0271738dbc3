-- ===== src/Resource/Display.antt =====
-- resource_default.cpp: registering displays, and the operations on a registered one besides
-- Prepare.
use platform_hardware_qcom_d.Base.{
  ℕ, ◌+◌, ◌%◌, ◌^◌, Bool, true, false, ◌&&◌, if◌then◌else◌, Option, none, some, List, map, ◌∷◌, Run,
  pure, ◌>>=◌, ◌>>◌, ◌==◌,
}
use platform_hardware_qcom_d.Base.Int.{ℤ, pos, negsuc}
use platform_hardware_qcom_d.Types.{
  DisplayError, error_none, error_parameters, error_resources, error_not_supported, DisplayType,
  primary, hdmi, HwBlockType, hw_primary, hw_hdmi, block_eq, HwDisplayAttributes, HwMixerAttributes,
}
use platform_hardware_qcom_d.Resource.{
  SourcePipe, user_mode, is_user_mode, DisplayResourceContext, ResourceDefault, update_context,
  update_in_use, lock, unlock,
}
use platform_hardware_qcom_d.Resource.Pipes.{reset_pipes}

-- SCOPE_LOCK(locker_) around a body.
unfoldable pub scope_lock : {A : Type 0} → Run ResourceDefault A → Run ResourceDefault A
unfolding lock unlock
scope_lock body = do lock; a ← body; unlock; pure a

-- The switch of RegisterDisplay: the block of a display type, where the type has one.
unfoldable pub block_of : DisplayType → Option HwBlockType
block_of primary = some hw_primary
block_of hdmi = some hw_hdmi
block_of _ = none

-- The rest of RegisterDisplay: the result, and the new handle where it succeeds.
unfoldable pub register_block :
    HwBlockType
    → HwDisplayAttributes
    → HwMixerAttributes
    → Run ResourceDefault (DisplayError × Option ℕ)
register_block b attributes mixer s =
    let ctx : DisplayResourceContext = record {
      display_attributes = attributes;
      hw_block_type = b;
      frame_count = 0;
      mixer_attributes = mixer;
    } in
    if s.is_in_use b
    then some ((error_resources, none), s)
    else some (
      (error_none, some s.next_handle),
      record s {
        is_in_use = update_in_use s.is_in_use b true;
        contexts = update_context s.contexts s.next_handle (some ctx);
        next_handle = s.next_handle + 1;
      },
    )

-- RegisterDisplay.
unfoldable pub register_display :
    DisplayType
    → HwDisplayAttributes
    → HwMixerAttributes
    → Run ResourceDefault (DisplayError × Option ℕ)
unfolding register_block block_of
register_display type attributes mixer s = elim (block_of type) [
  | none ↦ some ((error_parameters, none), s)
  | some b ↦ register_block b attributes mixer s
]

-- The body of Purge.
unfoldable pub purge_pipes : ℕ → Run ResourceDefault (Unit {0})
purge_pipes h s = elim (s.contexts h) [
  | none ↦ none
  | some ctx ↦ some (tt, record s { src_pipes = reset_pipes ctx.hw_block_type s.src_pipes })
]

-- Purge.
unfoldable pub purge : ℕ → Run ResourceDefault (Unit {0})
unfolding scope_lock purge_pipes
purge h = scope_lock (purge_pipes h)

-- UnregisterDisplay, after its Purge: the block is free again and the context is deleted.
unfoldable pub delete_context : ℕ → Run ResourceDefault DisplayError
delete_context h s = elim (s.contexts h) [
  | none ↦ none
  | some ctx ↦ some (
    error_none,
    record s {
      is_in_use = update_in_use s.is_in_use ctx.hw_block_type false;
      contexts = update_context s.contexts h none;
    },
  )
]

-- UnregisterDisplay.
unfoldable pub unregister_display : ℕ → Run ResourceDefault DisplayError
unfolding purge delete_context
unregister_display h = do purge h; delete_context h

-- The body of ReconfigureDisplay.
unfoldable pub set_attributes :
    ℕ → HwDisplayAttributes → HwMixerAttributes → Run ResourceDefault DisplayError
set_attributes h attributes mixer s = elim (s.contexts h) [
  | none ↦ none
  | some ctx ↦
      let ctx' : DisplayResourceContext = record ctx {
        display_attributes = attributes;
        mixer_attributes = mixer;
      } in
      some (error_none, record s { contexts = update_context s.contexts h (some ctx') })
]

-- ReconfigureDisplay.
unfoldable pub reconfigure_display :
    ℕ → HwDisplayAttributes → HwMixerAttributes → Run ResourceDefault DisplayError
unfolding scope_lock set_attributes
reconfigure_display h attributes mixer = scope_lock (set_attributes h attributes mixer)

-- Start and Stop: the lock is held from the one to the other.
unfoldable pub start : ℕ → Run ResourceDefault DisplayError
unfolding lock
start h = do lock; pure error_none

unfoldable pub stop : ℕ → Run ResourceDefault DisplayError
unfolding unlock
stop h = do unlock; pure error_none

-- PostPrepare, Commit and SetMaxMixerStages: they take the lock and give it back.
unfoldable pub post_prepare : ℕ → Run ResourceDefault DisplayError
unfolding scope_lock
post_prepare h = scope_lock (pure error_none)

unfoldable pub commit : ℕ → Run ResourceDefault DisplayError
unfolding scope_lock
commit h = scope_lock (pure error_none)

unfoldable pub set_max_mixer_stages : ℕ → ℕ → Run ResourceDefault DisplayError
unfolding scope_lock
set_max_mixer_stages h max_mixer_stages = scope_lock (pure error_none)

-- The hand-off of PostCommit: a kernel pipe of the block becomes a user pipe.
unfoldable pub hand_off : HwBlockType → SourcePipe → SourcePipe
hand_off b p =
    if block_eq p.hw_block_type b && (if is_user_mode p.owner then false else true)
    then record p { owner = user_mode }
    else p

-- Sys::close_ where the sync handle is no negative number.
abbrev close_sync : ℤ → List ℕ → List ℕ
close_sync (pos fd) closed = fd ∷ closed
close_sync (negsuc _) closed = closed

-- The body of PostCommit. frame_count is a uint64_t.
unfoldable pub finish_frame : ℕ → ℤ → Run ResourceDefault DisplayError
unfolding hand_off
finish_frame h sync_handle s = elim (s.contexts h) [
  | none ↦ none
  | some ctx ↦
      let first : Bool = ctx.frame_count == 0 && block_eq ctx.hw_block_type hw_primary in
      let ctx' : DisplayResourceContext = record ctx {
        frame_count = (ctx.frame_count + 1) % 2 ^ 64;
      } in
      some (
        error_none,
        record s {
          src_pipes = if first then map (hand_off ctx.hw_block_type) s.src_pipes else s.src_pipes;
          closed = close_sync sync_handle s.closed;
          contexts = update_context s.contexts h (some ctx');
        },
      )
]

-- PostCommit.
unfoldable pub post_commit : ℕ → ℤ → Run ResourceDefault DisplayError
unfolding scope_lock finish_frame
post_commit h sync_handle = scope_lock (finish_frame h sync_handle)

-- ValidateAndSetCursorPosition, SetMaxBandwidthMode and SetDetailEnhancerData are not supported.
unfoldable pub validate_and_set_cursor_position : DisplayError
validate_and_set_cursor_position = error_not_supported

unfoldable pub set_max_bandwidth_mode : DisplayError
set_max_bandwidth_mode = error_not_supported

unfoldable pub set_detail_enhancer_data : DisplayError
set_detail_enhancer_data = error_not_supported

-- GetScaleLutConfig and Perform do nothing.
unfoldable pub get_scale_lut_config : DisplayError
get_scale_lut_config = error_none

unfoldable pub perform : DisplayError
perform = error_none
