-- ===== src/Gralloc/Allocator.antt =====
-- gr_allocator.cpp: the format, the cache policy and the heap that a usage asks for, and whether
-- buffers can share one allocation.
use Prim.Native.Nat.{bit_and, bit_or}
use platform_hardware_qcom_d.Base.{
  ℕ, suc, Bool, true, false, not, ◌&&◌, ◌||◌, if◌then◌else◌, ◌+◌, ◌==◌, Option, none, some, List,
  [], ◌∷◌, ltb,
}
use platform_hardware_qcom_d.Gralloc.Dimensions.{Environment, get_aligned_width_and_height}
use platform_hardware_qcom_d.Gralloc.Size.{get_size}
use platform_hardware_qcom_d.Gralloc.Formats.{is_rare}
use platform_hardware_qcom_d.Gralloc.Descriptor.{BufferDescriptor}
use platform_hardware_qcom_d.Gralloc.{
  PixelFormat, rgba_8888, ycbcr_420_sp_venus, nv12_encodeable, nv21_encodeable,
  ycbcr_420_sp_venus_ubwc, ycrcb_420_sp, ycrcb_420_sp_venus, nv21_zsl, ycbcr_420_tp10_ubwc,
  ycbcr_420_p010_ubwc, ycbcr_420_p010_venus, implementation_defined, ycbcr_420_888, Usage,
  BufferInfo, BuildOptions,
}

-- The heaps of a mask of ION_HEAP bits.
pub record HeapMask : Type 0 where
  pub secure_heap : Bool
  pub secure_display_heap : Bool
  pub cp_mm_heap : Bool
  pub adsp_heap : Bool
  pub system_heap : Bool

-- What the headers outside the repository fix: the meaning of a format's number and of a usage,
-- and the words of the ION flags. Of these the code takes 0 for ION_FLAG_CP_PIXEL,
-- ION_FLAG_ALLOW_NON_CONTIG and ION_FLAG_CP_CAMERA_PREVIEW where a header does not have them.
pub record Headers : Type 0 where
  pub pixel_format : ℕ → PixelFormat
  pub usage_bits : ℕ → Usage
  pub ion_secure : ℕ
  pub ion_flag_cp_pixel : ℕ
  pub ion_flag_cp_sec_display : ℕ
  pub ion_flag_cp_camera : ℕ
  pub ion_flag_cp_camera_preview : ℕ
  pub ion_flag_allow_non_contig : ℕ

-- ION_CP_FLAGS, ION_SD_FLAGS, ION_SC_FLAGS and ION_SC_PREVIEW_FLAGS, with MASTER_SIDE_CP and without.
unfoldable pub ion_cp_flags : Headers → Bool → ℕ
ion_cp_flags headers true = bit_or headers.ion_secure headers.ion_flag_cp_pixel
ion_cp_flags headers false = bit_or headers.ion_secure headers.ion_flag_allow_non_contig

unfoldable pub ion_sd_flags : Headers → Bool → ℕ
ion_sd_flags headers true = bit_or headers.ion_secure headers.ion_flag_cp_sec_display
ion_sd_flags headers false = headers.ion_secure

unfoldable pub ion_sc_flags : Headers → Bool → ℕ
ion_sc_flags headers true = bit_or headers.ion_secure headers.ion_flag_cp_camera
ion_sc_flags headers false = headers.ion_secure

unfoldable pub ion_sc_preview_flags : Headers → Bool → ℕ
ion_sc_preview_flags headers true = bit_or headers.ion_secure headers.ion_flag_cp_camera_preview
ion_sc_preview_flags headers false = headers.ion_secure

-- flags & ION_SECURE.
unfoldable pub has_ion_secure : Headers → ℕ → Bool
has_ion_secure headers flags = not (bit_and flags headers.ion_secure == 0)

-- The results of GetIonHeapInfo; alloc_type is the flag PRIV_FLAGS_SECURE_BUFFER.
pub record HeapInfo : Type 0 where
  pub heap_id : HeapMask
  pub secure_buffer : Bool
  pub ion_flags : ℕ

abbrev pub no_heap : HeapMask
no_heap = record {
  secure_heap = false;
  secure_display_heap = false;
  cp_mm_heap = false;
  adsp_heap = false;
  system_heap = false;
}

abbrev bit : Bool → ℕ → ℕ
bit true n = n
bit false n = 0

-- The mask as a number.
unfoldable pub heap_code : HeapMask → ℕ
heap_code mask =
    bit mask.secure_heap 1
    + bit mask.secure_display_heap 2
    + bit mask.cp_mm_heap 4
    + bit mask.adsp_heap 8
    + bit mask.system_heap 16

-- ION_HEAP(SD_HEAP_ID) and ION_HEAP(CP_HEAP_ID).
abbrev sd_heap : Bool → HeapMask
sd_heap true = record no_heap { secure_display_heap = true }
sd_heap false = record no_heap { cp_mm_heap = true }

abbrev cp_heap : Bool → HeapMask
cp_heap true = record no_heap { secure_heap = true }
cp_heap false = record no_heap { cp_mm_heap = true }

-- The heap and the flags that GetIonHeapInfo takes for a protected usage.
unfoldable pub protected_heap : Headers → Bool → Usage → HeapMask × ℕ
unfolding ion_cp_flags ion_sd_flags ion_sc_flags ion_sc_preview_flags
protected_heap headers master usage =
    if usage.gralloc_protected
    then (if usage.secure_display
        then (sd_heap master, ion_sd_flags headers master)
        else if usage.camera_output
        then (
          sd_heap master,
          if usage.composer_overlay
              then ion_sc_preview_flags headers master
              else ion_sc_flags headers master,
        )
        else (cp_heap master, ion_cp_flags headers master))
    else (no_heap, 0)

-- heap_id |= the heap of the sensors.
unfoldable pub add_sensor_heap : Bool → Usage → HeapMask → HeapMask
add_sensor_heap use_system_heap usage mask =
    if usage.sensor_direct_data
    then (if use_system_heap
        then record mask { system_heap = true }
        else record mask { adsp_heap = true })
    else mask

-- GetIonHeapInfo.
unfoldable pub get_ion_heap_info : Headers → Bool → Bool → Usage → HeapInfo
unfolding protected_heap add_sensor_heap heap_code has_ion_secure
get_ion_heap_info headers master use_system_heap usage =
    let (heap, flags) = protected_heap headers master usage in
    let mask = add_sensor_heap use_system_heap usage heap in
    record {
      heap_id = if heap_code mask == 0 then record no_heap { system_heap = true } else mask;
      secure_buffer = has_ion_secure headers flags;
      ion_flags = flags;
    }

-- UseUncached.
unfoldable pub use_uncached : Usage → Bool
use_uncached usage =
    usage.uncached
    || usage.protected
    || is_rare usage.cpu_read
    || is_rare usage.cpu_write
    || usage.sensor_direct_data
    || usage.gpu_data_buffer

abbrev is_flexible_yuv : PixelFormat → Bool
is_flexible_yuv ycbcr_420_888 = true
is_flexible_yuv _ = false

abbrev pub is_deferred : PixelFormat → Bool
is_deferred implementation_defined = true
is_deferred ycbcr_420_888 = true
is_deferred _ = false

-- The NV21 or NV12 preview format that the build chooses.
unfoldable pub preview_format : BuildOptions → PixelFormat
preview_format options =
    if options.use_ycrcb_camera_preview
    then ycrcb_420_sp
    else if options.use_ycrcb_camera_preview_venus
    then ycrcb_420_sp_venus
    else ycbcr_420_sp_venus

-- The choice by the usage, for a format that is left to gralloc.
unfoldable pub choose_format : BuildOptions → Usage → PixelFormat → PixelFormat
unfolding preview_format
choose_format options usage format =
    if usage.alloc_ubwc
    then (if usage.private_10bit_tp
        then ycbcr_420_tp10_ubwc
        else if usage.private_10bit
        then ycbcr_420_p010_ubwc
        else ycbcr_420_sp_venus_ubwc)
    else if usage.private_10bit
    then ycbcr_420_p010_venus
    else if usage.video_encoder
    then (if usage.nv21_encoder then nv21_encodeable else nv12_encodeable)
    else if usage.camera_input
    then (if usage.camera_output then nv21_zsl else ycrcb_420_sp)
    else if usage.camera_output
    then (if is_flexible_yuv format then nv21_zsl else preview_format options)
    else if usage.composer_overlay
    then rgba_8888
    else if is_flexible_yuv format
    then nv21_zsl
    else format

-- GetImplDefinedFormat.
unfoldable pub get_impl_defined_format : BuildOptions → Usage → PixelFormat → PixelFormat
unfolding choose_format
get_impl_defined_format options usage format =
    if is_deferred format then choose_format options usage format else format

-- GetBufferInfo: the format as the client gave it, and one layer.
unfoldable pub get_buffer_info : Headers → BufferDescriptor → BufferInfo
get_buffer_info headers d = record {
  width = d.width;
  height = d.height;
  format = headers.pixel_format d.format;
  layer_count = 1;
  usage = headers.usage_bits d.usage;
}

-- The three comparisons of CheckForBufferSharing.
unfoldable pub same_heap_info : HeapInfo → HeapInfo → Bool
unfolding heap_code
same_heap_info a b =
    (heap_code a.heap_id == heap_code b.heap_id)
    && (if a.secure_buffer then b.secure_buffer else not b.secure_buffer)
    && (a.ion_flags == b.ion_flags)

module _ {M : Type 0} (headers : Headers) (env : Environment M) (use_system_heap : Bool) where
  -- The heap of a descriptor, and the size that its own dimensions ask for.
  unfoldable pub descriptor_heap : BufferDescriptor → HeapInfo
  unfolding get_ion_heap_info
  descriptor_heap d =
      get_ion_heap_info headers env.options.master_side_cp use_system_heap
        (headers.usage_bits d.usage)

  -- A dimension below 0, which a descriptor holds as a word of 2 ^ 31 or more, is outside the model:
  -- the code halves and aligns it as an int.
  unfoldable pub descriptor_size : BufferDescriptor → ℕ
  unfolding get_buffer_info get_aligned_width_and_height get_size
  descriptor_size d =
      let info = get_buffer_info headers d in
      let (w, h) = get_aligned_width_and_height env info in get_size env info w h

  -- The loop of CheckForBufferSharing from descriptor i on, after the heap of descriptor i - 1;
  -- max_index is none for -1.
  unfoldable pub sharing_loop :
      List BufferDescriptor → ℕ → Option HeapInfo → Option ℕ → ℕ → Bool × Option ℕ
  unfolding descriptor_heap descriptor_size same_heap_info
  sharing_loop [] i previous max_index max_size = (true, max_index)
  sharing_loop (d ∷ rest) i previous max_index max_size =
      let bigger = ltb max_size (descriptor_size d) in
      let next =
        sharing_loop rest (suc i) (some (descriptor_heap d)) (if bigger then some i else max_index)
          (if bigger then descriptor_size d else max_size) in
      elim previous [
        | none ↦ next
        | some heap ↦ if same_heap_info (descriptor_heap d) heap then next else (false, max_index)
      ]

  -- CheckForBufferSharing, of the descriptors that num_descriptors counts: its result and *max_index.
  unfoldable pub check_for_buffer_sharing : List BufferDescriptor → Bool × Option ℕ
  unfolding sharing_loop
  check_for_buffer_sharing descriptors = sharing_loop descriptors 0 none none 0
