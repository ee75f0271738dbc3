-- ===== src/Gralloc/Policy.antt =====
-- gr_allocator.cpp and gr_utils.cpp: what the policies of formats, compression and heaps guarantee.
use platform_hardware_qcom_d.Base.{Bool, true, false, ◌≡◌, ◌≢◌, refl, ◌⊎◌, arith}
use Prim.Native.Nat.{ℕ, bit_or}
use platform_hardware_qcom_d.Base.Bits.{zero-bit_and, bit_or-absorb, bit_and_self}
use platform_hardware_qcom_d.Gralloc.Formats.{
  is_ubwc_format, is_yuv_format, is_ubwc_supported, cpu_can_access,
}
use platform_hardware_qcom_d.Gralloc.Dimensions.{Environment, is_ubwc_enabled}
use platform_hardware_qcom_d.Gralloc.Allocator.{
  Headers, has_ion_secure, ion_cp_flags, ion_sd_flags, ion_sc_flags, ion_sc_preview_flags,
  is_deferred, get_impl_defined_format, choose_format, get_ion_heap_info, heap_code, preview_format,
  protected_heap, add_sensor_heap,
}
use platform_hardware_qcom_d.Gralloc.{PixelFormat, rgba_8888, ycbcr_420_888, Usage, BuildOptions}

-- A format that the client chose itself is kept. One that gralloc chose is final: choosing again
-- with the same usage changes nothing. The flexible YUV format is never left as it is: it becomes a
-- YUV format, or RGBA_8888.
pub get_impl_defined_format_lem :
    (options : BuildOptions) (usage : Usage) (format : PixelFormat)
    → (is_deferred format ≡ false → get_impl_defined_format options usage format ≡ format)
      × (get_impl_defined_format options usage (get_impl_defined_format options usage format)
          ≡ get_impl_defined_format options usage format)
      × ((is_yuv_format (get_impl_defined_format options usage ycbcr_420_888) ≡ true)
          ⊎ (get_impl_defined_format options usage ycbcr_420_888 ≡ rgba_8888))
unfolding get_impl_defined_format choose_format is_yuv_format preview_format
get_impl_defined_format_lem options usage format = ground arith

module _ {M : Type 0} where
  -- A format left to gralloc under a usage that asks for UBWC becomes a format for which the size
  -- computation uses UBWC, even where the CPU reads or writes the buffer.
  pub is_ubwc_enabled-get_impl_defined_format :
      (env : Environment M) (usage : Usage) (format : PixelFormat)
      → is_deferred format ≡ true
      → usage.alloc_ubwc ≡ true
      → is_ubwc_enabled env (get_impl_defined_format env.options usage format) usage ≡ true
  unfolding get_impl_defined_format choose_format is_ubwc_enabled is_ubwc_format
  is_ubwc_enabled-get_impl_defined_format env usage format h k = ground arith

  -- UBWC is used for a format that is not a UBWC format itself only where the code lists the format
  -- as supported, the usage asks for compression, and neither the CPU's reads nor its writes are
  -- in the usage.
  pub is_ubwc_enabled-cpu_can_access :
      (env : Environment M) (format : PixelFormat) (usage : Usage)
      → is_ubwc_enabled env format usage ≡ true
      → (is_ubwc_format format ≡ true)
        ⊎ ((is_ubwc_supported format ≡ true)
            × ((usage.alloc_ubwc ≡ true) ⊎ (usage.composer_client_target ≡ true))
            × (cpu_can_access usage ≡ false))
  unfolding is_ubwc_enabled
  is_ubwc_enabled-cpu_can_access env format usage h = ground arith

has_ion_secure-bit_or :
    (headers : Headers) (other : ℕ)
    → headers.ion_secure ≢ 0
    → has_ion_secure headers (bit_or headers.ion_secure other) ≡ true
unfolding has_ion_secure
has_ion_secure-bit_or headers other some_bit =
    rw (bit_or-absorb headers.ion_secure other) (ground arith)

has_ion_secure-ion_secure :
    (headers : Headers) → headers.ion_secure ≢ 0 → has_ion_secure headers headers.ion_secure ≡ true
unfolding has_ion_secure
has_ion_secure-ion_secure headers some_bit = rw (bit_and_self headers.ion_secure) (ground arith)

has_ion_secure-ion_cp_flags :
    (headers : Headers) (master : Bool)
    → headers.ion_secure ≢ 0
    → has_ion_secure headers (ion_cp_flags headers master) ≡ true
unfolding ion_cp_flags
has_ion_secure-ion_cp_flags headers true h =
    has_ion_secure-bit_or headers headers.ion_flag_cp_pixel h
has_ion_secure-ion_cp_flags headers false h =
    has_ion_secure-bit_or headers headers.ion_flag_allow_non_contig h

has_ion_secure-ion_sd_flags :
    (headers : Headers) (master : Bool)
    → headers.ion_secure ≢ 0
    → has_ion_secure headers (ion_sd_flags headers master) ≡ true
unfolding ion_sd_flags
has_ion_secure-ion_sd_flags headers true h =
    has_ion_secure-bit_or headers headers.ion_flag_cp_sec_display h
has_ion_secure-ion_sd_flags headers false h = has_ion_secure-ion_secure headers h

has_ion_secure-ion_sc_flags :
    (headers : Headers) (master : Bool)
    → headers.ion_secure ≢ 0
    → has_ion_secure headers (ion_sc_flags headers master) ≡ true
unfolding ion_sc_flags
has_ion_secure-ion_sc_flags headers true h =
    has_ion_secure-bit_or headers headers.ion_flag_cp_camera h
has_ion_secure-ion_sc_flags headers false h = has_ion_secure-ion_secure headers h

has_ion_secure-ion_sc_preview_flags :
    (headers : Headers) (master : Bool)
    → headers.ion_secure ≢ 0
    → has_ion_secure headers (ion_sc_preview_flags headers master) ≡ true
unfolding ion_sc_preview_flags
has_ion_secure-ion_sc_preview_flags headers true h =
    has_ion_secure-bit_or headers headers.ion_flag_cp_camera_preview h
has_ion_secure-ion_sc_preview_flags headers false h = has_ion_secure-ion_secure headers h

has_ion_secure-zero : (headers : Headers) → has_ion_secure headers 0 ≡ false
unfolding has_ion_secure
has_ion_secure-zero headers = rw (zero-bit_and headers.ion_secure) refl

-- The flags of every protected buffer have ION_SECURE, with either definition of the macros.
protected_heap-has_ion_secure :
    (headers : Headers) (master : Bool) (usage : Usage)
    → headers.ion_secure ≢ 0
    → has_ion_secure headers (protected_heap headers master usage).1 ≡ usage.gralloc_protected
unfolding protected_heap
protected_heap-has_ion_secure headers master usage h = ground (
  arith,
  has_ion_secure-ion_cp_flags headers master h,
  has_ion_secure-ion_sd_flags headers master h,
  has_ion_secure-ion_sc_flags headers master h,
  has_ion_secure-ion_sc_preview_flags headers master h,
  has_ion_secure-zero headers,
)

-- With an ION_SECURE that has a bit, a buffer is marked secure exactly if its usage is protected. Its mask of heaps is never empty. A
-- protected buffer that is not for the sensors is kept off the system heap and the sensors' heap,
-- and one that is neither protected nor for the sensors is on the system heap alone.
pub get_ion_heap_info_lem :
    (headers : Headers) (master use_system_heap : Bool) (usage : Usage)
    → headers.ion_secure ≢ 0
    → let info = get_ion_heap_info headers master use_system_heap usage in
      (info.secure_buffer ≡ usage.gralloc_protected)
      × (heap_code info.heap_id ≢ 0)
      × (usage.sensor_direct_data ≡ false
          → ((usage.gralloc_protected ≡ true)
              × (info.heap_id.system_heap ≡ false)
              × (info.heap_id.adsp_heap ≡ false))
            ⊎ ((usage.gralloc_protected ≡ false) × (heap_code info.heap_id ≡ 16)))
unfolding get_ion_heap_info protected_heap add_sensor_heap heap_code
get_ion_heap_info_lem headers master use_system_heap usage h =
    ground (arith, protected_heap-has_ion_secure headers master usage h)
