-- ===== src/Gralloc.antt =====
-- gralloc: the pixel formats, the usage of a buffer and its dimensions, which the parts below share.
-- The numbers of the formats and of the usage bits are in headers outside the repository; a format
-- is a name here, and a usage the tests that the code makes on it.
pub mod Words
pub mod Formats
pub mod Adreno
pub mod Dimensions
pub mod Size
pub mod Descriptor
pub mod Allocator
pub mod Policy
pub mod Sharing
pub mod Alignment
pub mod Ion
pub mod Manager
pub mod Allocate
pub mod References
pub mod Refinement
pub mod Locks
pub mod Calls
pub mod Flush
pub mod Life
pub mod Allocation
use platform_hardware_qcom_d.Base.{ℕ, Bool}

pub data AstcBlock : Type 0 where
  block_4x4 block_5x4 block_5x5 block_6x5 block_6x6 block_8x5 block_8x6 block_8x8 : AstcBlock
  block_10x5 block_10x6 block_10x8 block_10x10 block_12x10 block_12x12 : AstcBlock

-- HAL_PIXEL_FORMAT_*; `astc block srgb` are the compressed formats and `unlisted` is any number that
-- the code does not name.
pub data PixelFormat : Type 0 where
  rgba_8888 rgbx_8888 rgb_888 rgb_565 bgr_565 bgra_8888 rgba_5551 rgba_4444 : PixelFormat
  r_8 rg_88 bgrx_8888 rgba_1010102 argb_2101010 rgbx_1010102 xrgb_2101010 : PixelFormat
  bgra_1010102 abgr_2101010 bgrx_1010102 xbgr_2101010 rgba_fp16 bgr_888 : PixelFormat
  astc : AstcBlock → Bool → PixelFormat
  ycbcr_420_sp ycbcr_422_sp ycbcr_420_sp_venus nv12_encodeable nv21_encodeable : PixelFormat
  ycbcr_420_sp_venus_ubwc ycrcb_420_sp ycrcb_422_sp ycrcb_420_sp_adreno : PixelFormat
  ycrcb_420_sp_venus nv21_zsl raw16 y16 raw12 raw10 raw8 yv12 y8 : PixelFormat
  ycbcr_420_p010 ycbcr_420_tp10_ubwc ycbcr_420_p010_ubwc ycbcr_420_p010_venus : PixelFormat
  blob raw_opaque ycbcr_420_sp_tiled ycbcr_422_i ycrcb_422_i cbycry_422_i : PixelFormat
  depth_16 depth_24 depth_24_stencil_8 depth_32f stencil_8 : PixelFormat
  implementation_defined ycbcr_420_888 : PixelFormat
  unlisted : ℕ → PixelFormat

-- The value under CPU_READ_MASK or CPU_WRITE_MASK: zero, RARELY, or another.
pub data CpuAccess : Type 0 where
  access_never access_rarely access_other : CpuAccess

-- The bits of a usage. PROTECTED is read under two names, of BufferUsage and of gralloc.
pub record Usage : Type 0 where
  pub cpu_read : CpuAccess
  pub cpu_write : CpuAccess
  pub protected : Bool
  pub gralloc_protected : Bool
  pub secure_display : Bool
  pub camera_output : Bool
  pub camera_input : Bool
  pub video_encoder : Bool
  pub video_decoder : Bool
  pub nv21_encoder : Bool
  pub composer_overlay : Bool
  pub composer_client_target : Bool
  pub gpu_texture : Bool
  pub gpu_render_target : Bool
  pub gpu_mipmap_complete : Bool
  pub gpu_cube_map : Bool
  pub gpu_data_buffer : Bool
  pub sensor_direct_data : Bool
  pub alloc_ubwc : Bool
  pub private_10bit : Bool
  pub private_10bit_tp : Bool
  pub uncached : Bool

-- BufferInfo. An `int` is its 32-bit word: the arithmetic of the code on a width or a height is
-- that of the word, and its divisions are those of a dimension that is not negative.
pub record BufferInfo : Type 0 where
  pub width : ℕ
  pub height : ℕ
  pub format : PixelFormat
  pub layer_count : ℕ
  pub usage : Usage

-- The preprocessor's names that the code tests.
pub record BuildOptions : Type 0 where
  pub master_side_cp : Bool
  pub use_ycrcb_camera_preview : Bool
  pub use_ycrcb_camera_preview_venus : Bool
  pub use_aligned_ycrcb_height : Bool
  pub use_unaligned_ycrcb : Bool
  pub use_aligned_ycbcr_height : Bool
  pub use_unaligned_nv21_zsl : Bool
