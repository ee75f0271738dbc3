-- ===== src/Gralloc/Allocate.antt =====
-- gr_buf_mgr.cpp: the operations of BufferManager that make a buffer or check its size.
use platform_hardware_qcom_d.Base.{
  ℕ, suc, Bool, true, false, not, ◌||◌, if◌then◌else◌, ◌==◌, ◌%◌, leb, Option, none, some, Run,
  pure, get, put, ◌>>=◌, ◌>>◌,
}
use platform_hardware_qcom_d.Base.Int.{negsuc}
use platform_hardware_qcom_d.Gralloc.{PixelFormat, Usage, BufferInfo}
use platform_hardware_qcom_d.Gralloc.Words.{align, word}
use platform_hardware_qcom_d.Gralloc.Formats.{is_accessed}
use platform_hardware_qcom_d.Gralloc.Adreno.{GraphicsMetadata}
use platform_hardware_qcom_d.Gralloc.Dimensions.{is_ubwc_enabled}
use platform_hardware_qcom_d.Gralloc.Size.{
  get_buffer_size_and_dimensions, is_video, can_use_adreno_for_size, get_data_alignment,
}
use platform_hardware_qcom_d.Gralloc.Descriptor.{
  Error, no_error, bad_value, no_resources, BufferDescriptor,
}
use platform_hardware_qcom_d.Gralloc.Allocator.{
  no_heap, get_impl_defined_format, use_uncached, get_buffer_info,
}
use platform_hardware_qcom_d.Gralloc.Ion.{AllocData, allocate_mem}
use platform_hardware_qcom_d.Gralloc.Manager.{
  HandleFlags, PrivateHandle, Manager, Platform, read_handle, write_handle, on_kernel,
  register_handle_locked,
}

-- An AllocData of a size and an alignment, with the defaults of gr_ion_alloc.h.
abbrev pub alloc_data : ℕ → ℕ → AllocData
alloc_data size alignment = record {
  fd = negsuc 0;
  ion_handle = negsuc 0;
  size = size;
  align = alignment;
  uncached = false;
  flags = 0;
  heap_id = no_heap;
  secure_buffer = false;
  uses_ion = false;
}

module _ {M K : Type 0} (platform : Platform M K) where
  -- GetHandleFlags, with the two flags of alloc_type that AllocateBuffer adds.
  unfoldable pub get_handle_flags : PixelFormat → Usage → AllocData → HandleFlags
  unfolding is_ubwc_enabled use_uncached
  get_handle_flags format usage d = record {
    uses_ion = d.uses_ion;
    secure_buffer = d.secure_buffer;
    needs_flush = false;
    cached = not (use_uncached usage);
    client_allocated = false;
    video_encoder = usage.video_encoder;
    camera_write = usage.camera_output;
    camera_read = usage.camera_input;
    disp_consumer = usage.composer_overlay;
    hw_texture = usage.gpu_texture;
    secure_display = usage.secure_display;
    ubwc_aligned = is_ubwc_enabled platform.env format usage;
    cpu_rendered = is_accessed usage.cpu_read || is_accessed usage.cpu_write;
    non_cpu_writer =
        usage.video_encoder || usage.video_decoder || usage.camera_output
        || usage.gpu_render_target;
  }

  -- The info of AllocateBuffer: the format that gralloc chose, and the layers.
  unfoldable pub allocation_info : BufferDescriptor → BufferInfo
  unfolding get_impl_defined_format get_buffer_info
  allocation_info d =
      let info = get_buffer_info platform.headers d in
      record info {
        format = get_impl_defined_format platform.env.options info.usage info.format;
        layer_count = d.layer_count;
      }

  -- The size, the aligned dimensions and the graphics metadata that AllocateBuffer asks for.
  unfoldable pub requested : BufferDescriptor → ℕ → ℕ × ℕ × ℕ × GraphicsMetadata M
  unfolding allocation_info get_buffer_size_and_dimensions
  requested d buffer_size =
      let (size, w, h, metadata) =
        get_buffer_size_and_dimensions platform.env (allocation_info d)
          (record { size = 0; data_blob = platform.zero_blob }) in
      (if leb size buffer_size then buffer_size else size, w, h, metadata)

  -- AllocateMem, under the platform.
  unfoldable pub allocate : AllocData → Usage → K → (Bool × AllocData) × K
  unfolding allocate_mem
  allocate d usage k =
      let (done, d', k') =
        allocate_mem platform.calls platform.headers platform.env.options.master_side_cp
          platform.use_system_heap d usage k in
      ((done, d'), k')

  -- private_handle_t(...) and the assignments after it; the fields that the constructor does not
  -- take start at 0.
  unfoldable pub make_handle : BufferDescriptor → AllocData → AllocData → ℕ → ℕ → ℕ → PrivateHandle
  unfolding allocation_info get_handle_flags is_video
  make_handle d main meta w h id =
      let info = allocation_info d in
      record {
        fd = main.fd;
        fd_metadata = meta.fd;
        flags = get_handle_flags info.format info.usage main;
        width = w;
        height = h;
        unaligned_width = info.width;
        unaligned_height = info.height;
        format = info.format;
        video = is_video info.format;
        size = main.size;
        offset = 0;
        offset_metadata = 0;
        base = 0;
        base_metadata = 0;
        gpuaddr = 0;
        id = id;
        layer_count = info.layer_count;
        usage = info.usage;
      }

  -- The writes of AllocateBuffer into the metadata: the colour space, and the graphics metadata.
  unfoldable pub write_metadata : PrivateHandle → GraphicsMetadata M → K → Unit {0} × K
  unfolding can_use_adreno_for_size
  write_metadata hnd metadata k =
      let k1 = platform.set_color_space hnd hnd.video k in
      (
        tt,
        if can_use_adreno_for_size platform.env hnd.video hnd.usage
            then platform.set_graphics_metadata hnd metadata k1
            else k1,
      )

  -- AllocateBuffer: the error, and *handle where it is set. The caller's pointer is not null.
  unfoldable pub allocate_buffer : BufferDescriptor → ℕ → Run (Manager K) (Error × Option ℕ)
  unfolding requested allocation_info get_data_alignment on_kernel allocate align make_handle
      write_handle write_metadata register_handle_locked
  allocate_buffer d buffer_size = do
    let info = allocation_info d
    let (size, w, h, metadata) = requested d buffer_size
    (allocated, main) ← on_kernel (
        allocate (alloc_data size (get_data_alignment platform.env info.format info.usage))
          info.usage)
    elim allocated [
      | false ↦ pure (no_resources, none)
      | true ↦ do
        (allocated_meta, meta) ← on_kernel (
            allocate
              (alloc_data (align platform.metadata_size platform.env.page_size)
                platform.env.page_size)
              (platform.headers.usage_bits 0))
        elim allocated_meta [
          | false ↦ pure (no_resources, none)
          | true ↦ do
            s ← get
            let id = suc s.next_id % 18446744073709551616
            let pointer = platform.fresh s.heap
            let hnd = make_handle d main meta w h id
            put (record s { next_id = id })
            write_handle pointer hnd
            on_kernel (write_metadata hnd metadata)
            register_handle_locked pointer main.ion_handle meta.ion_handle
            pure (no_error, some pointer)
        ]
    ]

  -- ValidateBufferSize.
  unfoldable pub validate_buffer_size : ℕ → BufferInfo → Run (Manager K) Error
  unfolding read_handle get_impl_defined_format get_buffer_size_and_dimensions
  validate_buffer_size pointer info = do
    hnd ← read_handle pointer
    s ← get
    let (size, _, _, _) =
        get_buffer_size_and_dimensions platform.env
          (record info {
            format = get_impl_defined_format platform.env.options info.usage info.format;
          })
          (record { size = 0; data_blob = platform.zero_blob })
    pure (if size == word (platform.calls.seek_end hnd.fd s.kernel) then no_error else bad_value)
