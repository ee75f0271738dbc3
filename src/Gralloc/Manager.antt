-- ===== src/Gralloc/Manager.antt =====
-- gr_buf_mgr.cpp and gr_buf_mgr.h: BufferManager. Each public operation holds buffer_lock_ from its
-- start to its end, so an operation is one step on the manager's state. A pointer is a number, and
-- `heap` holds the private_handle_t that stands there: none is freed memory, and reading it is the
-- fault `none` of Run.
use platform_hardware_qcom_d.Base.{
  ℕ, suc, Bool, true, false, ◌&&◌, if◌then◌else◌, ◌==◌, ◌-◌, ltb, Option, none, some, Run, pure,
  get, put, ◌>>=◌, ◌>>◌,
}
use platform_hardware_qcom_d.Base.Int.{ℤ, negsuc}
use platform_hardware_qcom_d.Gralloc.{PixelFormat, Usage}
use platform_hardware_qcom_d.Gralloc.Words.{align, word}
use platform_hardware_qcom_d.Gralloc.Formats.{cpu_can_access, cpu_can_write}
use platform_hardware_qcom_d.Gralloc.Adreno.{GraphicsMetadata}
use platform_hardware_qcom_d.Gralloc.Dimensions.{Environment}
use platform_hardware_qcom_d.Gralloc.Descriptor.{Error, no_error, bad_buffer, bad_value}
use platform_hardware_qcom_d.Gralloc.Allocator.{Headers}
use platform_hardware_qcom_d.Gralloc.Ion.{
  Kernel, CacheOp, cache_clean, cache_invalidate, free_ion_buffer, map_ion_buffer,
  import_ion_buffer, clean_buffer,
}

-- The PRIV_FLAGS_* of a handle.
pub record HandleFlags : Type 0 where
  pub uses_ion : Bool
  pub secure_buffer : Bool
  pub needs_flush : Bool
  pub cached : Bool
  pub client_allocated : Bool
  pub video_encoder : Bool
  pub camera_write : Bool
  pub camera_read : Bool
  pub disp_consumer : Bool
  pub hw_texture : Bool
  pub secure_display : Bool
  pub ubwc_aligned : Bool
  pub cpu_rendered : Bool
  pub non_cpu_writer : Bool

-- The fields of private_handle_t that the manager reads or writes.
pub record PrivateHandle : Type 0 where
  pub fd : ℤ
  pub fd_metadata : ℤ
  pub flags : HandleFlags
  pub width : ℕ
  pub height : ℕ
  pub unaligned_width : ℕ
  pub unaligned_height : ℕ
  pub format : PixelFormat
  pub video : Bool
  pub size : ℕ
  pub offset : ℕ
  pub offset_metadata : ℕ
  pub base : ℕ
  pub base_metadata : ℕ
  pub gpuaddr : ℕ
  pub id : ℕ
  pub layer_count : ℕ
  pub usage : Usage

-- BufferManager::Buffer. ref_count is an int that starts at 1 and is erased with its entry when it
-- comes to 0, so it is never negative; RetainBuffer has the upper bound.
pub record Buffer : Type 0 where
  pub handle : ℕ
  pub ref_count : ℕ
  pub ion_handle_main : ℤ
  pub ion_handle_meta : ℤ

-- BufferManager, the memory that its pointers lead to, and the kernel.
pub record Manager (K : Type 0) : Type 0 where
  pub handles_map : ℕ → Option Buffer
  pub heap : ℕ → Option PrivateHandle
  pub next_id : ℕ
  pub kernel : K

-- What is not in the repository: the headers, the libraries below the size computation, the kernel,
-- private_handle_t::validate, the address that `new` gives, the size of MetaData_t with PAGE_SIZE,
-- and the writes of qdMetaData into a buffer's metadata.
pub record Platform (M K : Type 0) : Type 0 where
  pub env : Environment M
  pub headers : Headers
  pub calls : Kernel K
  pub use_system_heap : Bool
  pub validate : PrivateHandle → Bool
  pub fresh : (ℕ → Option PrivateHandle) → ℕ
  pub metadata_size : ℕ
  pub metadata_page_size : ℕ
  pub zero_blob : M
  pub set_color_space : PrivateHandle → Bool → K → K
  pub set_graphics_metadata : PrivateHandle → GraphicsMetadata M → K → K

-- INT_MAX.
abbrev pub int_max : ℕ
int_max = 2147483647

abbrev pub update : {A : Type 0} → (ℕ → A) → ℕ → A → ℕ → A
update f key value k = if key == k then value else f k

module _ {K : Type 0} where
  -- hnd->…: the handle must stand in memory.
  unfoldable pub read_handle : ℕ → Run (Manager K) PrivateHandle
  read_handle pointer s = elim (s.heap pointer) [ none ↦ none | some hnd ↦ some (hnd, s) ]

  unfoldable pub write_handle : ℕ → PrivateHandle → Run (Manager K) (Unit {0})
  write_handle pointer hnd s = some (tt, record s { heap = update s.heap pointer (some hnd) })

  -- `delete handle`.
  unfoldable pub delete_handle : ℕ → Run (Manager K) (Unit {0})
  delete_handle pointer s = some (tt, record s { heap = update s.heap pointer none })

  -- A call into the kernel.
  unfoldable pub on_kernel : {A : Type 0} → (K → A × K) → Run (Manager K) A
  on_kernel call s = let (a, k) = call s.kernel in some (a, record s { kernel = k })

  -- GetBufferFromHandleLocked.
  unfoldable pub get_buffer_from_handle_locked : ℕ → Run (Manager K) (Option Buffer)
  get_buffer_from_handle_locked pointer s = some (s.handles_map pointer, s)

  -- An entry of handles_map_ is written, or erased.
  unfoldable pub set_buffer : ℕ → Option Buffer → Run (Manager K) (Unit {0})
  set_buffer pointer buffer s =
      some (tt, record s { handles_map = update s.handles_map pointer buffer })

  -- RegisterHandleLocked; emplace keeps an entry that is there.
  unfoldable pub register_handle_locked : ℕ → ℤ → ℤ → Run (Manager K) (Unit {0})
  unfolding get_buffer_from_handle_locked set_buffer
  register_handle_locked pointer ion_handle ion_handle_meta = do
    entry ← get_buffer_from_handle_locked pointer
    elim entry [
      | some _ ↦ pure tt
      | none ↦ set_buffer pointer (
          some (record {
            handle = pointer;
            ref_count = 1;
            ion_handle_main = ion_handle;
            ion_handle_meta = ion_handle_meta;
          }))
    ]

  -- IsBufferImported.
  unfoldable pub is_buffer_imported : ℕ → Run (Manager K) Error
  unfolding get_buffer_from_handle_locked
  is_buffer_imported pointer = do
    entry ← get_buffer_from_handle_locked pointer
    elim entry [ some _ ↦ pure no_error | none ↦ pure bad_buffer ]

module _ {M K : Type 0} (platform : Platform M K) where
  -- FreeBuffer.
  unfoldable pub free_buffer : Buffer → Run (Manager K) Error
  unfolding read_handle write_handle delete_handle on_kernel free_ion_buffer align
  free_buffer buf = do
    hnd ← read_handle buf.handle
    elim (platform.validate hnd) [
      | false ↦ pure bad_buffer
      | true ↦ do
        main ←
            on_kernel (free_ion_buffer platform.calls hnd.base hnd.size hnd.fd buf.ion_handle_main)
        elim main [
          | false ↦ pure bad_buffer
          | true ↦ do
            meta ← on_kernel (
                free_ion_buffer platform.calls hnd.base_metadata
                  (align platform.metadata_size platform.metadata_page_size) hnd.fd_metadata
                  buf.ion_handle_meta)
            elim meta [
              | false ↦ pure bad_buffer
              | true ↦ do
                write_handle buf.handle (record hnd { fd = negsuc 0; fd_metadata = negsuc 0 })
                elim hnd.flags.client_allocated [
                  | true ↦ pure tt
                  | false ↦ delete_handle buf.handle
                ]
                pure no_error
            ]
        ]
    ]

  -- ImportHandleLocked.
  unfoldable pub import_handle_locked : ℕ → Run (Manager K) Error
  unfolding read_handle write_handle on_kernel import_ion_buffer register_handle_locked
  import_handle_locked pointer = do
    hnd ← read_handle pointer
    elim (platform.validate hnd) [
      | false ↦ pure bad_buffer
      | true ↦ do
        main ← on_kernel (import_ion_buffer platform.calls hnd.fd)
        elim main [
          | none ↦ pure bad_buffer
          | some ion_handle ↦ do
            meta ← on_kernel (import_ion_buffer platform.calls hnd.fd_metadata)
            elim meta [
              | none ↦ pure bad_buffer
              | some ion_handle_meta ↦ do
                s ← get
                write_handle pointer (record hnd {
                  size = word (platform.calls.seek_end hnd.fd s.kernel);
                  offset = 0;
                  offset_metadata = 0;
                  base = 0;
                  base_metadata = 0;
                  gpuaddr = 0;
                })
                register_handle_locked pointer ion_handle ion_handle_meta
                pure no_error
            ]
        ]
    ]

  -- MapBuffer.
  unfoldable pub map_buffer : ℕ → Run (Manager K) Error
  unfolding read_handle write_handle map_ion_buffer
  map_buffer pointer = do
    hnd ← read_handle pointer
    s ← get
    let (mapped, base, k) = map_ion_buffer platform.calls hnd.size hnd.fd s.kernel
    put (record s { kernel = k })
    write_handle pointer (record hnd { base = base })
    pure (if mapped then no_error else bad_buffer)

  -- RetainBuffer. ++ref_count past INT_MAX has no defined outcome.
  unfoldable pub retain_buffer : ℕ → Run (Manager K) Error
  unfolding get_buffer_from_handle_locked set_buffer import_handle_locked
  retain_buffer pointer = do
    entry ← get_buffer_from_handle_locked pointer
    elim entry [
      | some buf ↦ elim (ltb buf.ref_count int_max) [
        | false ↦ λ _. none
        | true ↦ do
          set_buffer pointer (some (record buf { ref_count = suc buf.ref_count }))
          pure no_error
      ]
      | none ↦ import_handle_locked pointer
    ]

  -- ReleaseBuffer: the result of FreeBuffer is not used.
  unfoldable pub release_buffer : ℕ → Run (Manager K) Error
  unfolding get_buffer_from_handle_locked set_buffer free_buffer
  release_buffer pointer = do
    entry ← get_buffer_from_handle_locked pointer
    elim entry [
      | none ↦ pure bad_buffer
      | some buf ↦ elim (buf.ref_count - 1 == 0) [
        | false ↦ do
          set_buffer pointer (some (record buf { ref_count = buf.ref_count - 1 }))
          pure no_error
        | true ↦ do set_buffer pointer none; free_buffer buf >>= λ freed. pure no_error
      ]
    ]

  -- The mapping that LockBuffer needs.
  unfoldable pub ensure_mapped : ℕ → Run (Manager K) Error
  unfolding read_handle map_buffer
  ensure_mapped pointer = do
    hnd ← read_handle pointer
    elim (hnd.base == 0) [ true ↦ map_buffer pointer | false ↦ pure no_error ]

  -- The call of CleanBuffer that LockBuffer and UnlockBuffer make.
  unfoldable pub clean_main : ℕ → Buffer → CacheOp → Run (Manager K) Bool
  unfolding read_handle on_kernel clean_buffer
  clean_main pointer buf op = do
    hnd ← read_handle pointer
    on_kernel (clean_buffer platform.calls hnd.base hnd.size hnd.offset buf.ion_handle_main op)

  -- The end of LockBuffer after a mapping that worked.
  unfoldable pub finish_lock : ℕ → Buffer → Usage → Run (Manager K) Error
  unfolding read_handle write_handle clean_main cpu_can_write
  finish_lock pointer buf usage = do
    hnd ← read_handle pointer
    clean ← elim (hnd.flags.uses_ion && hnd.flags.cached) [
      | true ↦ clean_main pointer buf cache_invalidate
      | false ↦ pure true
    ]
    elim clean [
      | false ↦ pure bad_buffer
      | true ↦ elim (cpu_can_write usage) [
        | false ↦ pure no_error
        | true ↦ do
          write_handle pointer (record hnd { flags = record hnd.flags { needs_flush = true } })
          pure no_error
      ]
    ]

  -- LockBuffer.
  unfoldable pub lock_buffer : ℕ → Usage → Run (Manager K) Error
  unfolding get_buffer_from_handle_locked ensure_mapped finish_lock cpu_can_access
  lock_buffer pointer usage = elim (cpu_can_access usage) [
    | false ↦ pure bad_value
    | true ↦ do
      entry ← get_buffer_from_handle_locked pointer
      elim entry [
        | none ↦ pure bad_buffer
        | some buf ↦ do
          err ← ensure_mapped pointer
          elim err [ no_error ↦ finish_lock pointer buf usage | error ↦ pure error ]
      ]
  ]

  -- UnlockBuffer.
  unfoldable pub unlock_buffer : ℕ → Run (Manager K) Error
  unfolding get_buffer_from_handle_locked read_handle write_handle clean_main
  unlock_buffer pointer = do
    entry ← get_buffer_from_handle_locked pointer
    elim entry [
      | none ↦ pure bad_buffer
      | some buf ↦ do
        hnd ← read_handle pointer
        elim hnd.flags.needs_flush [
          | false ↦ pure no_error
          | true ↦ do
            clean ← clean_main pointer buf cache_clean
            write_handle pointer (record hnd { flags = record hnd.flags { needs_flush = false } })
            pure (if clean then no_error else bad_buffer)
        ]
    ]
