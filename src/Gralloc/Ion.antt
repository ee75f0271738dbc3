-- ===== src/Gralloc/Ion.antt =====
-- gr_ion_alloc.cpp, and AllocateMem of gr_allocator.cpp. The kernel is a parameter: its state, and
-- the calls that the code makes on it. A failed call is none or false; the code's callers test only
-- whether its -errno is an error.
use platform_hardware_qcom_d.Base.{
  ℕ, Bool, true, false, not, if◌then◌else◌, ◌==◌, ltb, Option, none, some,
}
use platform_hardware_qcom_d.Base.Int.{ℤ, pos, negsuc}
use platform_hardware_qcom_d.Gralloc.{Usage}
use platform_hardware_qcom_d.Gralloc.Allocator.{HeapMask, Headers, get_ion_heap_info, use_uncached}

-- CACHE_CLEAN, CACHE_INVALIDATE and CACHE_CLEAN_AND_INVALIDATE.
pub data CacheOp : Type 0 where
  cache_clean cache_invalidate cache_clean_and_invalidate : CacheOp

-- The system calls, in a state K of the kernel. A file descriptor and an ion handle are
-- ints, an address is a number.
pub record Kernel (K : Type 0) : Type 0 where
  -- ION_IOC_ALLOC of a length, an alignment, a heap mask, flags, and whether ION_FLAG_CACHED is set.
  pub ioctl_alloc : ℕ → ℕ → HeapMask → ℕ → Bool → K → Option ℤ × K
  pub ioctl_map : ℤ → K → Option ℤ × K
  pub ioctl_free : ℤ → K → K
  pub ioctl_import : ℤ → K → Option ℤ × K
  -- ION_IOC_CUSTOM with a cache command on a handle, an address, an offset and a length.
  pub ioctl_cache : CacheOp → ℤ → ℕ → ℕ → ℕ → K → Bool × K
  pub mmap : ℕ → ℤ → K → Option ℕ × K
  pub munmap : ℕ → ℕ → K → Bool × K
  pub close : ℤ → K → K
  pub seek_end : ℤ → K → ℕ

-- AllocData, without the fields that no modelled code reads.
pub record AllocData : Type 0 where
  pub fd : ℤ
  pub ion_handle : ℤ
  pub size : ℕ
  pub align : ℕ
  pub uncached : Bool
  pub flags : ℕ
  pub heap_id : HeapMask
  pub secure_buffer : Bool
  pub uses_ion : Bool

-- MAP_FAILED, (void *)-1.
abbrev pub map_failed : ℕ
map_failed = 18446744073709551615

abbrev is_positive : ℤ → Bool
is_positive (pos n) = ltb 0 n
is_positive (negsuc n) = false

module _ {K : Type 0} (kernel : Kernel K) where
  -- IonAlloc::AllocBuffer: whether it returns 0, and the data that it fills.
  unfoldable pub alloc_buffer : AllocData → K → Bool × AllocData × K
  alloc_buffer d k =
      let (allocated, k1) =
        kernel.ioctl_alloc d.size d.align d.heap_id d.flags (not d.uncached) k in
      elim allocated [
        | none ↦ (false, d, k1)
        | some handle ↦
            let (mapped, k2) = kernel.ioctl_map handle k1 in
            elim mapped [
              | none ↦ (false, d, kernel.ioctl_free handle k2)
              | some fd ↦ (true, record d { fd = fd; ion_handle = handle }, k2)
            ]
      ]

  -- IonAlloc::UnmapBuffer.
  unfoldable pub unmap_buffer : ℕ → ℕ → K → Bool × K
  unmap_buffer base size k = kernel.munmap base size k

  -- IonAlloc::FreeBuffer: whether it returns 0. Only a positive handle is
  -- freed.
  unfoldable pub free_ion_buffer : ℕ → ℕ → ℤ → ℤ → K → Bool × K
  unfolding unmap_buffer
  free_ion_buffer base size fd ion_handle k =
      let (unmapped, k1) = if base == 0 then (true, k) else unmap_buffer base size k in
      let k2 = if is_positive ion_handle then kernel.ioctl_free ion_handle k1 else k1 in
      (unmapped, kernel.close fd k2)

  -- IonAlloc::MapBuffer: whether it returns 0, and *base, which it writes on a failure too.
  unfoldable pub map_ion_buffer : ℕ → ℤ → K → Bool × ℕ × K
  map_ion_buffer size fd k =
      let (address, k1) = kernel.mmap size fd k in
      elim address [ none ↦ (false, map_failed, k1) | some base ↦ (true, base, k1) ]

  -- IonAlloc::ImportBuffer.
  unfoldable pub import_ion_buffer : ℤ → K → Option ℤ × K
  import_ion_buffer fd k = kernel.ioctl_import fd k

  -- IonAlloc::CleanBuffer.
  unfoldable pub clean_buffer : ℕ → ℕ → ℕ → ℤ → CacheOp → K → Bool × K
  clean_buffer base size offset handle op k = kernel.ioctl_cache op handle base offset size k

  -- Allocator::AllocateMem, under the headers, the build's MASTER_SIDE_CP and the property of the
  -- sensors.
  unfoldable pub allocate_mem : Headers → Bool → Bool → AllocData → Usage → K → Bool × AllocData × K
  unfolding use_uncached get_ion_heap_info alloc_buffer
  allocate_mem headers master use_system_heap d usage k =
      let info = get_ion_heap_info headers master use_system_heap usage in
      let (done, d', k') =
        alloc_buffer
          (record d {
            uncached = use_uncached usage;
            heap_id = info.heap_id;
            secure_buffer = info.secure_buffer;
            flags = info.ion_flags;
          })
          k in
      (done, record d' { uses_ion = if done then true else d'.uses_ion }, k')
