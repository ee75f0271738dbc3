-- ===== src/Gralloc/Life.antt =====
-- gr_buf_mgr.cpp: the end of a buffer at its last ReleaseBuffer.
use platform_hardware_qcom_d.Base.{◌>>=◌, ℕ, Bool, true, false, ◌≡◌, arith, none, some, refl}
use platform_hardware_qcom_d.Base.Int.{negsuc}
use platform_hardware_qcom_d.Gralloc.Words.{align}
use platform_hardware_qcom_d.Gralloc.Descriptor.{no_error}
use platform_hardware_qcom_d.Gralloc.Ion.{free_ion_buffer}
use platform_hardware_qcom_d.Gralloc.Manager.{
  PrivateHandle, Buffer, Manager, Platform, update, release_buffer, get_buffer_from_handle_locked,
  set_buffer, free_buffer, read_handle, write_handle, delete_handle, on_kernel,
}

module _ {M K : Type 0} (platform : Platform M K) (p : ℕ) (s : Manager K) where
  -- The two frees of a buffer in the kernel: the main memory, then the metadata.
  unfoldable pub free_main : Buffer → PrivateHandle → Bool × K
  unfolding free_ion_buffer
  free_main buf hnd =
      free_ion_buffer platform.calls hnd.base hnd.size hnd.fd buf.ion_handle_main s.kernel

  unfoldable pub free_meta : Buffer → PrivateHandle → Bool × K
  unfolding free_ion_buffer align free_main
  free_meta buf hnd =
      free_ion_buffer platform.calls hnd.base_metadata
        (align platform.metadata_size platform.metadata_page_size) hnd.fd_metadata
        buf.ion_handle_meta (free_main buf hnd).1

  -- The last ReleaseBuffer of a valid handle that gralloc allocated, where both frees work, gives
  -- NONE, removes the entry, deletes the handle, and makes exactly the two frees in the kernel.
  pub release_buffer-last :
      (buf : Buffer) (hnd : PrivateHandle)
      → s.handles_map p ≡ some buf
      → buf.handle ≡ p
      → buf.ref_count ≡ 1
      → s.heap p ≡ some hnd
      → platform.validate hnd ≡ true
      → hnd.flags.client_allocated ≡ false
      → (free_main buf hnd).0 ≡ true
      → (free_meta buf hnd).0 ≡ true
      → (t : Manager K) × (release_buffer platform p s ≡ some (no_error, t))
        × (t.handles_map p ≡ none)
        × (t.heap p ≡ none)
        × (t.kernel ≡ (free_meta buf hnd).1)
  unfolding release_buffer get_buffer_from_handle_locked set_buffer free_buffer read_handle
      write_handle delete_handle on_kernel free_main free_meta
  release_buffer-last buf hnd e own one live valid ours main meta = (
    record s {
      handles_map = update s.handles_map p none;
      heap =
          update (update s.heap p (some (record hnd { fd = negsuc 0; fd_metadata = negsuc 0 }))) p
            none;
      kernel = (free_meta buf hnd).1;
    },
    rw (e, ◌>>=◌)
        (rw (one, ◌>>=◌)
          (rw (own, ◌>>=◌)
            (rw (live, ◌>>=◌)
              (rw (valid, ◌>>=◌)
                (rw (main, ◌>>=◌) (rw (meta, ◌>>=◌) (rw (ours, own, ◌>>=◌) refl))))))),
    ground arith,
    ground arith,
    refl,
  )

  -- Where the free of the main memory fails, the last ReleaseBuffer still gives NONE and removes the
  -- entry, but the handle stays in memory with its descriptors, and the metadata is not freed in
  -- the kernel.
  pub release_buffer-leak :
      (buf : Buffer) (hnd : PrivateHandle)
      → s.handles_map p ≡ some buf
      → buf.handle ≡ p
      → buf.ref_count ≡ 1
      → s.heap p ≡ some hnd
      → platform.validate hnd ≡ true
      → (free_main buf hnd).0 ≡ false
      → (t : Manager K) × (release_buffer platform p s ≡ some (no_error, t))
        × (t.handles_map p ≡ none)
        × (t.heap p ≡ some hnd)
        × (t.kernel ≡ (free_main buf hnd).1)
  unfolding release_buffer get_buffer_from_handle_locked set_buffer free_buffer read_handle
      write_handle delete_handle on_kernel free_main
  release_buffer-leak buf hnd e own one live valid main = (
    record s { handles_map = update s.handles_map p none; kernel = (free_main buf hnd).1 },
    rw (e, ◌>>=◌)
        (rw (one, ◌>>=◌)
          (rw (own, ◌>>=◌) (rw (live, ◌>>=◌) (rw (valid, ◌>>=◌) (rw (main, ◌>>=◌) refl))))),
    ground arith,
    live,
    refl,
  )
