-- ===== src/Examples/References.antt =====
-- The witnesses of the theorems on BufferManager.
use platform_hardware_qcom_d.Base.{
  Ensures, ℕ, true, false, ◌≡◌, ◌==◌, if◌then◌else◌, arith, none, some, refl, List, [], ◌∷◌,
}
use platform_hardware_qcom_d.Base.Int.{pos}
use platform_hardware_qcom_d.Gralloc.{rgba_8888}
use platform_hardware_qcom_d.Gralloc.Descriptor.{no_error, bad_buffer}
use platform_hardware_qcom_d.Gralloc.Manager.{
  HandleFlags, PrivateHandle, Buffer, Manager, update, retain_buffer, release_buffer,
  is_buffer_imported, lock_buffer, unlock_buffer, get_buffer_from_handle_locked, set_buffer,
  import_handle_locked, read_handle, write_handle, on_kernel, register_handle_locked, ensure_mapped,
  finish_lock,
}
use platform_hardware_qcom_d.Gralloc.Formats.{cpu_can_access, cpu_can_read, cpu_can_write}
use platform_hardware_qcom_d.Gralloc.Words.{align}
use platform_hardware_qcom_d.Gralloc.Ion.{
  import_ion_buffer, free_ion_buffer, unmap_buffer, clean_buffer,
}
use platform_hardware_qcom_d.Gralloc.Allocate.{allocate_buffer}
use platform_hardware_qcom_d.Gralloc.References.{
  Call, retain, release, is_imported, IsConsistent, Consistent, Refines, references, counts,
}
use platform_hardware_qcom_d.Gralloc.Calls.{
  run_call, IsLegal, run_call-Refines, stop, call_then, Behaviour, Execution-Behaviour,
}
use platform_hardware_qcom_d.Gralloc.Flush.{
  NeedsFlush, lock_buffer-NeedsFlush, lock_buffer-map_failed, unlock_buffer-unlock_buffer,
}
use platform_hardware_qcom_d.Gralloc.Life.{
  free_main, free_meta, release_buffer-last, release_buffer-leak,
}
use platform_hardware_qcom_d.Gralloc.Allocation.{Outcome, allocate_buffer-Outcome}
use platform_hardware_qcom_d.Examples.Buffers.{no_usage, reading, writing, test_platform}

abbrev plain_flags : HandleFlags
plain_flags = record {
  uses_ion = true;
  secure_buffer = false;
  needs_flush = false;
  cached = false;
  client_allocated = false;
  video_encoder = false;
  camera_write = false;
  camera_read = false;
  disp_consumer = false;
  hw_texture = false;
  secure_display = false;
  ubwc_aligned = false;
  cpu_rendered = true;
  non_cpu_writer = false;
}

-- A handle of a main descriptor, mapped at a base.
abbrev handle_of : ℕ → ℕ → PrivateHandle
handle_of fd base = record {
  fd = pos fd;
  fd_metadata = pos 8;
  flags = plain_flags;
  width = 32;
  height = 32;
  unaligned_width = 30;
  unaligned_height = 30;
  format = rgba_8888;
  video = false;
  size = 4096;
  offset = 0;
  offset_metadata = 0;
  base = base;
  base_metadata = 0;
  gpuaddr = 0;
  id = 1;
  layer_count = 1;
  usage = no_usage;
}

abbrev buffer_20 : Buffer
buffer_20 = record { handle = 20; ref_count = 1; ion_handle_main = pos 4; ion_handle_meta = pos 5 }

-- The given handle at address 20 is registered, and a second one at 21 is only in memory.
abbrev manager_of : PrivateHandle → Manager ℕ
manager_of hnd = record {
  handles_map = λ p. if p == 20 then some buffer_20 else none;
  heap = λ p. if p == 20 then some hnd else if p == 21 then some (handle_of 7 0) else none;
  next_id = 1;
  kernel = 0;
}

manager_of-IsConsistent : (hnd : PrivateHandle) → IsConsistent (manager_of hnd)
unfolding IsConsistent Consistent
manager_of-IsConsistent hnd pointer buf e = (ground arith, ground arith, (hnd, ground arith))

abbrev mapped : PrivateHandle
mapped = handle_of 6 8192

-- After a first retain of the handle at 21.
abbrev retained : Manager ℕ
retained = record {
  handles_map = update (manager_of mapped).handles_map 21 (
      some
        (record { handle = 21; ref_count = 1; ion_handle_main = pos 3; ion_handle_meta = pos 3 }));
  heap = update (manager_of mapped).heap 21 (some (handle_of 7 0));
  next_id = 1;
  kernel = 2;
}

retain_21 : run_call test_platform (retain 21) (manager_of mapped) ≡ some (no_error, retained)
unfolding run_call retain_buffer get_buffer_from_handle_locked import_handle_locked
    import_ion_buffer read_handle write_handle on_kernel register_handle_locked set_buffer
retain_21 = refl

run_call-Refines_example :
    Refines (manager_of mapped) (retain 21) (run_call test_platform (retain 21) (manager_of mapped))
unfolding IsLegal references counts
run_call-Refines_example =
    run_call-Refines test_platform (manager_of mapped) (retain 21) (manager_of-IsConsistent mapped)
      (handle_of 7 0, refl, omega arith)

-- After a second one.
abbrev retained_twice : Manager ℕ
retained_twice = record retained {
  handles_map = update retained.handles_map 21 (
      some
        (record { handle = 21; ref_count = 2; ion_handle_main = pos 3; ion_handle_meta = pos 3 }));
}

-- And after a release.
abbrev released_once : Manager ℕ
released_once = record retained_twice {
  handles_map = update retained_twice.handles_map 21 (
      some
        (record { handle = 21; ref_count = 1; ion_handle_main = pos 3; ion_handle_meta = pos 3 }));
}

-- The handle at 22 has never been retained.
abbrev calls : List Call
calls = retain 21 ∷ retain 21 ∷ release 21 ∷ is_imported 21 ∷ release 22 ∷ []

Execution-Behaviour_example :
    IsConsistent released_once
    × Behaviour
        (references (manager_of mapped))
        calls
        (no_error ∷ no_error ∷ no_error ∷ no_error ∷ bad_buffer ∷ [])
        (references released_once)
unfolding IsLegal references counts run_call retain_buffer release_buffer is_buffer_imported
    get_buffer_from_handle_locked set_buffer
Execution-Behaviour_example =
    Execution-Behaviour test_platform
      (call_then retained (retain 21) no_error (handle_of 7 0, refl, omega arith) retain_21
        (call_then retained_twice (retain 21) no_error (handle_of 7 0, refl, omega arith) refl
          (call_then released_once (release 21) no_error tt refl (
            call_then released_once (is_imported 21) no_error tt refl
              (call_then released_once (release 22) bad_buffer tt refl stop)))))
      (manager_of-IsConsistent mapped)

allocate_buffer-Outcome_example :
    Ensures
      (allocate_buffer test_platform
        (record { width = 30; height = 30; format = 1; layer_count = 1; usage = 0; id = 0 })
        100
        (manager_of mapped))
      (λ r t. IsConsistent t × Outcome (manager_of mapped) 100 r t)
allocate_buffer-Outcome_example =
    allocate_buffer-Outcome test_platform (manager_of mapped)
      (record { width = 30; height = 30; format = 1; layer_count = 1; usage = 0; id = 0 }) 100
      (manager_of-IsConsistent mapped) refl

release_buffer-last_example :
    (t : Manager ℕ) × (release_buffer test_platform 20 (manager_of mapped) ≡ some (no_error, t))
    × (t.handles_map 20 ≡ none)
    × (t.heap 20 ≡ none)
    × (t.kernel ≡ (free_meta test_platform 20 (manager_of mapped) buffer_20 mapped).1)
unfolding free_main free_meta free_ion_buffer unmap_buffer align
release_buffer-last_example =
    release_buffer-last test_platform 20 (manager_of mapped) buffer_20 mapped refl refl refl refl
      refl refl refl refl

-- A base that munmap refuses.
abbrev stray : PrivateHandle
stray = handle_of 6 16384

release_buffer-leak_example :
    (t : Manager ℕ) × (release_buffer test_platform 20 (manager_of stray) ≡ some (no_error, t))
    × (t.handles_map 20 ≡ none)
    × (t.heap 20 ≡ some stray)
    × (t.kernel ≡ (free_main test_platform 20 (manager_of stray) buffer_20 stray).1)
unfolding free_main free_ion_buffer unmap_buffer
release_buffer-leak_example =
    release_buffer-leak test_platform 20 (manager_of stray) buffer_20 stray refl refl refl refl refl
      refl

-- A handle whose descriptor mmap refuses.
abbrev unmapped : PrivateHandle
unmapped = handle_of 9 0

lock_buffer-map_failed_example :
    (t : Manager ℕ) × (lock_buffer test_platform 20 reading (manager_of unmapped)
      ≡ some (bad_buffer, t))
    × (t.heap 20 ≡ some (record unmapped { base = 18446744073709551615 }))
    × (lock_buffer test_platform 20 reading t ≡ some (no_error, t))
unfolding cpu_can_access cpu_can_write cpu_can_read
lock_buffer-map_failed_example =
    lock_buffer-map_failed test_platform 20 (manager_of unmapped) buffer_20 unmapped reading refl
      refl refl refl refl refl refl

-- The handle after a lock for writing.
abbrev dirty : PrivateHandle
dirty = record mapped { flags = record plain_flags { needs_flush = true } }

lock_buffer-NeedsFlush_example :
    NeedsFlush 20
      (record (manager_of mapped) { heap = update (manager_of mapped).heap 20 (some dirty) })
unfolding cpu_can_access cpu_can_write cpu_can_read lock_buffer get_buffer_from_handle_locked
    ensure_mapped finish_lock read_handle write_handle
lock_buffer-NeedsFlush_example =
    lock_buffer-NeedsFlush test_platform 20 (manager_of mapped) writing
      (record (manager_of mapped) { heap = update (manager_of mapped).heap 20 (some dirty) }) refl
      (manager_of-IsConsistent mapped) refl

abbrev flushed : Manager ℕ
flushed = record (manager_of dirty) {
  heap = update (manager_of dirty).heap 20 (some mapped);
  kernel = 1;
}

unlock_buffer-unlock_buffer_example :
    (unlock_buffer test_platform 20 (manager_of dirty) ≡ some (no_error, flushed))
    × (unlock_buffer test_platform 20 flushed ≡ some (no_error, flushed))
unfolding clean_buffer
unlock_buffer-unlock_buffer_example =
    unlock_buffer-unlock_buffer test_platform 20 (manager_of dirty) buffer_20 dirty refl refl refl
