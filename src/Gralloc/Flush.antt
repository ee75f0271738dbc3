-- ===== src/Gralloc/Flush.antt =====
-- gr_buf_mgr.cpp: the cache of a buffer between LockBuffer and UnlockBuffer.
use platform_hardware_qcom_d.Base.{
  ◌>>=◌, pure, Run, Ensures, Ensures_at, bind-Ensures, ℕ, true, false, ◌≡◌, inl, inr, ◌&&◌, arith,
  none, some, refl, Bool-cases, Option-cases, if◌then◌else◌,
}
use platform_hardware_qcom_d.Gralloc.Locks.{Quiet, mapped-Quiet}
use platform_hardware_qcom_d.Gralloc.{Usage}
use platform_hardware_qcom_d.Gralloc.Formats.{cpu_can_access, cpu_can_write}
use platform_hardware_qcom_d.Gralloc.Descriptor.{
  Error, no_error, bad_buffer, bad_value, bad_descriptor, no_resources, unsupported,
}
use platform_hardware_qcom_d.Gralloc.Ion.{
  map_ion_buffer, map_failed, clean_buffer, map_failed, cache_clean, cache_invalidate,
}
use platform_hardware_qcom_d.Gralloc.Manager.{
  PrivateHandle, Buffer, Manager, Platform, update, lock_buffer, unlock_buffer, map_buffer,
  ensure_mapped, finish_lock, clean_main, read_handle, write_handle, on_kernel,
  get_buffer_from_handle_locked,
}
use platform_hardware_qcom_d.Gralloc.References.{Consistent, IsConsistent}
use platform_hardware_qcom_d.Gralloc.Refinement.{update_same}

-- The handle at p waits for a flush.
unfoldable pub NeedsFlush : {K : Type 0} → ℕ → Manager K → Type 0
NeedsFlush p t = (hnd : PrivateHandle) × (t.heap p ≡ some hnd) × (hnd.flags.needs_flush ≡ true)

module _ {M K : Type 0} (platform : Platform M K) (p : ℕ) (s : Manager K) where
  finish_lock-NeedsFlush :
      (buf : Buffer) (usage : Usage) (hnd : PrivateHandle)
      → cpu_can_write usage ≡ true
      → s.heap p ≡ some hnd
      → Ensures (finish_lock platform p buf usage s) (λ e t. e ≡ no_error → NeedsFlush p t)
  unfolding finish_lock clean_main read_handle write_handle on_kernel clean_buffer cpu_can_write
      NeedsFlush
  finish_lock-NeedsFlush buf usage hnd writes live =
      rw (live, Ensures)
        (elim (Bool-cases (hnd.flags.uses_ion && hnd.flags.cached)) [
          | inr e ↦ rw (e, writes, Ensures) (λ h. (_, update_same s.heap p _, refl))
          | inl e ↦
              rw (e, live, Ensures)
                (elim (Bool-cases
                  (clean_buffer platform.calls hnd.base hnd.size hnd.offset buf.ion_handle_main
                    cache_invalidate s.kernel).0) [
                      | inr c ↦ rw (c, Ensures) (λ h. absurd (ground arith))
                      | inl c ↦ rw (c, writes, Ensures) (λ h. (_, update_same s.heap p _, refl))
                    ])
        ])

  after_mapping-NeedsFlush :
      (buf : Buffer) (usage : Usage) (err : Error)
      → s.handles_map p ≡ some buf
      → cpu_can_write usage ≡ true
      → IsConsistent s
      → Ensures
          ((elim err as (λ _. Run (Manager K) Error) [
            | no_error ↦ finish_lock platform p buf usage
            | error ↦ pure error
          ])
            s)
          (λ e t. e ≡ no_error → NeedsFlush p t)
  unfolding IsConsistent Consistent
  after_mapping-NeedsFlush buf usage no_error e writes ok =
      let (own, positive, (hnd, live)) = ok p buf e in
      finish_lock-NeedsFlush buf usage hnd writes live
  after_mapping-NeedsFlush buf usage bad_descriptor e writes ok = λ h. absurd (ground arith)
  after_mapping-NeedsFlush buf usage bad_buffer e writes ok = λ h. absurd (ground arith)
  after_mapping-NeedsFlush buf usage bad_value e writes ok = λ h. absurd (ground arith)
  after_mapping-NeedsFlush buf usage no_resources e writes ok = λ h. absurd (ground arith)
  after_mapping-NeedsFlush buf usage unsupported e writes ok = λ h. absurd (ground arith)

module _ {M K : Type 0} (platform : Platform M K) (p : ℕ) (s : Manager K) where
  lock-NeedsFlush :
      (usage : Usage)
      → cpu_can_write usage ≡ true
      → IsConsistent s
      → Ensures (lock_buffer platform p usage s) (λ e t. e ≡ no_error → NeedsFlush p t)
  unfolding lock_buffer get_buffer_from_handle_locked Quiet IsConsistent Consistent
  lock-NeedsFlush usage writes ok = elim (Bool-cases (cpu_can_access usage)) [
    | inr a ↦ rw (a, Ensures) (λ h. absurd (ground arith))
    | inl a ↦
        rw (a, Ensures)
          (elim (Option-cases (s.handles_map p)) [
            | inl e ↦ rw (e, Ensures) (λ h. absurd (ground arith))
            | inr (buf, e) ↦
                let (own, positive, (hnd, live)) = ok p buf e in
                rw (e, Ensures)
                  (bind-Ensures _ _ (ensure_mapped platform p s) _
                    (mapped-Quiet platform p s hnd live ok)
                    (λ err t h.
                      after_mapping-NeedsFlush platform p t buf usage err (rw (h.1) e) writes h.0))
          ])
  ]

  -- A LockBuffer that returns NONE for a usage with CPU writes leaves the handle marked for a flush.
  pub lock_buffer-NeedsFlush :
      (usage : Usage) (t : Manager K)
      → cpu_can_write usage ≡ true
      → IsConsistent s
      → lock_buffer platform p usage s ≡ some (no_error, t)
      → NeedsFlush p t
  lock_buffer-NeedsFlush usage t writes ok locked =
      Ensures_at _ (lock_buffer platform p usage s) no_error t locked
        (lock-NeedsFlush usage writes ok) refl

  -- UnlockBuffer of a registered buffer that waits for a flush cleans its cache once, over the
  -- mapped range with the buffer's ion handle, and clears the mark whether or not that worked; the
  -- error tells. Unlocking again then gives NONE and changes nothing.
  pub unlock_buffer-unlock_buffer :
      (buf : Buffer) (hnd : PrivateHandle)
      → s.handles_map p ≡ some buf
      → s.heap p ≡ some hnd
      → hnd.flags.needs_flush ≡ true
      → let (clean, k) =
          clean_buffer platform.calls hnd.base hnd.size hnd.offset buf.ion_handle_main cache_clean
            s.kernel in
        let t : Manager K = record s {
          heap =
              update s.heap p
                (some (record hnd { flags = record hnd.flags { needs_flush = false } }));
          kernel = k;
        } in
        (unlock_buffer platform p s ≡ some (if clean then no_error else bad_buffer, t))
        × (unlock_buffer platform p t ≡ some (no_error, t))
  unfolding unlock_buffer get_buffer_from_handle_locked clean_main read_handle write_handle
      on_kernel clean_buffer
  unlock_buffer-unlock_buffer buf hnd e live marked = (
    rw (e, ◌>>=◌) (rw (live, ◌>>=◌) (rw (marked, ◌>>=◌) (rw (live, ◌>>=◌) refl))),
    rw (e, ◌>>=◌)
        (rw
          (
            update_same s.heap p (record hnd { flags = record hnd.flags { needs_flush = false } }),
            ◌>>=◌,
          )
          refl),
  )

  -- A LockBuffer whose mmap fails returns BAD_BUFFER, but leaves MAP_FAILED as the base of the
  -- handle. The next LockBuffer of a handle that is not cached, for a usage with CPU reads alone,
  -- then returns NONE and changes nothing: it maps nothing.
  pub lock_buffer-map_failed :
      (buf : Buffer) (hnd : PrivateHandle) (usage : Usage)
      → s.handles_map p ≡ some buf
      → s.heap p ≡ some hnd
      → hnd.base ≡ 0
      → (platform.calls.mmap hnd.size hnd.fd s.kernel).0 ≡ none
      → hnd.flags.uses_ion && hnd.flags.cached ≡ false
      → cpu_can_access usage ≡ true
      → cpu_can_write usage ≡ false
      → (t : Manager K) × (lock_buffer platform p usage s ≡ some (bad_buffer, t))
        × (t.heap p ≡ some (record hnd { base = map_failed }))
        × (lock_buffer platform p usage t ≡ some (no_error, t))
  unfolding lock_buffer get_buffer_from_handle_locked ensure_mapped map_buffer finish_lock
      read_handle write_handle map_ion_buffer
  lock_buffer-map_failed buf hnd usage e live unmapped fails uncached reads writes = (
    record s {
      heap = update s.heap p (some (record hnd { base = map_failed }));
      kernel = (platform.calls.mmap hnd.size hnd.fd s.kernel).1;
    },
    rw (reads, lock_buffer)
        (rw (e, ◌>>=◌)
          (rw (live, ◌>>=◌)
            (rw (unmapped, ◌>>=◌) (rw (live, ◌>>=◌) (rw (fails, map_ion_buffer) refl))))),
    update_same s.heap p _,
    rw (reads, lock_buffer)
        (rw (e, ◌>>=◌)
          (rw (update_same s.heap p (record hnd { base = map_failed }), ◌>>=◌)
            (rw (update_same s.heap p (record hnd { base = map_failed }), ◌>>=◌)
              (rw (uncached, ◌>>=◌) (rw (writes, ◌>>=◌) refl))))),
  )
