-- ===== src/Gralloc/Locks.antt =====
-- gr_buf_mgr.cpp: LockBuffer and UnlockBuffer keep the reference counts, and every run of calls is
-- a run of the counts.
use platform_hardware_qcom_d.Base.{
  pure, Run, Ensures, Ensures_mono, bind-Ensures, ℕ, ◌≡◌, inl, inr, ◌==◌, ◌&&◌, arith, Option, some,
  refl, ◌∙◌, Bool-cases, Option-cases,
}
use platform_hardware_qcom_d.Gralloc.{Usage}
use platform_hardware_qcom_d.Gralloc.Formats.{cpu_can_access, cpu_can_write}
use platform_hardware_qcom_d.Gralloc.Descriptor.{
  Error, no_error, bad_buffer, bad_value, bad_descriptor, no_resources, unsupported,
}
use platform_hardware_qcom_d.Gralloc.Ion.{clean_buffer, cache_invalidate}
use platform_hardware_qcom_d.Gralloc.Manager.{
  PrivateHandle, Buffer, Manager, Platform, lock_buffer, unlock_buffer, map_buffer, ensure_mapped,
  finish_lock, clean_main, read_handle, write_handle, on_kernel, get_buffer_from_handle_locked,
}
use platform_hardware_qcom_d.Gralloc.References.{
  unlock, lock, Same, lock_known, lock_unknown, unlock_known, unlock_unknown, Consistent,
  references, IsConsistent, Refines, write-Consistent,
}
use platform_hardware_qcom_d.Gralloc.Refinement.{counted, uncounted}

-- A call that leaves the table alone keeps the counts.
unfoldable pub Quiet : {A K : Type 0} → Manager K → Option (A × Manager K) → Type 0
Quiet s r = Ensures r (λ a t. IsConsistent t × (t.handles_map ≡ s.handles_map))

module _ {M K : Type 0} (platform : Platform M K) (p : ℕ) (s : Manager K) where
  pub mapped-Quiet :
      (hnd : PrivateHandle)
      → s.heap p ≡ some hnd
      → IsConsistent s
      → Quiet s (ensure_mapped platform p s)
  unfolding ensure_mapped map_buffer read_handle write_handle Quiet IsConsistent
  mapped-Quiet hnd live ok =
      rw (live, Ensures)
        (elim (Bool-cases (hnd.base == 0)) [
          | inr e ↦ rw (e, Ensures) (ok, refl)
          | inl e ↦ rw (e, live, Ensures) (write-Consistent s.handles_map s.heap p _ ok, refl)
        ])

  pub finish-Quiet :
      (buf : Buffer) (usage : Usage) (hnd : PrivateHandle)
      → s.heap p ≡ some hnd
      → IsConsistent s
      → Quiet s (finish_lock platform p buf usage s)
  unfolding finish_lock clean_main read_handle write_handle on_kernel clean_buffer cpu_can_write
      Quiet IsConsistent
  finish-Quiet buf usage hnd live ok =
      rw (live, Ensures)
        (elim (Bool-cases (hnd.flags.uses_ion && hnd.flags.cached)) [
          | inr e ↦
              rw (e, Ensures)
                (elim (Bool-cases (cpu_can_write usage)) [
                  | inr w ↦ rw (w, Ensures) (ok, refl)
                  | inl w ↦ rw (w, Ensures) (write-Consistent s.handles_map s.heap p _ ok, refl)
                ])
          | inl e ↦
              rw (e, live, Ensures)
                (elim (Bool-cases
                  (clean_buffer platform.calls hnd.base hnd.size hnd.offset buf.ion_handle_main
                    cache_invalidate s.kernel).0) [
                      | inr c ↦ rw (c, Ensures) (ok, refl)
                      | inl c ↦
                          rw (c, Ensures)
                            (elim (Bool-cases (cpu_can_write usage)) [
                              | inr w ↦ rw (w, Ensures) (ok, refl)
                              | inl w ↦
                                  rw (w, Ensures)
                                    (write-Consistent s.handles_map s.heap p _ ok, refl)
                            ])
                    ])
        ])

  unlock-Quiet : IsConsistent s → Quiet s (unlock_buffer platform p s)
  unfolding unlock_buffer get_buffer_from_handle_locked clean_main read_handle write_handle
      on_kernel clean_buffer Quiet IsConsistent Consistent
  unlock-Quiet ok = elim (Option-cases (s.handles_map p)) [
    | inl e ↦ rw (e, Ensures) (ok, refl)
    | inr (buf, e) ↦
        let (own, positive, (hnd, live)) = ok p buf e in
        rw (e, live, Ensures)
          (elim (Bool-cases hnd.flags.needs_flush) [
            | inr f ↦ rw (f, Ensures) (ok, refl)
            | inl f ↦ rw (f, live, Ensures) (write-Consistent s.handles_map s.heap p _ ok, refl)
          ])
  ]

module _ {K : Type 0} (s : Manager K) where
  -- A call that keeps the counts of a registered buffer.
  Quiet-Same :
      (P : Error → Manager K → Type 0) (r : Option (Error × Manager K))
      → Quiet s r
      → ((e : Error) (t : Manager K) → Same (references s) (references t) → IsConsistent t → P e t)
      → Ensures r P
  unfolding Quiet Same references
  Quiet-Same P r quiet next = Ensures_mono _ P r quiet (λ e t h. next e t (λ k. rw (h.1) refl) h.0)

module _ {M K : Type 0} (platform : Platform M K) (p : ℕ) (s : Manager K) where
  -- What LockBuffer does after the mapping.
  after_mapping-Quiet :
      (buf : Buffer) (usage : Usage) (t : Manager K) (err : Error)
      → s.handles_map p ≡ some buf
      → IsConsistent t
      → t.handles_map ≡ s.handles_map
      → Quiet s (
          (elim err as (λ _. Run (Manager K) Error) [
            | no_error ↦ finish_lock platform p buf usage
            | error ↦ pure error
          ])
            t)
  unfolding Quiet IsConsistent Consistent
  after_mapping-Quiet buf usage t no_error e ok same =
      let (own, positive, (hnd, live)) = ok p buf (rw (same) e) in
      Ensures_mono _ _ (finish_lock platform p buf usage t)
        (finish-Quiet platform p t buf usage hnd live ok) (λ r u h. (h.0, h.1 ∙ same))
  after_mapping-Quiet buf usage t bad_descriptor e ok same = (ok, same)
  after_mapping-Quiet buf usage t bad_buffer e ok same = (ok, same)
  after_mapping-Quiet buf usage t bad_value e ok same = (ok, same)
  after_mapping-Quiet buf usage t no_resources e ok same = (ok, same)
  after_mapping-Quiet buf usage t unsupported e ok same = (ok, same)

  lock-Quiet : (usage : Usage) → IsConsistent s → Quiet s (lock_buffer platform p usage s)
  unfolding lock_buffer get_buffer_from_handle_locked Quiet IsConsistent Consistent
  lock-Quiet usage ok = elim (Bool-cases (cpu_can_access usage)) [
    | inr a ↦ rw (a, Ensures) (ok, refl)
    | inl a ↦
        rw (a, Ensures)
          (elim (Option-cases (s.handles_map p)) [
            | inl e ↦ rw (e, Ensures) (ok, refl)
            | inr (buf, e) ↦
                let (own, positive, (hnd, live)) = ok p buf e in
                rw (e, Ensures)
                  (bind-Ensures _ _ (ensure_mapped platform p s) _
                    (mapped-Quiet platform p s hnd live ok)
                    (λ err t h. after_mapping-Quiet buf usage t err e h.0 h.1))
          ])
  ]

  pub unlock-Refines : IsConsistent s → Refines s (unlock p) (unlock_buffer platform p s)
  unfolding Refines unlock_buffer get_buffer_from_handle_locked Same
  unlock-Refines ok = elim (Option-cases (s.handles_map p)) [
    | inr (buf, e) ↦
        Quiet-Same s _ (unlock_buffer platform p s) (unlock-Quiet platform p s ok)
          (λ r t same ok'. (ok', unlock_known p r (counted p s buf e ok) same))
    | inl e ↦ rw (e, Ensures) (ok, unlock_unknown p (uncounted p s e) (λ k. refl))
  ]

  pub lock-Refines :
      (usage : Usage) → IsConsistent s → Refines s (lock p usage) (lock_buffer platform p usage s)
  unfolding Refines lock_buffer get_buffer_from_handle_locked Same
  lock-Refines usage ok = elim (Option-cases (s.handles_map p)) [
    | inr (buf, e) ↦
        Quiet-Same s _ (lock_buffer platform p usage s) (lock-Quiet usage ok)
          (λ r t same ok'. (ok', lock_known p usage r (counted p s buf e ok) same))
    | inl e ↦ elim (Bool-cases (cpu_can_access usage)) [
      | inr a ↦
          rw (a, Ensures)
            (ok, lock_unknown p usage bad_value (uncounted p s e) (λ h. ground arith) (λ k. refl))
      | inl a ↦
          rw (a, e, Ensures)
            (ok, lock_unknown p usage bad_buffer (uncounted p s e) (λ h. ground arith) (λ k. refl))
    ]
  ]
