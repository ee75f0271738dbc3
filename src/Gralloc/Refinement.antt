-- ===== src/Gralloc/Refinement.antt =====
-- gr_buf_mgr.cpp: each call of BufferManager on a handle is a step of the reference counts.
use platform_hardware_qcom_d.Base.{
  pure, Ensures, Ensures_mono, bind-Ensures, ℕ, suc, ◌≡◌, inl, inr, ◌-◌, ◌≤◌, ◌<◌, ltb, true, ◌==◌,
  arith, Option, none, some, refl, sym, ap, ◌∙◌, Bool-cases, Option-cases,
}
use platform_hardware_qcom_d.Gralloc.Descriptor.{no_error}
use platform_hardware_qcom_d.Gralloc.Ion.{import_ion_buffer}
use platform_hardware_qcom_d.Gralloc.Manager.{
  PrivateHandle, Buffer, Manager, Platform, int_max, update, free_buffer, import_handle_locked,
  retain_buffer, release_buffer, is_buffer_imported, read_handle, write_handle, on_kernel,
  set_buffer, get_buffer_from_handle_locked, register_handle_locked,
}
use platform_hardware_qcom_d.Gralloc.References.{
  retain, release, is_imported, Same, SetTo, Step, first_retain, refused_retain, another_retain,
  release_one, release_none, imported, not_imported, counts, Consistent, references, IsConsistent,
  Refines, write-Consistent, set-Consistent, erase-Consistent, free-Ensures,
}

pub update_same :
    (heap : ℕ → Option PrivateHandle) (p : ℕ) (hnd : PrivateHandle)
    → update heap p (some hnd) p ≡ some hnd
update_same heap p hnd = ground arith

module _ (table : ℕ → Option Buffer) (p : ℕ) where
  counts-none : table p ≡ none → counts table p ≡ 0
  unfolding counts
  counts-none e = ground arith

  counts-some : (buf : Buffer) → table p ≡ some buf → counts table p ≡ buf.ref_count
  unfolding counts
  counts-some buf e = ground arith

  pub counts_set :
      (buf : Buffer) (n : ℕ)
      → buf.ref_count ≡ n
      → SetTo (counts table) p n (counts (update table p (some buf)))
  unfolding counts SetTo
  counts_set buf n h k = elim (Bool-cases (p == k)) [
    | inl e ↦ rw (e, counts) h
    | inr e ↦ rw (e, counts) refl
  ]

  counts_erase : (n : ℕ) → n ≡ 0 → SetTo (counts table) p n (counts (update table p none))
  unfolding counts SetTo
  counts_erase n h k = elim (Bool-cases (p == k)) [
    | inl e ↦ rw (e, counts) (sym h)
    | inr e ↦ rw (e, counts) refl
  ]

module _ {K : Type 0} (p : ℕ) (s : Manager K) where
  -- A registered buffer is counted at least once.
  pub counted : (buf : Buffer) → s.handles_map p ≡ some buf → IsConsistent s → 1 ≤ references s p
  unfolding references IsConsistent Consistent
  counted buf e ok = rw (counts-some s.handles_map p buf e) ((ok p buf e).1)

  pub uncounted : s.handles_map p ≡ none → references s p ≡ 0
  unfolding references
  uncounted e = counts-none s.handles_map p e

  pub is_imported-Refines : IsConsistent s → Refines s (is_imported p) (is_buffer_imported p s)
  unfolding is_buffer_imported get_buffer_from_handle_locked Refines Same
  is_imported-Refines ok = elim (Option-cases (s.handles_map p)) [
    | inl e ↦ rw (e, Ensures) (ok, not_imported p (uncounted e) (λ k. refl))
    | inr (buf, e) ↦ rw (e, Ensures) (ok, imported p (counted buf e ok) (λ k. refl))
  ]

module _ {M K : Type 0} (platform : Platform M K) (p : ℕ) (s : Manager K) where
  import-Refines :
      (hnd : PrivateHandle)
      → s.heap p ≡ some hnd
      → s.handles_map p ≡ none
      → IsConsistent s
      → Refines s (retain p) (import_handle_locked platform p s)
  unfolding get_buffer_from_handle_locked set_buffer import_handle_locked import_ion_buffer
      read_handle write_handle on_kernel register_handle_locked Refines IsConsistent references Same
  import-Refines hnd live e ok =
      rw (live, Ensures)
        (elim (Bool-cases (platform.validate hnd)) [
          | inr e1 ↦ rw (e1, Ensures) (ok, refused_retain p (uncounted p s e) (λ k. refl))
          | inl e1 ↦
              rw (e1, Ensures)
                (let (main, k) = import_ion_buffer platform.calls hnd.fd s.kernel in
                  elim (Option-cases main) [
                    | inl e2 ↦ rw (e2, Ensures) (ok, refused_retain p (uncounted p s e) (λ k. refl))
                    | inr (handle, e2) ↦
                        rw (e2, Ensures)
                          (elim (Option-cases
                            (import_ion_buffer platform.calls hnd.fd_metadata k).0) [
                              | inl e3 ↦
                                  rw (e3, Ensures)
                                    (ok, refused_retain p (uncounted p s e) (λ k. refl))
                              | inr (meta, e3) ↦
                                  rw (e3, e, Ensures)
                                    (
                                      set-Consistent s.handles_map _ p _ _ refl (omega arith)
                                          (update_same s.heap p _)
                                          (write-Consistent s.handles_map s.heap p _ ok),
                                      first_retain p (uncounted p s e)
                                          (counts_set s.handles_map p _ 1 refl),
                                    )
                            ])
                  ])
        ])

  pub retain-Refines :
      (hnd : PrivateHandle)
      → s.heap p ≡ some hnd
      → references s p < int_max
      → IsConsistent s
      → Refines s (retain p) (retain_buffer platform p s)
  unfolding retain_buffer get_buffer_from_handle_locked set_buffer Refines IsConsistent references
      Consistent
  retain-Refines hnd live below ok = elim (Option-cases (s.handles_map p)) [
    | inl e ↦ rw (e, Ensures) (import-Refines hnd live e ok)
    | inr (buf, e) ↦
        let counts_buf = counts-some s.handles_map p buf e in
        let room : ltb buf.ref_count int_max ≡ true = ground (arith, counts_buf) in
        rw (e, room, Ensures)
          (
            set-Consistent s.handles_map s.heap p _ hnd ((ok p buf e).0) (omega arith) live ok,
            another_retain p (counted p s buf e ok)
                (counts_set s.handles_map p _ _ (ap suc (sym counts_buf))),
          )
  ]

  -- The last reference goes, and the buffer with it.
  last_release-Ensures :
      (buf : Buffer) (hnd : PrivateHandle)
      → s.handles_map p ≡ some buf
      → buf.handle ≡ p
      → buf.ref_count ≡ 1
      → s.heap p ≡ some hnd
      → IsConsistent s
      → Ensures
          (free_buffer platform buf (record s { handles_map = update s.handles_map p none }))
          (λ e t. IsConsistent t × Step (references s) (references t) (release p) no_error)
  unfolding IsConsistent references
  last_release-Ensures buf hnd e own one live ok =
      let table = update s.handles_map p none in
      let zero_left = ap (λ n. n - 1) (counts-some s.handles_map p buf e ∙ one) in
      Ensures_mono _ _ (free_buffer platform buf (record s { handles_map = table }))
        (free-Ensures platform buf (record s { handles_map = table }) hnd (rw (own) live)
          (rw (own) (ground arith)) (erase-Consistent s.handles_map s.heap p ok))
        (λ r t h. (
          h.0,
          release_one p (counted p s buf e ok)
              (rw (h.1) (counts_erase s.handles_map p _ zero_left)),
        ))

  pub release-Refines : IsConsistent s → Refines s (release p) (release_buffer platform p s)
  unfolding release_buffer get_buffer_from_handle_locked set_buffer Refines IsConsistent references
      Consistent Same
  release-Refines ok = elim (Option-cases (s.handles_map p)) [
    | inl e ↦ rw (e, Ensures) (ok, release_none p (uncounted p s e) (λ k. refl))
    | inr (buf, e) ↦
        rw (e, Ensures)
          (let (own, positive, (hnd, live)) = ok p buf e in
            elim (Bool-cases (buf.ref_count - 1 == 0)) [
              | inr more ↦
                  rw (more, Ensures)
                    (
                      set-Consistent s.handles_map s.heap p _ hnd own (ground arith) live ok,
                      release_one p (counted p s buf e ok) (
                          counts_set s.handles_map p _ _
                            (sym (ap (λ n. n - 1) (counts-some s.handles_map p buf e)))),
                    )
              | inl last ↦
                  rw (last, Ensures)
                    (bind-Ensures _ _
                      (free_buffer platform buf
                        (record s { handles_map = update s.handles_map p none }))
                      (λ freed. pure no_error)
                      (last_release-Ensures buf hnd e own (ground arith) live ok) (λ r t h. h))
            ])
  ]
