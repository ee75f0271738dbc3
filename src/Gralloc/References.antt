-- ===== src/Gralloc/References.antt =====
-- gr_buf_mgr.cpp: the reference counts of the handles, as the clients of the mapper see them. The
-- calls of BufferManager refine an abstract table of counts.
use platform_hardware_qcom_d.Base.{
  Ensures, ℕ, suc, ◌≡◌, ◌≢◌, inl, inr, ◌-◌, ◌≤◌, ◌==◌, arith, Option, none, some, refl, Bool-cases,
}
use platform_hardware_qcom_d.Gralloc.Ion.{free_ion_buffer}
use platform_hardware_qcom_d.Gralloc.Words.{align}
use platform_hardware_qcom_d.Gralloc.{Usage}
use platform_hardware_qcom_d.Gralloc.Descriptor.{Error, no_error, bad_buffer}
use platform_hardware_qcom_d.Gralloc.Manager.{
  PrivateHandle, Buffer, Manager, Platform, update, free_buffer, read_handle, write_handle,
  delete_handle, on_kernel,
}

-- The references that a table holds to the handle at a pointer.
unfoldable pub counts : (ℕ → Option Buffer) → ℕ → ℕ
counts table pointer = elim (table pointer) [ none ↦ 0 | some buf ↦ buf.ref_count ]

-- A registered buffer stands under its own handle, is referenced, and its handle is in memory.
unfoldable pub Consistent : (ℕ → Option Buffer) → (ℕ → Option PrivateHandle) → Type 0
Consistent table heap =
    (pointer : ℕ) (buf : Buffer)
    → table pointer ≡ some buf
    → (buf.handle ≡ pointer)
      × (1 ≤ buf.ref_count)
      × ((hnd : PrivateHandle) × (heap pointer ≡ some hnd))

module _ {K : Type 0} where
  unfoldable pub references : Manager K → ℕ → ℕ
  references s = counts s.handles_map

  unfoldable pub IsConsistent : Manager K → Type 0
  IsConsistent s = Consistent s.handles_map s.heap

-- The calls that a client makes on a handle.
pub data Call : Type 0 where
  retain release is_imported unlock : ℕ → Call
  lock : ℕ → Usage → Call

-- The counts d are the counts c.
unfoldable pub Same : (ℕ → ℕ) → (ℕ → ℕ) → Type 0
Same c d = (k : ℕ) → d k ≡ c k

-- The counts d are the counts c, but for n at p.
unfoldable pub SetTo : (ℕ → ℕ) → ℕ → ℕ → (ℕ → ℕ) → Type 0
SetTo c p n d = (k : ℕ) → d k ≡ update c p n k

-- What a call may give and what it makes of the counts: with c the counts before it and d after it.
pub data Step (c d : ℕ → ℕ) : Call → Error → Type 0 where
  first_retain : (p : ℕ) → c p ≡ 0 → SetTo c p 1 d → Step c d (retain p) no_error
  refused_retain : (p : ℕ) → c p ≡ 0 → Same c d → Step c d (retain p) bad_buffer
  another_retain : (p : ℕ) → 1 ≤ c p → SetTo c p (suc (c p)) d → Step c d (retain p) no_error
  release_one : (p : ℕ) → 1 ≤ c p → SetTo c p (c p - 1) d → Step c d (release p) no_error
  release_none : (p : ℕ) → c p ≡ 0 → Same c d → Step c d (release p) bad_buffer
  imported : (p : ℕ) → 1 ≤ c p → Same c d → Step c d (is_imported p) no_error
  not_imported : (p : ℕ) → c p ≡ 0 → Same c d → Step c d (is_imported p) bad_buffer
  lock_known : (p : ℕ) (u : Usage) (e : Error) → 1 ≤ c p → Same c d → Step c d (lock p u) e
  lock_unknown :
      (p : ℕ) (u : Usage) (e : Error) → c p ≡ 0 → e ≢ no_error → Same c d → Step c d (lock p u) e
  unlock_known : (p : ℕ) (e : Error) → 1 ≤ c p → Same c d → Step c d (unlock p) e
  unlock_unknown : (p : ℕ) → c p ≡ 0 → Same c d → Step c d (unlock p) bad_buffer

-- The call leaves a consistent manager and is a step of the counts.
unfoldable pub Refines : {K : Type 0} → Manager K → Call → Option (Error × Manager K) → Type 0
Refines s call r = Ensures r (λ e s'. IsConsistent s' × Step (references s) (references s') call e)

module _ (table : ℕ → Option Buffer) (heap : ℕ → Option PrivateHandle) (p : ℕ) where
  pub write-Consistent :
      (hnd : PrivateHandle) → Consistent table heap → Consistent table (update heap p (some hnd))
  unfolding Consistent
  write-Consistent hnd ok pointer buf e =
      let (own, counted, (hnd', live)) = ok pointer buf e in
      elim (Bool-cases (p == pointer)) [
        | inl here ↦ (own, counted, (hnd, rw (here) refl))
        | inr other ↦ (own, counted, (hnd', rw (other) live))
      ]

  delete-Consistent : table p ≡ none → Consistent table heap → Consistent table (update heap p none)
  unfolding Consistent
  delete-Consistent free ok pointer buf e =
      let (own, counted, (hnd', live)) = ok pointer buf e in
      elim (Bool-cases (p == pointer)) [
        | inl here ↦ absurd (ground arith)
        | inr other ↦ (own, counted, (hnd', rw (other) live))
      ]

  pub set-Consistent :
      (buf : Buffer) (hnd : PrivateHandle)
      → buf.handle ≡ p
      → 1 ≤ buf.ref_count
      → heap p ≡ some hnd
      → Consistent table heap
      → Consistent (update table p (some buf)) heap
  unfolding Consistent
  set-Consistent buf hnd own counted live ok pointer other e = elim (Bool-cases (p == pointer)) [
    | inl here ↦ (ground arith, ground arith, (hnd, ground arith))
    | inr away ↦ ok pointer other (ground arith)
  ]

  pub erase-Consistent : Consistent table heap → Consistent (update table p none) heap
  unfolding Consistent
  erase-Consistent ok pointer buf e = elim (Bool-cases (p == pointer)) [
    | inl here ↦ absurd (ground arith)
    | inr away ↦ ok pointer buf (ground arith)
  ]

module _ {M K : Type 0} (platform : Platform M K) where
  -- Freeing a buffer that is no longer in the table leaves the table, and the manager consistent.
  pub free-Ensures :
      (buf : Buffer) (s : Manager K) (hnd : PrivateHandle)
      → s.heap buf.handle ≡ some hnd
      → s.handles_map buf.handle ≡ none
      → IsConsistent s
      → Ensures
          (free_buffer platform buf s)
          (λ e s'. IsConsistent s' × (s'.handles_map ≡ s.handles_map))
  unfolding free_buffer free_ion_buffer read_handle write_handle delete_handle on_kernel
      IsConsistent
  free-Ensures buf s hnd live free ok =
      rw (live, Ensures)
        (elim (Bool-cases (platform.validate hnd)) [
          | inr e ↦ rw (e, Ensures) (ok, refl)
          | inl e ↦
              rw (e, Ensures)
                (let (m, k) =
                    free_ion_buffer platform.calls hnd.base hnd.size hnd.fd buf.ion_handle_main
                      s.kernel in
                  elim (Bool-cases m) [
                    | inr e1 ↦ rw (e1, Ensures) (ok, refl)
                    | inl e1 ↦
                        rw (e1, Ensures)
                          (elim (Bool-cases (
                            (free_ion_buffer platform.calls hnd.base_metadata
                              (align platform.metadata_size platform.metadata_page_size)
                              hnd.fd_metadata buf.ion_handle_meta k).0)) [
                                | inr e2 ↦ rw (e2, Ensures) (ok, refl)
                                | inl e2 ↦
                                    rw (e2, Ensures)
                                      (elim (Bool-cases hnd.flags.client_allocated) [
                                        | inl e3 ↦
                                            rw (e3, Ensures)
                                              (
                                                write-Consistent s.handles_map s.heap buf.handle _
                                                    ok,
                                                refl,
                                              )
                                        | inr e3 ↦
                                            rw (e3, Ensures)
                                              (
                                                delete-Consistent s.handles_map _ buf.handle free (
                                                    write-Consistent s.handles_map s.heap buf.handle
                                                      _ ok),
                                                refl,
                                              )
                                      ])
                              ])
                  ])
        ])
