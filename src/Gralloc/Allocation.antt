-- ===== src/Gralloc/Allocation.antt =====
-- gr_buf_mgr.cpp: what AllocateBuffer leaves behind.
use platform_hardware_qcom_d.Base.{
  Ensures, ℕ, suc, ◌≡◌, inl, inr, ◌≤◌, ◌%◌, arith, Option, none, some, refl, sym, Bool-cases,
  Option-cases,
}
use mathlib.Core.Path.{subst}
use platform_hardware_qcom_d.Gralloc.{Usage}
use platform_hardware_qcom_d.Gralloc.Words.{align}
use platform_hardware_qcom_d.Gralloc.Size.{get_data_alignment}
use platform_hardware_qcom_d.Gralloc.Descriptor.{Error, no_error, no_resources, BufferDescriptor}
use platform_hardware_qcom_d.Gralloc.Ion.{AllocData, alloc_buffer, allocate_mem}
use platform_hardware_qcom_d.Gralloc.Manager.{
  PrivateHandle, Manager, Platform, get_buffer_from_handle_locked, set_buffer, write_handle,
  on_kernel, register_handle_locked,
}
use platform_hardware_qcom_d.Gralloc.Allocate.{
  allocate_buffer, allocate, requested, allocation_info, make_handle, alloc_data,
}
use platform_hardware_qcom_d.Gralloc.References.{
  SetTo, references, IsConsistent, Consistent, write-Consistent, set-Consistent,
}
use platform_hardware_qcom_d.Gralloc.Refinement.{counts_set, update_same}

module _ {M K : Type 0} (platform : Platform M K) where
  -- An allocation that works is of the size that was asked for.
  size-allocate :
      (d : AllocData) (usage : Usage) (k : K) → (allocate platform d usage k).0.1.size ≡ d.size
  unfolding allocate allocate_mem alloc_buffer
  size-allocate d usage k = ground arith

  requested_size : (d : BufferDescriptor) (n : ℕ) → n ≤ (requested platform d n).0
  unfolding requested
  requested_size d n = ground arith

-- A new buffer at p between two states: its handle stands at an address that was free, holds at
-- least the n bytes that the caller asked for and the next id, and is counted once; the other
-- counts are as they were.
unfoldable pub IsAllocated : {K : Type 0} → Manager K → ℕ → ℕ → Manager K → Type 0
IsAllocated s n p t =
    (hnd : PrivateHandle) × (s.heap p ≡ none)
    × (t.heap p ≡ some hnd)
    × (n ≤ hnd.size)
    × (hnd.id ≡ t.next_id)
    × (t.next_id ≡ suc s.next_id % 18446744073709551616)
    × SetTo (references s) p 1 (references t)

-- Nothing but the kernel has changed.
unfoldable pub IsUnchanged : {K : Type 0} → Manager K → Manager K → Type 0
IsUnchanged s t = (t.handles_map ≡ s.handles_map) × (t.heap ≡ s.heap) × (t.next_id ≡ s.next_id)

-- What AllocateBuffer may return.
unfoldable pub Outcome : {K : Type 0} → Manager K → ℕ → Error × Option ℕ → Manager K → Type 0
Outcome s n (e, none) t = (e ≡ no_resources) × IsUnchanged s t
Outcome s n (e, some p) t = (e ≡ no_error) × IsAllocated s n p t

module _ {M K : Type 0} (platform : Platform M K) (s : Manager K) where
  -- An address that is not in use has no entry either.
  free_unregistered : (p : ℕ) → IsConsistent s → s.heap p ≡ none → s.handles_map p ≡ none
  unfolding IsConsistent Consistent
  free_unregistered p ok free = elim (Option-cases (s.handles_map p)) [
    | inl e ↦ e
    | inr (buf, e) ↦ let (own, positive, (hnd, live)) = ok p buf e in absurd (ground arith)
  ]

  -- Given a consistent manager and an address for the new handle that is not in use, AllocateBuffer
  -- returns in a consistent manager. Either it gives NO_RESOURCES and no handle, and nothing but
  -- the kernel has changed, or it gives NONE and a handle at that address, of at least the size
  -- asked for and with the next id, which is now counted once and no other count has changed.
  pub allocate_buffer-Outcome :
      (d : BufferDescriptor) (n : ℕ)
      → IsConsistent s
      → s.heap (platform.fresh s.heap) ≡ none
      → Ensures (allocate_buffer platform d n s) (λ r t. IsConsistent t × Outcome s n r t)
  unfolding allocate_buffer make_handle references on_kernel write_handle register_handle_locked
      get_buffer_from_handle_locked set_buffer Outcome IsConsistent IsAllocated IsUnchanged
  allocate_buffer-Outcome d n ok free =
      let info = allocation_info platform d in
      let size = (requested platform d n).0 in
      let main_data = alloc_data size (get_data_alignment platform.env info.format info.usage) in
      let ((done, main), k) = allocate platform main_data info.usage s.kernel in
      elim (Bool-cases done) [
        | inr a ↦ rw (a, Ensures) (ok, (refl, (refl, refl, refl)))
        | inl a ↦
            rw (a, Ensures)
              (let meta_data =
                  alloc_data (align platform.metadata_size platform.env.page_size)
                    platform.env.page_size in
                elim (Bool-cases
                  (allocate platform meta_data (platform.headers.usage_bits 0) k).0.0) [
                    | inr b ↦ rw (b, Ensures) (ok, (refl, (refl, refl, refl)))
                    | inl b ↦
                        let p = platform.fresh s.heap in
                        let absent = free_unregistered p ok free in
                        rw (b, absent, Ensures)
                          (
                            set-Consistent s.handles_map _ p _ _ refl (omega arith)
                                (update_same s.heap p _)
                                (write-Consistent s.handles_map s.heap p _ ok),
                            (
                              refl,
                              (
                                _,
                                free,
                                update_same s.heap p _,
                                subst (λ m. n ≤ m)
                                    (sym (size-allocate platform main_data info.usage s.kernel))
                                    (requested_size platform d n),
                                refl,
                                refl,
                                counts_set s.handles_map p _ 1 refl,
                              ),
                            ),
                          )
                  ])
      ]
