-- ===== src/Resource/Roundtrip.antt =====
-- RegisterDisplay and UnregisterDisplay of resource_default.cpp, one after the other.
use platform_hardware_qcom_d.Base.{
  ℕ, ◌+◌, ◌≡◌, refl, true, false, none, some, arith, Option-cases, Bool-cases, inl, inr, ◌==◌,
}
use platform_hardware_qcom_d.Types.{
  error_none, DisplayType, HwBlockType, block_eq, HwDisplayAttributes, HwMixerAttributes,
}
use platform_hardware_qcom_d.Resource.{
  ResourceDefault, DisplayResourceContext, update_context, update_in_use, lock, unlock,
}
use platform_hardware_qcom_d.Resource.Pipes.{reset_pipes}
use platform_hardware_qcom_d.Resource.Display.{
  register_display, unregister_display, block_of, purge_pipes, delete_context,
}
use platform_hardware_qcom_d.Resource.Ownership.{block_eq→eq}

-- Where RegisterDisplay succeeds, with the lock free and no context at the next address,
-- UnregisterDisplay of the new handle succeeds too, with the lock free: every block is in use as
-- before, every context is as before, and of the source pipes only those of the display's block
-- are reset.
pub register_display-undone :
    (type : DisplayType) (a : HwDisplayAttributes) (m : HwMixerAttributes) (s t : ResourceDefault)
    (h : ℕ)
    → s.locked ≡ false
    → s.contexts s.next_handle ≡ none
    → register_display type a m s ≡ some ((error_none, some h), t)
    → (b : HwBlockType) × (u : ResourceDefault) × (block_of type ≡ some b)
      × (unregister_display h t ≡ some (error_none, u))
      × (u.locked ≡ false)
      × (u.src_pipes ≡ reset_pipes b s.src_pipes)
      × ((b' : HwBlockType) → u.is_in_use b' ≡ s.is_in_use b')
      × ((k : ℕ) → u.contexts k ≡ s.contexts k)
unfolding register_display unregister_display lock unlock purge_pipes delete_context
register_display-undone type a m s t h idle fresh done = elim (Option-cases (block_of type)) [
  | inl f ↦ absurd (ground arith)
  | inr (b, f) ↦
      let ctx : DisplayResourceContext = record {
        display_attributes = a;
        hw_block_type = b;
        frame_count = 0;
        mixer_attributes = m;
      } in
      let used : s.is_in_use b ≡ false = ground arith in
      let at : h ≡ s.next_handle = ground arith in
      let t' : ResourceDefault = record s {
        is_in_use = update_in_use s.is_in_use b true;
        contexts = update_context s.contexts s.next_handle (some ctx);
        next_handle = s.next_handle + 1;
      } in
      let e : t ≡ t' = ground arith in
      let u : ResourceDefault = record t' {
        is_in_use = update_in_use t'.is_in_use b false;
        contexts = update_context t'.contexts s.next_handle none;
        src_pipes = reset_pipes b s.src_pipes;
        locked = false;
      } in
      (
        b,
        u,
        f,
        rw (at, e) (ground arith),
        refl,
        refl,
        λ b'. elim (Bool-cases (block_eq b b')) [
          | inl g ↦ let same : b ≡ b' = block_eq→eq b b' g in ground arith
          | inr g ↦ ground arith
        ],
        λ k. elim (Bool-cases (s.next_handle == k)) [ inl g ↦ ground arith | inr g ↦ ground arith ],
      )
]
