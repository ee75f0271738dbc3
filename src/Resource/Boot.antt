-- ===== src/Resource/Boot.antt =====
-- From Init of resource_default.cpp on: the splash pipes stay with the kernel, and a table too small
-- for them is overrun.
use platform_hardware_qcom_d.Base.{
  ℕ, zero, suc, ◌+◌, ◌≡◌, ◌≢◌, ◌≤◌, ◌<◌, inl, inr, false, none, some, List, [], ◌∷◌, arith,
  Option-cases, length, replicate, length-replicate, get_elem?,
}
use platform_hardware_qcom_d.Base.{get_elem?-ne-none}
use platform_hardware_qcom_d.Base.Float.{Float}
use platform_hardware_qcom_d.Types.{error_none, hw_block_max, HwResourceInfo}
use platform_hardware_qcom_d.Resource.{
  SourcePipe, PipeOwner, kernel_mode, new_source_pipe, ResourceDefault,
}
use platform_hardware_qcom_d.Resource.Init.{
  modify, place_pipes, set_priorities, keep_splash, init, keep_for_kernel, pipe_count, first_cursor,
}
use platform_hardware_qcom_d.Resource.Ownership.{block_eq_refl}
use platform_hardware_qcom_d.Resource.Splash.{KernelIdle, owners, Calls-owners}
use platform_hardware_qcom_d.Resource.Calls.{Calls}
use platform_hardware_qcom_d.Resource.Start.{
  AllFree, modify_lem, place_pipes-Remade, set_priorities-Remade, replicate-AllFree, init_inversion,
  init-Remade,
}

AllFree-KernelIdle : (ps : List SourcePipe) → AllFree ps → KernelIdle ps
AllFree-KernelIdle [] a = tt
AllFree-KernelIdle (p ∷ ps) (e, a) =
    ((λ u. rw e (block_eq_refl hw_block_max)), AllFree-KernelIdle ps a)

get_elem?-owners :
    (ps : List SourcePipe) (i : ℕ) (p : SourcePipe)
    → get_elem? ps i ≡ some p
    → get_elem? (owners ps) i ≡ some p.owner
get_elem?-owners [] i p h = cc
get_elem?-owners (q ∷ ps) zero p h = ground arith
get_elem?-owners (q ∷ ps) (suc i) p h = get_elem?-owners ps i p h

-- A change at one slot leaves the owner at the one before.
modify-owner :
    (i j : ℕ) (ps qs : List SourcePipe) (o : PipeOwner)
    → i < j
    → modify j keep_for_kernel ps ≡ some qs
    → get_elem? (owners ps) i ≡ some o
    → get_elem? (owners qs) i ≡ some o
unfolding modify
modify-owner i j [] qs o l h e = cc
modify-owner i zero (p ∷ ps) qs o l h e = absurd (omega arith)
modify-owner zero (suc j) (p ∷ ps) qs o l h e = elim (Option-cases (modify j keep_for_kernel ps)) [
  | inl f ↦ ground arith
  | inr (rs, f) ↦ let shape : qs ≡ p ∷ rs = ground arith in rw shape e
]
modify-owner (suc i) (suc j) (p ∷ ps) qs o l h e =
    elim (Option-cases (modify j keep_for_kernel ps)) [
      | inl f ↦ ground arith
      | inr (rs, f) ↦
          let shape : qs ≡ p ∷ rs = ground arith in
          rw shape (modify-owner i j ps rs o (omega arith) f e)
    ]

-- The two splash pipes of a table that Init has set up.
keep_splash-owners :
    (i : ℕ) (ps qs : List SourcePipe)
    → keep_splash false i ps ≡ some qs
    → (get_elem? (owners qs) i ≡ some kernel_mode)
      × (get_elem? (owners qs) (i + 1) ≡ some kernel_mode)
      × (i + 1 < length ps)
unfolding keep_splash
keep_splash-owners i ps qs h = elim (Option-cases (modify i keep_for_kernel ps)) [
  | inl e ↦ ground arith
  | inr (rs, e) ↦
      let second : modify (i + 1) keep_for_kernel rs ≡ some qs = ground arith in
      let (l, _, (p, _, at_i)) = modify_lem i keep_for_kernel ps rs e in
      let (_, b, (q, _, at_next)) = modify_lem (i + 1) keep_for_kernel rs qs second in
      (
        modify-owner i (i + 1) rs qs kernel_mode (omega arith) second
            (get_elem?-owners rs i (keep_for_kernel p) at_i),
        get_elem?-owners qs (i + 1) (keep_for_kernel q) at_next,
        omega arith,
      )
]

-- Without the virtual driver Init gives the first two pipes after the VIG pipes to the kernel, and
-- whatever calls follow, for any displays, they are the kernel's still: PostCommit never hands them
-- off.
pub splash_pipes_stay :
    {F : Type 0} (fl : Float F) (info : HwResourceInfo) {s t : ResourceDefault}
    → init false info ≡ some (error_none, s)
    → Calls fl s t
    → (get_elem? (owners t.src_pipes) info.num_vig_pipe ≡ some kernel_mode)
      × (get_elem? (owners t.src_pipes) (info.num_vig_pipe + 1) ≡ some kernel_mode)
splash_pipes_stay fl info {s} {t} h calls =
    let (ps, _, f, _, _) = init_inversion false info s h in
    let (first, second, _) = keep_splash-owners info.num_vig_pipe _ s.src_pipes f in
    let free =
      AllFree-KernelIdle s.src_pipes
        ((init-Remade false info s h).1 (replicate-AllFree (pipe_count info))) in
    rw (Calls-owners fl free calls).1 (first, second)

-- Where fewer than two pipes follow the VIG pipes, there is a pipe, and hw_pipes has as many entries
-- as the counts say, Init without the virtual driver writes past the end of src_pipes_: its reads
-- of hw_pipes, which are the only other fault that it can have, are all in range.
pub init_overrun :
    (info : HwResourceInfo)
    → pipe_count info ≢ 0
    → info.num_rgb_pipe + info.num_dma_pipe ≤ 1
    → pipe_count info ≤ length info.hw_pipes
    → ((i : ℕ) → i < pipe_count info → get_elem? info.hw_pipes i ≢ none) × (init false info ≡ none)
unfolding init
init_overrun info some_pipe few listed = (
  λ i below. get_elem?-ne-none info.hw_pipes i (omega arith),
  elim (Option-cases (
      place_pipes (pipe_count info) 0 info.hw_pipes (first_cursor info)
        (replicate (pipe_count info) new_source_pipe))) [
          | inl e ↦ ground arith
          | inr (ps, e) ↦
              elim (Option-cases (keep_splash false info.num_vig_pipe (set_priorities 0 ps))) [
                | inl f ↦ ground arith
                | inr (qs, f) ↦
                    let (_, _, b) =
                      keep_splash-owners info.num_vig_pipe (set_priorities 0 ps) qs f in
                    let l = (set_priorities-Remade 0 ps).0 in
                    let l' =
                      (place_pipes-Remade (pipe_count info) 0 info.hw_pipes (first_cursor info)
                        (replicate (pipe_count info) new_source_pipe) ps e).0 in
                    absurd (omega (arith, length-replicate (pipe_count info) new_source_pipe))
              ]
        ],
)
