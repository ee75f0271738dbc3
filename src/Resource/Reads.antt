-- ===== src/Resource/Reads.antt =====
-- resource_default.cpp: the searches for a pipe read only slots of src_pipes_.
use platform_hardware_qcom_d.Base.{
  ℕ, zero, suc, ◌+◌, ◌≡◌, ◌≤◌, refl, ap, ◌∙◌, sym, inl, inr, Bool, true, false, ◌||◌, not, some,
  List, [], ◌∷◌, arith, Bool-cases, Option-cases, length, length-map,
}
use platform_hardware_qcom_d.Base.Int.{ℤ}
use platform_hardware_qcom_d.Base.Float.{Float}
use platform_hardware_qcom_d.Types.{
  DisplayError, HwBlockType, HwResourceInfo, PipeType, pipe_vig, pipe_rgb, pipe_dma,
}
use platform_hardware_qcom_d.Resource.{SourcePipe, ResourceDefault}
use platform_hardware_qcom_d.Resource.Pipes.{
  Searched, is_free, search_pipe, search_pipe_from, next_pipe, try_pipe, get_pipe,
}
use platform_hardware_qcom_d.Resource.Ownership.{Moves, try_pipe-Moves}
use platform_hardware_qcom_d.Resource.Change.{indices, Moves-indices}
use platform_hardware_qcom_d.Resource.Init.{pipe_count}
use platform_hardware_qcom_d.Resource.Display.{
  register_display, unregister_display, reconfigure_display, start, stop, post_prepare, commit,
  post_commit, purge, set_max_mixer_stages,
}
use platform_hardware_qcom_d.Resource.Isolation.{prepare_inversion}
use platform_hardware_qcom_d.Resource.Calls.{
  Call, Calls, here, then, registers, unregisters, reconfigures, starts, stops, prepares,
  post_prepares, commits, post_commits, purges, sets_stages,
}

search_pipe-within :
    (n : ℕ) (b : HwBlockType) (num : ℕ) (ps : List SourcePipe)
    → num ≤ length ps
    → (search_pipe n b num ps).2 ≡ false
unfolding search_pipe
search_pipe-within n b zero ps l = refl
search_pipe-within n b (suc num) [] l = absurd (omega arith)
search_pipe-within n b (suc num) (p ∷ ps) l = elim (Bool-cases (is_free p)) [
  | inl e ↦ rw e refl
  | inr e ↦ rw e (search_pipe-within n b num ps (omega arith))
]

search_pipe_from-within :
    (first n : ℕ) (b : HwBlockType) (num : ℕ) (ps : List SourcePipe)
    → first + num ≤ length ps
    → (search_pipe_from first n b num ps).2 ≡ false
unfolding search_pipe_from
search_pipe_from-within zero n b num ps l = search_pipe-within n b num ps (omega arith)
search_pipe_from-within (suc first) n b num [] l = absurd (omega arith)
search_pipe_from-within (suc first) n b num (p ∷ ps) l =
    search_pipe_from-within first n b num ps (omega arith)

next_pipe-within :
    (info : HwResourceInfo) (n : ℕ) (type : PipeType) (b : HwBlockType) (ps : List SourcePipe)
    → pipe_count info ≤ length ps
    → (next_pipe info n type b ps).2 ≡ false
unfolding next_pipe
next_pipe-within info n pipe_vig b ps l =
    search_pipe_from-within 0 n b info.num_vig_pipe ps (omega arith)
next_pipe-within info n pipe_rgb b ps l =
    search_pipe_from-within info.num_vig_pipe n b info.num_rgb_pipe ps (omega arith)
next_pipe-within info n _ b ps l =
    search_pipe_from-within (info.num_vig_pipe + info.num_rgb_pipe) n b info.num_dma_pipe ps
      (omega arith)

try_pipe-within :
    (info : HwResourceInfo) (n : ℕ) (b : HwBlockType) (type : PipeType) (wanted : Bool)
    (r : Searched)
    → pipe_count info ≤ length r.1
    → r.2 ≡ false
    → (try_pipe info n b type wanted r).2 ≡ false
unfolding try_pipe
try_pipe-within info n b type wanted r l e = ground (arith, next_pipe-within info n type b r.1 l)

pub length-indices : (ps qs : List SourcePipe) → indices qs ≡ indices ps → length qs ≡ length ps
length-indices ps qs e =
    sym (length-map qs (λ p. p.index)) ∙ ap length e ∙ length-map ps (λ p. p.index)

pub Moves-length :
    {b : HwBlockType} {ps qs : List SourcePipe} → Moves b ps qs → length qs ≡ length ps
Moves-length {ps = ps} {qs = qs} m = length-indices ps qs (Moves-indices m)

-- A search of a table that holds all the pipes of the hardware stays within it.
pub get_pipe-within :
    (info : HwResourceInfo) (n : ℕ) (b : HwBlockType) (need_scale : Bool) (ps : List SourcePipe)
    → pipe_count info ≤ length ps
    → (get_pipe info n b need_scale ps).2 ≡ false
unfolding get_pipe
get_pipe-within info n b need_scale ps l =
    let rgb_wanted : Bool = not need_scale || not info.has_non_scalar_rgb in
    let dma : Searched = try_pipe info n b pipe_dma (not need_scale) (n, ps, false) in
    let rgb : Searched = try_pipe info n b pipe_rgb rgb_wanted dma in
    let dma_length =
      Moves-length (try_pipe-Moves info n b pipe_dma (not need_scale) (n, ps, false)) in
    let rgb_length = Moves-length (try_pipe-Moves info n b pipe_rgb rgb_wanted dma) in
    try_pipe-within info n b pipe_vig true rgb (omega (arith, dma_length, rgb_length)) (
      try_pipe-within info n b pipe_rgb rgb_wanted dma (omega (arith, dma_length))
        (try_pipe-within info n b pipe_dma (not need_scale) (n, ps, false) l refl))

post_commit-hw_res_info :
    (h : ℕ) (fd : ℤ) (e : DisplayError) (s t : ResourceDefault)
    → post_commit h fd s ≡ some (e, t)
    → t.hw_res_info ≡ s.hw_res_info
unfolding post_commit
post_commit-hw_res_info h fd e s t d = elim (Option-cases (s.contexts h)) [
  | inl f ↦ ground arith
  | inr (ctx, f) ↦ ground arith
]

Call-hw_res_info :
    {F : Type 0} (fl : Float F) {s t : ResourceDefault}
    → Call fl s t
    → t.hw_res_info ≡ s.hw_res_info
unfolding register_display unregister_display reconfigure_display start stop post_prepare commit
    purge set_max_mixer_stages
Call-hw_res_info fl (registers type a m r d) = ground arith
Call-hw_res_info fl (unregisters h e d) = ground arith
Call-hw_res_info fl (reconfigures h a m e d) = ground arith
Call-hw_res_info fl (starts h e d) = ground arith
Call-hw_res_info fl (stops h e d) = ground arith
Call-hw_res_info fl {s} {t} (prepares h hl hl' e d) =
    let (ctx, r, f, g, k, _, _) = prepare_inversion ⦃fl = fl⦄ h hl hl' s t e d in rw k refl
Call-hw_res_info fl (post_prepares h e d) = ground arith
Call-hw_res_info fl (commits h e d) = ground arith
Call-hw_res_info fl {s} {t} (post_commits h fd e d) = post_commit-hw_res_info h fd e s t d
Call-hw_res_info fl (purges h d) = ground arith
Call-hw_res_info fl (sets_stages h n e d) = ground arith

pub Calls-hw_res_info :
    {F : Type 0} (fl : Float F) {s t : ResourceDefault}
    → Calls fl s t
    → t.hw_res_info ≡ s.hw_res_info
Calls-hw_res_info fl here = refl
Calls-hw_res_info fl (then cs c) = Call-hw_res_info fl c ∙ Calls-hw_res_info fl cs
