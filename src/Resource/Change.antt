-- ===== src/Resource/Change.antt =====
-- What a call of resource_default.cpp may do to the table of source pipes, and what it never does.
use mathlib.Core.Path.{subst}
use platform_hardware_qcom_d.Base.{
  sym, ℕ, ◌≡◌, refl, ap, ◌∙◌, inl, inr, some, List, [], ◌∷◌, map, arith, Option-cases, true,
}
use platform_hardware_qcom_d.Base.Int.{ℤ}
use platform_hardware_qcom_d.Base.Float.{Float}
use platform_hardware_qcom_d.Types.{DisplayError, HwBlockType, hw_primary, block_eq}
use platform_hardware_qcom_d.Resource.{SourcePipe, ResourceDefault}
use platform_hardware_qcom_d.Resource.Display.{
  register_display, unregister_display, reconfigure_display, start, stop, post_prepare, commit,
  post_commit, purge, set_max_mixer_stages, hand_off,
}
use platform_hardware_qcom_d.Resource.Ownership.{
  Move, Moves, kept, reserved, released, nil, cons, reset_pipes-Moves,
}
use platform_hardware_qcom_d.Resource.Isolation.{prepare-Moves, prepare_inversion}
use platform_hardware_qcom_d.Resource.Calls.{
  Call, Calls, here, then, registers, unregisters, reconfigures, starts, stops, prepares,
  post_prepares, commits, post_commits, purges, sets_stages, register_display-src_pipes,
  unregister_display-src_pipes, purge-src_pipes, reconfigure_display-src_pipes, start-src_pipes,
  stop-src_pipes, post_prepare-src_pipes, commit-src_pipes, set_max_mixer_stages-src_pipes,
  post_commit-src_pipes,
}

-- The table stays, a block moves its pipes, or the primary block's kernel pipes are handed off.
pub data Change (ps qs : List SourcePipe) : Type 0 where
  unchanged : qs ≡ ps → Change ps qs
  moved : (b : HwBlockType) → Moves b ps qs → Change ps qs
  handed :
      (b : HwBlockType) → block_eq b hw_primary ≡ true → qs ≡ map (hand_off b) ps → Change ps qs

post_commit-num_pipe :
    (h : ℕ) (fd : ℤ) (e : DisplayError) (s t : ResourceDefault)
    → post_commit h fd s ≡ some (e, t)
    → t.num_pipe ≡ s.num_pipe
unfolding post_commit
post_commit-num_pipe h fd e s t d = elim (Option-cases (s.contexts h)) [
  | inl f ↦ ground arith
  | inr (ctx, f) ↦ ground arith
]

-- Every call makes one of the three changes, and keeps the number of pipes.
pub Call-Change :
    {F : Type 0} (fl : Float F) {s t : ResourceDefault}
    → Call fl s t
    → Change s.src_pipes t.src_pipes × (t.num_pipe ≡ s.num_pipe)
unfolding register_display unregister_display reconfigure_display start stop post_prepare commit
    purge set_max_mixer_stages
Call-Change fl {s} {t} (registers type a m r d) =
    (unchanged (register_display-src_pipes type a m r s t d), ground arith)
Call-Change fl {s} {t} (unregisters h e d) =
    let (ctx, f, k) = unregister_display-src_pipes h e s t d in
    (
      moved ctx.hw_block_type (
          subst (Moves ctx.hw_block_type s.src_pipes) (sym k)
            (reset_pipes-Moves ctx.hw_block_type s.src_pipes)),
      ground arith,
    )
Call-Change fl {s} {t} (reconfigures h a m e d) =
    (unchanged (reconfigure_display-src_pipes h a m e s t d), ground arith)
Call-Change fl {s} {t} (starts h e d) = (unchanged (start-src_pipes h e s t d), ground arith)
Call-Change fl {s} {t} (stops h e d) = (unchanged (stop-src_pipes h e s t d), ground arith)
Call-Change fl {s} {t} (prepares h hl hl' e d) =
    let (ctx, r, f, g, k, _, _) = prepare_inversion ⦃fl = fl⦄ h hl hl' s t e d in
    (moved ctx.hw_block_type (prepare-Moves ⦃fl = fl⦄ h hl hl' s t ctx e f d).0, rw k refl)
Call-Change fl {s} {t} (post_prepares h e d) =
    (unchanged (post_prepare-src_pipes h e s t d), ground arith)
Call-Change fl {s} {t} (commits h e d) = (unchanged (commit-src_pipes h e s t d), ground arith)
Call-Change fl {s} {t} (post_commits h fd e d) = (
  elim (post_commit-src_pipes h fd e s t d) [
    | inl k ↦ unchanged k
    | inr (ctx, p, k) ↦ handed ctx.hw_block_type p k
  ],
  post_commit-num_pipe h fd e s t d,
)
Call-Change fl {s} {t} (purges h d) =
    let (ctx, f, k) = purge-src_pipes h s t d in
    (
      moved ctx.hw_block_type (
          subst (Moves ctx.hw_block_type s.src_pipes) (sym k)
            (reset_pipes-Moves ctx.hw_block_type s.src_pipes)),
      ground arith,
    )
Call-Change fl {s} {t} (sets_stages h n e d) =
    (unchanged (set_max_mixer_stages-src_pipes h n e s t d), ground arith)

abbrev pub indices : List SourcePipe → List ℕ
indices = map λ p. p.index

Move-index : {b : HwBlockType} {p q : SourcePipe} → Move b p q → q.index ≡ p.index
Move-index (kept e) = rw e
Move-index (reserved a e) = rw e
Move-index (released a e) = rw e

pub Moves-indices :
    {b : HwBlockType} {ps qs : List SourcePipe} → Moves b ps qs → indices qs ≡ indices ps
Moves-indices nil = refl
Moves-indices (cons m ms) = let e = Move-index m in let es = Moves-indices ms in ground arith

hand_off-indices :
    (b : HwBlockType) (ps : List SourcePipe) → indices (map (hand_off b) ps) ≡ indices ps
unfolding hand_off
hand_off-indices b [] = refl
hand_off-indices b (p ∷ ps) = ground (arith, hand_off-indices b ps)

Change-indices : {ps qs : List SourcePipe} → Change ps qs → indices qs ≡ indices ps
Change-indices (unchanged e) = ap indices e
Change-indices (moved b m) = Moves-indices m
Change-indices {ps} (handed b p e) = ap indices e ∙ hand_off-indices b ps

-- No call changes the index field of a pipe, the number of pipes, or the length of the table.
pub Calls-indices :
    {F : Type 0} (fl : Float F) {s t : ResourceDefault}
    → Calls fl s t
    → (indices t.src_pipes ≡ indices s.src_pipes) × (t.num_pipe ≡ s.num_pipe)
Calls-indices fl here = (refl, refl)
Calls-indices fl {s} {t} (then {t = u} cs c) =
    let (i, n) = Calls-indices fl cs in
    let (change, m) = Call-Change fl c in (Change-indices change ∙ i, m ∙ n)
