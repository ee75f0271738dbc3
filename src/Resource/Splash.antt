-- ===== src/Resource/Splash.antt =====
-- The pipes that Init of resource_default.cpp leaves to the kernel for the splash screen.
use platform_hardware_qcom_d.Base.{◌≡◌, refl, ap, ◌∙◌, true, false, List, [], ◌∷◌, map, arith}
use platform_hardware_qcom_d.Base.Float.{Float}
use platform_hardware_qcom_d.Types.{HwBlockType, hw_primary, hw_block_max, block_eq}
use platform_hardware_qcom_d.Resource.{SourcePipe, PipeOwner, is_user_mode, ResourceDefault}
use platform_hardware_qcom_d.Resource.Display.{hand_off}
use platform_hardware_qcom_d.Resource.Ownership.{
  Move, Moves, kept, reserved, released, nil, cons, block_eq→eq,
}
use platform_hardware_qcom_d.Resource.Calls.{Calls, here, then}
use platform_hardware_qcom_d.Resource.Change.{Change, unchanged, moved, handed, Call-Change}

-- A pipe of the kernel is reserved for no display block.
abbrev pub IsIdle : SourcePipe → Type 0
IsIdle p = is_user_mode p.owner ≡ false → block_eq p.hw_block_type hw_block_max ≡ true

abbrev pub KernelIdle : List SourcePipe → Type 0
KernelIdle [] = Unit {0}
KernelIdle (p ∷ ps) = IsIdle p × KernelIdle ps

abbrev pub owners : List SourcePipe → List PipeOwner
owners = map λ p. p.owner

-- What an operation does to the owners, given that the kernel's pipes are idle.
abbrev KeepsOwners : List SourcePipe → List SourcePipe → Type 0
KeepsOwners ps qs = KernelIdle ps → KernelIdle qs × (owners qs ≡ owners ps)

Move-owner :
    {b : HwBlockType} {p q : SourcePipe} → Move b p q → IsIdle p → IsIdle q × (q.owner ≡ p.owner)
Move-owner (kept e) i = (rw e i, rw e)
Move-owner (reserved a e) i = (rw e (λ u. cc a.0), rw e)
Move-owner (released a e) i = (rw e (λ u. cc a.0), rw e)

Moves-KeepsOwners : {b : HwBlockType} {ps qs : List SourcePipe} → Moves b ps qs → KeepsOwners ps qs
Moves-KeepsOwners nil i = (tt, refl)
Moves-KeepsOwners (cons m ms) (i, is) =
    let (j, e) = Move-owner m i in let (js, es) = Moves-KeepsOwners ms is in ((j, js), ground arith)

eq-KeepsOwners : {ps qs : List SourcePipe} → qs ≡ ps → KeepsOwners ps qs
eq-KeepsOwners e i = (rw e i, rw e)

primary-ne-max : block_eq hw_primary hw_block_max ≡ false
unfolding block_eq
primary-ne-max = refl

-- The hand-off finds no pipe: it looks for kernel pipes that are reserved for the primary block.
hand_off-idle :
    (b : HwBlockType) (p : SourcePipe) → block_eq b hw_primary ≡ true → IsIdle p → hand_off b p ≡ p
unfolding hand_off
hand_off-idle b p e i = ground (
  arith,
  ap (λ c. block_eq c hw_block_max) (block_eq→eq b hw_primary e),
  block_eq→eq p.hw_block_type b,
  primary-ne-max,
)

map-hand_off :
    (b : HwBlockType) (ps : List SourcePipe)
    → block_eq b hw_primary ≡ true
    → KernelIdle ps
    → map (hand_off b) ps ≡ ps
map-hand_off b [] e i = refl
map-hand_off b (p ∷ ps) e (i, is) = rw (hand_off-idle b p e i, map-hand_off b ps e is)

Change-KeepsOwners : {ps qs : List SourcePipe} → Change ps qs → KeepsOwners ps qs
Change-KeepsOwners (unchanged e) = eq-KeepsOwners e
Change-KeepsOwners (moved b m) = Moves-KeepsOwners m
Change-KeepsOwners {ps} (handed b p e) = λ i. eq-KeepsOwners (e ∙ map-hand_off b ps p i) i

-- Where no kernel pipe is reserved for a block, no calls ever change the owner of a pipe: the
-- hand-off of the splash pipes after the first primary frame finds none.
pub Calls-owners :
    {F : Type 0} (fl : Float F) {s t : ResourceDefault}
    → KernelIdle s.src_pipes
    → Calls fl s t
    → KernelIdle t.src_pipes × (owners t.src_pipes ≡ owners s.src_pipes)
Calls-owners fl i here = (i, refl)
Calls-owners fl i (then cs c) =
    let (j, e) = Calls-owners fl i cs in
    let (k, f) = Change-KeepsOwners (Call-Change fl c).0 j in (k, f ∙ e)
