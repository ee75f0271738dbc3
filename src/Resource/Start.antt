-- ===== src/Resource/Start.antt =====
-- What Init of resource_default.cpp establishes, and where it writes past the end of src_pipes_.
use platform_hardware_qcom_d.Base.{
  ℕ, zero, suc, ◌+◌, ◌≡◌, ◌<◌, refl, ap, ◌∙◌, inl, inr, Bool, true, false, some, List, [], ◌∷◌,
  arith, Option-cases, length, replicate, get_elem?,
}
use platform_hardware_qcom_d.Types.{
  error_none, hw_block_max, HwResourceInfo, HwPipeCaps, PipeType, pipe_vig, pipe_rgb, pipe_dma,
}
use platform_hardware_qcom_d.Resource.{SourcePipe, new_source_pipe, ResourceDefault}
use platform_hardware_qcom_d.Resource.Init.{
  modify, PipeCursor, place_pipe, place_pipes, set_priorities, keep_splash, init, keep_for_kernel,
  bound_pipe, pipe_count, first_cursor,
}

-- No pipe is reserved.
abbrev pub AllFree : List SourcePipe → Type 0
AllFree [] = Unit {0}
AllFree (p ∷ ps) = (p.hw_block_type ≡ hw_block_max) × AllFree ps

-- A function on pipes that leaves the reservation as it is.
abbrev KeepsBlock : (SourcePipe → SourcePipe) → Type 0
KeepsBlock f = (p : SourcePipe) → (f p).hw_block_type ≡ p.hw_block_type

pub modify_lem :
    (i : ℕ) (f : SourcePipe → SourcePipe) (ps qs : List SourcePipe)
    → modify i f ps ≡ some qs
    → (length qs ≡ length ps)
      × (i < length ps)
      × ((p : SourcePipe) × (get_elem? ps i ≡ some p) × (get_elem? qs i ≡ some (f p)))
unfolding modify
modify_lem i f [] qs h = cc
modify_lem zero f (p ∷ ps) qs h = (ground arith, omega arith, (p, refl, ground arith))
modify_lem (suc i) f (p ∷ ps) qs h = elim (Option-cases (modify i f ps)) [
  | inl e ↦ ground arith
  | inr (rs, e) ↦
      let (l, b, (q, k, m)) = modify_lem i f ps rs e in
      let shape : qs ≡ p ∷ rs = ground arith in
      (rw shape (ap suc l), omega arith, (q, k, rw shape m))
]

modify-AllFree :
    (i : ℕ) (f : SourcePipe → SourcePipe) (ps qs : List SourcePipe)
    → KeepsBlock f
    → modify i f ps ≡ some qs
    → AllFree ps
    → AllFree qs
unfolding modify
modify-AllFree i f [] qs k h a = cc
modify-AllFree zero f (p ∷ ps) qs k h a =
    let shape : qs ≡ f p ∷ ps = ground arith in rw shape (k p ∙ a.0, a.1)
modify-AllFree (suc i) f (p ∷ ps) qs k h a = elim (Option-cases (modify i f ps)) [
  | inl e ↦ ground arith
  | inr (rs, e) ↦
      let shape : qs ≡ p ∷ rs = ground arith in rw shape (a.0, modify-AllFree i f ps rs k e a.1)
]

-- A table that a step makes from `ps`: as long, and free where `ps` is.
abbrev pub Remade : List SourcePipe → List SourcePipe → Type 0
Remade ps qs = (length qs ≡ length ps) × (AllFree ps → AllFree qs)

modify-Remade :
    (i : ℕ) (f : SourcePipe → SourcePipe) (ps qs : List SourcePipe)
    → KeepsBlock f
    → modify i f ps ≡ some qs
    → Remade ps qs
modify-Remade i f ps qs k h = ((modify_lem i f ps qs h).0, modify-AllFree i f ps qs k h)

place_pipe-Remade :
    (i : ℕ) (type : PipeType) (id : ℕ) (c c' : PipeCursor) (ps qs : List SourcePipe)
    → place_pipe i type id c ps ≡ some (c', qs)
    → Remade ps qs
unfolding place_pipe
place_pipe-Remade i pipe_vig id c c' ps qs h =
    modify-Remade c.vig_index (bound_pipe pipe_vig i id) ps qs (λ p. refl) (ground arith)
place_pipe-Remade i pipe_rgb id c c' ps qs h =
    modify-Remade c.rgb_index (bound_pipe pipe_rgb i id) ps qs (λ p. refl) (ground arith)
place_pipe-Remade i pipe_dma id c c' ps qs h =
    modify-Remade c.dma_index (bound_pipe pipe_dma i id) ps qs (λ p. refl) (ground arith)
place_pipe-Remade i _ id c c' ps qs h = let e : qs ≡ ps = ground arith in rw e (refl, λ a. a)

pub set_priorities-Remade : (i : ℕ) (ps : List SourcePipe) → Remade ps (set_priorities i ps)
unfolding set_priorities
set_priorities-Remade i [] = (refl, λ a. a)
set_priorities-Remade i (p ∷ ps) =
    let (l, f) = set_priorities-Remade (i + 1) ps in (ap suc l, λ a. (a.0, f a.1))

pub place_pipes-Remade :
    (rounds i : ℕ) (caps : List HwPipeCaps) (c : PipeCursor) (ps qs : List SourcePipe)
    → place_pipes rounds i caps c ps ≡ some qs
    → Remade ps qs
unfolding place_pipes
place_pipes-Remade zero i caps c ps qs h = let e : qs ≡ ps = ground arith in rw e (refl, λ a. a)
place_pipes-Remade (suc rounds) i [] c ps qs h = cc
place_pipes-Remade (suc rounds) i (cap ∷ caps) c ps qs h =
    elim (Option-cases (place_pipe i cap.pipe_type cap.id c ps)) [
      | inl e ↦ ground arith
      | inr ((c', rs), e) ↦
          let (l, f) = place_pipe-Remade i cap.pipe_type cap.id c c' ps rs e in
          let (l', f') = place_pipes-Remade rounds (i + 1) caps c' rs qs (ground arith) in
          (l' ∙ l, λ a. f' (f a))
    ]

keep_splash-Remade :
    (v : Bool) (i : ℕ) (ps qs : List SourcePipe) → keep_splash v i ps ≡ some qs → Remade ps qs
unfolding keep_splash
keep_splash-Remade true i ps qs h = let e : qs ≡ ps = ground arith in rw e (refl, λ a. a)
keep_splash-Remade false i ps qs h = elim (Option-cases (modify i keep_for_kernel ps)) [
  | inl e ↦ ground arith
  | inr (rs, e) ↦
      let (l, f) = modify-Remade i keep_for_kernel ps rs (λ p. refl) e in
      let (l', f') = modify-Remade (i + 1) keep_for_kernel rs qs (λ p. refl) (ground arith) in
      (l' ∙ l, λ a. f' (f a))
]

pub replicate-AllFree : (n : ℕ) → AllFree (replicate n new_source_pipe)
replicate-AllFree zero = tt
replicate-AllFree (suc n) = (refl, replicate-AllFree n)

-- The stages of an Init that succeeds.
pub init_inversion :
    (v : Bool) (info : HwResourceInfo) (s : ResourceDefault)
    → init v info ≡ some (error_none, s)
    → (ps : List SourcePipe) × (place_pipes
          (pipe_count info)
          0
          info.hw_pipes
          (first_cursor info)
          (replicate (pipe_count info) new_source_pipe)
        ≡ some ps)
      × (keep_splash v info.num_vig_pipe (set_priorities 0 ps) ≡ some s.src_pipes)
      × (s.num_pipe ≡ pipe_count info)
      × (pipe_count s.hw_res_info ≡ pipe_count info)
unfolding init
init_inversion v info s h =
    elim (Option-cases (
      place_pipes (pipe_count info) 0 info.hw_pipes (first_cursor info)
        (replicate (pipe_count info) new_source_pipe))) [
          | inl e ↦ ground arith
          | inr (ps, e) ↦
              elim (Option-cases (keep_splash v info.num_vig_pipe (set_priorities 0 ps))) [
                | inl f ↦ ground arith
                | inr (qs, f) ↦ (ps, e, ground arith, ground arith, ground arith)
              ]
        ]

pub init-Remade :
    (v : Bool) (info : HwResourceInfo) (s : ResourceDefault)
    → init v info ≡ some (error_none, s)
    → Remade (replicate (pipe_count info) new_source_pipe) s.src_pipes
init-Remade v info s h =
    let (ps, e, f, _, _) = init_inversion v info s h in
    let (l, a) =
      place_pipes-Remade (pipe_count info) 0 info.hw_pipes (first_cursor info)
        (replicate (pipe_count info) new_source_pipe) ps e in
    let (l', a') = set_priorities-Remade 0 ps in
    let (l'', a'') = keep_splash-Remade v info.num_vig_pipe (set_priorities 0 ps) s.src_pipes f in
    (l'' ∙ (l' ∙ l), λ r. a'' (a' (a r)))
