-- ===== src/Strategy/Fallback.antt =====
-- What GetNextStrategy of strategy.cpp does to a frame where no extension composes it.
use platform_hardware_qcom_d.Base.{
  ℕ, zero, suc, ◌≡◌, ◌<◌, refl, sym, ap, ◌∙◌, some, List, [], ◌∷◌, ◌++◌, arith, get_elem?, length,
  Option-cases, ◌≤◌, inl, inr,
}
use platform_hardware_qcom_d.Base.Float.{Float}
use platform_hardware_qcom_d.Types.{Layer, composition_gpu}
use platform_hardware_qcom_d.Strategy.Target.{on_mixer, target_layer-on_mixer}
use platform_hardware_qcom_d.Strategy.{Strategy, Frame, mark_gpu, target_layer, gpu_fallback}

module _ {F : Type 0} where
  mark_gpu-marked :
      (n : ℕ) (ls ms : List (Layer F)) (i : ℕ) (l : Layer F)
      → mark_gpu n ls ≡ some ms
      → i < n
      → get_elem? ms i ≡ some l
      → l.composition ≡ composition_gpu
  unfolding mark_gpu
  mark_gpu-marked zero ls ms i l e h g = absurd (omega arith)
  mark_gpu-marked (suc n) [] ms i l e h g = cc
  mark_gpu-marked (suc n) (k ∷ ls) ms zero l e h g = elim (Option-cases (mark_gpu n ls)) [
    | inl f ↦ ground arith
    | inr (ms', f) ↦ ground arith
  ]
  mark_gpu-marked (suc n) (k ∷ ls) ms (suc i) l e h g = elim (Option-cases (mark_gpu n ls)) [
    | inl f ↦ ground arith
    | inr (ms', f) ↦
        let head : record k { composition = composition_gpu } ∷ ms' ≡ ms = ground arith in
        mark_gpu-marked n ls ms' i l f (omega arith) (ap (λ z. get_elem? z (suc i)) head ∙ g)
  ]

  mark_gpu-kept :
      (n : ℕ) (ls ms : List (Layer F)) (i : ℕ)
      → mark_gpu n ls ≡ some ms
      → n ≤ i
      → get_elem? ms i ≡ get_elem? ls i
  unfolding mark_gpu
  mark_gpu-kept zero ls ms i e h = ground arith
  mark_gpu-kept (suc n) [] ms i e h = cc
  mark_gpu-kept (suc n) (k ∷ ls) ms zero e h = absurd (omega arith)
  mark_gpu-kept (suc n) (k ∷ ls) ms (suc i) e h = elim (Option-cases (mark_gpu n ls)) [
    | inl f ↦ ground arith
    | inr (ms', f) ↦
        let head : record k { composition = composition_gpu } ∷ ms' ≡ ms = ground arith in
        ap (λ z. get_elem? z (suc i)) (sym head) ∙ mark_gpu-kept n ls ms' i f (omega arith)
  ]

  mark_gpu-total :
      (n : ℕ) (ls : List (Layer F))
      → n ≤ length ls
      → (ms : List (Layer F)) × (mark_gpu n ls ≡ some ms)
  unfolding mark_gpu
  mark_gpu-total zero ls h = (ls, refl)
  mark_gpu-total (suc n) [] h = absurd (omega arith)
  mark_gpu-total (suc n) (k ∷ ls) h =
      let (ms, e) = mark_gpu-total n ls (omega arith) in
      (record k { composition = composition_gpu } ∷ ms, ground arith)

  get_elem?-some :
      (ls : List (Layer F)) (i : ℕ) → i < length ls → (l : Layer F) × (get_elem? ls i ≡ some l)
  get_elem?-some [] i h = absurd (omega arith)
  get_elem?-some (l ∷ ls) zero h = (l, refl)
  get_elem?-some (l ∷ ls) (suc i) h = get_elem?-some ls i (omega arith)

module _ {F X : Type 0} ⦃fl : Float F⦄ where
  -- Where the GPU target stands in the layer stack behind the application layers, the fallback
  -- gives a frame that programs one layer more, the target with its rectangle mirrored in the frame
  -- buffer as the target and the panel ask for together and scaled to the mixer; every application layer is marked for the GPU and every layer
  -- behind them is as it was.
  pub gpu_fallback-composed :
      (s : Strategy X) (f : Frame F)
      → f.app_layer_count ≤ f.gpu_target_index
      → f.gpu_target_index < length f.stack
      → (target : Layer F) × (g : Frame F) × (get_elem? f.stack f.gpu_target_index ≡ some target)
        × (gpu_fallback s f ≡ some g)
        × (g.hw.layers ≡ f.hw.layers ++ (target_layer s target ∷ []))
        × ((target_layer s target).dst_rect ≡ on_mixer s target)
        × ((i : ℕ) (l : Layer F)
            → i < f.app_layer_count
            → get_elem? g.stack i ≡ some l
            → l.composition ≡ composition_gpu)
        × ((i : ℕ) → f.app_layer_count ≤ i → get_elem? g.stack i ≡ get_elem? f.stack i)
  unfolding gpu_fallback
  gpu_fallback-composed s f behind inside =
      let (target, at) = get_elem?-some f.stack f.gpu_target_index inside in
      let (stack, e) = mark_gpu-total f.app_layer_count f.stack (omega arith) in
      let at' : get_elem? stack f.gpu_target_index ≡ some target =
        mark_gpu-kept f.app_layer_count f.stack stack f.gpu_target_index e behind ∙ at in
      let g : Frame F = record f {
        stack = stack;
        index = f.index ++ (f.gpu_target_index ∷ []);
        roi_index = f.roi_index ++ (0 ∷ []);
        hw = record f.hw { layers = f.hw.layers ++ (target_layer s target ∷ []) };
      } in
      (
        target,
        g,
        at,
        ground arith,
        refl,
        target_layer-on_mixer s target,
        λ i l. mark_gpu-marked f.app_layer_count f.stack stack i l e,
        λ i. mark_gpu-kept f.app_layer_count f.stack stack i e,
      )
