-- ===== src/CompManager/Attempts.antt =====
-- Prepare of comp_manager.cpp: a frame that is granted uses up a strategy.
use platform_hardware_qcom_d.Base.{
  ℕ, zero, suc, ◌≡◌, ◌<◌, refl, true, some, none, ==_iff, arith, Option-cases, Bool-cases, inl, inr,
  Option, Returns,
}
use mathlib.Core.Path.{subst, sym}
use platform_hardware_qcom_d.Base.Float.{Float}
use platform_hardware_qcom_d.Types.{error_undefined, is_ok}
use platform_hardware_qcom_d.Strategy.{Strategy, StrategyConstraints, Extension, Frame}
use platform_hardware_qcom_d.CompManager.{
  ResourceInterface, CompManager, DisplayCompositionContext, on_resource, display, locked_run,
  update_heap,
}
use platform_hardware_qcom_d.CompManager.Frames.{
  Attempt, prepare_loop, try_strategies, constrain, prepare, strategy_constraints,
}
use platform_hardware_qcom_d.CompManager.Loop.{prepare_loop-Granted}

module _ {R X : Type 0} where
  -- The strategies that a display has left.
  abbrev pub remaining : ℕ → CompManager R X → ℕ
  remaining h s = elim (s.contexts h) [ none ↦ 0 | some c ↦ c.remaining_strategies ]

module _ {X : Type 0} where
  remaining-update_heap :
      (f : ℕ → Option (DisplayCompositionContext X)) (h : ℕ) (c : DisplayCompositionContext X)
      → elim (update_heap f h (some c) h) as (λ _. ℕ) [
        | none ↦ 0
        | some c' ↦ c'.remaining_strategies
      ]
        ≡ c.remaining_strategies
  remaining-update_heap f h c = rw ((==_iff h h).1 refl) refl

module _ {F R X : Type 0} ⦃fl : Float F⦄ (ri : ResourceInterface F R) (ext : Extension F X) where
  loop-remaining :
      (ctx : ℕ) (k : StrategyConstraints) (n : ℕ) (st : Strategy X) (f : Frame F) (r : R)
      (a : Attempt F R X)
      → prepare_loop ri ext ctx k n error_undefined st f r ≡ some a
      → is_ok a.error ≡ true
      → a.remaining < n
  unfolding prepare_loop
  loop-remaining ctx k zero st f r a h ok = absurd (ground arith)
  loop-remaining ctx k (suc n) st f r a h ok =
      (prepare_loop-Granted ri ext ctx k (suc n) error_undefined st f r a refl h).1 (omega arith)

  pub prepare-remaining :
      (h : ℕ) (f : Frame F) (s : CompManager R X)
      → Returns (prepare ri ext h f s) (λ (e, f') t. is_ok e ≡ true → remaining h t < remaining h s)
  unfolding prepare locked_run display constrain on_resource try_strategies
  prepare-remaining h f s = elim (Bool-cases s.locked) [
    | inl e ↦ rw (e, Returns) tt
    | inr e ↦
        rw (e, Returns)
          (elim (Option-cases (s.contexts h)) [
            | inl n ↦ rw (n, Returns) tt
            | inr (c, known) ↦
                rw (known, Returns)
                  (elim (Option-cases (ri.start c.display_resource_ctx s.resource)) [
                    | inl p ↦ rw (p, Returns) tt
                    | inr ((started, r), p) ↦
                        rw (p, Returns)
                          (elim (Option-cases c.strategy) [
                            | inl q ↦ rw (q, Returns) tt
                            | inr (st, q) ↦
                                rw (q, Returns)
                                  (let k = strategy_constraints (record s { locked = true }) c f in
                                    elim (Option-cases (
                                      prepare_loop ri ext c.display_resource_ctx k
                                        c.remaining_strategies error_undefined st f r)) [
                                          | inl l ↦ rw (l, Returns) tt
                                          | inr (a, l) ↦
                                              rw (l, Returns)
                                                (elim (Option-cases
                                                  (ri.stop c.display_resource_ctx a.resource)) [
                                                    | inl z ↦ rw (z, Returns) tt
                                                    | inr ((stopped, r'), z) ↦
                                                        rw (z, Returns)
                                                          (elim (Bool-cases (is_ok a.error)) [
                                                            | inr g ↦ rw (g) (λ ok. absurd (cc))
                                                            | inl g ↦ λ ok.
                                                              subst
                                                              (λ n. n < c.remaining_strategies)
                                                              (sym (
                                                              remaining-update_heap s.contexts h
                                                              (record c {
                                                              strategy = some a.strategy;
                                                              constraints = k;
                                                              remaining_strategies = a.remaining;
                                                              })))
                                                              (loop-remaining c.display_resource_ctx
                                                              k c.remaining_strategies st f r a l g)
                                                          ])
                                                  ])
                                        ])
                          ])
                  ])
          ])
  ]
