-- ===== src/CompManager/Loop.antt =====
-- The loop of CompManager::Prepare over the composition strategies that remain.
use platform_hardware_qcom_d.Base.{
  ℕ, zero, suc, ◌≡◌, ◌≤◌, ◌<◌, true, false, some, arith, Option-cases, Bool-cases, inl, inr,
}
use platform_hardware_qcom_d.Base.Float.{Float}
use platform_hardware_qcom_d.Types.{DisplayError, is_ok, HwLayers}
use platform_hardware_qcom_d.Strategy.{
  Strategy, StrategyConstraints, Extension, Frame, get_next_strategy,
}
use platform_hardware_qcom_d.CompManager.{ResourceInterface}
use platform_hardware_qcom_d.CompManager.Frames.{Attempt, prepare_loop}

module _ {F R X : Type 0} ⦃fl : Float F⦄ (ri : ResourceInterface F R) (ext : Extension F X) where
  -- The last round of the loop gave the loop's result: the strategy gave a frame, the resource
  -- manager was called on that frame, and both are what the loop returns.
  abbrev pub Granted : ℕ → StrategyConstraints → Attempt F R X → Type 0
  Granted ctx k a =
      (f f' : Frame F) × (st : Strategy X) × (e : DisplayError) × (hw : HwLayers F) × (r : R)
      × (get_next_strategy ext k f st ≡ some (e, (f', a.strategy)))
      × (is_ok e ≡ true)
      × (ri.prepare ctx f'.hw r ≡ some ((a.error, hw), a.resource))
      × (a.frame ≡ record f' { hw = hw })

  -- Where the loop of Prepare returns, it leaves no more strategies than there were, one fewer at
  -- least where one was left; and a success of the loop, from an error on, is the success of the
  -- resource manager on a frame that a strategy gave: the loop returns that strategy, and that frame
  -- and state as the resource manager leaves them.
  pub prepare_loop-Granted :
      (ctx : ℕ) (k : StrategyConstraints) (n : ℕ) (e : DisplayError) (st : Strategy X) (f : Frame F)
      (r : R) (a : Attempt F R X)
      → is_ok e ≡ false
      → prepare_loop ri ext ctx k n e st f r ≡ some a
      → (a.remaining ≤ n) × (0 < n → a.remaining < n) × (is_ok a.error ≡ true → Granted ctx k a)
  unfolding prepare_loop
  prepare_loop-Granted ctx k zero e st f r a bad h =
      (ground arith, λ p. absurd (omega arith), λ ok. absurd (ground arith))
  prepare_loop-Granted ctx k (suc n) e st f r a bad h =
      elim (Option-cases (get_next_strategy ext k f st)) [
        | inl g ↦ ground arith
        | inr ((e', (f', st')), g) ↦ elim (Bool-cases (is_ok e')) [
          | inr bad' ↦ (ground arith, λ p. ground arith, λ ok. absurd (ground arith))
          | inl next_ok ↦ elim (Option-cases (ri.prepare ctx f'.hw r)) [
            | inl p ↦ ground arith
            | inr (((e'', hw'), r'), p) ↦ elim (Bool-cases (is_ok e'')) [
              | inl done ↦ (
                ground arith,
                λ q. ground arith,
                λ ok.
                    (f, f', st, e', hw', r, ground arith, ground arith, ground arith, ground arith),
              )
              | inr again ↦
                  let (below, _, last) =
                    prepare_loop-Granted ctx k n e'' st' (record f' { hw = hw' }) r' a again
                      (ground arith) in
                  (omega (arith, below), λ q. omega (arith, below), last)
            ]
          ]
        ]
      ]
