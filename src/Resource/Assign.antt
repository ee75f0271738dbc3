-- ===== src/Resource/Assign.antt =====
-- The pipe ids that Prepare of resource_default.cpp programs, for a table whose index fields are
-- the positions: Init makes such a table where the hardware lists its VIG pipes first, then its RGB
-- and then its DMA pipes.
use platform_hardware_qcom_d.Base.{
  ℕ, ◌≡◌, ◌≢◌, ◌≤◌, ◌<◌, sym, ◌∙◌, inl, inr, ◌⊎◌, true, false, some, List, arith, Bool-cases,
  Option-cases, get_elem?, length, ltb,
}
use platform_hardware_qcom_d.Base.Float.{Float}
use platform_hardware_qcom_d.Types.{
  error_none, HwBlockType, hw_block_max, block_eq, HwResourceInfo, HwLayerConfig, HwPipeInfo,
}
use platform_hardware_qcom_d.Resource.{SourcePipe}
use platform_hardware_qcom_d.Resource.Pipes.{Searched, reset_pipes, get_pipe}
use platform_hardware_qcom_d.Resource.Scaling.{is_scaling_needed, set_decimation_factor}
use platform_hardware_qcom_d.Resource.Prepare.{assign_dual, reserve_pipes, Prepared}
use platform_hardware_qcom_d.Resource.Ownership.{reset_pipes-Moves}
use platform_hardware_qcom_d.Resource.Isolation.{assign_dual-src_pipes}
use platform_hardware_qcom_d.Resource.Change.{indices, Moves-indices}
use platform_hardware_qcom_d.Resource.Reads.{length-indices}
use platform_hardware_qcom_d.Resource.Slots.{Indexed, Indexed-indices, reserved_twice}
use platform_hardware_qcom_d.Resource.Choice.{reserve}

module _ {F : Type 0} ⦃fl : Float F⦄ where
  set_decimation_factor-pipe_id :
      (info : HwResourceInfo) (pipe : HwPipeInfo F)
      → (set_decimation_factor info pipe).1.pipe_id ≡ pipe.pipe_id
  unfolding set_decimation_factor
  set_decimation_factor-pipe_id info pipe = ground arith

  assign_dual_inversion :
      (info : HwResourceInfo) (i j : ℕ) (c : HwLayerConfig F) (ps : List SourcePipe)
      (r : Prepared F)
      → assign_dual info i j c ps ≡ some r
      → (l q : SourcePipe) × (get_elem? ps i ≡ some l)
        × (get_elem? ps j ≡ some q)
        × (((r.config.left_pipe.pipe_id ≡ l.mdss_pipe_id)
              × (r.config.right_pipe.pipe_id ≡ q.mdss_pipe_id)
              × (l.priority ≤ q.priority))
            ⊎ ((r.config.left_pipe.pipe_id ≡ q.mdss_pipe_id)
                × (r.config.right_pipe.pipe_id ≡ l.mdss_pipe_id)
                × (q.priority ≤ l.priority)))
  unfolding assign_dual
  assign_dual_inversion info i j c ps r h = elim (Option-cases (get_elem? ps j)) [
    | inl e ↦ ground arith
    | inr (q, e) ↦ elim (Option-cases (get_elem? ps i)) [
      | inl f ↦ ground arith
      | inr (l, f) ↦ elim (Bool-cases (ltb q.priority l.priority)) [
        | inl g ↦ (
          l,
          q,
          f,
          e,
          inr (
            ground arith,
            ground (
              arith,
              set_decimation_factor-pipe_id info (record c.right_pipe { pipe_id = l.mdss_pipe_id }),
            ),
            ground arith,
          ),
        )
        | inr g ↦ (
          l,
          q,
          f,
          e,
          inl (
            ground arith,
            ground (
              arith,
              set_decimation_factor-pipe_id info (record c.right_pipe { pipe_id = q.mdss_pipe_id }),
            ),
            ground arith,
          ),
        )
      ]
    ]
  ]

module _ {F : Type 0} ⦃fl : Float F⦄ where
  -- The two searches of a layer whose left pipe is valid.
  abbrev left_found :
      HwResourceInfo → ℕ → HwBlockType → HwLayerConfig F → List SourcePipe → Searched
  left_found info n b c ps = get_pipe info n b (is_scaling_needed c.left_pipe) (reset_pipes b ps)

  abbrev right_found :
      HwResourceInfo → ℕ → HwBlockType → HwLayerConfig F → List SourcePipe → Searched
  right_found info n b c ps =
      get_pipe info n b (is_scaling_needed c.right_pipe) (left_found info n b c ps).1

  -- A success with two pipes goes through both searches and ends in assign_dual.
  reserve_pipes_inversion :
      (info : HwResourceInfo) (n : ℕ) (b : HwBlockType) (c : HwLayerConfig F) (ps : List SourcePipe)
      (r : Prepared F)
      → c.left_pipe.valid ≡ true
      → c.right_pipe.valid ≡ true
      → reserve_pipes info n b c ps ≡ some r
      → r.error ≡ error_none
      → ((left_found info n b c ps).0 < n)
        × ((right_found info n b c ps).0 < n)
        × (assign_dual info
              (left_found info n b c ps).0
              (right_found info n b c ps).0
              (record c { left_pipe = (set_decimation_factor info c.left_pipe).1 })
              (right_found info n b c ps).1
            ≡ some r)
  unfolding reserve_pipes
  reserve_pipes_inversion info n b c ps r vl vr h ok = (ground arith, ground arith, ground arith)

  -- The two pipes that a frame programs are different slots of the block, in order of priority.
  abbrev pub Distinct : HwBlockType → Prepared F → Type 0
  Distinct b r =
      (i j : ℕ) × (l q : SourcePipe) × (i ≢ j)
      × (get_elem? r.src_pipes i ≡ some (reserve b l))
      × (get_elem? r.src_pipes j ≡ some (reserve b q))
      × (r.config.left_pipe.pipe_id ≡ l.mdss_pipe_id)
      × (r.config.right_pipe.pipe_id ≡ q.mdss_pipe_id)
      × (l.priority ≤ q.priority)

  -- What the two slots and the way the ids are assigned give together.
  assigned :
      (b : HwBlockType) (i j : ℕ) (l q l' q' : SourcePipe) (ps : List SourcePipe) (r : Prepared F)
      → i ≢ j
      → r.src_pipes ≡ ps
      → get_elem? ps i ≡ some (reserve b l)
      → get_elem? ps j ≡ some (reserve b q)
      → get_elem? ps i ≡ some l'
      → get_elem? ps j ≡ some q'
      → ((r.config.left_pipe.pipe_id ≡ l'.mdss_pipe_id)
          × (r.config.right_pipe.pipe_id ≡ q'.mdss_pipe_id)
          × (l'.priority ≤ q'.priority))
        ⊎ ((r.config.left_pipe.pipe_id ≡ q'.mdss_pipe_id)
            × (r.config.right_pipe.pipe_id ≡ l'.mdss_pipe_id)
            × (q'.priority ≤ l'.priority))
      → Distinct b r
  assigned b i j l q l' q' ps r ne s at_l at_q at_l' at_q' (inl (x, y, z)) =
      (i, j, l, q, ne, ground arith, ground arith, ground arith, ground arith, ground arith)
  assigned b i j l q l' q' ps r ne s at_l at_q at_l' at_q' (inr (x, y, z)) = (
    j,
    i,
    q,
    l,
    (λ e. ne (sym e)),
    ground arith,
    ground arith,
    ground arith,
    ground arith,
    ground arith,
  )

  -- Where the reservation of Prepare succeeds for a layer whose two pipes are both needed, for a
  -- block other than kHWBlockMax and on a table of num_pipe_ pipes whose index fields are their
  -- positions, the two pipes that it programs are two different slots of the table, both reserved
  -- for the block, and the left one has no larger priority number than the right one.
  pub reserve_pipes-Distinct :
      (info : HwResourceInfo) (n : ℕ) (b : HwBlockType) (c : HwLayerConfig F) (ps : List SourcePipe)
      (r : Prepared F)
      → Indexed 0 ps
      → length ps ≡ n
      → block_eq b hw_block_max ≡ false
      → c.left_pipe.valid ≡ true
      → c.right_pipe.valid ≡ true
      → reserve_pipes info n b c ps ≡ some r
      → r.error ≡ error_none
      → Distinct b r
  reserve_pipes-Distinct info n b c ps r x len busy vl vr h ok =
      let free = reset_pipes b ps in
      let same : indices free ≡ indices ps = Moves-indices (reset_pipes-Moves b ps) in
      let (below_left, below_right, e) = reserve_pipes_inversion info n b c ps r vl vr h ok in
      let (l, q, apart, at_left, at_right) =
        reserved_twice info n b (is_scaling_needed c.left_pipe) (is_scaling_needed c.right_pipe)
          free (Indexed-indices 0 ps free same x) (length-indices ps free same ∙ len) busy
          below_left below_right in
      let (l', q', at_left', at_right', ids) =
        assign_dual_inversion info (left_found info n b c ps).0 (right_found info n b c ps).0
          (record c { left_pipe = (set_decimation_factor info c.left_pipe).1 })
          (right_found info n b c ps).1 r e in
      assigned b (left_found info n b c ps).0 (right_found info n b c ps).0 l q l' q'
        (right_found info n b c ps).1 r apart
        (assign_dual-src_pipes info (left_found info n b c ps).0 (right_found info n b c ps).0
          (record c { left_pipe = (set_decimation_factor info c.left_pipe).1 })
          (right_found info n b c ps).1 r e)
        at_left at_right at_left' at_right' ids
