-- ===== src/Strategy/Target.antt =====
-- strategy.cpp: where the GPU target appears on the mixer, edge by edge.
use platform_hardware_qcom_d.Base.{ℕ, ◌≡◌, Bool, not, ◌&&◌, if◌then◌else◌, arith}
use platform_hardware_qcom_d.Base.Int.{pos, ◌-ℤ◌}
use platform_hardware_qcom_d.Base.Float.{Float, of_nat, lt_F, ◌-F◌, ◌+F◌, ◌*F◌, ◌/F◌}
use platform_hardware_qcom_d.Rect.{
  LayerRect, LayerTransform, is_valid, map_rect, transform_hv, reposition,
}
use platform_hardware_qcom_d.Types.{Layer}
use platform_hardware_qcom_d.Strategy.{Strategy, target_layer}

module _ {F : Type 0} ⦃fl : Float F⦄ where
  -- The near and the far edge, along one axis, of what stood from `near` to `far` in a frame buffer
  -- of the size `size`, where a flip mirrors the frame buffer.
  abbrev pub near_edge : Bool → ℕ → F → F → F
  near_edge flip size near far =
      if flip then of_nat size -F (near -F of_nat 0) -F (far -F near) else near

  abbrev pub far_edge : Bool → ℕ → F → F → F
  far_edge flip size near far = if flip then of_nat size -F (near -F of_nat 0) else far

  -- A coordinate of the frame buffer scaled to the mixer.
  abbrev pub scaled : ℕ → ℕ → F → F
  scaled mixer buffer x =
      of_nat 0
      +F (of_nat mixer -F of_nat 0)
        /F (of_nat buffer -F of_nat 0)
        *F (x +F fl.of_int (pos 0 -ℤ fl.to_int (of_nat 0)))

module _ {F X : Type 0} ⦃fl : Float F⦄ where
  -- Where the GPU target is to appear on the mixer: mirrored in the frame buffer as the target and
  -- the panel ask for together, then each edge scaled from the frame buffer to the mixer. A
  -- rectangle or a size that is empty is not mirrored or scaled.
  abbrev pub on_mixer : Strategy X → Layer F → LayerRect F
  on_mixer s t =
      let r : LayerRect F = t.dst_rect in
      let panel : LayerTransform = s.hw_panel_info.panel_orientation in
      let h : Bool =
        if panel.flip_horizontal
        then not t.transform.flip_horizontal
        else t.transform.flip_horizontal in
      let v : Bool =
        if panel.flip_vertical then not t.transform.flip_vertical else t.transform.flip_vertical in
      let fb_w : ℕ = s.fb_config.x_pixels in
      let fb_h : ℕ = s.fb_config.y_pixels in
      let mixer_w : ℕ = s.mixer_attributes.width in
      let mixer_h : ℕ = s.mixer_attributes.height in
      let turned : LayerRect F = record {
        left = near_edge h fb_w r.left r.right;
        top = near_edge v fb_h r.top r.bottom;
        right = far_edge h fb_w r.left r.right;
        bottom = far_edge v fb_h r.top r.bottom;
      } in
      let filled : ℕ → ℕ → Bool =
        λ w h'. lt_F {F = F} (of_nat 0) (of_nat h') && lt_F {F = F} (of_nat 0) (of_nat w) in
      if not (filled fb_w fb_h && is_valid r)
      then r
      else if not (filled mixer_w mixer_h && is_valid turned)
      then turned
      else record {
        left = scaled mixer_w fb_w turned.left;
        top = scaled mixer_h fb_h turned.top;
        right = scaled mixer_w fb_w turned.right;
        bottom = scaled mixer_h fb_h turned.bottom;
      }

  pub target_layer-on_mixer :
      (s : Strategy X) (t : Layer F) → (target_layer s t).dst_rect ≡ on_mixer s t
  unfolding target_layer map_rect transform_hv is_valid reposition
  target_layer-on_mixer s t = ground arith
