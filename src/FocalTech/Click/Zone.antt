-- ===== src/FocalTech/Click/Zone.antt =====
-- When a click is a right click.
use voodoo_ps2_focal_tech.Common.{
  ℕ, ◌*◌, ◌/◌, ◌%◌, ◌<◌, ◌≡◌, refl, ◌∙◌, ap, arith, true, length, leb, ◌&&◌,
}
use voodoo_ps2_focal_tech.FocalTech.{Driver}
use voodoo_ps2_focal_tech.FocalTech.Click.{
  clamp_position, is_usable, find_click, in_right_zone, begin_click,
}
use voodoo_ps2_focal_tech.FocalTech.Click.Search.{lowness, raw_finger, Clicked, find_click_lowest}

begin_click-click_right :
    (s : Driver) → (begin_click s).click_right ≡ in_right_zone s.x_max s.y_max (find_click s)
unfolding begin_click
begin_click-click_right s = ground arith

zone_of_Clicked :
    (s : Driver) (k : ℕ)
    → s.y_max < 0x200_0000
    → Clicked s k
    → in_right_zone s.x_max s.y_max (find_click s)
      ≡ leb (s.y_max * 70 / 100) (lowness s.x_max s.y_max (raw_finger s k))
        && leb (s.x_max / 2) (clamp_position s.x_max (raw_finger s k).x)
unfolding in_right_zone
zone_of_Clicked s k h (below, found, finger, usable, at_x, at_y) =
    let small : s.y_max * 70 % 0x1_0000_0000 ≡ s.y_max * 70 = omega arith in
    rw (found, at_x, at_y, small) refl

-- With one usable finger on the pad, a new click is a right click exactly when that finger lies in
-- the lower 30 % of the pad and in its right half.
pub begin_click_zone :
    (s : Driver) (j : ℕ)
    → s.y_max < 0x200_0000
    → j < length s.hardware.fingers
    → is_usable (raw_finger s j) ≡ true
    → ((k : ℕ) → is_usable (raw_finger s k) ≡ true → k ≡ j)
    → (begin_click s).click_right ≡ (
        leb (s.y_max * 70 / 100) (lowness s.x_max s.y_max (raw_finger s j))
        && leb (s.x_max / 2) (clamp_position s.x_max (raw_finger s j).x))
begin_click_zone s j h below usable alone =
    let (k, clicked, lower) = find_click_lowest s j below usable in
    begin_click-click_right s
    ∙ zone_of_Clicked s k h clicked
    ∙ ap
        (λ (i : ℕ).
          leb (s.y_max * 70 / 100) (lowness s.x_max s.y_max (raw_finger s i))
          && leb (s.x_max / 2) (clamp_position s.x_max (raw_finger s i).x))
        (alone k clicked.3)
