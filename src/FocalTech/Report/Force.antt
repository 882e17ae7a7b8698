-- ===== src/FocalTech/Report/Force.antt =====
-- Clicks and force clicks: what is kept between two events.
use voodoo_ps2_focal_tech.Common.{◌≡◌, arith, true, false, if◌then◌else◌}
use voodoo_ps2_focal_tech.FocalTech.{Driver}
use voodoo_ps2_focal_tech.FocalTech.Click.{update_click, begin_click, end_click, recheck_force}
use voodoo_ps2_focal_tech.FocalTech.Touch.{
  send_touch_data, report_buttons, send_buttons, current_buttons,
}
use voodoo_ps2_focal_tech.FocalTech.Report.{place_fingers, report_state}

-- The click's state is consistent, whatever the buttons last sent.
pub record IsClick (s : Driver) : Type 0 where
  pub forced_held : s.force_active ≡ true → s.click_was_pressed ≡ true
  pub forced_left : s.force_active ≡ true → s.click_right ≡ false
  pub forced_done : s.force_active ≡ true → s.force_eligible ≡ false
  pub eligible_held : s.force_eligible ≡ true → s.click_was_pressed ≡ true
  pub eligible_left : s.force_eligible ≡ true → s.click_right ≡ false
  pub eligible_timed : s.force_eligible ≡ true → s.has_force_timer ≡ true
  pub right_held : s.click_right ≡ true → s.click_was_pressed ≡ true

-- A state between two events also has its buttons sent.
pub record IsReported (s : Driver) : Type 0 where
  pub click : IsClick s
  pub in_step : s.click_was_pressed ≡ s.hardware.pressed
  pub sent : s.last_buttons ≡ (
      if s.hardware.pressed
      then (if s.click_right then 2 else (if s.force_active then 0 else 1))
      else 0)
  pub right_mask : s.right_button ≡ (if s.click_right then 2 else 0)
  pub left_mask :
      s.left_button ≡ (if s.hardware.pressed then (if s.click_right then 0 else 1) else 0)

begin_click-IsClick : (s : Driver) → IsClick (begin_click s)
unfolding begin_click
begin_click-IsClick s = ground arith

update_click-IsClick : (s : Driver) → IsClick s → IsClick (update_click s)
unfolding update_click end_click
update_click-IsClick s h = ground (arith, begin_click-IsClick s)

begin_click_pressed :
    (s : Driver)
    → ((begin_click s).click_was_pressed ≡ true)
      × ((begin_click s).hardware ≡ s.hardware)
      × ((begin_click s).force_active ≡ false)
unfolding begin_click
begin_click_pressed s = ground arith

update_click_in_step :
    (s : Driver)
    → ((update_click s).click_was_pressed ≡ s.hardware.pressed)
      × ((update_click s).hardware ≡ s.hardware)
unfolding update_click end_click
update_click_in_step s = ground (arith, begin_click_pressed s)

recheck_force-IsClick : (s : Driver) → IsClick s → IsClick (recheck_force s)
unfolding recheck_force
recheck_force-IsClick s h = ground arith

-- Rechecking may only drop the eligibility.
pub record SameClick (s s' : Driver) : Type 0 where
  pub was_pressed : s'.click_was_pressed ≡ s.click_was_pressed
  pub right : s'.click_right ≡ s.click_right
  pub active : s'.force_active ≡ s.force_active
  pub finger : s'.force_finger ≡ s.force_finger
  pub hardware : s'.hardware ≡ s.hardware
  pub timer : s'.has_force_timer ≡ s.has_force_timer

pub recheck_force-SameClick : (s : Driver) → SameClick s (recheck_force s)
unfolding recheck_force
recheck_force-SameClick s = ground arith

pub place_fingers-SameClick :
    (s : Driver)
    → SameClick s (place_fingers s) × ((place_fingers s).force_eligible ≡ s.force_eligible)
unfolding place_fingers
place_fingers-SameClick s = ground arith

pub send_touch_data-SameClick :
    (s : Driver)
    → SameClick s (send_touch_data s)
      × ((send_touch_data s).force_eligible ≡ s.force_eligible)
      × ((send_touch_data s).left_button ≡ s.left_button)
      × ((send_touch_data s).right_button ≡ s.right_button)
      × ((send_touch_data s).last_buttons ≡ current_buttons s)
unfolding send_touch_data report_buttons send_buttons
send_touch_data-SameClick s = ground arith

-- The button masks of a frame.
place_fingers_masks :
    (s : Driver)
    → ((place_fingers s).right_button
        ≡ (if s.hardware.pressed then (if s.click_right then 2 else 0) else 0))
      × ((place_fingers s).left_button
          ≡ (if s.hardware.pressed then (if s.click_right then 0 else 1) else 0))
unfolding place_fingers
place_fingers_masks s = ground arith

module _ (s : Driver) (h : IsClick s) where
  abbrev clicked : Driver
  clicked = update_click s

  abbrev checked : Driver
  checked = recheck_force clicked

  abbrev placed : Driver
  placed = place_fingers checked

  checked-IsClick : IsClick checked
  checked-IsClick = recheck_force-IsClick clicked (update_click-IsClick s h)

  placed-IsClick : IsClick placed
  placed-IsClick = ground (arith, checked-IsClick, place_fingers-SameClick checked)

  placed_in_step :
      (placed.click_was_pressed ≡ placed.hardware.pressed) × (placed.hardware ≡ s.hardware)
  placed_in_step = ground (
    arith,
    update_click_in_step s,
    recheck_force-SameClick clicked,
    place_fingers-SameClick checked,
  )

  -- Every report leaves the click consistent, in step with the pad, and its buttons sent.
  pub report_state-IsReported : IsReported (report_state s)
  unfolding report_state
  report_state-IsReported = ground (
    arith,
    placed-IsClick,
    placed_in_step,
    place_fingers_masks checked,
    place_fingers-SameClick checked,
    send_touch_data-SameClick placed,
  )
