-- ===== src/FocalTech/Report/Frame.antt =====
-- A report and what it has no part in: the byte stream, the counters, the pad's size and the
-- connections.
use voodoo_ps2_focal_tech.Common.{ℕ, ◌≡◌, arith, List, Option, none, some, true, false}
use voodoo_ps2_focal_tech.FocalTech.{Driver, Hardware}
use voodoo_ps2_focal_tech.FocalTech.Click.{update_click, begin_click, end_click, recheck_force}
use voodoo_ps2_focal_tech.FocalTech.Touch.{send_touch_data, report_buttons, send_buttons}
use voodoo_ps2_focal_tech.FocalTech.Report.{
  place_fingers, report_state, decode_packet, process_packet, release_left, start_force,
  force_timer_fired, report_decoded,
}

pub record SameStream (s s' : Driver) : Type 0 where
  pub ring : s'.ring ≡ s.ring
  pub packet_byte_count : s'.packet_byte_count ≡ s.packet_byte_count
  pub irq_byte_count : s'.irq_byte_count ≡ s.irq_byte_count
  pub packet_count : s'.packet_count ≡ s.packet_count
  pub valid_packet_count : s'.valid_packet_count ≡ s.valid_packet_count
  pub invalid_packet_count : s'.invalid_packet_count ≡ s.invalid_packet_count
  pub x_max : s'.x_max ≡ s.x_max
  pub y_max : s'.y_max ≡ s.y_max
  pub voodoo_input : s'.voodoo_input ≡ s.voodoo_input
  pub has_force_timer : s'.has_force_timer ≡ s.has_force_timer

pub SameStream-trans : {s t u : Driver} → SameStream s t → SameStream t u → SameStream s u
SameStream-trans p q = ground (arith, p, q)

pub send_touch_data-SameStream : (s : Driver) → SameStream s (send_touch_data s)
unfolding send_touch_data report_buttons send_buttons
send_touch_data-SameStream s = ground arith

pub begin_click-SameStream : (s : Driver) → SameStream s (begin_click s)
unfolding begin_click
begin_click-SameStream s = ground arith

pub update_click-SameStream : (s : Driver) → SameStream s (update_click s)
unfolding update_click end_click
update_click-SameStream s = ground (arith, begin_click-SameStream s)

pub recheck_force-SameStream : (s : Driver) → SameStream s (recheck_force s)
unfolding recheck_force
recheck_force-SameStream s = ground arith

pub place_fingers-SameStream : (s : Driver) → SameStream s (place_fingers s)
unfolding place_fingers
place_fingers-SameStream s = ground arith

pub report_state-SameStream : (s : Driver) → SameStream s (report_state s)
unfolding report_state
report_state-SameStream s =
    let clicked = update_click s in
    let checked = recheck_force clicked in
    let placed = place_fingers checked in
    SameStream-trans (update_click-SameStream s) (
      SameStream-trans (recheck_force-SameStream clicked)
        (SameStream-trans (place_fingers-SameStream checked) (send_touch_data-SameStream placed)))

report_decoded-SameStream : (h : Option Hardware) (s : Driver) → SameStream s (report_decoded h s).0
report_decoded-SameStream none s = ground arith
report_decoded-SameStream (some h) s =
    SameStream-trans {t = record s { hardware = h }} (ground arith)
      (report_state-SameStream (record s { hardware = h }))

pub process_packet-SameStream :
    (packet : List ℕ) (s : Driver) → SameStream s (process_packet packet s).0
unfolding process_packet
process_packet-SameStream packet s = report_decoded-SameStream (decode_packet packet s.hardware) s

release_left-SameStream : (s : Driver) → SameStream s (release_left s)
unfolding release_left send_buttons
release_left-SameStream s = ground arith

start_force-SameStream : (s : Driver) → SameStream s (start_force s)
unfolding start_force
start_force-SameStream s =
    let forced = record s { force_eligible = false; force_active = true } in
    SameStream-trans {t = forced} (ground arith) (
      SameStream-trans (release_left-SameStream forced)
        (send_touch_data-SameStream (release_left forced)))

pub force_timer_fired-SameStream : (s : Driver) → SameStream s (force_timer_fired s)
unfolding force_timer_fired
force_timer_fired-SameStream s = ground (arith, start_force-SameStream s)
