-- ===== src/FocalTech/Report/Run.antt =====
-- Whole runs of the driver: packets and the force timer in any order.
use mathlib.Core.List.{Memᴰ}
use voodoo_ps2_focal_tech.Common.{
  ℕ, ◌≤◌, ◌<◌, ◌≡◌, refl, arith, ap, ◌∙◌, List, [], ◌∷◌, ◌++◌, true, false, inl, inr, Option, none,
  some, Bool-cases, get_or, map, length, take,
}
use voodoo_ps2_focal_tech.FocalTech.{
  Driver, Hardware, VirtualFinger, InputEvent, no_finger, button_message, touch_message,
}
use voodoo_ps2_focal_tech.FocalTech.Click.{
  is_usable, has_moved, update_click, begin_click, end_click, recheck_force,
}
use voodoo_ps2_focal_tech.FocalTech.Touch.{
  build_event, send_touch_data, report_buttons, send_buttons,
}
use voodoo_ps2_focal_tech.FocalTech.Touch.Pressed.{contact_of, contacts, build_event-contacts}
use voodoo_ps2_focal_tech.FocalTech.Report.{
  place_fingers, report_state, report_decoded, decode_packet, process_packet, release_left,
  start_force, force_timer_fired,
}
use voodoo_ps2_focal_tech.FocalTech.Report.Force.{
  IsReported, report_state-IsReported, SameClick, recheck_force-SameClick, place_fingers-SameClick,
  send_touch_data-SameClick,
}

pub data Event : Type 0 where
  packet : List ℕ → Event
  timer : Event

unfoldable pub step : Event → Driver → Driver
step (packet p) s = (process_packet p s).0
step timer s = force_timer_fired s

unfoldable pub run : List Event → Driver → Driver
run [] s = s
run (e ∷ es) s = run es (step e s)

report_decoded-IsReported :
    (h : Option Hardware) (s : Driver) → IsReported s → IsReported (report_decoded h s).0
report_decoded-IsReported none s r = r
report_decoded-IsReported (some h) s r =
    report_state-IsReported (record s { hardware = h }) (ground (arith, r.click))

release_left_lem :
    (s : Driver)
    → IsReported s
    → s.force_eligible ≡ true
    → let t = release_left (record s { force_eligible = false; force_active = true }) in
      SameClick (record s { force_eligible = false; force_active = true }) t
      × (t.last_buttons ≡ 0)
      × (t.right_button ≡ 0)
      × (t.left_button ≡ s.left_button)
      × (t.force_eligible ≡ false)
unfolding release_left send_buttons
release_left_lem s r e = ground (arith, r.click)

start_force-IsReported :
    (s : Driver) → IsReported s → s.force_eligible ≡ true → IsReported (start_force s)
unfolding start_force
start_force-IsReported s r e = ground (
  arith,
  r.click,
  release_left_lem s r e,
  send_touch_data-SameClick
      (release_left (record s { force_eligible = false; force_active = true })),
)

pub force_timer_fired-IsReported : (s : Driver) → IsReported s → IsReported (force_timer_fired s)
unfolding force_timer_fired
force_timer_fired-IsReported s r = elim (Bool-cases s.force_eligible) [
  | inl e ↦ ground (arith, r.click, start_force-IsReported s r e)
  | inr e ↦ ground (arith, r.click)
]

pub step-IsReported : (e : Event) (s : Driver) → IsReported s → IsReported (step e s)
unfolding step process_packet
step-IsReported (packet p) s r = report_decoded-IsReported (decode_packet p s.hardware) s r
step-IsReported timer s r = force_timer_fired-IsReported s r

-- After any packets and timer expiries the click is consistent and the buttons last sent are those
-- that the pad, the right-click decision and the force state call for.
pub run-IsReported : (es : List Event) (s : Driver) → IsReported s → IsReported (run es s)
unfolding run
run-IsReported [] s r = r
run-IsReported (e ∷ es) s r = run-IsReported es (step e s) (step-IsReported e s r)

-- A packet never starts a force click.
update_click_force : (s : Driver) → s.force_active ≡ false → (update_click s).force_active ≡ false
unfolding update_click begin_click end_click
update_click_force s h = ground arith

report_state_force : (s : Driver) → s.force_active ≡ false → (report_state s).force_active ≡ false
unfolding report_state
report_state_force s h = ground (
  arith,
  update_click_force s h,
  recheck_force-SameClick (update_click s),
  place_fingers-SameClick (recheck_force (update_click s)),
  send_touch_data-SameClick (place_fingers (recheck_force (update_click s))),
)

report_decoded_force :
    (h : Option Hardware) (s : Driver)
    → s.force_active ≡ false
    → (report_decoded h s).0.force_active ≡ false
report_decoded_force none s f = f
report_decoded_force (some h) s f = report_state_force (record s { hardware = h }) f

packet_force :
    (p : List ℕ) (s : Driver) → s.force_active ≡ false → (step (packet p) s).force_active ≡ false
unfolding step process_packet
packet_force p s f = report_decoded_force (decode_packet p s.hardware) s f

-- A force click is only ever begun by the timer: if none was active, and one is active after a run,
-- the timer fired in it.
pub force_needs_timer :
    (es : List Event) (s : Driver)
    → s.force_active ≡ false
    → (run es s).force_active ≡ true
    → Memᴰ timer es
unfolding run
force_needs_timer [] s f a = cc
force_needs_timer (packet p ∷ es) s f a =
    Memᴰ.tail (force_needs_timer es (step (packet p) s) (packet_force p s f) a)
force_needs_timer (timer ∷ es) s f a = Memᴰ.head refl

-- What the timer leaves to be reported.
forced : Driver → Driver
forced s = release_left (record s { force_eligible = false; force_active = true })

forced-fields :
    (s : Driver)
    → ((forced s).force_active ≡ true)
      × ((forced s).force_finger ≡ s.force_finger)
      × ((forced s).fingers ≡ s.fingers)
      × ((forced s).input_event ≡ s.input_event)
unfolding forced release_left send_buttons
forced-fields s = ground arith

force_timer_fired-forced :
    (s : Driver) (i : ℕ)
    → IsReported s
    → s.force_eligible ≡ true
    → s.force_finger ≡ some i
    → i < 5
    → is_usable (get_or s.hardware.fingers i no_finger) ≡ true
    → has_moved s.force_start_x s.force_start_y (get_or s.hardware.fingers i no_finger) ≡ false
    → force_timer_fired s ≡ send_touch_data (forced s)
unfolding force_timer_fired start_force forced
force_timer_fired-forced s i r e f b u m = ground (arith, r.click)

send_touch_data-event : (s : Driver) → (send_touch_data s).input_event ≡ build_event s
unfolding send_touch_data report_buttons send_buttons
send_touch_data-event s = ground arith

forced-event :
    (s : Driver) (i : ℕ)
    → s.force_finger ≡ some i
    → length s.fingers ≤ length s.input_event.transducers
    → length s.fingers < 256
    → let event = build_event (forced s) in
      take event.contact_count (map contact_of event.transducers) ≡ contacts true (some i) s.fingers
forced-event s i f room few =
    let (active, finger, fingers, event) = forced-fields s in
    let same_length = ap (λ (l : List VirtualFinger). length l) fingers in
    let same_room = ap (λ (x : InputEvent). length x.transducers) event in
    build_event-contacts (forced s) (omega (arith, room, same_length, same_room))
      (omega (arith, few, same_length))
    ∙ ap (λ b. contacts b (forced s).force_finger (forced s).fingers) active
    ∙ ap (λ o. contacts true o (forced s).fingers) (finger ∙ f)
    ∙ ap (contacts true (some i)) fingers

-- If the timer fires while a click is eligible and its finger is down and has not moved, the left
-- button is released before a frame goes out, and nothing else is sent. The frame's contacts are those of
-- the fingers that touch, in order and under their numbers, each where it was last; the click's finger,
-- if it is one of them, has pressure 255 and width 10, and the others have no pressure.
pub force_timer_fired_log :
    (s : Driver) (i : ℕ)
    → IsReported s
    → s.voodoo_input ≡ true
    → s.force_eligible ≡ true
    → s.force_finger ≡ some i
    → i < 5
    → is_usable (get_or s.hardware.fingers i no_finger) ≡ true
    → has_moved s.force_start_x s.force_start_y (get_or s.hardware.fingers i no_finger) ≡ false
    → length s.fingers ≤ length s.input_event.transducers
    → length s.fingers < 256
    → let event = (force_timer_fired s).input_event in
      ((force_timer_fired s).force_active ≡ true)
      × ((force_timer_fired s).log ≡ (s.log ++ button_message 0 ∷ []) ++ touch_message event ∷ [])
      × (take event.contact_count (map contact_of event.transducers)
          ≡ contacts true (some i) s.fingers)
unfolding force_timer_fired start_force release_left send_touch_data report_buttons send_buttons
force_timer_fired_log s i r v e f b u m room few = (
  ground (arith, r.click),
  ground (arith, r.click),
  ap (λ (x : InputEvent). take x.contact_count (map contact_of x.transducers))
        (ap (λ (t : Driver). t.input_event) (force_timer_fired-forced s i r e f b u m)
          ∙ send_touch_data-event (forced s))
      ∙ forced-event s i f room few,
)
