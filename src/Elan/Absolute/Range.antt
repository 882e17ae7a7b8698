-- ===== src/Elan/Absolute/Range.antt =====
-- Version 3: the size of the pad and the positions that it reports.
use voodoo_ps2_focal_tech.Common.{
  ℕ, ◌+◌, ◌≤◌, ◌<◌, ◌≡◌, refl, ap, ◌∙◌, arith, List, [], ◌∷◌, Bool, true, false, not, ◌&&◌,
  if◌then◌else◌, ◌==◌, ltb, length, get_or, modify, sub32,
}
use voodoo_ps2_focal_tech.Alps.{byte, field}
use voodoo_ps2_focal_tech.FocalTech.{Coordinates}
use voodoo_ps2_focal_tech.Elan.{
  Elan, VirtualFinger, DeviceInfo, no_virtual_finger, FingerPos, frame, emit,
}
use voodoo_ps2_focal_tech.Elan.Check.{PacketType}
use voodoo_ps2_focal_tech.Elan.Touch.{send_touch_data, build_event, report_buttons}
use voodoo_ps2_focal_tech.Elan.Absolute.{
  announce, rescale, lift, lift_all, place, put, place_v2, finish, any_button, full_x, full_y,
  nowhere, report_absolute_v3,
}

-- What a report leaves alone.
abbrev SamePlaces : Elan → Elan → Type 0
SamePlaces s t = (t.info ≡ s.info) × (t.virtual_finger ≡ s.virtual_finger)

report_buttons-SamePlaces : (n : ℕ) (s : Elan) → SamePlaces s (report_buttons n s)
unfolding report_buttons
report_buttons-SamePlaces n s = ground arith

if-SamePlaces :
    (s : Elan) (b : Bool) (x y : Elan)
    → SamePlaces s x
    → SamePlaces s y
    → SamePlaces s (if b then x else y)
if-SamePlaces s true x y h g = h
if-SamePlaces s false x y h g = g

send_touch_data-SamePlaces : (now : ℕ) (s : Elan) → SamePlaces s (send_touch_data now s)
unfolding send_touch_data
send_touch_data-SamePlaces now s =
    let event = build_event s in
    let stored = record s { input_event = event } in
    let sent = if s.voodoo_input then emit (frame event) stored else stored in
    let kept =
      if-SamePlaces s s.voodoo_input (emit (frame event) stored) stored (refl, refl) (refl, refl) in
    let told = report_buttons-SamePlaces event.contact_count sent in
    if-SamePlaces s _ s _ (refl, refl) (told.0 ∙ kept.0, told.1 ∙ kept.1)

announce-info : (s : Elan) → (announce s).info ≡ s.info
unfolding announce
announce-info s = ground arith

announce-virtual_finger : (s : Elan) → (announce s).virtual_finger ≡ s.virtual_finger
unfolding announce
announce-virtual_finger s = ground arith

-- After a rescale the pad is as large as before and holds the position.
record IsGrown (x y : ℕ) (s t : Elan) : Type 0 where
  wide : x ≤ t.info.x_max
  high : y ≤ t.info.y_max
  wider : s.info.x_max ≤ t.info.x_max
  higher : s.info.y_max ≤ t.info.y_max
  least_x : t.info.x_max ≤ s.info.x_max + x
  least_y : t.info.y_max ≤ s.info.y_max + y
  fingers : t.virtual_finger ≡ s.virtual_finger

rescale-IsGrown : (x y : ℕ) (s : Elan) → IsGrown x y s (rescale x y s)
unfolding rescale
rescale-IsGrown x y s =
    let grown = record s {
      info = record (s.info) {
        x_max = if ltb s.info.x_max x then x else s.info.x_max;
        y_max = if ltb s.info.y_max y then y else s.info.y_max;
      };
    } in
    ground (arith, announce-info grown, announce-virtual_finger grown)

first_lifted :
    (p : List ℕ) (s : Elan) → 0 < length s.virtual_finger → 0 < length (lift_all p s).virtual_finger
unfolding lift_all
first_lifted p s h = go s.virtual_finger h
  where
    go :
        (vs : List VirtualFinger)
        → 0 < length vs
        → 0 < length (modify (modify (modify vs 0 lift) 1 lift) 2 lift)
    go [] h = h
    go (v ∷ vs) h = omega arith

put_first :
    (button fresh : Bool) (x y : ℕ) (vs : List VirtualFinger)
    → 0 < length vs
    → let now = (get_or (modify vs 0 (place button fresh x y)) 0 no_virtual_finger).now in
      (now.x ≡ x) × (now.y ≡ y)
unfolding place
put_first button fresh x y [] h = absurd (omega arith)
put_first button fresh x y (v ∷ vs) h = (refl, refl)

put-places :
    (button fresh : Bool) (x y : ℕ) (s : Elan)
    → 0 < length s.virtual_finger
    → let t = put 0 button fresh x y s in
      let v = (get_or t.virtual_finger 0 no_virtual_finger).now in
      (v.x ≡ x) × (v.y ≡ y) × (t.info ≡ s.info)
put-places button fresh x y s h =
    let (left, top) = put_first button fresh x y s.virtual_finger h in (left, top, refl)

one_finger :
    (now : ℕ) (p : List ℕ) (first : FingerPos) (s : Elan)
    → 0 < length s.virtual_finger
    → let t = finish now p 1 first nowhere s in
      let v = (get_or t.virtual_finger 0 no_virtual_finger).now in
      (v.x ≡ first.x) × (v.y ≡ first.y) × (t.info ≡ s.info)
unfolding finish place_v2 lift_all
one_finger now p first s h =
    let fresh = not (s.last_fingers == 1) && not (s.last_fingers == 2) in
    let lifted = lift_all p s in
    let (left, top, same) =
      put-places (any_button p) fresh first.x first.y lifted (first_lifted p s h) in
    let kept =
      send_touch_data-SamePlaces now
        (record (put 0 (any_button p) fresh first.x first.y lifted) { last_fingers = 1 }) in
    let at_first : List VirtualFinger → Coordinates = λ vs. (get_or vs 0 no_virtual_finger).now in
    (
      ap (λ vs. (at_first vs).x) kept.1 ∙ left,
      ap (λ vs. (at_first vs).y) kept.1 ∙ top,
      kept.0 ∙ same,
    )

-- A packet of version 3 with one finger puts it on the pad: the size of the pad grows to hold the
-- position, it never shrinks, and the position's y, turned upside down, does not wrap, if the sizes
-- were below 2 ^ 31 and the last byte is a byte.
pub report_absolute_v3-IsOnPad :
    (now : ℕ) (kind : PacketType) (p : List ℕ) (s : Elan)
    → field (byte p 0) 6 2 ≡ 1
    → 0 < length s.virtual_finger
    → s.info.y_max < 0x8000_0000
    → byte p 5 < 256
    → let t = report_absolute_v3 now kind p s in
      let v = (get_or t.virtual_finger 0 no_virtual_finger).now in
      (v.x ≡ full_x p)
      × (v.x ≤ t.info.x_max)
      × (v.y + full_y p ≡ t.info.y_max)
      × (s.info.x_max ≤ t.info.x_max)
      × (s.info.y_max ≤ t.info.y_max)
unfolding report_absolute_v3
report_absolute_v3-IsOnPad now kind p s one some_finger small last =
    let scaled = rescale (full_x p) (full_y p) s in
    let g = rescale-IsGrown (full_x p) (full_y p) s in
    let here : FingerPos = record { x = full_x p; y = sub32 scaled.info.y_max (full_y p) } in
    let (left, top, same) =
      one_finger now p here scaled
        (omega (arith, some_finger, ap (λ (vs : List VirtualFinger). length vs) g.fingers)) in
    let wide = ap (λ (i : DeviceInfo). i.x_max) same in
    let high = ap (λ (i : DeviceInfo). i.y_max) same in
    rw one (
      left,
      omega (arith, left, wide, g.wide),
      omega (arith, top, high, g.high, g.least_y),
      omega (arith, wide, g.wider),
      omega (arith, high, g.higher),
    )
