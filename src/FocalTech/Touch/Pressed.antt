-- ===== src/FocalTech/Touch/Pressed.antt =====
-- The frame that `sendTouchData` builds (FocalTech/Source/VoodooPS2FocalTech.part05.inc): where its
-- contacts are, and which one is pressed.
use voodoo_ps2_focal_tech.Common.{
  ℕ, ◌≤◌, ◌<◌, ◌≡◌, refl, arith, ap, ◌∙◌, List, map, Bool, true, if◌then◌else◌, Option, length,
  take, u8, leb, ◌&&◌,
}
use voodoo_ps2_focal_tech.FocalTech.{Driver, VirtualFinger, Transducer, Coordinates}
use voodoo_ps2_focal_tech.FocalTech.Touch.{
  fill_transducer, Filling, clear_transducer, assign_thumb, build_event, is_index,
}
use voodoo_ps2_focal_tech.FocalTech.Touch.Filled.{
  numbers_from-le, seen_from, fill_with, fill_with-Viewed, views-typed, views-clear_with,
}
use voodoo_ps2_focal_tech.FocalTech.Touch.Contacts.{
  is_touching, fill-fill_with, clear_from-clear_with, put,
}

-- A valid contact: the number of its finger, whether it has pressure, and where it is.
pub record Contact : Type 0 where
  pub is_valid : Bool
  pub number : ℕ
  pub has_pressure : Bool
  pub place : Coordinates

abbrev pub contact_of : Transducer → Contact
contact_of t = record {
  is_valid = t.is_valid;
  number = t.secondary_id;
  has_pressure = t.supports_pressure;
  place = t.current_coordinates;
}

-- The contact of finger `i`: a forced one is where the finger is, with pressure 255 and width 10.
abbrev pub contact : Bool → ℕ → VirtualFinger → Contact
contact forced i f = record {
  is_valid = true;
  number = i;
  has_pressure = forced;
  place = if forced then record (f.current) { pressure = 255; width = 10 } else f.current;
}

-- The contacts of the fingers that touch, in order; `forced` is the forced finger of an active force click.
abbrev pub contacts : Bool → Option ℕ → List VirtualFinger → List Contact
contacts active forced fs =
    seen_from is_touching (λ i f. contact (active && is_index forced i) i f) 0 fs

viewed :
    (active : Bool) (forced : Option ℕ) (i n : ℕ) (f : VirtualFinger) (t : Transducer)
    → contact_of (put active forced i n f t) ≡ contact (active && is_index forced i) i f
unfolding fill_transducer
viewed active forced i n f t = refl

pub build_event-contacts :
    (s : Driver)
    → length s.fingers ≤ length s.input_event.transducers
    → length s.fingers < 256
    → let e = build_event s in
      take e.contact_count (map contact_of e.transducers)
      ≡ contacts s.force_active s.force_finger s.fingers
unfolding build_event
build_event-contacts s room few =
    let start : Filling = record { transducers = s.input_event.transducers; count = 0 } in
    let writes = put s.force_active s.force_finger in
    let filled = fill_with is_touching writes 0 s.fingers start in
    let (counted, size, views) =
      fill_with-Viewed is_touching writes contact_of
        (λ i f. contact (s.force_active && is_index s.force_finger i) i f)
        (viewed s.force_active s.force_finger) 0 s.fingers start (omega arith) in
    let small : u8 filled.count ≡ filled.count =
      omega (arith, counted, numbers_from-le is_touching 0 s.fingers) in
    let typed =
      if leb 4 filled.count
      then assign_thumb filled.count filled.transducers
      else filled.transducers in
    rw
      (
        fill-fill_with s.force_active s.force_finger 0 s.fingers start,
        clear_from-clear_with filled.count typed,
        small,
      )
      (views-clear_with clear_transducer contact_of filled.count typed
        ∙ ap (take filled.count)
            (views-typed contact_of (λ kind t. refl) filled.count filled.transducers)
        ∙ views)
