-- ===== src/FocalTech/Touch/Contacts.antt =====
-- The frame that `sendTouchData` builds: which contacts it holds, and under which identifiers.
use voodoo_ps2_focal_tech.Common.{
  ℕ, zero, suc, ◌≤◌, ◌<◌, ◌≡◌, refl, arith, ap, ◌∙◌, List, [], ◌∷◌, map, Bool, false, if◌then◌else◌,
  Option, length, take, drop, All, u8, leb, ◌&&◌,
}
use voodoo_ps2_focal_tech.FocalTech.{Driver, VirtualFinger, Transducer}
use voodoo_ps2_focal_tech.FocalTech.Touch.{
  fill_transducer, Filling, fill_one, fill, clear_transducer, assign_thumb, clear_from, build_event,
  is_index,
}
use voodoo_ps2_focal_tech.FocalTech.Touch.Filled.{
  mark, shown, numbers_from, numbers_from-le, fill_with, fill_with-Filled, marks-typed, clear_with,
  marks-clear_with,
}

abbrev pub is_touching : VirtualFinger → Bool
is_touching f = f.touching

-- The fingers that touch, by their numbers, in order.
abbrev pub touching_from : ℕ → List VirtualFinger → List ℕ
touching_from = numbers_from is_touching

abbrev pub put : Bool → Option ℕ → ℕ → ℕ → VirtualFinger → Transducer → Transducer
put active forced i n f = fill_transducer (active && is_index forced i) i n f

marked :
    (active : Bool) (forced : Option ℕ) (i n : ℕ) (f : VirtualFinger) (t : Transducer)
    → mark (put active forced i n f t) ≡ shown i
unfolding fill_transducer
marked active forced i n f t = refl

pub fill-fill_with :
    (active : Bool) (forced : Option ℕ) (i : ℕ) (fs : List VirtualFinger) (a : Filling)
    → fill active forced i fs a ≡ fill_with is_touching (put active forced) i fs a
unfolding fill fill_with fill_one
fill-fill_with active forced i [] a = refl
fill-fill_with active forced i (f ∷ fs) a = fill-fill_with active forced (suc i) fs _

pub clear_from-clear_with :
    (n : ℕ) (ts : List Transducer) → clear_from n ts ≡ clear_with clear_transducer n ts
unfolding clear_from clear_with
clear_from-clear_with zero ts = refl
clear_from-clear_with (suc n) [] = refl
clear_from-clear_with (suc n) (t ∷ ts) = ap (λ us. t ∷ us) (clear_from-clear_with n ts)

-- With at most 255 fingers and room for a contact of each, a frame holds exactly the fingers that
-- touch: its first contacts are valid and carry their numbers in order, as many as the contact count
-- says, and no later contact is valid.
pub build_event-touching :
    (s : Driver)
    → length s.fingers ≤ length s.input_event.transducers
    → length s.fingers < 256
    → let e = build_event s in
      let ids = touching_from 0 s.fingers in
      (e.contact_count ≡ length ids)
      × (take e.contact_count (map mark e.transducers) ≡ map shown ids)
      × All (λ (t : Transducer). t.is_valid ≡ false) (drop e.contact_count e.transducers)
unfolding build_event
build_event-touching s room few =
    let start : Filling = record { transducers = s.input_event.transducers; count = 0 } in
    let writes = put s.force_active s.force_finger in
    let filled = fill_with is_touching writes 0 s.fingers start in
    let (counted, size, marks) =
      fill_with-Filled is_touching writes (marked s.force_active s.force_finger) 0 s.fingers start
        (omega arith) in
    let small : u8 filled.count ≡ filled.count =
      omega (arith, counted, numbers_from-le is_touching 0 s.fingers) in
    let typed =
      if leb 4 filled.count
      then assign_thumb filled.count filled.transducers
      else filled.transducers in
    let (first, later) = marks-clear_with clear_transducer (λ t. refl) filled.count typed in
    rw
      (
        fill-fill_with s.force_active s.force_finger 0 s.fingers start,
        clear_from-clear_with filled.count typed,
        small,
      )
      (
        omega (arith, counted),
        first ∙ ap (take filled.count) (marks-typed filled.count filled.transducers) ∙ marks,
        later,
      )
