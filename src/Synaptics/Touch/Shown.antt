-- ===== src/Synaptics/Touch/Shown.antt =====
-- Which fingers the frame of VoodooPS2Trackpad/VoodooPS2SynapticsTouchPad.cpp shows.
use voodoo_ps2_focal_tech.Common.{
  ℕ, zero, suc, ◌≤◌, ◌<◌, ◌≡◌, append-nil, not, ◌&&◌, refl, sym, arith, ap, ◌∙◌, List, [], ◌∷◌,
  ◌++◌, map, Bool, true, false, if◌then◌else◌, length, take, modify, set, u8, ltb, ◌==◌, if_else,
}
use voodoo_ps2_focal_tech.FocalTech.{Transducer, InputEvent}
use voodoo_ps2_focal_tech.FocalTech.Touch.{Filling}
use voodoo_ps2_focal_tech.FocalTech.Touch.Filled.{
  mark, shown, numbers_from, numbers_from-le, fill_with, fill_with-Filled,
}
use voodoo_ps2_focal_tech.Alps.{Outside}
use voodoo_ps2_focal_tech.Alps.Touch.{sub64}
use voodoo_ps2_focal_tech.Synaptics.{Synaptics, VirtualFinger, Message, frame, dimensions, emit}
use voodoo_ps2_focal_tech.Synaptics.Touch.{
  Limits, fill_transducer, clip_finger, fill_one, fill, build_event, send_event, send_touch_data,
}

abbrev pub is_touching : VirtualFinger → Bool
is_touching v = v.touch

-- What a frame shows of a finger: that there is one, and its number.
show : ℕ → ℕ → VirtualFinger → Transducer → Transducer
show i n v t = record t { is_valid = true; secondary_id = i }

marks-modify :
    (ts : List Transducer) (n : ℕ) (m : Bool × ℕ) (f : Transducer → Transducer)
    → ((t : Transducer) → mark (f t) ≡ m)
    → map mark (modify ts n f) ≡ set (map mark ts) n m
marks-modify [] n m f h = refl
marks-modify (t ∷ ts) zero m f h = ap (λ k. k ∷ map mark ts) (h t)
marks-modify (t ∷ ts) (suc n) m f h = ap (λ ms. mark t ∷ ms) (marks-modify ts n m f h)

-- Two fillings that show the same.
abbrev Alike : Filling → Filling → Type 0
Alike a b = (a.count ≡ b.count) × (map mark a.transducers ≡ map mark b.transducers)

marked :
    (e : Outside) (s : Synaptics) (i x y : ℕ) (v : VirtualFinger) (t : Transducer)
    → mark (fill_transducer e s i x y v t) ≡ shown i
unfolding fill_transducer
marked e s i x y v t = refl

showed : (i n : ℕ) (v : VirtualFinger) (t : Transducer) → mark (show i n v t) ≡ shown i
unfolding show
showed i n v t = refl

-- One round of both loops; `touches` says whether the finger does.
round-Alike :
    (e : Outside) (s : Synaptics) (i : ℕ) (v : VirtualFinger) (touches : Bool) (l : Limits)
    (a b : Filling)
    → Alike a b
    → Alike (if touches then fill_one e s i v l a else (l, a)).1 (
        if touches
        then record {
          transducers = modify b.transducers b.count (show i b.count v);
          count = suc b.count;
        }
        else b)
round-Alike e s i v true l a b (counts, marks) =
    let (x, y, l') = clip_finger s v l in
    (
      ap suc counts,
      marks-modify a.transducers a.count (shown i) (fill_transducer e s i x y v)
            (marked e s i x y v)
          ∙ ap (λ n. set (map mark a.transducers) n (shown i)) counts
          ∙ ap (λ ms. set ms b.count (shown i)) marks
          ∙ sym (
              marks-modify b.transducers b.count (shown i) (show i b.count v) (showed i b.count v)),
    )
round-Alike e s i v false l a b h = h

fill-Alike :
    (e : Outside) (s : Synaptics) (i : ℕ) (vs : List VirtualFinger) (l : Limits) (a b : Filling)
    → Alike a b
    → Alike (fill e s i vs l a).1 (fill_with is_touching show i vs b)
unfolding fill fill_with
fill-Alike e s i [] l a b h = h
fill-Alike e s i (v ∷ vs) l a b h =
    fill-Alike e s (suc i) vs _ _ _ (round-Alike e s i v v.touch l a b h)

-- A frame of exactly the fingers with the numbers `ids`, in order.
abbrev pub Shows : List ℕ → InputEvent → Type 0
Shows ids event =
    (event.contact_count ≡ length ids)
    × (take event.contact_count (map mark event.transducers) ≡ map shown ids)

Alike-Shows :
    (ids : List ℕ) (a b : Filling)
    → Alike a b
    → b.count ≡ length ids
    → take b.count (map mark b.transducers) ≡ map shown ids
    → length ids < 256
    → Shows ids (record { transducers = a.transducers; contact_count = u8 a.count })
Alike-Shows ids a b (counts, alike) counted marks few =
    let small : u8 a.count ≡ b.count = omega arith in
    (
      small ∙ counted,
      ap (λ n. take n (map mark a.transducers)) small ∙ ap (take b.count) alike ∙ marks,
    )

build_event-Shows :
    (e : Outside) (s : Synaptics)
    → length s.virtual_finger_states ≤ length s.input_event.transducers
    → length s.virtual_finger_states < 256
    → Shows (numbers_from is_touching 0 s.virtual_finger_states) (build_event e s).1
unfolding build_event
build_event-Shows e s room few =
    let start : Filling = record { transducers = s.input_event.transducers; count = 0 } in
    let (counted, size, marks) =
      fill_with-Filled is_touching show showed 0 s.virtual_finger_states start (omega arith) in
    let few_ids = numbers_from-le is_touching 0 s.virtual_finger_states in
    Alike-Shows (numbers_from is_touching 0 s.virtual_finger_states) _
      (fill_with is_touching show 0 s.virtual_finger_states start)
      (fill-Alike e s 0 s.virtual_finger_states _ start start (refl, refl)) (omega arith) marks
      (omega (arith, few_ids, few))

-- A message that is sent if the condition holds.
abbrev pub sent_if : Bool → Message → List Message
sent_if b m = if b then m ∷ [] else []

emit_if :
    (b : Bool) (m : Message) (s : Synaptics)
    → (if b then emit m s else s).log ≡ s.log ++ sent_if b m
emit_if true m s = refl
emit_if false m s = sym (append-nil s.log)

emit_unless :
    (b : Bool) (m : Message) (s : Synaptics)
    → (if b then s else emit m s).log ≡ s.log ++ sent_if (not b) m
emit_unless true m s = sym (append-nil s.log)
emit_unless false m s = refl

abbrev limits_message : Limits → Message
limits_message l = dimensions l.min_x l.max_x l.min_y l.max_y

send_event-log :
    (l : Limits) (event : InputEvent) (s : Synaptics)
    → (send_event (l, event) s).log
      ≡ (s.log ++ sent_if l.changed (limits_message l))
        ++ sent_if (not (event.contact_count == 0 && s.last_sent_finger_count == 0)) (frame event)
unfolding send_event
send_event-log l event s =
    let stored = record s {
      logical_min_x = l.min_x;
      logical_max_x = l.max_x;
      logical_min_y = l.min_y;
      logical_max_y = l.max_y;
      input_event = event;
    } in
    let quiet = event.contact_count == 0 && s.last_sent_finger_count == 0 in
    let told : Synaptics = if l.changed then emit (limits_message l) stored else stored in
    emit_unless quiet (frame event) told
    ∙ ap (λ log. log ++ sent_if (not quiet) (frame event))
        (emit_if l.changed (limits_message l) stored)

send_event-sent :
    (l : Limits) (event : InputEvent) (s : Synaptics)
    → (send_event (l, event) s).last_sent_finger_count ≡ event.contact_count
unfolding send_event
send_event-sent l event s = refl

-- If no key was pressed lately and the number of fingers did not just change, a report sends at most
-- new dimensions of the pad, and then a frame, which holds exactly the fingers that touch, in
-- order and under their numbers; a frame without fingers is not sent after another one.
pub send_touch_data-Shows :
    (e : Outside) (s : Synaptics)
    → length s.virtual_finger_states ≤ length s.input_event.transducers
    → length s.virtual_finger_states < 256
    → (if s.keycode == s.special_key then s.maxafterspecialtyping else s.maxaftertyping)
      ≤ sub64 e.now s.keytime
    → s.last_finger_count ≡ s.clamped_finger_count
    → let ids = numbers_from is_touching 0 s.virtual_finger_states in
      let t = send_touch_data e s in
      (l : Limits) × (event : InputEvent) × Shows ids event
      × (t.log
          ≡ (s.log ++ sent_if l.changed (dimensions l.min_x l.max_x l.min_y l.max_y))
            ++ sent_if (not (length ids == 0 && s.last_sent_finger_count == 0)) (frame event))
      × (t.last_sent_finger_count ≡ length ids)
unfolding send_touch_data
send_touch_data-Shows e s room few late same =
    let (l, event) = build_event e s in
    let ids = numbers_from is_touching 0 s.virtual_finger_states in
    let (counted, shows) = build_event-Shows e s room few in
    let wait = if s.keycode == s.special_key then s.maxafterspecialtyping else s.maxaftertyping in
    let sent : send_touch_data e s ≡ send_event (build_event e s) s =
      if_else (ltb (sub64 e.now s.keytime) wait) s _ (ground arith)
      ∙ if_else (not (s.last_finger_count == s.clamped_finger_count)) _ _ (ground arith) in
    (
      l,
      event,
      (counted, shows),
      ap (λ (t : Synaptics). t.log) sent
          ∙ send_event-log l event s
          ∙ ap
              (λ n.
                (s.log ++ sent_if l.changed (limits_message l))
                ++ sent_if (not (n == 0 && s.last_sent_finger_count == 0)) (frame event))
              counted,
      ap (λ (t : Synaptics). t.last_sent_finger_count) sent ∙ send_event-sent l event s ∙ counted,
    )
