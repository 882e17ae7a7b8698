-- ===== src/Synaptics/Fingers.antt =====
-- The virtual fingers of VoodooPS2Trackpad/VoodooPS2SynapticsTouchPad.cpp: the pad gives the
-- positions of two fingers and a count, and the driver maps each physical finger to a virtual one
-- with a finger type.

pub mod Started
pub mod Typed
pub mod Marks
pub mod Freed
pub mod Marked
use voodoo_ps2_focal_tech.Common.{
  ℕ, zero, suc, ◌+◌, ◌-◌, ◌*◌, List, [], ◌∷◌, map, take, replicate, Bool, true, false,
  if◌then◌else◌, Option, none, some, leb, get_or, set, modify, u32, sub32, lt_signed32,
}
use voodoo_ps2_focal_tech.Average.{Average, reset, newest, average}
use voodoo_ps2_focal_tech.Synaptics.{Synaptics, HwState, VirtualFinger, no_state, max_fingers}

-- Numbers of MT2FingerType: kMT2FingerTypeUndefined, kMT2FingerTypeIndexFinger and
-- kMT2FingerTypeCount.
pub record FingerTypes : Type 0 where
  pub undefined : ℕ
  pub index_finger : ℕ
  pub count : ℕ

abbrev no_average : Average
no_average = record { buffer = []; count = 0; sum = 0; index = 0 }

abbrev pub no_virtual_finger : VirtualFinger
no_virtual_finger = record {
  x_avg = no_average;
  y_avg = no_average;
  pressure = 0;
  width = 0;
  touch = false;
  button = false;
  finger_type = 0;
}

abbrev pub virtual : ℕ → Synaptics → VirtualFinger
virtual j s = get_or s.virtual_finger_states j no_virtual_finger

abbrev pub physical : ℕ → Synaptics → HwState
physical i s = get_or s.finger_states i no_state

abbrev pub sqr : ℕ → ℕ
sqr x = u32 (x * x)

-- The square of the distance between a physical finger and a virtual one, as a word.
unfoldable pub dist : ℕ → ℕ → Synaptics → ℕ
dist i j s =
    let dx = sub32 (physical i s).x (newest (virtual j s).x_avg) in
    let dy = sub32 (physical i s).y (newest (virtual j s).y_avg) in u32 (sqr dx + sqr dy)

-- The first free finger type from `i` on, among `n`.
unfoldable pub first_free : ℕ → ℕ → List Bool → Option ℕ
first_free zero i free = none
first_free (suc n) i free =
    let rest = first_free n (suc i) free in if get_or free i false then some i else rest

abbrev pub set_type : ℕ → VirtualFinger → VirtualFinger
set_type t v = record v { finger_type = t }

abbrev pub give_type : FingerTypes → ℕ → Option ℕ → Synaptics → Synaptics
give_type e j none s = record s {
  virtual_finger_states = modify s.virtual_finger_states j (set_type e.undefined);
}
give_type e j (some t) s = record s {
  free_finger_types = set s.free_finger_types t false;
  virtual_finger_states = modify s.virtual_finger_states j (set_type t);
}

-- assignFingerType(virtualFingerStates[j]).
unfoldable pub assign_finger_type : FingerTypes → ℕ → Synaptics → Synaptics
assign_finger_type e j s =
    give_type e j (first_free (e.count - e.index_finger) e.index_finger s.free_finger_types) s

-- The first virtual finger that does not touch, from number `j` on.
unfoldable pub first_untouched : ℕ → List VirtualFinger → Option ℕ
first_untouched j [] = none
first_untouched j (v ∷ vs) = if v.touch then first_untouched (suc j) vs else some j

abbrev pub start_touch : VirtualFinger → VirtualFinger
start_touch v = record v { touch = true; x_avg = reset v.x_avg; y_avg = reset v.y_avg }

abbrev pub map_to : Option ℕ → HwState → HwState
map_to j f = record f { virtual_finger_index = j }

abbrev pub occupy : FingerTypes → ℕ → Option ℕ → Synaptics → Synaptics
occupy e i none s = s
occupy e i (some j) s = assign_finger_type e j (record s {
  finger_states = modify s.finger_states i (map_to (some j));
  virtual_finger_states = modify s.virtual_finger_states j start_touch;
})

unfoldable pub assign_virtual_finger : FingerTypes → ℕ → Synaptics → Synaptics
assign_virtual_finger e i s =
    if leb max_fingers i then s else occupy e i (first_untouched 0 s.virtual_finger_states) s

abbrev pub release : VirtualFinger → VirtualFinger
release v = record v {
  touch = false;
  x_avg = reset v.x_avg;
  y_avg = reset v.y_avg;
  pressure = 0;
  width = 0;
}

abbrev pub touch_again : VirtualFinger → VirtualFinger
touch_again v = record v { touch = true }

unfoldable pub mark_finger : Option ℕ → Synaptics → Synaptics
mark_finger none s = s
mark_finger (some j) s = record s {
  virtual_finger_states = modify s.virtual_finger_states j touch_again;
  free_finger_types = set s.free_finger_types (virtual j s).finger_type false;
}

-- The virtual fingers of the given physical ones are marked as used.
unfoldable pub mark_fingers : List HwState → Synaptics → Synaptics
mark_fingers [] s = s
mark_fingers (f ∷ fs) s = mark_fingers fs (mark_finger f.virtual_finger_index s)

abbrev pub forget_type : FingerTypes → VirtualFinger → VirtualFinger
forget_type e v = if v.touch then v else set_type e.undefined v

unfoldable pub free_and_mark_virtual_fingers : FingerTypes → Synaptics → Synaptics
free_and_mark_virtual_fingers e s =
    let freed = record s {
      virtual_finger_states = map release s.virtual_finger_states;
      free_finger_types = set (replicate e.count true) e.undefined false;
    } in
    let marked = mark_fingers (take s.clamped_finger_count s.finger_states) freed in
    record marked { virtual_finger_states = map (forget_type e) marked.virtual_finger_states }

-- clone(dst, src): everything but the index.
abbrev pub clone : HwState → HwState → HwState
clone src dst = record dst { x = src.x; y = src.y; z = src.z; w = src.w }

unfoldable pub upper_finger_index : Synaptics → ℕ
upper_finger_index s = if lt_signed32 (physical 0 s).y (physical 1 s).y then 1 else 0

abbrev pub upper_finger : Synaptics → HwState
upper_finger s = physical (upper_finger_index s) s

-- Finger `src` was replaced: its virtual finger goes on as `dst` where it was, and `src` gets another.
-- `j` is the virtual finger of `src`; without one the code reads before its array.
abbrev pub take_over : FingerTypes → ℕ → ℕ → Option ℕ → Synaptics → Synaptics
take_over e dst src none s = s
take_over e dst src (some j) s =
    let v = virtual j s in
    let moved : HwState → HwState =
      λ f. record f { x = average v.x_avg; y = average v.y_avg; virtual_finger_index = some j } in
    assign_virtual_finger e src (record s { finger_states = modify s.finger_states dst moved })

unfoldable pub swap_fingers : FingerTypes → ℕ → ℕ → Synaptics → Synaptics
swap_fingers e dst src s = take_over e dst src (physical src s).virtual_finger_index s
