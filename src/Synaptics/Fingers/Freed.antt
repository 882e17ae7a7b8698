-- ===== src/Synaptics/Fingers/Freed.antt =====
-- freeAndMarkVirtualFingers of VoodooPS2Trackpad/VoodooPS2SynapticsTouchPad.cpp: which virtual fingers
-- touch afterwards, and which finger types are free.
use voodoo_ps2_focal_tech.Common.{
  ℕ, zero, suc, ◌<◌, ◌≡◌, ◌≢◌, refl, sym, ap, ◌∙◌, arith, List, [], ◌∷◌, map, take, replicate, true,
  false, not, Option, none, some, get_or, set, length, length-set, length-replicate, get_or-set_ne,
  Bool-cases, inl, inr, ◌==◌, if_then, if_else,
}
use voodoo_ps2_focal_tech.Average.{reset}
use voodoo_ps2_focal_tech.Synaptics.{Synaptics, HwState, VirtualFinger}
use voodoo_ps2_focal_tech.Synaptics.Fingers.{
  FingerTypes, no_virtual_finger, virtual, release, set_type, forget_type, mark_fingers,
  free_and_mark_virtual_fingers,
}
use voodoo_ps2_focal_tech.Synaptics.Fingers.Marks.{
  is_named, is_used, has_type, mark_fingers-touch, mark_fingers-free, mark_fingers-type,
  length-mark_fingers,
}

get_or-map-lt :
    (f : VirtualFinger → VirtualFinger) (vs : List VirtualFinger) (j : ℕ)
    → j < length vs
    → get_or (map f vs) j no_virtual_finger ≡ f (get_or vs j no_virtual_finger)
get_or-map-lt f [] j h = absurd (omega arith)
get_or-map-lt f (v ∷ vs) zero h = refl
get_or-map-lt f (v ∷ vs) (suc j) h = get_or-map-lt f vs j (omega arith)

length-map-release : (vs : List VirtualFinger) → length (map release vs) ≡ length vs
length-map-release [] = refl
length-map-release (v ∷ vs) = ap suc (length-map-release vs)

type-release :
    (vs : List VirtualFinger) (j : ℕ)
    → (get_or (map release vs) j no_virtual_finger).finger_type
      ≡ (get_or vs j no_virtual_finger).finger_type
type-release [] j = refl
type-release (v ∷ vs) zero = refl
type-release (v ∷ vs) (suc j) = type-release vs j

has_type-release :
    (vs : List VirtualFinger) (t : ℕ) (q : Option ℕ)
    → has_type (map release vs) t q ≡ has_type vs t q
has_type-release vs t none = refl
has_type-release vs t (some k) = ap (λ n. n == t) (type-release vs k)

is_used-release :
    (vs : List VirtualFinger) (t : ℕ) (fs : List HwState)
    → is_used (map release vs) t fs ≡ is_used vs t fs
unfolding is_used
is_used-release vs t [] = refl
is_used-release vs t (f ∷ fs) =
    rw (has_type-release vs t f.virtual_finger_index, is_used-release vs t fs) refl

get_or-replicate : (n k : ℕ) → k < n → get_or (replicate n true) k false ≡ true
get_or-replicate zero k h = absurd (omega arith)
get_or-replicate (suc n) zero h = refl
get_or-replicate (suc n) (suc k) h = get_or-replicate n k (omega arith)

touch-forget_type :
    (e : FingerTypes) (v : VirtualFinger)
    → ((forget_type e v).touch ≡ v.touch) × (v.touch ≡ true → forget_type e v ≡ v)
touch-forget_type e v = elim (Bool-cases v.touch) [
  | inl on ↦
      let same = if_then v.touch v (set_type e.undefined v) on in
      (ap (λ (u : VirtualFinger). u.touch) same, λ _. same)
  | inr off ↦
      let same = if_else v.touch v (set_type e.undefined v) off in
      (ap (λ (u : VirtualFinger). u.touch) same, λ on. absurd (ground (arith, on, off)))
]

-- What becomes of the fingers and the types when the physical fingers `fs` go on.
pub record IsFreed (e : FingerTypes) (fs : List HwState) (s t : Synaptics) : Type 0 where
  pub touches : (j : ℕ) → j < length s.virtual_finger_states → (virtual j t).touch ≡ is_named j fs
  pub types :
      (j : ℕ)
      → j < length s.virtual_finger_states
      → is_named j fs ≡ true
      → (virtual j t).finger_type ≡ (virtual j s).finger_type
  pub free :
      (k : ℕ)
      → k < e.count
      → k ≢ e.undefined
      → get_or t.free_finger_types k false ≡ not (is_used s.virtual_finger_states k fs)

abbrev freed : FingerTypes → Synaptics → Synaptics
freed e s = record s {
  virtual_finger_states = map release s.virtual_finger_states;
  free_finger_types = set (replicate e.count true) e.undefined false;
}

marked-touch :
    (e : FingerTypes) (fs : List HwState) (s : Synaptics) (j : ℕ)
    → j < length s.virtual_finger_states
    → (virtual j (mark_fingers fs (freed e s))).touch ≡ is_named j fs
unfolding reset
marked-touch e fs s j h = ground (
  arith,
  mark_fingers-touch fs j (freed e s)
      (omega (arith, h, length-map-release s.virtual_finger_states)),
  ap (λ (v : VirtualFinger). v.touch) (get_or-map-lt release s.virtual_finger_states j h),
)

pub free_and_mark_virtual_fingers-IsFreed :
    (e : FingerTypes) (s : Synaptics)
    → IsFreed e (take s.clamped_finger_count s.finger_states) s (free_and_mark_virtual_fingers e s)
unfolding free_and_mark_virtual_fingers
free_and_mark_virtual_fingers-IsFreed e s =
    let fs = take s.clamped_finger_count s.finger_states in
    let m = mark_fingers fs (freed e s) in
    let same_length =
      length-mark_fingers fs (freed e s) ∙ length-map-release s.virtual_finger_states in
    let last = λ (j : ℕ) (h : j < length s.virtual_finger_states).
      get_or-map-lt (forget_type e) m.virtual_finger_states j (omega (arith, h, same_length)) in
    record {
      touches = λ j h.
          ap (λ (v : VirtualFinger). v.touch) (last j h)
          ∙ (touch-forget_type e (virtual j m)).0
          ∙ marked-touch e fs s j h;
      types = λ j h named.
          ap (λ (v : VirtualFinger). v.finger_type)
            (last j h ∙ (touch-forget_type e (virtual j m)).1 (marked-touch e fs s j h ∙ named))
          ∙ mark_fingers-type fs j (freed e s)
          ∙ type-release s.virtual_finger_states j;
      free = λ k below defined.
          let size =
            length-set (replicate e.count true) e.undefined false ∙ length-replicate e.count true in
          ground (
            arith,
            mark_fingers-free fs k (freed e s) (omega (arith, below, size)),
            is_used-release s.virtual_finger_states k fs,
            get_or-set_ne (replicate e.count true) e.undefined k false false
                (λ same. defined (sym same)),
            get_or-replicate e.count k below,
          );
    }
