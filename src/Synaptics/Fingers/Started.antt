-- ===== src/Synaptics/Fingers/Started.antt =====
-- How a touch starts: assignVirtualFinger and assignFingerType of
-- VoodooPS2Trackpad/VoodooPS2SynapticsTouchPad.cpp, for a pad with a free virtual finger and a free type.
use voodoo_ps2_focal_tech.Common.{
  ℕ, zero, suc, ◌+◌, ◌-◌, ◌≤◌, ◌<◌, ◌≡◌, ◌≢◌, refl, sym, ap, ◌∙◌, arith, List, [], ◌∷◌, Bool, true,
  false, Option, none, some, get_or, set, modify, length, length-modify, get_or-modify_self,
  get_or-modify_ne, Bool-cases, inl, inr,
}
use voodoo_ps2_focal_tech.Synaptics.{Synaptics, HwState, no_state, VirtualFinger}
use voodoo_ps2_focal_tech.Synaptics.Fingers.{
  FingerTypes, no_virtual_finger, physical, virtual, first_free, set_type, give_type,
  assign_finger_type, first_untouched, start_touch, map_to, occupy,
}

-- The first free type is one, and where there is none, none is free.
pub first_free-some :
    (n i t : ℕ) (free : List Bool)
    → first_free n i free ≡ some t
    → (i ≤ t) × (t < i + n) × (get_or free t false ≡ true)
unfolding first_free
first_free-some zero i t free h = absurd (ground (arith, h))
first_free-some (suc n) i t free h = ground (arith, h, first_free-some n (suc i) t free)

pub first_free-none :
    (n i t : ℕ) (free : List Bool)
    → first_free n i free ≡ none
    → i ≤ t
    → t < i + n
    → get_or free t false ≡ false
unfolding first_free
first_free-none zero i t free h p q = absurd (omega arith)
first_free-none (suc n) i t free h p q = elim (Bool-cases (get_or free i false)) [
  | inl on ↦ absurd (ground (arith, h, on))
  | inr off ↦
      let later : suc i ≤ t → get_or free t false ≡ false =
        λ r. first_free-none n (suc i) t free (ground (arith, h, off)) r (omega arith) in
      ground (arith, off, p, later)
]

pub first_untouched-some :
    (i j : ℕ) (vs : List VirtualFinger)
    → first_untouched i vs ≡ some j
    → (k : ℕ) × (j ≡ i + k) × (k < length vs) × ((get_or vs k no_virtual_finger).touch ≡ false)
unfolding first_untouched
first_untouched-some i j [] h = absurd (ground (arith, h))
first_untouched-some i j (v ∷ vs) h = elim (Bool-cases v.touch) [
  | inl on ↦
      let (k, same, short, off) = first_untouched-some (suc i) j vs (ground (arith, h, on)) in
      (suc k, omega arith, omega arith, off)
  | inr off ↦ (0, ground (arith, h, off), omega arith, off)
]

-- Finger `j` starts a touch with type `t`.
unfoldable pub started : (j t : ℕ) → Synaptics → Synaptics
started j t s = record s {
  virtual_finger_states = modify (modify s.virtual_finger_states j start_touch) j (set_type t);
  free_finger_types = set s.free_finger_types t false;
}

pub started_own :
    (j t : ℕ) (s : Synaptics)
    → j < length s.virtual_finger_states
    → (virtual j (started j t s)).finger_type ≡ t
unfolding started
started_own j t s h =
    ap (λ (v : VirtualFinger). v.finger_type)
      (get_or-modify_self (modify s.virtual_finger_states j start_touch) j (set_type t)
        no_virtual_finger (omega (arith, h, length-modify s.virtual_finger_states j start_touch)))

pub started_other : (j t k : ℕ) (s : Synaptics) → k ≢ j → virtual k (started j t s) ≡ virtual k s
unfolding started
started_other j t k s h =
    get_or-modify_ne (modify s.virtual_finger_states j start_touch) j k (set_type t)
      no_virtual_finger (λ e. h (sym e))
    ∙ get_or-modify_ne s.virtual_finger_states j k start_touch no_virtual_finger (λ e. h (sym e))

-- How physical finger `i` starts a touch as virtual finger `j`.
pub record Starts (i j : ℕ) (s t : Synaptics) : Type 0 where
  pub mapped : (physical i t).virtual_finger_index ≡ some j
  pub new : (virtual j s).touch ≡ false
  pub touching : (virtual j t).touch ≡ true
  pub was_free : get_or s.free_finger_types (virtual j t).finger_type false ≡ true
  pub others : (m : ℕ) → m ≢ j → virtual m t ≡ virtual m s

started_touch :
    (j t : ℕ) (s : Synaptics)
    → j < length s.virtual_finger_states
    → (virtual j (started j t s)).touch ≡ true
unfolding started
started_touch j t s h =
    ap (λ (v : VirtualFinger). v.touch)
      (get_or-modify_self (modify s.virtual_finger_states j start_touch) j (set_type t)
          no_virtual_finger (omega (arith, h, length-modify s.virtual_finger_states j start_touch))
        ∙ ap (set_type t)
            (get_or-modify_self s.virtual_finger_states j start_touch no_virtual_finger h))

give_type-Starts :
    (e : FingerTypes) (i j t : ℕ) (r : Option ℕ) (s : Synaptics)
    → i < length s.finger_states
    → j < length s.virtual_finger_states
    → (virtual j s).touch ≡ false
    → first_free (e.count - e.index_finger) e.index_finger s.free_finger_types ≡ r
    → e.index_finger ≤ t
    → t < e.count
    → get_or s.free_finger_types t false ≡ true
    → Starts i j s (
        give_type e j r (record s {
          finger_states = modify s.finger_states i (map_to (some j));
          virtual_finger_states = modify s.virtual_finger_states j start_touch;
        }))
unfolding started
give_type-Starts e i j t none s near room new first low high free =
    let taken =
      first_free-none (e.count - e.index_finger) e.index_finger t s.free_finger_types first low
        (omega arith) in
    absurd (ground (arith, free, taken))
give_type-Starts e i j t (some u) s near room new first low high free =
    let (low_u, high_u, free_u) =
      first_free-some (e.count - e.index_finger) e.index_finger u s.free_finger_types first in
    let s' : Synaptics = record s { finger_states = modify s.finger_states i (map_to (some j)) } in
    record {
      mapped =
          ap (λ (f : HwState). f.virtual_finger_index)
            (get_or-modify_self s.finger_states i (map_to (some j)) no_state near);
      new = new;
      touching = started_touch j u s' room;
      was_free = ap (λ n. get_or s.free_finger_types n false) (started_own j u s' room) ∙ free_u;
      others = λ m other. started_other j u m s' other;
    }

first_untouched-none :
    (i k : ℕ) (vs : List VirtualFinger)
    → first_untouched i vs ≡ none
    → k < length vs
    → (get_or vs k no_virtual_finger).touch ≡ true
unfolding first_untouched
first_untouched-none i k [] h below = absurd (omega arith)
first_untouched-none i zero (v ∷ vs) h below = elim (Bool-cases v.touch) [
  | inl on ↦ on
  | inr off ↦ absurd (ground (arith, h, off))
]
first_untouched-none i (suc k) (v ∷ vs) h below = elim (Bool-cases v.touch) [
  | inl on ↦ first_untouched-none (suc i) k vs (ground (arith, h, on)) (omega arith)
  | inr off ↦ absurd (ground (arith, h, off))
]

pub occupy-Starts :
    (e : FingerTypes) (i t k : ℕ) (r : Option ℕ) (s : Synaptics)
    → first_untouched 0 s.virtual_finger_states ≡ r
    → e.index_finger ≤ t
    → t < e.count
    → get_or s.free_finger_types t false ≡ true
    → i < length s.finger_states
    → k < length s.virtual_finger_states
    → (virtual k s).touch ≡ false
    → (j : ℕ) × Starts i j s (occupy e i r s)
unfolding assign_finger_type
occupy-Starts e i t k none s first low high free near below off =
    let on = first_untouched-none 0 k s.virtual_finger_states first below in
    absurd (ground (arith, on, off))
occupy-Starts e i t k (some j) s first low high free near below off =
    let (l, same, room, new) = first_untouched-some 0 j s.virtual_finger_states first in
    let here : l ≡ j = omega arith in
    (
      j,
      give_type-Starts e i j t _ s near (omega arith)
          (ap (λ n. (virtual n s).touch) (sym here) ∙ new) refl low high free,
    )
