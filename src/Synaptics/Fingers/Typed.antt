-- ===== src/Synaptics/Fingers/Typed.antt =====
-- The finger types of VoodooPS2Trackpad/VoodooPS2SynapticsTouchPad.cpp and the touching fingers
-- that have them.
use voodoo_ps2_focal_tech.Common.{
  ℕ, ◌-◌, ◌≤◌, ◌<◌, ◌≡◌, ◌≢◌, refl, sym, ap, ◌∙◌, arith, true, false, Option, none, some, leb,
  get_or, set, modify, length, length-set, get_or-set_self, get_or-set_ne, Bool-cases, inl, inr,
  ◌⊎◌, ◌==◌,
}
use voodoo_ps2_focal_tech.Synaptics.{Synaptics, VirtualFinger, max_fingers}
use voodoo_ps2_focal_tech.Synaptics.Fingers.{
  FingerTypes, virtual, first_free, give_type, assign_finger_type, first_untouched, start_touch,
  map_to, occupy, assign_virtual_finger,
}
use voodoo_ps2_focal_tech.Synaptics.Fingers.Started.{
  first_free-some, first_free-none, first_untouched-some, started, started_own, started_other,
  Starts, occupy-Starts,
}

-- Every touching finger has a type of the hand that is not free, and no other one has it.
pub record IsTyped (e : FingerTypes) (s : Synaptics) : Type 0 where
  pub size : length s.free_finger_types ≡ e.count
  pub typed :
      (j : ℕ)
      → (virtual j s).touch ≡ true
      → let t = (virtual j s).finger_type in
        (e.index_finger ≤ t) × (t < e.count) × (get_or s.free_finger_types t false ≡ false)
  pub apart :
      (j k : ℕ)
      → (virtual j s).touch ≡ true
      → (virtual k s).touch ≡ true
      → (virtual j s).finger_type ≡ (virtual k s).finger_type
      → j ≡ k

started_taken :
    (j t u : ℕ) (s : Synaptics)
    → t < length s.free_finger_types
    → (u ≢ t → get_or s.free_finger_types u false ≡ false)
    → get_or (started j t s).free_finger_types u false ≡ false
unfolding started
started_taken j t u s room before = elim (Bool-cases (u == t)) [
  | inl on ↦
      let same : u ≡ t = ground (arith, on) in
      ap (λ n. get_or (set s.free_finger_types t false) n false) same
      ∙ get_or-set_self s.free_finger_types t false false room
  | inr off ↦
      let other : u ≢ t = λ e. ground (arith, off, e) in
      get_or-set_ne s.free_finger_types t u false false (λ e. other (sym e)) ∙ before other
]

-- A finger that touches afterwards is the one that starts, with type `t`, or touched with its type before.
started_cases :
    (e : FingerTypes) (j t k : ℕ) (s : Synaptics)
    → IsTyped e s
    → j < length s.virtual_finger_states
    → (virtual k (started j t s)).touch ≡ true
    → (k ≡ j) × ((virtual k (started j t s)).finger_type ≡ t)
      ⊎ (k ≢ j)
        × ((virtual k s).touch ≡ true)
        × ((virtual k (started j t s)).finger_type ≡ (virtual k s).finger_type)
started_cases e j t k s h room on = elim (Bool-cases (k == j)) [
  | inl equal ↦
      let same : k ≡ j = ground (arith, equal) in
      inl (same, ap (λ n. (virtual n (started j t s)).finger_type) same ∙ started_own j t s room)
  | inr differ ↦
      let other : k ≢ j = λ e. ground (arith, differ, e) in
      let kept = started_other j t k s other in
      inr (
        other,
        sym (ap (λ (v : VirtualFinger). v.touch) kept) ∙ on,
        ap (λ (v : VirtualFinger). v.finger_type) kept,
      )
]

started-size :
    (j t : ℕ) (s : Synaptics)
    → length (started j t s).free_finger_types ≡ length s.free_finger_types
unfolding started
started-size j t s = length-set s.free_finger_types t false

started-IsTyped :
    (e : FingerTypes) (j t : ℕ) (s : Synaptics)
    → IsTyped e s
    → j < length s.virtual_finger_states
    → e.index_finger ≤ t
    → t < e.count
    → get_or s.free_finger_types t false ≡ true
    → IsTyped e (started j t s)
started-IsTyped e j t s h room low high free =
    let within : t < length s.free_finger_types = omega (arith, h.size) in
    let fresh : (k : ℕ) → (virtual k s).touch ≡ true → (virtual k s).finger_type ≢ t = λ k on same.
      let (low_k, high_k, kept) = h.typed k on in
      let taken = sym (ap (λ n. get_or s.free_finger_types n false) same) ∙ kept in
      ground (arith, free, taken) in
    record {
      size = started-size j t s ∙ h.size;
      typed = λ k on. elim (started_cases e j t k s h room on) [
        | inl new ↦ (
          omega (arith, new.1),
          omega (arith, new.1),
          started_taken j t _ s within (λ other. absurd (other new.1)),
        )
        | inr old ↦
            let (low_k, high_k, taken) = h.typed k old.1 in
            (
              omega (arith, old.2),
              omega (arith, old.2),
              started_taken j t _ s within
                  (λ _. ap (λ n. get_or s.free_finger_types n false) old.2 ∙ taken),
            )
      ];
      apart = λ k m on_k on_m same. elim (started_cases e j t k s h room on_k) [
        | inl new_k ↦ elim (started_cases e j t m s h room on_m) [
          | inl new_m ↦ new_k.0 ∙ sym new_m.0
          | inr old_m ↦ absurd (fresh m old_m.1 (sym old_m.2 ∙ sym same ∙ new_k.1))
        ]
        | inr old_k ↦ elim (started_cases e j t m s h room on_m) [
          | inl new_m ↦ absurd (fresh k old_k.1 (sym old_k.2 ∙ same ∙ new_m.1))
          | inr old_m ↦ h.apart k m old_k.1 old_m.1 (sym old_k.2 ∙ same ∙ old_m.2)
        ]
      ];
    }

-- Fields other than the types and the touches do not matter.
give_type-IsTyped :
    (e : FingerTypes) (i j t : ℕ) (r : Option ℕ) (s : Synaptics)
    → IsTyped e s
    → j < length s.virtual_finger_states
    → first_free (e.count - e.index_finger) e.index_finger s.free_finger_types ≡ r
    → e.index_finger ≤ t
    → t < e.count
    → get_or s.free_finger_types t false ≡ true
    → IsTyped e (
        give_type e j r (record s {
          finger_states = modify s.finger_states i (map_to (some j));
          virtual_finger_states = modify s.virtual_finger_states j start_touch;
        }))
unfolding started
give_type-IsTyped e i j t none s h room first low high free =
    let taken =
      first_free-none (e.count - e.index_finger) e.index_finger t s.free_finger_types first low
        (omega arith) in
    absurd (ground (arith, free, taken))
give_type-IsTyped e i j t (some u) s h room first low high free =
    let (low_u, high_u, free_u) =
      first_free-some (e.count - e.index_finger) e.index_finger u s.free_finger_types first in
    let s' : Synaptics = record s { finger_states = modify s.finger_states i (map_to (some j)) } in
    let h' : IsTyped e s' = record { size = h.size; typed = h.typed; apart = h.apart } in
    started-IsTyped e j u s' h' room low_u (omega arith) free_u

occupy-IsTyped :
    (e : FingerTypes) (i t : ℕ) (r : Option ℕ) (s : Synaptics)
    → IsTyped e s
    → first_untouched 0 s.virtual_finger_states ≡ r
    → e.index_finger ≤ t
    → t < e.count
    → get_or s.free_finger_types t false ≡ true
    → IsTyped e (occupy e i r s)
unfolding assign_finger_type
occupy-IsTyped e i t none s h first low high free = h
occupy-IsTyped e i t (some j) s h first low high free =
    let (k, same, room, off) = first_untouched-some 0 j s.virtual_finger_states first in
    give_type-IsTyped e i j t _ s h (omega arith) refl low high free

-- If some finger type of the hand is free and some virtual finger does not touch, a physical finger, one
-- of the first five, starts a touch: it gets a virtual finger that did not touch before and touches now, and
-- this one a type that was free; the other virtual fingers are as before. Afterwards every touching
-- finger has a type of the hand of its own, which is not free, if this was so before.
pub assign_virtual_finger-IsTyped :
    (e : FingerTypes) (i t k : ℕ) (s : Synaptics)
    → IsTyped e s
    → e.index_finger ≤ t
    → t < e.count
    → get_or s.free_finger_types t false ≡ true
    → i < 5
    → i < length s.finger_states
    → k < length s.virtual_finger_states
    → (virtual k s).touch ≡ false
    → IsTyped e (assign_virtual_finger e i s) × (j : ℕ) × Starts i j s (assign_virtual_finger e i s)
unfolding assign_virtual_finger
assign_virtual_finger-IsTyped e i t k s h low high free counted near below off =
    let within : leb max_fingers i ≡ false = ground arith in
    let (j, starts) = occupy-Starts e i t k _ s refl low high free near below off in
    rw within (occupy-IsTyped e i t _ s h refl low high free, j, starts)
