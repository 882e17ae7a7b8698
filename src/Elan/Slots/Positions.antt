-- ===== src/Elan/Slots/Positions.antt =====
-- Where the head packets of version 4 put the fingers.
use voodoo_ps2_focal_tech.Common.{
  ℕ, zero, suc, ◌+◌, ◌-◌, ◌≤◌, ◌<◌, ◌≡◌, ◌≢◌, refl, ap, arith, List, [], ◌∷◌, ◌++◌, ◌==◌, length,
  modify, get_or, get_or-modify_self, get_or-modify_ne, u32, sub32, ◌*◌, ◌%◌, if◌then◌else◌,
  Bool-cases, inl, inr,
}
use voodoo_ps2_focal_tech.Alps.{byte, field}
use voodoo_ps2_focal_tech.Elan.{Elan, VirtualFinger, no_virtual_finger}
use voodoo_ps2_focal_tech.Elan.Slots.{take_buttons, touch_fingers, place_head}

-- A packet and the time when it is handled.
abbrev pub Timed : Type 0
Timed = ℕ × List ℕ

-- A head packet that names one of the five fingers.
abbrev pub IsHead : Timed → Type 0
IsHead (now, p) = (field (byte p 3) 5 3 ≢ 0) × (field (byte p 3) 5 3 ≤ 5)

-- Where finger `k` stands.
abbrev pub position : ℕ → List VirtualFinger → ℕ × ℕ
position k vs = let v = get_or vs k no_virtual_finger in (v.now.x, v.now.y)

-- Where head packets put finger `k`: a packet names it by k + 1, holds 12 bits of x and of y, and has
-- its y axis turned.
unfoldable pub put_by : ℕ → ℕ → List Timed → ℕ × ℕ → ℕ × ℕ
put_by y_max k [] xy = xy
put_by y_max k ((now, p) ∷ ps) xy = put_by y_max k ps (
    if field (byte p 3) 5 3 == suc k
    then (byte p 1 % 16 * 256 + byte p 2, sub32 y_max (byte p 4 % 16 * 256 + byte p 5))
    else xy)

-- The state after the finger of a head packet is placed.
abbrev pub placed : List ℕ → Elan → Elan
placed p s = record (take_buttons p s) {
  head_packets_count = u32 (s.head_packets_count + 1);
  virtual_finger = modify s.virtual_finger (field (byte p 3) 5 3 - 1) (place_head p s.info.y_max);
}

pub position-placed :
    (k : ℕ) (now : ℕ) (p : List ℕ) (s : Elan)
    → IsHead (now, p)
    → k < length s.virtual_finger
    → position k (placed p s).virtual_finger
      ≡ put_by s.info.y_max k ((now, p) ∷ []) (position k s.virtual_finger)
unfolding put_by place_head
position-placed k now p s (named, known) room =
    let id = field (byte p 3) 5 3 in
    let put = place_head p s.info.y_max in
    elim (Bool-cases (id == suc k)) [
      | inl own ↦
          let here : id - 1 ≡ k = ground (arith, own) in
          rw (own, here)
            (ap (λ (v : VirtualFinger). (v.now.x, v.now.y))
              (get_or-modify_self s.virtual_finger k put no_virtual_finger room))
      | inr other ↦
          let away : id - 1 ≢ k = λ e. ground (arith, other, named, e) in
          rw other (
            ap (λ (v : VirtualFinger). (v.now.x, v.now.y))
              (get_or-modify_ne s.virtual_finger (id - 1) k put no_virtual_finger away))
    ]

pub put_by-append :
    (y_max k : ℕ) (ps qs : List Timed) (xy : ℕ × ℕ)
    → put_by y_max k (ps ++ qs) xy ≡ put_by y_max k qs (put_by y_max k ps xy)
unfolding put_by
put_by-append y_max k [] qs xy = refl
put_by-append y_max k ((now, p) ∷ ps) qs xy = put_by-append y_max k ps qs _

pub put_by-cons :
    (y_max k : ℕ) (q : Timed) (ps : List Timed) (xy : ℕ × ℕ)
    → put_by y_max k (q ∷ ps) xy ≡ put_by y_max k ps (put_by y_max k (q ∷ []) xy)
unfolding put_by
put_by-cons y_max k (now, p) ps xy = refl

pub position-touch_fingers :
    (mask i k : ℕ) (vs : List VirtualFinger) → position k (touch_fingers mask i vs) ≡ position k vs
unfolding touch_fingers
position-touch_fingers mask i k [] = refl
position-touch_fingers mask i zero (v ∷ vs) = refl
position-touch_fingers mask i (suc k) (v ∷ vs) = position-touch_fingers mask (suc i) k vs

pub length-touch_fingers :
    (mask i : ℕ) (vs : List VirtualFinger) → length (touch_fingers mask i vs) ≡ length vs
unfolding touch_fingers
length-touch_fingers mask i [] = refl
length-touch_fingers mask i (v ∷ vs) = ap suc (length-touch_fingers mask (suc i) vs)
