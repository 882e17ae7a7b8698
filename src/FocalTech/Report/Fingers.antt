-- ===== src/FocalTech/Report/Fingers.antt =====
-- The virtual fingers of a report: where they are and which of them touch.
use voodoo_ps2_focal_tech.Common.{
  ℕ, ◌≤◌, ◌<◌, ◌≡◌, refl, arith, List, [], ◌∷◌, true, All, length, map,
}
use voodoo_ps2_focal_tech.FocalTech.{Finger, VirtualFinger, Coordinates}
use voodoo_ps2_focal_tech.FocalTech.Click.{is_usable}
use voodoo_ps2_focal_tech.FocalTech.Click.Search.{clamp_position-le}
use voodoo_ps2_focal_tech.FocalTech.Report.{update_finger, update_fingers}

-- A raw position is a 32-bit pattern.
abbrev pub IsWord : Finger → Type 0
IsWord f = (f.x < 0x1_0000_0000) × (f.y < 0x1_0000_0000)

abbrev pub OnPad : ℕ → ℕ → Coordinates → Type 0
OnPad x_max y_max c = (c.x ≤ x_max) × (c.y ≤ y_max)

-- Both positions of a touching finger lie on the pad.
pub record IsPlaced (x_max y_max : ℕ) (v : VirtualFinger) : Type 0 where
  pub current_x : v.touching ≡ true → v.current.x ≤ x_max
  pub current_y : v.touching ≡ true → v.current.y ≤ y_max
  pub previous_x : v.touching ≡ true → v.previous.x ≤ x_max
  pub previous_y : v.touching ≡ true → v.previous.y ≤ y_max

update_finger-IsPlaced :
    (x_max y_max width : ℕ) (raw : Finger) (v : VirtualFinger)
    → x_max < 0x8000_0000
    → y_max < 0x8000_0000
    → IsWord raw
    → IsPlaced x_max y_max v
    → IsPlaced x_max y_max (update_finger x_max y_max width raw v)
unfolding update_finger
update_finger-IsPlaced x_max y_max width raw v hx hy w h =
    ground (arith, h, clamp_position-le x_max raw.x hx w.0, clamp_position-le y_max raw.y hy w.1)

-- If the pad measures less than 2 ^ 31 and the raw coordinates are 32-bit words, both positions of
-- every touching finger lie on the pad after the loop, when they did before.
pub update_fingers-IsPlaced :
    (x_max y_max width : ℕ) (fs : List Finger) (vs : List VirtualFinger)
    → x_max < 0x8000_0000
    → y_max < 0x8000_0000
    → All IsWord fs
    → All (IsPlaced x_max y_max) vs
    → All (IsPlaced x_max y_max) (update_fingers x_max y_max width fs vs)
unfolding update_fingers
update_fingers-IsPlaced x_max y_max width [] vs hx hy w h = h
update_fingers-IsPlaced x_max y_max width (f ∷ fs) [] hx hy w h = tt
update_fingers-IsPlaced x_max y_max width (f ∷ fs) (v ∷ vs) hx hy w h = (
  update_finger-IsPlaced x_max y_max width f v hx hy w.0 h.0,
  update_fingers-IsPlaced x_max y_max width fs vs hx hy w.1 h.1,
)

-- After the loop a virtual finger touches exactly when its raw finger is down and has a position.
pub update_fingers_touching :
    (x_max y_max width : ℕ) (fs : List Finger) (vs : List VirtualFinger)
    → length vs ≡ length fs
    → map (λ (v : VirtualFinger). v.touching) (update_fingers x_max y_max width fs vs)
      ≡ map is_usable fs
unfolding update_fingers update_finger
update_fingers_touching x_max y_max width [] [] e = refl
update_fingers_touching x_max y_max width [] (v ∷ vs) e = absurd (omega arith)
update_fingers_touching x_max y_max width (f ∷ fs) [] e = absurd (omega arith)
update_fingers_touching x_max y_max width (f ∷ fs) (v ∷ vs) e =
    let rest = update_fingers_touching x_max y_max width fs vs (omega arith) in ground (arith, rest)
