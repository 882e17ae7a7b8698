-- ===== src/FocalTech/Click.antt =====
-- The click and long-press logic of `reportState` (FocalTech/Source/VoodooPS2FocalTech.part03.inc
-- and part04.inc): which finger clicked, whether the click is a right click, and whether a held
-- click may still become a force click.
pub mod Search
pub mod Zone
use voodoo_ps2_focal_tech.Common.{
  ℕ, suc, ◌+◌, ◌*◌, ◌/◌, List, [], ◌∷◌, Bool, ◌&&◌, ◌||◌, false, true, not, ltb, leb, if◌then◌else◌,
  Option, none, some, get_or, u32, sub32, neg32, is_neg32, lt_signed32,
}
use voodoo_ps2_focal_tech.FocalTech.{
  Finger, no_finger, Driver, emit, cancel_timeout, set_timeout_ms, force_hold_ms, force_move_cancel,
  max_fingers,
}

-- `if (v < 0) v = 0; if (v > (SInt32)max) v = max;`
unfoldable pub clamp_position : ℕ → ℕ → ℕ
clamp_position max v =
    let v' = if is_neg32 v then 0 else v in if lt_signed32 max v' then max else v'

-- `!(!raw.active || !raw.valid)`
abbrev pub is_usable : Finger → Bool
is_usable f = f.active && f.valid

-- The variables of the loop that looks for the clicking finger; `none` is -1.
pub record ClickSearch : Type 0 where
  pub found : Bool
  pub click_x : ℕ
  pub click_y : ℕ
  pub click_finger : Option ℕ

unfoldable pub consider : ℕ → ℕ → ℕ → Finger → ClickSearch → ClickSearch
consider x_max y_max i f c =
    let vx = clamp_position x_max f.x in
    let vy = sub32 y_max (clamp_position y_max f.y) in
    if is_usable f && (not c.found || ltb c.click_y vy)
    then record { found = true; click_x = vx; click_y = vy; click_finger = some i }
    else c

unfoldable pub click_search : ℕ → ℕ → ℕ → ClickSearch → List Finger → ClickSearch
click_search x_max y_max i c [] = c
click_search x_max y_max i c (f ∷ fs) =
    click_search x_max y_max (suc i) (consider x_max y_max i f c) fs

abbrev pub no_click : ClickSearch
no_click = record { found = false; click_x = 0; click_y = 0; click_finger = none }

unfoldable pub find_click : Driver → ClickSearch
find_click s = click_search s.x_max s.y_max 0 no_click s.hardware.fingers

-- The lower 30 % of the pad, in its right half.
unfoldable pub in_right_zone : ℕ → ℕ → ClickSearch → Bool
in_right_zone x_max y_max c =
    c.found && leb (u32 (y_max * 70) / 100) c.click_y && leb (x_max / 2) c.click_x

abbrev pub cancel_timer : Driver → Driver
cancel_timer s = if s.has_force_timer then emit cancel_timeout s else s

abbrev pub arm : ℕ → Driver → Driver
arm i s =
    let raw = get_or s.hardware.fingers i no_finger in
    emit (set_timeout_ms force_hold_ms) (record s {
      force_finger = some i;
      force_start_x = raw.x;
      force_start_y = raw.y;
      force_eligible = true;
    })

abbrev pub arm_if : Bool → Option ℕ → Driver → Driver
arm_if right none s = s
arm_if right (some i) s = if not right && s.has_force_timer then arm i s else s

-- The click begins: `_hardware.pressed && !_clickWasPressed`.
unfoldable pub begin_click : Driver → Driver
begin_click s =
    let c = find_click s in
    let right = in_right_zone s.x_max s.y_max c in
    let cleared = cancel_timer (record s {
      click_right = right;
      force_eligible = false;
      force_active = false;
      force_finger = none;
    }) in
    let armed = arm_if right c.click_finger cleared in record armed { click_was_pressed = true }

-- The pad is not pressed.
unfoldable pub end_click : Driver → Driver
end_click s =
    let cancelled = cancel_timer s in
    record cancelled {
      force_eligible = false;
      force_active = false;
      force_finger = none;
      click_was_pressed = false;
      click_right = false;
    }

unfoldable pub update_click : Driver → Driver
update_click s =
    if s.hardware.pressed && not s.click_was_pressed
    then begin_click s
    else (if not s.hardware.pressed then end_click s else s)

-- The finger has moved further than kForceMoveCancel in x or y since the click began.
abbrev pub distance : ℕ → ℕ → ℕ
distance a b = let d = sub32 a b in if is_neg32 d then neg32 d else d

unfoldable pub has_moved : ℕ → ℕ → Finger → Bool
has_moved start_x start_y f =
    lt_signed32 force_move_cancel (distance f.x start_x)
    || lt_signed32 force_move_cancel (distance f.y start_y)

-- A click that is waiting for its timer gives up when its finger leaves or moves.
abbrev pub cancel_force : Driver → Driver
cancel_force s = cancel_timer (record s { force_eligible = false })

abbrev pub recheck_finger : ℕ → Driver → Driver
recheck_finger i s =
    let raw = get_or s.hardware.fingers i no_finger in
    if not (is_usable raw)
    then cancel_force s
    else (if has_moved s.force_start_x s.force_start_y raw then cancel_force s else s)

abbrev pub recheck_at : Option ℕ → Driver → Driver
recheck_at none s = s
recheck_at (some i) s = if ltb i max_fingers then recheck_finger i s else s

unfoldable pub recheck_force : Driver → Driver
recheck_force s =
    if s.force_eligible && not s.force_active && s.hardware.pressed
    then recheck_at s.force_finger s
    else s
