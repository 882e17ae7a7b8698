-- ===== src/Mouse/Middle.antt =====
-- The fake middle button.
use voodoo_ps2_focal_tech.Common.{
  ℕ, ◌≤◌, ◌<◌, ◌≡◌, ◌≢◌, ◌⊎◌, arith, [], ◌∷◌, ◌++◌, Bool, true, false, inl, inr,
}
use voodoo_ps2_focal_tech.Mouse.{
  ButtonState, no_buttons, middle, wait4two, wait4none, Source, from_mouse, Mouse, pointer, sub64,
  transition, reported, middle_button,
}

abbrev pub is_waiting : ButtonState → Bool
is_waiting wait4two = true
is_waiting wait4none = true
is_waiting _ = false

-- Between two calls the timer runs exactly while the machine waits, and there are pending buttons
-- exactly then.
pub record IsMiddle (m : Mouse) : Type 0 where
  pub timed : m.button_timer ≡ is_waiting m.button_state
  pub pending : is_waiting m.button_state ≡ true → m.pending_buttons ≢ 0
  pub settled : is_waiting m.button_state ≡ false → m.pending_buttons ≡ 0

-- After every call, from the mouse or from the timer, the timer runs exactly while the machine
-- waits, and there are pending buttons exactly then, if that held before the call.
pub transition-IsMiddle :
    (buttons now : ℕ) (from : Source) (m : Mouse)
    → IsMiddle m
    → IsMiddle (transition m.button_state buttons now from m)
unfolding transition
transition-IsMiddle buttons now from m h = ground arith

-- When all buttons are up, the machine comes to rest from every state, reports no button and has
-- stopped its timer.
pub middle_button_released :
    (now : ℕ) (from : Source) (m : Mouse)
    → IsMiddle m
    → m.fake_middle_button ≡ true
    → 2 < m.button_count
    → ((middle_button 0 now from m).0 ≡ 0)
      × ((middle_button 0 now from m).1.button_state ≡ no_buttons)
      × ((middle_button 0 now from m).1.button_timer ≡ false)
unfolding middle_button transition reported
middle_button_released now from m h f n = ground (arith, h)

-- A left or right button that is followed by the other one within the click time: the first call reports
-- no button, the second the middle button only, and neither call sends a message of its own.
pub middle_button_chord :
    (button now later : ℕ) (m : Mouse)
    → (button ≡ 1) ⊎ (button ≡ 2)
    → m.fake_middle_button ≡ true
    → 2 < m.button_count
    → m.button_state ≡ no_buttons
    → sub64 later now ≤ m.max_middle_click_time
    → let (first, m1) = middle_button button now from_mouse m in
      let (second, m2) = middle_button 3 later from_mouse m1 in
      (first ≡ 0) × (second ≡ 4) × (m2.button_state ≡ middle) × (m2.log ≡ m.log)
unfolding middle_button transition reported
middle_button_chord button now later m b f n s t = ground arith

-- A left or right button that is pressed and released is never lost: the release sends the delayed
-- press on, however fast it comes, and the machine rests.
pub middle_button_click :
    (button now later : ℕ) (m : Mouse)
    → (button ≡ 1) ⊎ (button ≡ 2)
    → m.fake_middle_button ≡ true
    → 2 < m.button_count
    → m.button_state ≡ no_buttons
    → let (first, m1) = middle_button button now from_mouse m in
      let (second, m2) = middle_button 0 later from_mouse m1 in
      (first ≡ 0)
      × (second ≡ 0)
      × (m2.button_state ≡ no_buttons)
      × (m2.log ≡ m.log ++ pointer 0 0 button ∷ [])
unfolding middle_button transition reported
middle_button_click button now later m (inl e) f n s = rw e (ground arith)
middle_button_click button now later m (inr e) f n s = rw e (ground arith)
