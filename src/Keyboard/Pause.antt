-- ===== src/Keyboard/Pause.antt =====
-- The Pause key: $E1, a byte of no use and the code of the key.
use voodoo_ps2_focal_tech.Common.{
  ℕ, ◌≡◌, ◌≢◌, refl, arith, Bool, true, false, not, ◌==◌, ◌&&◌, ◌||◌,
}
use voodoo_ps2_focal_tech.Keyboard.{Keyboard, interrupt_occurred, packetize}

-- Neither an answer to a command nor the begin of a sequence.
abbrev pub is_code : ℕ → Bool
is_code x = not (x == 0xfa || x == 0xfe || x == 0xe0 || x == 0xe1)

began :
    (time : ℕ) (m : Keyboard)
    → interrupt_occurred time 0xe1 m ≡ (record m { last_data = 0xe1; extend_count = 2 }, false)
unfolding interrupt_occurred
began time m = ground arith

dropped :
    (time y : ℕ) (m : Keyboard)
    → m.extend_count ≡ 2
    → m.last_data ≢ 0xaa
    → is_code y ≡ true
    → interrupt_occurred time y m ≡ (record m { last_data = y; extend_count = 1 }, false)
unfolding interrupt_occurred
dropped time y m two last code = ground (arith, two, last, code)

finished :
    (time z : ℕ) (m : Keyboard)
    → m.extend_count ≡ 1
    → (m.last_data == 0xaa && z == 0) ≡ false
    → is_code z ≡ true
    → interrupt_occurred time z m
      ≡ packetize time 1 z (record m { last_data = z; extend_count = 0 })
unfolding interrupt_occurred
finished time z m one usual code = rw (usual, one) (ground (arith, code))

-- From any state, $E1 and a code buffer nothing, and the code that follows is packetized as one code
-- of the extended set, in the state before the sequence with that code as the last byte. Neither
-- code may answer a command or begin a sequence, and they may not be $AA $00.
pub pause_one_event :
    (t1 t2 t3 y z : ℕ) (m : Keyboard)
    → is_code y ≡ true
    → is_code z ≡ true
    → (y == 0xaa && z == 0) ≡ false
    → let (m1, r1) = interrupt_occurred t1 0xe1 m in
      let (m2, r2) = interrupt_occurred t2 y m1 in
      (r1 ≡ false)
      × (r2 ≡ false)
      × (interrupt_occurred t3 z m2
          ≡ packetize t3 1 z (record m { last_data = z; extend_count = 0 }))
pause_one_event t1 t2 t3 y z m cy cz reset =
    let m1 = record m { last_data = 0xe1; extend_count = 2 } in
    let m2 = record m { last_data = y; extend_count = 1 } in
    rw (began t1 m, dropped t2 y m1 refl (λ e. omega (arith, e)) cy)
      (refl, refl, finished t3 z m2 refl reset cz)
