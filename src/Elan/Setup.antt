-- ===== src/Elan/Setup.antt =====
-- Set-up, power and messages of VoodooPS2Trackpad/VoodooPS2Elan.cpp: elantechReadReg and
-- elantechWriteReg, elantechSetAbsoluteMode, elantechSetInputParams, elantechSetupPS2, resetMouse,
-- setTouchPadEnable, message and setDevicePowerState. Waits leave no trace, and the copies of the
-- register values that the driver keeps are never read.
pub mod Power
use voodoo_ps2_focal_tech.Common.{
  ℕ, zero, suc, ◌+◌, ◌*◌, ◌/◌, ◌%◌, ◌^◌, List, [], ◌∷◌, Bool, true, false, not, ◌&&◌, ◌||◌,
  if◌then◌else◌, ◌==◌, ltb, leb, Option, none, some, bit_set, sub32,
}
use voodoo_ps2_focal_tech.Ring.{reset}
use voodoo_ps2_focal_tech.FocalTech.Setup.{Bus, ack}
use voodoo_ps2_focal_tech.Alps.{byte}
use voodoo_ps2_focal_tech.Elan.{Elan, sizes, emit}
use voodoo_ps2_focal_tech.Elan.Check.{setup_parity}
use voodoo_ps2_focal_tech.Elan.Absolute.{physical}
use voodoo_ps2_focal_tech.Elan.Query.{M, bind, ◌>>=◌, ◌>>◌, pure, fail, ps2_command, sliced_command}

-- 0x07 to 0x11 and 0x20 to 0x26.
abbrev pub is_register : ℕ → Bool
is_register reg = leb 0x07 reg && leb reg 0x26 && not (ltb 0x11 reg && ltb reg 0x20)

-- What setProperty publishes of the pad.
unfoldable pub set_input_params : Elan → Elan
set_input_params s =
    let w = sub32 s.info.x_max s.info.x_min in
    let h = sub32 s.info.y_max s.info.y_min in
    emit (sizes w h (physical w s.info.x_res) (physical h s.info.y_res)) s

-- The messages of the keyboard driver; the last one is any other.
pub data Request : Type 0 where
  get_disable_touchpad : Request
  set_disable_touchpad : Bool → Request
  reset_touchpad : ℕ → Request
  notify_key_time : ℕ → Request
  other : Request

module _ (bus : Bus) (port : ℕ) where
  open bus use {State, submit}

  abbrev pub or_else : {A : Type 0} → M State A → Option A × State → Option A × State
  or_else m (none, b) = m b
  or_else m (some a, b) = (some a, b)

  -- An operation that is tried again while it fails, `tries` times in all.
  unfoldable pub retry : {A : Type 0} → ℕ → M State A → M State A
  retry zero m b = (none, b)
  retry (suc tries) m b = or_else (retry tries m) (m b)

  -- elantech_ps2_command.
  unfoldable pub elantech_ps2_command : ℕ → ℕ → M State (List ℕ)
  elantech_ps2_command n command = retry 3 (ps2_command bus port n command)

  abbrev pub custom : ℕ → M State (List ℕ)
  custom v = elantech_ps2_command 0 0xf8 >> elantech_ps2_command 0 v

  abbrev pub read_bytes : ℕ → ℕ → M State (List ℕ)
  read_bytes hw reg =
      if hw == 1
      then sliced_command bus port 0x10
        >> sliced_command bus port reg
        >> ps2_command bus port 3 0xe9
      else if hw == 2
      then custom 0x10 >> custom reg >> elantech_ps2_command 3 0xe9
      else if hw == 3 || hw == 4
      then custom 0x00 >> custom reg >> elantech_ps2_command 3 0xe9
      else pure (0 ∷ 0 ∷ 0 ∷ [])

  unfoldable pub read_reg : ℕ → ℕ → M State ℕ
  read_reg hw reg =
      if is_register reg
      then (do p ← read_bytes hw reg; pure (if hw == 4 then byte p 1 else byte p 0))
      else fail

  abbrev pub write_bytes : ℕ → ℕ → ℕ → M State (List ℕ)
  write_bytes hw reg v =
      if hw == 1
      then sliced_command bus port 0x11
        >> sliced_command bus port reg
        >> sliced_command bus port v
        >> ps2_command bus port 0 0xe6
      else if hw == 2
      then custom 0x11 >> custom reg >> custom v >> elantech_ps2_command 0 0xe6
      else if hw == 3
      then custom 0x00 >> custom reg >> custom v >> elantech_ps2_command 0 0xe6
      else if hw == 4
      then custom 0x00 >> custom reg >> custom 0x00 >> custom v >> elantech_ps2_command 0 0xe6
      else pure []

  unfoldable pub write_reg : ℕ → ℕ → ℕ → M State (List ℕ)
  write_reg hw reg v = if is_register reg then write_bytes hw reg v else fail

  -- Register 0x10 is read back; version 1 must show the absolute mode bit there.
  unfoldable pub read_back : ℕ → M State (List ℕ)
  read_back hw = do
    v ← retry 5 (read_reg hw 0x10)
    if hw == 1 && not (bit_set v 2) then fail else pure []

  unfoldable pub set_absolute_mode : Elan → M State (List ℕ)
  set_absolute_mode s =
      let hw = s.info.hw_version in
      if hw == 1
      then write_reg hw 0x10 0x16 >> write_reg hw 0x11 0x8f >> read_back hw
      else if hw == 2
      then write_reg hw 0x10 0x54
        >> write_reg hw 0x11 0x88
        >> write_reg hw 0x21 0x60
        >> read_back hw
      else if hw == 3
      then write_reg hw 0x10 (if s.info.set_hw_resolution then 0x0b else 0x01) >> read_back hw
      else if hw == 4
      then write_reg hw 0x07 0x01
      else read_back hw

  -- The last request of elantechSetupPS2, with the mouse's sample rate and resolution.
  abbrev pub set_rates : ℕ → ℕ → State → State
  set_rates rate resolution b =
      (submit
        (record {
          port = port;
          commands =
              ack 0xf5 ∷ ack 0xf3 ∷ ack rate ∷ ack 0xe8 ∷ ack resolution ∷ ack 0xe6 ∷ ack 0xf4 ∷ [];
          commands_count = 7;
        })
        b).1

  abbrev pub finish_setup : ℕ → ℕ → Elan → Option (List ℕ) × State → Elan × State
  finish_setup rate resolution s (none, b) = (s, b)
  finish_setup rate resolution s (some _, b) = (set_input_params s, set_rates rate resolution b)

  unfoldable pub setup_ps2 : ℕ → ℕ → Elan → State → Elan × State
  setup_ps2 rate resolution s b =
      let filled = record s { parity = setup_parity s.parity } in
      finish_setup rate resolution filled (set_absolute_mode filled b)

  -- kDP_Reset, whose answer is only logged.
  unfoldable pub reset_mouse : State → State
  reset_mouse b = (ps2_command bus port 2 0xff b).1

  unfoldable pub set_touch_pad_enable : Bool → State → State
  set_touch_pad_enable enable b = (ps2_command bus port 0 (if enable then 0xf4 else 0xf5) b).1

  -- The reset, set-up and enabling that a reset and a wake share.
  unfoldable pub restart : ℕ → ℕ → Elan → State → Elan × State
  restart rate resolution s b =
      let cleared = record s { packet_byte_count = 0; ring = reset s.ring } in
      let (t, b') = setup_ps2 rate resolution cleared (reset_mouse b) in
      (t, set_touch_pad_enable true b')

  -- The answer to a message is there only for the one that asks.
  unfoldable pub message : ℕ → ℕ → Request → Elan → State → Option Bool × Elan × State
  message rate resolution get_disable_touchpad s b = (some (not s.ignoreall), s, b)
  message rate resolution (set_disable_touchpad enable) s b =
      (none, record s { ignoreall = not enable }, b)
  message rate resolution (reset_touchpad code) s b =
      let (t, b') =
        restart rate resolution (record s { ignoreall = false }) (set_touch_pad_enable false b) in
      if code == 1 then (none, t, b') else (none, s, b)
  message rate resolution (notify_key_time ns) s b = (none, record s { keytime = ns }, b)
  message rate resolution other s b = (none, s, b)

  -- kPS2C_EnableDevice or kPS2C_DisableDevice.
  unfoldable pub set_device_power_state : ℕ → ℕ → Bool → Elan → State → Elan × State
  set_device_power_state rate resolution enable s b =
      let (t, b') = restart rate resolution s b in
      if enable then (t, b') else (s, set_touch_pad_enable false b)
