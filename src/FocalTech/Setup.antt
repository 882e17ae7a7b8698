-- ===== src/FocalTech/Setup.antt =====
-- Detection, set-up and power (FocalTech/Source/VoodooPS2FocalTech.part00.inc to part03.inc): the
-- requests that the driver submits and what it makes of the answers. The controller and the
-- registry are a `Bus`, with what the driver calls of them; `Controller.Request` implements the
-- requests. Locks and waits leave no trace but the wait after a wake.
pub mod Detect
pub mod Fresh
use voodoo_ps2_focal_tech.Common.{
  ℕ, zero, suc, ◌+◌, ◌*◌, List, [], ◌∷◌, Bool, ◌&&◌, ◌||◌, true, false, not, leb, ◌==◌,
  if◌then◌else◌, Option, none, some, get_or, replicate, u32,
}
use voodoo_ps2_focal_tech.Ring.{reset}
use voodoo_ps2_focal_tech.Controller.Request.{
  Command, Request, read_data, send_command_and_compare_ack, flush_data,
}
use voodoo_ps2_focal_tech.FocalTech.{
  Driver, no_hardware, no_virtual_finger, emit, publish_input, sleep_ms, wake_delay_ms,
}
use voodoo_ps2_focal_tech.FocalTech.Click.{cancel_timer}
use voodoo_ps2_focal_tech.FocalTech.Stream.{publish_runtime_diagnostics}

-- submitRequestAndBlock, setCommandByte and the count of AUX nubs below the controller.
pub record Bus : Type 1 where
  pub State : Type 0
  pub submit : Request → State → Request × State
  pub set_command_byte : ℕ → ℕ → State → State
  pub aux_nubs : State → ℕ
  pub has_controller : State → Bool

abbrev pub blank : Command
blank = record { kind = read_data; in_or_out = 0; set_bits = 0; clear_bits = 0; old_bits = 0 }

abbrev pub ack : ℕ → Command
ack code = record blank { kind = send_command_and_compare_ack; in_or_out = code }

abbrev pub flush : Command
flush = record blank { kind = flush_data }

abbrev pub in_or_out_at : ℕ → Request → ℕ
in_or_out_at k r = (get_or r.commands k blank).in_or_out

-- The requests, in the order of the source. kDP_SetDefaultsAndDisable is 0xf5, kDP_Enable 0xf4,
-- kDP_Reset 0xff, kDP_SetMouseScaling1To1 0xe6, kDP_GetMouseInformation 0xe9 and
-- kDP_SetMouseResolution 0xe8; FOC_PS2_CUSTOM_COMMAND is 0xf8.
abbrev pub disable_commands : List Command
disable_commands = ack 0xf5 ∷ []

abbrev pub signature_commands : List Command
signature_commands = ack 0xe6 ∷ ack 0xe6 ∷ ack 0xe6 ∷ ack 0xe9 ∷ blank ∷ blank ∷ blank ∷ []

abbrev pub reset_commands : List Command
reset_commands = ack 0xff ∷ blank ∷ blank ∷ []

abbrev pub select_commands : ℕ → List Command
select_commands reg =
    ack 0xe6 ∷ ack 0xe8 ∷ ack 0 ∷ ack 0xe8 ∷ ack 0 ∷ ack 0xe8 ∷ ack 0 ∷ ack 0xe8 ∷ ack reg ∷ []

abbrev pub info_commands : List Command
info_commands = ack 0xe9 ∷ blank ∷ blank ∷ blank ∷ []

abbrev pub native_commands : List Command
native_commands =
    ack 0xf8 ∷ ack 0 ∷ ack 0xf8 ∷ ack 0 ∷ ack 0xf8 ∷ ack 0 ∷ ack 0xf8 ∷ ack 1 ∷ ack 0xe6 ∷ []

abbrev pub may_use_legacy_fallback : Driver → Bool
may_use_legacy_fallback s = leb s.aux_nub_count 1

abbrev pub store_dimensions : Option (ℕ × ℕ × ℕ) → Driver → Bool × Driver
store_dimensions none s = (false, s)
store_dimensions (some (p0, p1, p2)) s =
    let sized = record s { x_max = u32 (p1 * 128); y_max = u32 (p2 * 128) } in
    (leb 128 sized.x_max && leb 128 sized.y_max, sized)

unfoldable pub publish_input_properties : Driver → Driver
publish_input_properties s = record (emit (publish_input s.x_max s.y_max) s) {
  input_published = true;
}

-- The first half of setupHardware: everything that a packet left is forgotten.
unfoldable pub clear_state : Driver → Driver
clear_state s = cancel_timer (record s {
  hardware = no_hardware;
  fingers = replicate 5 no_virtual_finger;
  packet_byte_count = 0;
  ring = reset s.ring;
  irq_byte_count = 0;
  packet_count = 0;
  valid_packet_count = 0;
  invalid_packet_count = 0;
  left_button = 0;
  right_button = 0;
  last_buttons = 0;
  click_was_pressed = false;
  click_right = false;
  force_eligible = false;
  force_active = false;
  force_finger = none;
})

module _ (bus : Bus) where
  open bus use {State, submit, set_command_byte, aux_nubs, has_controller}

  -- A request for a port, and whether all of its `n` commands were carried out.
  abbrev pub request : ℕ → ℕ → List Command → State → Request × State
  request port n ms b = submit (record { port = port; commands = ms; commands_count = n }) b

  abbrev pub is_done : ℕ → Request × State → Bool
  is_done n (r, b) = r.commands_count == n

  abbrev pub is_signature : Request → Bool
  is_signature r =
      in_or_out_at 4 r == 0x3c
      && in_or_out_at 5 r == 0xf0
      && (in_or_out_at 6 r == 0xc8 || in_or_out_at 6 r == 0x00)

  unfoldable pub detect_focaltech : Driver → State → Bool × State
  detect_focaltech s b =
      let disabled = request s.provider_port 1 disable_commands b in
      let asked = request s.provider_port 7 signature_commands disabled.1 in
      if not s.has_device
      then (false, b)
      else if not (is_done 1 disabled)
      then (false, disabled.1)
      else if not (is_done 7 asked)
      then (false, asked.1)
      else (is_signature asked.0, asked.1)

  -- The count of AUX nubs, 0 without a device or a controller.
  unfoldable pub count_aux_nubs : Driver → State → ℕ
  count_aux_nubs s b =
      if not s.has_device then 0 else if not (has_controller b) then 0 else aux_nubs b

  -- kCB_EnableMouseIRQ | kCB_DisableMouseClock is 0x22.
  unfoldable pub prepare_legacy_controller_state : Driver → State → Bool × State
  prepare_legacy_controller_state s b =
      let b0 = set_command_byte 0 0x22 b in
      let keyboard_disabled = request 0 1 disable_commands b0 in
      let aux_disabled = request s.provider_port 1 disable_commands keyboard_disabled.1 in
      let flushed = request s.provider_port 1 (flush ∷ []) aux_disabled.1 in
      let keyboard_reset = request 0 1 (ack 0xff ∷ []) flushed.1 in
      let flushed_again = request s.provider_port 1 (flush ∷ []) keyboard_reset.1 in
      let keyboard_enabled = request 0 1 (ack 0xf4 ∷ []) flushed_again.1 in
      if not s.has_device || not (has_controller b) then (false, b) else (
        is_done 1 keyboard_disabled
            && is_done 1 aux_disabled
            && is_done 1 keyboard_reset
            && is_done 1 keyboard_enabled,
        set_command_byte 0 0x22 keyboard_enabled.1,
      )

  -- The two attempts of probe and of a wake: directly, then through the legacy sequence.
  unfoldable pub detect_with_fallback : Driver → State → Bool × Driver × State
  detect_with_fallback s b =
      let s0 = record s { legacy_compatibility_path = false } in
      let (direct, b1) = detect_focaltech s0 b in
      let (prepared, b2) = prepare_legacy_controller_state s0 b1 in
      let legacy = record s0 { legacy_compatibility_path = true } in
      let (again, b3) = detect_focaltech legacy b2 in
      if direct || not (may_use_legacy_fallback s0)
      then (direct, s0, b1)
      else if prepared
      then (again, legacy, b3)
      else (false, s0, b2)

  -- kSC_Reset is 0xaa, kSC_ID 0.
  unfoldable pub reset_device : Driver → State → Bool × State
  reset_device s b =
      let r = request s.provider_port 3 reset_commands b in
      if not s.has_device
      then (false, b)
      else (is_done 3 r && in_or_out_at 1 (r.0) == 0xaa && in_or_out_at 2 (r.0) == 0, r.1)

  -- The three bytes of a register, or none.
  unfoldable pub read_register : ℕ → Driver → State → Option (ℕ × ℕ × ℕ) × State
  read_register reg s b =
      let selected = request s.provider_port 9 (select_commands reg) b in
      let info = request s.provider_port 4 info_commands selected.1 in
      if not s.has_device
      then (none, b)
      else if not (is_done 9 selected)
      then (none, selected.1)
      else if not (is_done 4 info)
      then (none, info.1)
      else (
        some (in_or_out_at 1 (info.0), in_or_out_at 2 (info.0), in_or_out_at 3 (info.0)),
        info.1,
      )

  unfoldable pub read_dimensions : Driver → State → Bool × Driver × State
  read_dimensions s b =
      let (param, b') = read_register 2 s b in
      let (fine, s') = store_dimensions param s in (fine, s', b')

  unfoldable pub switch_to_native_protocol : Driver → State → Bool × State
  switch_to_native_protocol s b =
      let r = request s.provider_port 9 native_commands b in (is_done 9 r, r.1)

  unfoldable pub setup_hardware : Bool → Driver → State → Bool × Driver × State
  setup_hardware publish s b =
      let s0 = clear_state s in
      let was_reset = reset_device s0 b in
      let b1 = if s0.legacy_compatibility_path then b else was_reset.1 in
      let sized = read_dimensions s0 b1 in
      let native = switch_to_native_protocol sized.1 sized.2 in
      if not s0.legacy_compatibility_path && not was_reset.0
      then (false, s0, was_reset.1)
      else if not sized.0
      then (false, sized.1, sized.2)
      else if not native.0
      then (false, sized.1, native.1)
      else (
        true,
        if publish && not sized.1.input_published
            then publish_input_properties sized.1
            else sized.1,
        native.1,
      )

  unfoldable pub set_touchpad_enable : Bool → Driver → State → State
  set_touchpad_enable enable s b =
      if not s.has_device
      then b
      else (request s.provider_port 1 (ack (if enable then 0xf4 else 0xf5) ∷ []) b).1

  -- probe, on a provider that is a mouse device at `port`.
  unfoldable pub probe : ℕ → Driver → State → Bool × Driver × State
  probe port s b =
      let s0 = record s { has_device = true; provider_port = port } in
      let s1 = record s0 { aux_nub_count = count_aux_nubs s0 b } in
      let (detected, s2, b') = detect_with_fallback s1 b in
      let published = if detected then publish_runtime_diagnostics none s2 else s2 in
      (detected, record published { has_device = false }, b')

  -- setDevicePowerState: kPS2C_DisableDevice is 0, kPS2C_EnableDevice is 1.
  unfoldable pub disable_device : Driver → State → Driver × State
  disable_device s b =
      let s' = record (cancel_timer s) { force_eligible = false; force_active = false } in
      (s', set_touchpad_enable false s' b)

  unfoldable pub wake_device : Driver → State → Driver × State
  wake_device s b =
      let slept = emit (sleep_ms wake_delay_ms) s in
      let (detected, s2, b2) =
        detect_with_fallback (record slept { aux_nub_count = count_aux_nubs slept b }) b in
      let (configured, s3, b3) = setup_hardware false s2 b2 in
      if not detected
      then (s2, b2)
      else if configured
      then (s3, set_touchpad_enable true s3 b3)
      else (s3, b3)

  unfoldable pub set_device_power_state : ℕ → Driver → State → Driver × State
  set_device_power_state what s b =
      if not s.has_device
      then (s, b)
      else if what == 0
      then disable_device s b
      else if what == 1
      then wake_device s b
      else (s, b)
