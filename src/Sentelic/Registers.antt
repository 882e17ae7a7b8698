-- ===== src/Sentelic/Registers.antt =====
-- The registers of the pad (fsp_reg_read to fsp_intellimouse_mode of
-- VoodooPS2Trackpad/VoodooPS2SentelicFSP.cpp). Requests go through the controller of the bus. A command
-- is a byte, so a mangled number is cut to eight bits.
pub mod Mangle
use voodoo_ps2_focal_tech.Common.{
  ℕ, ◌+◌, ◌-◌, ◌*◌, ◌/◌, ◌%◌, List, [], ◌∷◌, Bool, true, false, ◌||◌, if◌then◌else◌, ◌==◌, set_bit,
  clear_bit, u8,
}
use voodoo_ps2_focal_tech.Controller.Request.{
  Command, Request, read_data, write_data, send_command_and_compare_ack,
}
use voodoo_ps2_focal_tech.FocalTech.Setup.{Bus, blank, ack, in_or_out_at}
use voodoo_ps2_focal_tech.Sentelic.{Sentelic}

-- The reserved numbers of the two kinds.
abbrev pub is_rate : ℕ → Bool
is_rate v = v == 10 || v == 20 || v == 40 || v == 60 || v == 80 || v == 100 || v == 200

abbrev pub is_command : ℕ → Bool
is_command v = v == 0xe9 || v == 0xee || v == 0xf2 || v == 0xff

-- (v >> 4) | (v << 4), and ~v, as bytes.
abbrev pub swap_nibbles : ℕ → ℕ
swap_nibbles v = u8 (v / 16 + v * 16)

unfoldable pub mangle : ℕ → ℕ
mangle v = if is_rate v then swap_nibbles v else if is_command v then 255 - v else v

-- The selector says how a number is mangled: the plain one, the one for swapped nibbles, and the one
-- for an inverted number.
unfoldable pub select : ℕ → ℕ → ℕ → ℕ → ℕ
select plain swapped inverted v =
    if is_rate v then swapped else if is_command v then inverted else plain

module _ (bus : Bus) (port : ℕ) where
  open bus use {State, submit}

  abbrev pub write : ℕ → Command
  write command = record blank { kind = write_data; in_or_out = u8 command }

  -- fsp_ps2_command; no caller uses its result.
  unfoldable pub ps2_command : ℕ → State → State
  ps2_command command b =
      (submit (record { port = port; commands = write command ∷ blank ∷ []; commands_count = 2 })
        b).1

  -- -1 if a command of the request failed.
  unfoldable pub get_information : State → ℕ × State
  get_information b =
      let (r, b') =
        submit
          (record {
            port = port;
            commands = ack 0xe9 ∷ blank ∷ blank ∷ blank ∷ [];
            commands_count = 4;
          })
          b in
      (if r.commands_count == 4 then in_or_out_at 3 r else 0xffff_ffff, b')

  unfoldable pub reg_read : ℕ → State → ℕ × State
  reg_read reg b = get_information (
      ps2_command (mangle reg) (
        ps2_command (select 0x66 0xcc 0x68 reg)
          (ps2_command 0xf3 (ps2_command 0x88 (ps2_command 0x66 (ps2_command 0xf3 b))))))

  unfoldable pub reg_write : ℕ → ℕ → State → State
  reg_write reg v b =
      let selected =
        ps2_command (mangle reg) (ps2_command (select 0x55 0x77 0x74 reg) (ps2_command 0xf3 b)) in
      ps2_command (mangle v) (ps2_command (select 0x33 0x44 0x47 v) (ps2_command 0xf3 selected))

  -- FSP_REG_SYSCTL1 and FSP_BIT_EN_REG_CLK.
  unfoldable pub write_enable : Bool → State → State
  write_enable enable b =
      let (wen, b') = reg_read 0x10 b in
      reg_write 0x10 (if enable then set_bit wen 5 else clear_bit wen 5) b'

  -- FSP_REG_OPC_QDOWN and FSP_BIT_EN_OPC_TAG.
  unfoldable pub opctag_enable : Bool → State → State
  opctag_enable enable b =
      let (opc, b') = reg_read 0x31 (write_enable true b) in
      write_enable false (reg_write 0x31 (if enable then set_bit opc 7 else clear_bit opc 7) b')

  unfoldable pub intellimouse_mode : State → ℕ × State
  intellimouse_mode b =
      let (r, b') =
        submit
          (record {
            port = port;
            commands =
                ack 0xf3 ∷ ack 200 ∷ ack 0xf3 ∷ ack 200 ∷ ack 0xf3 ∷ ack 80 ∷ ack 0xf2 ∷ blank ∷ [];
            commands_count = 8;
          })
          b in
      (in_or_out_at 7 r, b')

  -- kDP_Enable is 0xf4, kDP_SetDefaultsAndDisable 0xf5.
  unfoldable pub set_touch_pad_enable : Bool → Sentelic → State → Sentelic × State
  set_touch_pad_enable enable s b =
      let asked =
        (submit
          (record {
            port = port;
            commands = ack (if enable then 0xf4 else 0xf5) ∷ [];
            commands_count = 1;
          })
          b).1 in
      let (id, b') = intellimouse_mode (opctag_enable true asked) in
      (if id == 4 then record s { packet_size = 4 } else s, b')
