-- ===== src/Controller/Request.antt =====
-- `processRequest` and `setCommandByteGated` (VoodooPS2Controller/VoodooPS2Controller.cpp), over the
-- commands of VoodooPS2Controller/ApplePS2Device.h. The members of the command's union are fields
-- of their own.
pub mod Outcome
use voodoo_ps2_focal_tech.Common.{
  ℕ, zero, suc, ◌+◌, ◌-◌, List, [], ◌∷◌, Bool, ◌&&◌, true, false, not, leb, ◌==◌, if◌then◌else◌,
  Option, none, some, bit_and, bit_or, u8, bit_set, u32,
}
use voodoo_ps2_focal_tech.Controller.{
  Poll, idle, ready, Controller, kbd_port, aux_port, read_data_port, expect_data_port,
  write_data_port, write_command_port, rest_of,
}

pub data CommandKind : Type 0 where
  read_data read_data_and_compare write_data send_command_and_compare_ack flush_data sleep_ms
        modify_command_byte :
      CommandKind

pub record Command : Type 0 where
  pub kind : CommandKind
  pub in_or_out : ℕ
  pub set_bits : ℕ
  pub clear_bits : ℕ
  pub old_bits : ℕ

pub record Request : Type 0 where
  pub port : ℕ
  pub commands : List Command
  pub commands_count : ℕ

-- kSC_Acknowledge and the commands of the command port.
abbrev pub acknowledge : ℕ
acknowledge = 0xfa

abbrev pub get_command_byte : ℕ
get_command_byte = 0x20

abbrev pub set_command_byte_code : ℕ
set_command_byte_code = 0x60

abbrev pub transmit_to_muxed_mouse : ℕ
transmit_to_muxed_mouse = 0x90

abbrev pub transmit_to_mouse : ℕ
transmit_to_mouse = 0xd4

-- A command and whether it failed, with the controller after it.
pub record Executed : Type 0 where
  pub command : Command
  pub failed : Bool
  pub state : Controller

-- The prefix that sends the next data byte to an AUX port.
unfoldable pub route : ℕ → Controller → Controller
route port c =
    if leb aux_port port
    then (if c.mux_present
        then write_command_port (transmit_to_muxed_mouse + (port - aux_port)) c
        else write_command_port transmit_to_mouse c)
    else c

-- `while (inb(kCommandPort) & kOutputReady)`: the bytes that are ready are dropped and counted.
unfoldable pub flush_loop : ℕ → List Poll → Controller → ℕ × Controller
flush_loop n [] c = (n, rest_of [] c)
flush_loop n (idle ∷ ps) c = (n, rest_of ps c)
flush_loop n (ready status byte ∷ ps) c = flush_loop (u32 (n + 1)) ps c

abbrev pub merge_command_byte : ℕ → ℕ → ℕ → ℕ
merge_command_byte old set clear = bit_and (bit_or old set) (255 - clear)

unfoldable pub execute : CommandKind → ℕ → Command → Controller → Executed
execute read_data port m c =
    let (byte, c') = read_data_port port c in
    record { command = record m { in_or_out = byte }; failed = false; state = c' }
execute read_data_and_compare port m c =
    let (byte, c') = expect_data_port port m.in_or_out c in
    record {
      command = record m { in_or_out = byte };
      failed = not (byte == m.in_or_out);
      state = c';
    }
execute write_data port m c = record {
  command = m;
  failed = false;
  state = write_data_port m.in_or_out (route port c);
}
execute send_command_and_compare_ack port m c =
    let (byte, c') =
      expect_data_port port acknowledge (write_data_port m.in_or_out (route port c)) in
    record { command = m; failed = not (byte == acknowledge); state = c' }
execute flush_data port m c =
    let (n, c') = flush_loop 0 c.polls c in
    record { command = record m { in_or_out = n }; failed = false; state = c' }
execute sleep_ms port m c = record { command = m; failed = false; state = c }
execute modify_command_byte port m c =
    let (old, c') = read_data_port kbd_port (write_command_port get_command_byte c) in
    record {
      command = record m { old_bits = old };
      failed = false;
      state =
          write_data_port (merge_command_byte old m.set_bits m.clear_bits)
            (write_command_port set_command_byte_code c');
    }

-- What the loop leaves: the commands, the index that failed, and the controller.
pub record Processed : Type 0 where
  pub commands : List Command
  pub failed_at : Option ℕ
  pub state : Controller

abbrev pub cons_command : Command → Processed → Processed
cons_command m p = record p { commands = m ∷ p.commands }

-- `for (index = 0; index < commandsCount; index++)`, with the commands that are left.
unfoldable pub process_loop : ℕ → ℕ → ℕ → List Command → Controller → Processed
process_loop port index zero ms c = record { commands = ms; failed_at = none; state = c }
process_loop port index (suc n) [] c = record { commands = []; failed_at = none; state = c }
process_loop port index (suc n) (m ∷ ms) c =
    let e = execute m.kind port m c in
    let rest = process_loop port (suc index) n ms e.state in
    if e.failed
    then record { commands = e.command ∷ ms; failed_at = some index; state = e.state }
    else cons_command e.command rest

abbrev pub final_count : Option ℕ → ℕ → ℕ
final_count none n = n
final_count (some i) n = i

unfoldable pub process_request : Request → Controller → Request × Controller
process_request r c =
    let p =
      process_loop r.port 0 r.commands_count r.commands
        (record c { ignore_interrupts = c.ignore_interrupts + 1 }) in
    if c.hardware_offline then (record r { commands_count = 0 }, c) else (
      record r { commands = p.commands; commands_count = final_count p.failed_at r.commands_count },
      record (p.state) { ignore_interrupts = p.state.ignore_interrupts - 1 },
    )

-- setCommandByteGated: the new byte is written only if it differs. The result is the old byte.
unfoldable pub set_command_byte : ℕ → ℕ → Controller → ℕ × Controller
set_command_byte set clear c =
    let asked =
      write_command_port get_command_byte
        (record c { ignore_interrupts = c.ignore_interrupts + 1 }) in
    let (old, c') = read_data_port kbd_port asked in
    let read = record c' { ignore_interrupts = c'.ignore_interrupts - 1 } in
    let new = merge_command_byte old set clear in
    if old == new
    then (old, read)
    else (old, write_data_port new (write_command_port set_command_byte_code read))
