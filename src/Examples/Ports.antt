-- ===== src/Examples/Ports.antt =====
-- Runs of the ring buffer, the controller, and the mouse.
use voodoo_ps2_focal_tech.Common.{
  ◌<◌, ℕ, ◌+◌, ◌≤◌, ◌≡◌, inl, inr, refl, arith, [], ◌∷◌, ◌++◌, true, false, get_or, replicate, u32,
  neg32, ◌*◌,
}
use voodoo_ps2_focal_tech.Ring.{
  Ring, IsRing, push, count, count_between, advance_head, advance_tail,
}
use voodoo_ps2_focal_tech.Ring.Window.{window}
use voodoo_ps2_focal_tech.Ring.Queue.{contents, enqueue, contents-push, contents-advance}
use voodoo_ps2_focal_tech.Controller.{
  port_from_status, expect_loop, match_byte, Controller, idle, ready, expect_data_port,
}
use voodoo_ps2_focal_tech.Controller.Read.{
  on_port, same, tally_dispatched, tally_polls, expect_data_port_conserves,
}
use voodoo_ps2_focal_tech.Controller.Request.{
  Request, Command, process_request, process_loop, execute, route, send_command_and_compare_ack,
}
use voodoo_ps2_focal_tech.Controller.Request.Outcome.{process_request_lem}
use voodoo_ps2_focal_tech.Mouse.{
  Mouse, pointer, no_buttons, middle, wait4two, from_mouse, middle_button, dispatch_packet, send,
}
use voodoo_ps2_focal_tech.Mouse.Middle.{IsMiddle, middle_button_chord}
use voodoo_ps2_focal_tech.Mouse.Motion.{encode_packet, dispatch_packet-encode_packet}
use voodoo_ps2_focal_tech.Mouse.Bytes.{IsStream}

-- Three of four cells in use at most; here two bytes that wrap around.
abbrev wrapped : Ring
wrapped = record { cells = 20 ∷ 0 ∷ 0 ∷ 10 ∷ []; head = 1; tail = 3 }

wrapped-IsRing : IsRing 4 wrapped
wrapped-IsRing = record {
  size = refl;
  small = omega arith;
  head_in = omega arith;
  tail_in = omega arith;
}

count_wrapped : count 4 wrapped ≡ 2
unfolding count count_between
count_wrapped = refl

contents-push_example : contents 4 (push 4 30 wrapped) ≡ enqueue 4 30 (contents 4 wrapped)
contents-push_example = contents-push 4 30 wrapped wrapped-IsRing

contents-advance_example :
    (count 4 wrapped + 1 < 4
      → contents 4 (advance_head 4 1 wrapped)
        ≡ contents 4 wrapped ++ window 4 wrapped.cells 1 wrapped.head)
    × (4 ≤ count 4 wrapped + 1 → 0 < 1 → advance_head 4 1 wrapped ≡ wrapped)
    × (1 ≤ count 4 wrapped
        → contents 4 wrapped
          ≡ window 4 wrapped.cells 1 wrapped.tail ++ contents 4 (advance_tail 4 1 wrapped))
contents-advance_example = contents-advance 4 1 wrapped wrapped-IsRing (omega arith)

-- A key and two mouse bytes arrive.
abbrev busy : Controller
busy = record {
  mux_present = false;
  hardware_offline = false;
  suppress_timeout = false;
  ignore_interrupts = 0;
  ignore_out_of_order = 0;
  interrupt_installed_keyboard = true;
  interrupt_installed_mouse = 1;
  polls = idle ∷ ready 0x01 0x1c ∷ ready 0x21 0x08 ∷ idle ∷ ready 0x21 0xfa ∷ [];
  written = [];
  dispatched = [];
}

mouse_bytes : on_port false 1 busy.polls ≡ 0x08 ∷ 0xfa ∷ []
unfolding port_from_status
mouse_bytes = refl

expect_data_port_conserves_example :
    let (result, c') = expect_data_port 1 0xfa busy in
    tally_dispatched 0 0x1c c'.dispatched + same 0 0x1c 1 result + tally_polls false 0 0x1c c'.polls
    ≡ tally_dispatched 0 0x1c busy.dispatched + tally_polls false 0 0x1c busy.polls
expect_data_port_conserves_example =
    expect_data_port_conserves 0 0x1c 1 0xfa 0x08 (0xfa ∷ []) busy refl (omega arith) mouse_bytes

abbrev sending : ℕ → Command
sending code = record {
  kind = send_command_and_compare_ack;
  in_or_out = code;
  set_bits = 0;
  clear_bits = 0;
  old_bits = 0;
}

abbrev enabling : Request
enabling = record { port = 1; commands = sending 0xf5 ∷ sending 0xf4 ∷ []; commands_count = 2 }

-- The device does not answer.
abbrev silent : Controller
silent = record busy { polls = [] }

stopped : (process_request enabling silent).0.commands_count ≡ 0
unfolding process_request process_loop execute route expect_data_port expect_loop match_byte
stopped = refl

process_request_lem_example :
    let (r', c') = process_request enabling silent in
    (r'.commands_count ≤ 2)
    × (c'.ignore_interrupts ≡ 0)
    × (r'.commands_count < 2
        → r'.commands_count < 1
        → get_or r'.commands 1 (sending 0) ≡ get_or enabling.commands 1 (sending 0))
process_request_lem_example = process_request_lem enabling silent 1 (sending 0)

abbrev mouse : Mouse
mouse = record {
  fake_middle_button = true;
  button_count = 3;
  max_middle_click_time = 100;
  mouse_y_inverter = 1;
  scroll_y_inverter = 1;
  is_explorer = false;
  packet_length = 3;
  button_state = no_buttons;
  pending_buttons = 0;
  button_time = 0;
  button_timer = false;
  last_buttons = 0;
  last_data = 0;
  packet_byte_count = 0;
  mouse_reset_count = 0;
  ring = record { cells = replicate 128 0; head = 0; tail = 0 };
  log = [];
}

-- The left button is held back.
abbrev waiting : Mouse
waiting = record mouse { button_state = wait4two; pending_buttons = 1; button_timer = true }

waiting-IsMiddle : IsMiddle waiting
waiting-IsMiddle = ground arith

middle_button_chord_example :
    let (first, m1) = middle_button 2 10 from_mouse mouse in
    let (second, m2) = middle_button 3 60 from_mouse m1 in
    (first ≡ 0) × (second ≡ 4) × (m2.button_state ≡ middle) × (m2.log ≡ mouse.log)
middle_button_chord_example =
    middle_button_chord 2 10 60 mouse (inr refl) refl (omega arith) refl (omega arith)

abbrev plain_mouse : Mouse
plain_mouse = record mouse { fake_middle_button = false }

dispatch_packet-encode_packet_example :
    dispatch_packet (encode_packet 1 5 0xffff_fffd) 10 plain_mouse
    ≡ send (pointer 5 (u32 (1 * neg32 0xffff_fffd)) 1) (record plain_mouse { last_buttons = 1 })
dispatch_packet-encode_packet_example =
    dispatch_packet-encode_packet 1 5 0xffff_fffd 10 plain_mouse (omega arith) (inl (omega arith))
      (inr (omega arith, omega arith)) refl refl

mouse-IsStream : IsStream mouse
mouse-IsStream = record {
  is_ring = record {
    size = refl;
    small = omega arith;
    head_in = omega arith;
    tail_in = omega arith;
  };
  head_aligned = refl;
  tail_aligned = refl;
  length_low = omega arith;
  length_high = omega arith;
  incomplete = omega arith;
  in_sync = λ h. absurd (omega (arith, h));
}
