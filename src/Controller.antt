-- ===== src/Controller.antt =====
-- The i8042 side of `ApplePS2Controller` (VoodooPS2Controller/VoodooPS2Controller.cpp): reading a
-- byte for a port, and carrying out a request. The chip is its history: `polls` is what successive
-- looks at the status port show, and `written` what the driver wrote. Past the end of `polls` the
-- chip stays idle. A look that finds the output buffer full shows the status and the byte.
-- The busy waits of writeDataPort and writeCommandPort and the delays leave no trace.
pub mod Read
pub mod Request
use voodoo_ps2_focal_tech.Common.{
  ℕ, zero, suc, ◌+◌, ◌-◌, List, [], ◌∷◌, ◌++◌, Bool, ◌&&◌, ◌||◌, true, false, not, leb, ◌==◌,
  if◌then◌else◌, Option, none, some, shr, low_bits, bit_set,
}

pub data Poll : Type 0 where
  idle : Poll
  ready : ℕ → ℕ → Poll

pub data Write : Type 0 where
  to_data : ℕ → Write
  to_command : ℕ → Write

-- A call of dispatchDriverInterrupt, and whether a driver was there to take the byte.
pub record Dispatch : Type 0 where
  pub port : ℕ
  pub byte : ℕ
  pub delivered : Bool

pub record Controller : Type 0 where
  pub mux_present : Bool
  pub hardware_offline : Bool
  pub suppress_timeout : Bool
  pub ignore_interrupts : ℕ
  pub ignore_out_of_order : ℕ
  pub interrupt_installed_keyboard : Bool
  pub interrupt_installed_mouse : ℕ
  pub polls : List Poll
  pub written : List Write
  pub dispatched : List Dispatch

abbrev pub kbd_port : ℕ
kbd_port = 0

abbrev pub aux_port : ℕ
aux_port = 1

unfoldable pub port_from_status : Bool → ℕ → ℕ
port_from_status mux status =
    if bit_set status 5
    then (if mux then aux_port + low_bits (shr status 6) 2 else aux_port)
    else kbd_port

-- _dispatchDriverInterrupt: the byte reaches a driver only if one is installed.
unfoldable pub is_delivered : ℕ → Controller → Bool
is_delivered port c =
    if leb aux_port port && not (c.interrupt_installed_mouse == 0)
    then true
    else kbd_port == port && c.interrupt_installed_keyboard

unfoldable pub dispatch_driver_interrupt : ℕ → ℕ → Controller → Controller
dispatch_driver_interrupt port byte c = record c {
  dispatched =
      c.dispatched ++ record { port = port; byte = byte; delivered = is_delivered port c } ∷ [];
}

abbrev pub rest_of : List Poll → Controller → Controller
rest_of ps c = record c { polls = ps }

-- readDataPort(expectedPort): `n` is the timeout counter. The source's inner wait and its outer
-- loop are one recursion over the polls.
unfoldable pub read_loop : ℕ → ℕ → List Poll → Controller → ℕ × Controller
read_loop expected zero ps c = (0, rest_of ps c)
read_loop expected (suc n) [] c = (0, rest_of [] c)
read_loop expected (suc n) (idle ∷ ps) c = read_loop expected n ps c
read_loop expected (suc n) (ready status byte ∷ ps) c =
    let port = port_from_status c.mux_present status in
    let rest = read_loop expected (suc n) ps (dispatch_driver_interrupt port byte c) in
    if c.suppress_timeout || expected == port then (byte, rest_of ps c) else rest

unfoldable pub read_data_port : ℕ → Controller → ℕ × Controller
read_data_port expected c = read_loop expected 20000 c.polls c

-- The dispatches of the other form of readDataPort, which may be told to drop such bytes.
unfoldable pub dispatch_unless_ignored : ℕ → ℕ → Controller → Controller
dispatch_unless_ignored port byte c =
    if c.ignore_out_of_order == 0 then dispatch_driver_interrupt port byte c else c

-- A byte of the expected stream; `held` is the first byte, put aside. `none` means: wait on.
pub record Matched : Type 0 where
  pub result : Option ℕ
  pub held : Option ℕ
  pub state : Controller

unfoldable pub match_byte : ℕ → ℕ → ℕ → Option ℕ → Controller → Matched
match_byte expected wanted byte none c =
    if byte == wanted
    then record { result = some byte; held = none; state = c }
    else record { result = none; held = some byte; state = c }
match_byte expected wanted byte (some first) c =
    if byte == wanted
    then record {
      result = some byte;
      held = some first;
      state = dispatch_unless_ignored expected first c;
    }
    else record {
      result = some first;
      held = some first;
      state = dispatch_unless_ignored expected byte c;
    }

abbrev pub timeout_value : Option ℕ → ℕ
timeout_value none = 0
timeout_value (some first) = first

abbrev pub answer : Option ℕ → ℕ × Controller → Controller → ℕ × Controller
answer none rest c = rest
answer (some b) rest c = (b, c)

-- readDataPort(expectedPort, expectedByte).
unfoldable pub expect_loop : ℕ → ℕ → Option ℕ → ℕ → List Poll → Controller → ℕ × Controller
expect_loop expected wanted held zero ps c = (timeout_value held, rest_of ps c)
expect_loop expected wanted held (suc n) [] c = (timeout_value held, rest_of [] c)
expect_loop expected wanted held (suc n) (idle ∷ ps) c = expect_loop expected wanted held n ps c
expect_loop expected wanted held (suc n) (ready status byte ∷ ps) c =
    let port = port_from_status c.mux_present status in
    let m = match_byte expected wanted byte held c in
    let waited = expect_loop expected wanted m.held (suc n) ps m.state in
    let passed =
      expect_loop expected wanted held (suc n) ps (dispatch_unless_ignored port byte c) in
    if expected == port then answer m.result waited (rest_of ps m.state) else passed

unfoldable pub expect_data_port : ℕ → ℕ → Controller → ℕ × Controller
expect_data_port expected wanted c = expect_loop expected wanted none 10000 c.polls c

abbrev pub write_data_port : ℕ → Controller → Controller
write_data_port byte c = record c { written = c.written ++ to_data byte ∷ [] }

abbrev pub write_command_port : ℕ → Controller → Controller
write_command_port byte c = record c { written = c.written ++ to_command byte ∷ [] }
