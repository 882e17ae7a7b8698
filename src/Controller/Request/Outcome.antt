-- ===== src/Controller/Request/Outcome.antt =====
-- The outcome of a request for the driver that submitted it.
use voodoo_ps2_focal_tech.Common.{
  ℕ, zero, suc, ◌+◌, ◌≤◌, ◌<◌, ◌≡◌, inl, inr, refl, arith, List, [], ◌∷◌, true, false, ◌==◌, Option,
  none, some, Bool-cases, get_or, u32,
}
use voodoo_ps2_focal_tech.Controller.{
  Poll, idle, ready, Controller, port_from_status, dispatch_driver_interrupt, read_loop,
  read_data_port, dispatch_unless_ignored, match_byte, expect_loop, expect_data_port, answer,
  write_data_port, write_command_port, kbd_port,
}
use voodoo_ps2_focal_tech.Controller.Request.{
  CommandKind, read_data, read_data_and_compare, write_data, send_command_and_compare_ack,
  flush_data, sleep_ms, modify_command_byte, Command, Request, Processed, route, flush_loop,
  execute, process_loop, process_request, final_count, acknowledge, get_command_byte,
}

-- The flags and installations that reading and writing leave alone.
pub record SameFlags (c c' : Controller) : Type 0 where
  pub mux_present : c'.mux_present ≡ c.mux_present
  pub hardware_offline : c'.hardware_offline ≡ c.hardware_offline
  pub ignore_interrupts : c'.ignore_interrupts ≡ c.ignore_interrupts
  pub ignore_out_of_order : c'.ignore_out_of_order ≡ c.ignore_out_of_order

SameFlags-trans : {a b c : Controller} → SameFlags a b → SameFlags b c → SameFlags a c
SameFlags-trans p q = ground (arith, p, q)

read_loop-SameFlags :
    (expected n : ℕ) (ps : List Poll) (c : Controller) → SameFlags c (read_loop expected n ps c).1
unfolding read_loop dispatch_driver_interrupt
read_loop-SameFlags expected zero ps c = ground arith
read_loop-SameFlags expected (suc n) [] c = ground arith
read_loop-SameFlags expected (suc n) (idle ∷ ps) c = read_loop-SameFlags expected n ps c
read_loop-SameFlags expected (suc n) (ready status byte ∷ ps) c = ground (
  arith,
  read_loop-SameFlags expected (suc n) ps
      (dispatch_driver_interrupt (port_from_status c.mux_present status) byte c),
)

dispatch_unless-SameFlags : (p b : ℕ) (c : Controller) → SameFlags c (dispatch_unless_ignored p b c)
unfolding dispatch_unless_ignored dispatch_driver_interrupt
dispatch_unless-SameFlags p b c = ground arith

match_byte-SameFlags :
    (e w b : ℕ) (held : Option ℕ) (c : Controller) → SameFlags c (match_byte e w b held c).state
unfolding match_byte
match_byte-SameFlags e w b none c = ground arith
match_byte-SameFlags e w b (some a) c =
    ground (arith, dispatch_unless-SameFlags e a c, dispatch_unless-SameFlags e b c)

answer-SameFlags :
    (o : Option ℕ) (rest : ℕ × Controller) (c d : Controller)
    → SameFlags c rest.1
    → SameFlags c d
    → SameFlags c (answer o rest d).1
answer-SameFlags none rest c d p q = p
answer-SameFlags (some b) rest c d p q = q

expect_loop-SameFlags :
    (e w : ℕ) (held : Option ℕ) (n : ℕ) (ps : List Poll) (c : Controller)
    → SameFlags c (expect_loop e w held n ps c).1
unfolding expect_loop
expect_loop-SameFlags e w held zero ps c = ground arith
expect_loop-SameFlags e w held (suc n) [] c = ground arith
expect_loop-SameFlags e w held (suc n) (idle ∷ ps) c = expect_loop-SameFlags e w held n ps c
expect_loop-SameFlags e w held (suc n) (ready status byte ∷ ps) c =
    let port = port_from_status c.mux_present status in
    let m = match_byte e w byte held c in
    let passed = dispatch_unless_ignored port byte c in
    let here = match_byte-SameFlags e w byte held c in
    elim (Bool-cases (e == port)) [
      | inl ours ↦ rw ours (
          answer-SameFlags m.result (expect_loop e w m.held (suc n) ps m.state) c
            (record (m.state) { polls = ps })
            (SameFlags-trans here (expect_loop-SameFlags e w m.held (suc n) ps m.state))
            (ground (arith, here)))
      | inr other ↦ rw other (
          SameFlags-trans (dispatch_unless-SameFlags port byte c)
            (expect_loop-SameFlags e w held (suc n) ps passed))
    ]

flush_loop-SameFlags : (n : ℕ) (ps : List Poll) (c : Controller) → SameFlags c (flush_loop n ps c).1
unfolding flush_loop
flush_loop-SameFlags n [] c = ground arith
flush_loop-SameFlags n (idle ∷ ps) c = ground arith
flush_loop-SameFlags n (ready status byte ∷ ps) c = flush_loop-SameFlags (u32 (n + 1)) ps c

route-SameFlags : (port : ℕ) (c : Controller) → SameFlags c (route port c)
unfolding route
route-SameFlags port c = ground arith

read_data_port-SameFlags : (e : ℕ) (c : Controller) → SameFlags c (read_data_port e c).1
unfolding read_data_port
read_data_port-SameFlags e c = read_loop-SameFlags e 20000 c.polls c

expect_data_port-SameFlags : (e w : ℕ) (c : Controller) → SameFlags c (expect_data_port e w c).1
unfolding expect_data_port
expect_data_port-SameFlags e w c = expect_loop-SameFlags e w none 10000 c.polls c

abbrev sent : ℕ → Command → Controller → Controller
sent port m c = write_data_port m.in_or_out (route port c)

sent-SameFlags : (port : ℕ) (m : Command) (c : Controller) → SameFlags c (sent port m c)
sent-SameFlags port m c = ground (arith, route-SameFlags port c)

abbrev asked : Controller → Controller
asked c = write_command_port get_command_byte c

execute-SameFlags :
    (k : CommandKind) (port : ℕ) (m : Command) (c : Controller)
    → SameFlags c (execute k port m c).state
unfolding execute
execute-SameFlags read_data port m c = read_data_port-SameFlags port c
execute-SameFlags read_data_and_compare port m c = expect_data_port-SameFlags port m.in_or_out c
execute-SameFlags write_data port m c = sent-SameFlags port m c
execute-SameFlags send_command_and_compare_ack port m c =
    SameFlags-trans (sent-SameFlags port m c)
      (expect_data_port-SameFlags port acknowledge (sent port m c))
execute-SameFlags flush_data port m c = flush_loop-SameFlags 0 c.polls c
execute-SameFlags sleep_ms port m c = ground arith
execute-SameFlags modify_command_byte port m c =
    ground (arith, read_data_port-SameFlags kbd_port (asked c))

process_loop-SameFlags :
    (port index n : ℕ) (ms : List Command) (c : Controller)
    → SameFlags c (process_loop port index n ms c).state
unfolding process_loop
process_loop-SameFlags port index zero ms c = ground arith
process_loop-SameFlags port index (suc n) [] c = ground arith
process_loop-SameFlags port index (suc n) (m ∷ ms) c =
    let e = execute m.kind port m c in
    let here = execute-SameFlags m.kind port m c in
    let rest = process_loop-SameFlags port (suc index) n ms e.state in
    elim (Bool-cases e.failed) [
      | inl stop ↦ rw stop here
      | inr go ↦ rw go (SameFlags-trans here rest)
    ]

-- The index that failed is one of the commands that were to be carried out.
failed_in_range :
    (port index n : ℕ) (ms : List Command) (c : Controller) (i : ℕ)
    → (process_loop port index n ms c).failed_at ≡ some i
    → (index ≤ i) × (i < index + n)
unfolding process_loop
failed_in_range port index zero ms c i f = cc
failed_in_range port index (suc n) [] c i f = cc
failed_in_range port index (suc n) (m ∷ ms) c i f =
    let e = execute m.kind port m c in
    elim (Bool-cases e.failed) [
      | inl stop ↦ ground arith
      | inr go ↦ ground (arith, failed_in_range port (suc index) n ms e.state i)
    ]

final_count-le : (o : Option ℕ) (n : ℕ) → ((i : ℕ) → o ≡ some i → i < n) → final_count o n ≤ n
final_count-le none n h = omega arith
final_count-le (some i) n h = omega (arith, h i refl)

-- Commands behind the one that failed are not touched.
untouched :
    (port index n : ℕ) (ms : List Command) (c : Controller) (i k : ℕ) (d : Command)
    → (process_loop port index n ms c).failed_at ≡ some i
    → i < index + k
    → get_or (process_loop port index n ms c).commands k d ≡ get_or ms k d
unfolding process_loop
untouched port index zero ms c i k d f h = refl
untouched port index (suc n) [] c i k d f h = refl
untouched port index (suc n) (m ∷ ms) c i zero d f h =
    absurd (omega (arith, failed_in_range port index (suc n) (m ∷ ms) c i f))
untouched port index (suc n) (m ∷ ms) c i (suc k) d f h =
    let e = execute m.kind port m c in
    elim (Bool-cases e.failed) [
      | inl stop ↦ rw stop refl
      | inr go ↦ rw go (untouched port (suc index) n ms e.state i k d (rw go at f) (omega arith))
    ]

abbrev loop_of : Request → Controller → Processed
loop_of r c =
    process_loop r.port 0 r.commands_count r.commands
      (record c { ignore_interrupts = c.ignore_interrupts + 1 })

-- On return a request's count is at most what was submitted, and interrupts are taken again exactly
-- as before, whether the hardware is offline, a command failed, or all of them succeeded.
pub process_request_bounds :
    (r : Request) (c : Controller)
    → let (r', c') = process_request r c in
      (r'.commands_count ≤ r.commands_count) × (c'.ignore_interrupts ≡ c.ignore_interrupts)
unfolding process_request
process_request_bounds r c =
    let counted = final_count-le (loop_of r c).failed_at r.commands_count (λ i f. omega (
      arith,
      failed_in_range r.port 0 r.commands_count r.commands
          (record c { ignore_interrupts = c.ignore_interrupts + 1 }) i f,
    )) in
    ground (
      arith,
      counted,
      process_loop-SameFlags r.port 0 r.commands_count r.commands
          (record c { ignore_interrupts = c.ignore_interrupts + 1 }),
    )

stopped_at : (o : Option ℕ) (n : ℕ) → final_count o n < n → o ≡ some (final_count o n)
stopped_at none n h = absurd (omega arith)
stopped_at (some i) n h = refl

offline :
    (r : Request) (c : Controller)
    → c.hardware_offline ≡ true
    → (process_request r c).0 ≡ record r { commands_count = 0 }
unfolding process_request
offline r c off = ground arith

online :
    (r : Request) (c : Controller)
    → c.hardware_offline ≡ false
    → (process_request r c).0 ≡ record r {
      commands = (loop_of r c).commands;
      commands_count = final_count (loop_of r c).failed_at r.commands_count;
    }
unfolding process_request
online r c on = ground arith

-- A request that comes back with a smaller count stopped there: the commands behind that index are
-- as they were submitted.
pub process_request_untouched :
    (r : Request) (c : Controller) (k : ℕ) (d : Command)
    → (process_request r c).0.commands_count < r.commands_count
    → (process_request r c).0.commands_count < k
    → get_or (process_request r c).0.commands k d ≡ get_or r.commands k d
process_request_untouched r c k d stopped behind = elim (Bool-cases c.hardware_offline) [
  | inl off ↦ rw (offline r c off) refl
  | inr on ↦
      let at =
        stopped_at (loop_of r c).failed_at r.commands_count (rw (online r c on) at stopped) in
      let after : final_count (loop_of r c).failed_at r.commands_count < k =
        rw (online r c on) at behind in
      rw (online r c on) (
        untouched r.port 0 r.commands_count r.commands
          (record c { ignore_interrupts = c.ignore_interrupts + 1 })
          (final_count (loop_of r c).failed_at r.commands_count) k d at (omega arith))
]

-- On return a request's count is at most what was submitted, and interrupts are taken again exactly
-- as before, whether the hardware is offline, a command failed, or all of them succeeded. A request that
-- comes back with a smaller count stopped there: the commands behind that index are as they were
-- submitted.
pub process_request_lem :
    (r : Request) (c : Controller) (k : ℕ) (d : Command)
    → let (r', c') = process_request r c in
      (r'.commands_count ≤ r.commands_count)
      × (c'.ignore_interrupts ≡ c.ignore_interrupts)
      × (r'.commands_count < r.commands_count
          → r'.commands_count < k
          → get_or r'.commands k d ≡ get_or r.commands k d)
process_request_lem r c k d =
    let (bounded, enabled) = process_request_bounds r c in
    (bounded, enabled, λ stopped behind. process_request_untouched r c k d stopped behind)
