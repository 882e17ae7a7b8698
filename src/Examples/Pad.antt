-- ===== src/Examples/Pad.antt =====
-- Runs of the touchpad driver (FocalTech/): the byte stream, decoding and set-up.
use voodoo_ps2_focal_tech.Common.{
  ℕ, suc, ◌<◌, ◌≤◌, ◌≡◌, ◌⊎◌, refl, arith, List, [], ◌∷◌, true, false, replicate, All, map,
}
use voodoo_ps2_focal_tech.FocalTech.{Driver, Finger, VirtualFinger, new_driver, no_virtual_finger}
use voodoo_ps2_focal_tech.FocalTech.Touch.{no_transducer}
use voodoo_ps2_focal_tech.FocalTech.Report.Fingers.{IsPlaced}
use voodoo_ps2_focal_tech.FocalTech.Stream.{interrupt_occurred}
use voodoo_ps2_focal_tech.FocalTech.Stream.Receive.{
  IsAligned, queued, partial, receive, interrupt_occurred-receive,
}
use voodoo_ps2_focal_tech.FocalTech.Setup.{Bus, count_aux_nubs, setup_hardware}
use voodoo_ps2_focal_tech.FocalTech.Setup.Fresh.{IsFresh, setup_hardware-IsFresh}
use voodoo_ps2_focal_tech.Controller.Request.{Command}

abbrev fresh : Driver
fresh = record (new_driver (replicate 10 no_transducer)) {
  has_device = true;
  voodoo_input = true;
  has_force_timer = true;
  x_max = 1000;
  y_max = 800;
}

-- One packet in the ring, and two bytes of the next one.
abbrev receiving : Driver
receiving = record fresh {
  packet_byte_count = 2;
  ring = record {
    cells = 6 ∷ 0x12 ∷ 0x34 ∷ 1 ∷ 0x56 ∷ 0 ∷ 3 ∷ 1 ∷ replicate 184 0;
    head = 6;
    tail = 0;
  };
}

receiving-IsAligned : IsAligned receiving
receiving-IsAligned = record {
  is_ring = record {
    size = refl;
    small = omega arith;
    head_in = omega arith;
    tail_in = omega arith;
  };
  head_aligned = refl;
  tail_aligned = refl;
  incomplete = omega arith;
}

interrupt_occurred-receive_example :
    let (s', result) = interrupt_occurred 0x7f receiving in
    let spec = receive 0x7f (queued receiving) (partial receiving) in
    IsAligned s' × (queued s' ≡ spec.queue) × (partial s' ≡ spec.started) × (result ≡ spec.result)
interrupt_occurred-receive_example = interrupt_occurred-receive 0x7f receiving receiving-IsAligned

abbrev resting : Finger
resting = record { active = true; valid = true; x = 500; y = 700 }

abbrev two_fingers : List Finger
two_fingers = resting ∷ record resting { valid = false } ∷ []

abbrev lifted : List VirtualFinger
lifted = no_virtual_finger ∷ no_virtual_finger ∷ []

lifted-IsPlaced : All (IsPlaced 1000 800) lifted
lifted-IsPlaced = ground arith

-- A controller with `n` AUX nubs, on which every command succeeds and reads give 8. The state counts
-- the requests.
abbrev pub answering : ℕ → Bus
answering n = record {
  State = ℕ;
  submit = λ r b.
      (record r { commands = map (λ (c : Command). record c { in_or_out = 8 }) r.commands }, suc b);
  set_command_byte = λ set clear b. suc b;
  aux_nubs = λ b. n;
  has_controller = λ b. true;
}

abbrev on_port_1 : Driver
on_port_1 = record fresh { has_device = true; provider_port = 1 }

four_nubs : 1 < count_aux_nubs (answering 4) on_port_1 0
unfolding count_aux_nubs
four_nubs = omega arith

setup_hardware-IsFresh_example :
    let (configured, s', b') = setup_hardware (answering 1) true receiving 0 in
    IsFresh s' × ((configured ≡ false) ⊎ ((128 ≤ s'.x_max) × (128 ≤ s'.y_max)))
setup_hardware-IsFresh_example = setup_hardware-IsFresh (answering 1) true receiving 0 refl
