-- ===== src/Elan/Setup/Power.antt =====
-- A wake or a reset, and the messages of the keyboard driver.
use voodoo_ps2_focal_tech.Common.{
  ℕ, ◌+◌, ◌%◌, ◌<◌, ◌≡◌, refl, arith, List, true, false, Option, none, some, length, get_or,
}
use voodoo_ps2_focal_tech.Ring.{count, count_between, reset}
use voodoo_ps2_focal_tech.FocalTech.Setup.{Bus}
use voodoo_ps2_focal_tech.Elan.{Elan}
use voodoo_ps2_focal_tech.Elan.Check.{setup_parity}
use voodoo_ps2_focal_tech.Elan.Check.Parity.{ones, setup_parity-ones}
use voodoo_ps2_focal_tech.Elan.Stream.{ring_size}
use voodoo_ps2_focal_tech.Elan.Stream.Drain.{IsStream}
use voodoo_ps2_focal_tech.Elan.Query.Configured.{IsKnown}
use voodoo_ps2_focal_tech.Elan.Setup.{
  reset_touchpad, set_input_params, set_absolute_mode, finish_setup, setup_ps2, reset_mouse,
  restart, set_touch_pad_enable, message, set_device_power_state,
}

-- Ready for packets: nothing is stored, the stream is in order, and the parity table is right.
pub record IsFresh (s : Elan) : Type 0 where
  pub stream : IsStream s
  pub empty : count ring_size s.ring ≡ 0
  pub none_yet : s.packet_byte_count ≡ 0
  pub parity : (i : ℕ) → i < 256 → get_or s.parity i 0 ≡ (ones 8 i + 1) % 2

-- What set-up does not touch.
abbrev pub Sized : Elan → Type 0
Sized s = (length s.ring.cells ≡ ring_size) × (length s.parity ≡ 256) × IsKnown s

abbrev cleared : Elan → Elan
cleared s = record s { packet_byte_count = 0; ring = reset s.ring; parity = setup_parity s.parity }

cleared-IsFresh : (s : Elan) → Sized s → IsFresh (cleared s)
unfolding reset count count_between
cleared-IsFresh s (cells, table, known) = record {
  stream = record {
    is_ring = record {
      size = cells;
      small = omega arith;
      head_in = omega arith;
      tail_in = omega arith;
    };
    size = ground (arith, known, known.length);
    head_aligned = ground (arith, known, known.length);
    tail_aligned = ground (arith, known, known.length);
    incomplete = ground (arith, known, known.length);
  };
  empty = refl;
  none_yet = refl;
  parity = λ i h. setup_parity-ones s.parity i table h;
}

set_input_params-IsFresh : (s : Elan) → IsFresh s → IsFresh (set_input_params s)
unfolding set_input_params
set_input_params-IsFresh s h = record {
  stream = record {
    is_ring = h.stream.is_ring;
    size = h.stream.size;
    head_aligned = h.stream.head_aligned;
    tail_aligned = h.stream.tail_aligned;
    incomplete = h.stream.incomplete;
  };
  empty = h.empty;
  none_yet = h.none_yet;
  parity = h.parity;
}

module _ (bus : Bus) (port rate resolution : ℕ) where
  open bus use {State}

  finish_setup-IsFresh :
      (s : Elan) (o : Option (List ℕ) × State)
      → IsFresh s
      → IsFresh (finish_setup bus port rate resolution s o).0
  finish_setup-IsFresh s (none, b) h = h
  finish_setup-IsFresh s (some p, b) h = set_input_params-IsFresh s h

  restart-IsFresh :
      (s : Elan) (b : State) → Sized s → IsFresh (restart bus port rate resolution s b).0
  unfolding restart setup_ps2
  restart-IsFresh s b h =
      finish_setup-IsFresh (cleared s)
        (set_absolute_mode bus port (cleared s) (reset_mouse bus port b)) (cleared-IsFresh s h)

  finish_setup-ignoreall :
      (s : Elan) (o : Option (List ℕ) × State)
      → (finish_setup bus port rate resolution s o).0.ignoreall ≡ s.ignoreall
  unfolding set_input_params
  finish_setup-ignoreall s (none, b) = refl
  finish_setup-ignoreall s (some p, b) = refl

  restart-ignoreall :
      (s : Elan) (b : State) → (restart bus port rate resolution s b).0.ignoreall ≡ s.ignoreall
  unfolding restart setup_ps2
  restart-ignoreall s b =
      finish_setup-ignoreall (cleared s)
        (set_absolute_mode bus port (cleared s) (reset_mouse bus port b))

  -- Whatever the pad answers, and even if it refuses the absolute mode: after a wake and after the
  -- keyboard driver's reset, the ring is empty and in order, no packet is under way and the parity
  -- table is right; after the reset the pad's input is also accepted again.
  pub wake-IsFresh :
      (s : Elan) (b : State)
      → Sized s
      → IsFresh (set_device_power_state bus port rate resolution true s b).0
        × IsFresh (message bus port rate resolution (reset_touchpad 1) s b).1
        × ((message bus port rate resolution (reset_touchpad 1) s b).1.ignoreall ≡ false)
  unfolding set_device_power_state message
  wake-IsFresh s b h =
      let accepted = record s { ignoreall = false } in
      let disabled = set_touch_pad_enable bus port false b in
      (
        restart-IsFresh s b h,
        restart-IsFresh accepted disabled
            (h.0, h.1, record { versions = h.2.versions; length = h.2.length }),
        restart-ignoreall accepted disabled,
      )
