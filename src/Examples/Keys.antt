-- ===== src/Examples/Keys.antt =====
-- Runs of the keyboard.
use voodoo_ps2_focal_tech.Common.{
  ℕ, ◌≡◌, refl, arith, List, [], ◌∷◌, Bool, true, false, replicate, bit_set,
}
use voodoo_ps2_focal_tech.Keyboard.{
  Keyboard, is_key_down, key_down, key_up, identity_from, interrupt_occurred, packetize,
  buffer_packet, write_time,
}
use voodoo_ps2_focal_tech.Keyboard.Packets.{IsStream}
use voodoo_ps2_focal_tech.Ring.{count, count_between, write_at_head, advance_head, advance_tail}
use voodoo_ps2_focal_tech.Keyboard.Repeat.{
  IsAlternating, Event, byte, taken, take_packet, queued, has_room, events-IsAlternating,
}
use voodoo_ps2_focal_tech.Keyboard.Modifiers.{track_events, last_of, track_events_last}
use voodoo_ps2_focal_tech.Keyboard.Flags.{ps2_flags_stock}
use voodoo_ps2_focal_tech.Keyboard.AdbMap.{ps2_to_adb_map_stock}

abbrev keyboard : Keyboard
keyboard = record {
  key_bit_vector = replicate 16 0;
  ps2_flags = ps2_flags_stock;
  ps2_to_ps2_map = [];
  ps2_to_adb_map_mapped = ps2_to_adb_map_stock;
  extend_count = 0;
  last_data = 0;
  modifier_state = 0;
  ring = record { cells = replicate 512 0; head = 0; tail = 0 };
}

-- Every scan code maps to itself.
abbrev mapped : Keyboard
mapped = record keyboard { ps2_to_ps2_map = identity_from 0 512 }

keyboard-IsStream : IsStream keyboard
keyboard-IsStream = record {
  framed = record {
    is_ring = record {
      size = refl;
      small = omega arith;
      head_in = omega arith;
      tail_in = omega arith;
    };
    head_aligned = refl;
    tail_aligned = refl;
  };
  units = refl;
  extend_low = omega arith;
}

-- The key A is held long enough to repeat, and released; the work loop takes its make off in between.
abbrev holding_a : List Event
holding_a = byte 10 0x1e ∷ byte 510 0x1e ∷ taken ∷ byte 540 0x1e ∷ byte 560 0x9e ∷ []

holding_a-has_room : has_room holding_a keyboard ≡ true
unfolding has_room interrupt_occurred packetize buffer_packet write_time write_at_head advance_head
    count count_between take_packet advance_tail key_down key_up is_key_down
holding_a-has_room = refl

events-IsAlternating_example :
    IsAlternating (is_key_down 0x1e (replicate 16 0)) (queued 0x1e holding_a keyboard)
events-IsAlternating_example =
    events-IsAlternating 0x1e holding_a keyboard keyboard-IsStream refl holding_a-has_room

-- Right Alt goes down, the PrntScr key that no Fn key toggles goes down, right control goes down and up.
abbrev shifted : List (ℕ × Bool)
shifted = (0x138, true) ∷ (0x128, true) ∷ (0x11d, true) ∷ (0x11d, false) ∷ []

track_events_last_example :
    bit_set (track_events false shifted mapped).modifier_state 5
    ≡ last_of false mapped.ps2_to_ps2_map 5 shifted (bit_set 0 5)
track_events_last_example =
    track_events_last false 5 shifted mapped (omega arith) (ground arith) refl
