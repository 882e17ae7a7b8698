-- ===== src/Examples/Glide.antt =====
-- Runs of the ALPS driver (VoodooPS2Trackpad/VoodooPS2ALPSGlidePoint.cpp) and of the average filter.
use voodoo_ps2_focal_tech.Common.{
  bit_and, ℕ, zero, suc, ◌<◌, ◌≤◌, ◌≡◌, ◌≢◌, ◌⊎◌, inl, refl, arith, List, [], ◌∷◌, ◌++◌, true,
  false, none, some, get_or, replicate, bit_set,
}
use voodoo_ps2_focal_tech.FocalTech.{index_finger}
use voodoo_ps2_focal_tech.FocalTech.Touch.{no_transducer}
use voodoo_ps2_focal_tech.Alps.{
  Alps, Fields, no_fields, no_virtual_finger, nowhere, Outside, Message, disabled, process_v3,
  process_v4, process_ss4_v2, pinnacle, ss4_v2, proto_v3, proto_v4, proto_v8,
}
use voodoo_ps2_focal_tech.Alps.Decode.{decode_pinnacle}
use voodoo_ps2_focal_tech.Alps.Decode.Positions.{bitmap, encode, received, decode_pinnacle-encode}
use voodoo_ps2_focal_tech.Alps.Decode.V8.{packet_id, two, multi}
use voodoo_ps2_focal_tech.Ring.Window.{window}
use voodoo_ps2_focal_tech.Alps.Bitmap.{get_bitmap_points, process_bitmap}
use voodoo_ps2_focal_tech.Alps.Bitmap.Points.{IsRuns, runs_below, get_bitmap_points-IsRuns}
use voodoo_ps2_focal_tech.Alps.Bitmap.Corners.{HasMaps, IsOnPad, is_corner, process_bitmap-IsOnPad}
use voodoo_ps2_focal_tech.Alps.Touch.{alps_buttons, prepare_voodoo_input}
use voodoo_ps2_focal_tech.Alps.Packets.{process_trackstick_v3, process_packet_v3}
use voodoo_ps2_focal_tech.Alps.Packets.V8.{process_packet_ss4_v2}
use voodoo_ps2_focal_tech.Alps.Packets.Buttons.{
  run_buttons, alternates, held_after, run_buttons_lem, is_held, process_trackstick_v3-held,
}
use voodoo_ps2_focal_tech.Alps.Packets.Sequence.{IsPending, is_first, sequence_ends}
use voodoo_ps2_focal_tech.Alps.Packets.Merge.{IsMerged, process_packet_ss4_v2_twice}
use voodoo_ps2_focal_tech.Alps.Stream.Receive.{IsStream, receive, receive-IsStream}
use voodoo_ps2_focal_tech.Alps.Identify.{identify, identified, find_model}
use voodoo_ps2_focal_tech.Alps.Identify.FirstByte.{identify_not_bare}
use voodoo_ps2_focal_tech.Average.{Average, filter}
use voodoo_ps2_focal_tech.Average.Recent.{IsAverage, recent, last, average_of, filter_lem}

abbrev glide : Alps
glide = record {
  proto_version = proto_v3;
  process_packet = process_v3;
  decode_fields = pinnacle;
  byte0 = 0x8f;
  mask0 = 0x8f;
  dev_id = 0x73 ∷ 2 ∷ 0x64 ∷ [];
  flags = 2;
  x_max = 2000;
  y_max = 1400;
  x_bits = 15;
  y_bits = 11;
  prev_fin = false;
  multi_packet = 0;
  second_touch = none;
  multi_data = replicate 6 0;
  trackstick_buttons = false;
  bad_data = false;
  pktsize = 6;
  packet_byte_count = 0;
  ring = record { cells = replicate 192 0; head = 0; tail = 0 };
  ignoreall = false;
  left = false;
  right = false;
  middle = false;
  left_ts = false;
  clicked = false;
  last_buttons = 0;
  last_trackstick_buttons = 0;
  last_touchpad_buttons = 0;
  virtual_fingers = replicate 5 no_virtual_finger;
  clamped_finger_count = 0;
  last_finger_count = 0;
  report_voodoo_input = false;
  voodoo_input = true;
  input_event = record { transducers = replicate 10 no_transducer; contact_count = 0 };
  logical_max_y = 1400;
  force_touch_mode = disabled;
  force_threshold = 100;
  custom_down_threshold = 90;
  custom_up_threshold = 20;
  z_finger = 45;
  keytime = 0;
  maxaftertyping = 0;
  log = [];
}

abbrev outside : Outside
outside = record { finger_type = λ n. index_finger; now = 1; curve = λ p. p }

-- Bits 1 to 2 and 5 of a map.
get_bitmap_points-IsRuns_example :
    ((get_bitmap_points 0b100110).fingers ≡ runs_below 0b100110 32)
    × IsRuns (bit_set 0b100110 5) 5 (get_bitmap_points 0b100110)
get_bitmap_points-IsRuns_example = get_bitmap_points-IsRuns 0b100110 5 (omega arith)

-- Two fingers, at electrodes 2 and 6 across and 3 and 5 down.
abbrev two_touches : Fields
two_touches = record no_fields { x_map = 68; y_map = 40; st = record { x = 300; y = 500 } }

two_touches-HasMaps : HasMaps two_touches glide
two_touches-HasMaps = record {
  x_word = omega arith;
  y_word = omega arith;
  x_small = omega arith;
  y_small = omega arith;
  x_some = λ e. omega (arith, e);
  y_some = λ e. omega (arith, e);
  x_long = omega arith;
  y_long = omega arith;
  x_size = omega arith;
  y_size = omega arith;
}

process_bitmap-IsOnPad_example :
    (1 ≤ (process_bitmap two_touches glide).0)
    × (get_or (process_bitmap two_touches glide).1.mt 0 nowhere ≡ two_touches.st)
    × IsOnPad glide (get_or (process_bitmap two_touches glide).1.mt 1 nowhere)
    × (is_corner (process_bitmap two_touches glide).2.second_touch ≡ true)
    × ((j : ℕ) → none ≡ some j → (process_bitmap two_touches glide).2.second_touch ≡ some j)
process_bitmap-IsOnPad_example =
    process_bitmap-IsOnPad two_touches glide two_touches-HasMaps refl refl

abbrev left_down : Fields
left_down = record no_fields { left = true }

run_buttons_lem_example :
    (ms : List Message) × ((run_buttons (left_down ∷ no_fields ∷ []) glide).log ≡ [] ++ ms)
    × (alternates false ms ≡ true)
    × (held_after false ms ≡ (run_buttons (left_down ∷ no_fields ∷ []) glide).clicked)
run_buttons_lem_example = run_buttons_lem (left_down ∷ no_fields ∷ []) glide

-- A packet of the stick with no button, after one with the left button.
abbrev held : Alps
held = record glide { last_buttons = 1; trackstick_buttons = true }

abbrev stick_packet : List ℕ
stick_packet = 0x40 ∷ 16 ∷ 8 ∷ 0 ∷ 0 ∷ 0x3f ∷ []

process_trackstick_v3-held_example :
    ((process_trackstick_v3 stick_packet held).last_buttons ≢ 0)
    × ((process_trackstick_v3 stick_packet held ≡ held)
        ⊎ ((m : Message) × ((process_trackstick_v3 stick_packet held).log ≡ [] ++ m ∷ [])
            × (is_held m ≡ true)))
process_trackstick_v3-held_example =
    process_trackstick_v3-held stick_packet held (λ e. omega (arith, e))

-- A position packet that a bitmap follows.
abbrev first_packet : List ℕ
first_packet = 0x8f ∷ 20 ∷ 30 ∷ 0 ∷ 0x40 ∷ 50 ∷ []

sequence_ends_example :
    let t = process_packet_v3 outside first_packet glide in
    IsPending t
    × (is_first pinnacle glide first_packet ≡ true
        → t ≡ record glide { multi_packet = 1; multi_data = first_packet })
    × (is_first pinnacle glide first_packet ≡ false → t.multi_packet ≡ 0)
sequence_ends_example =
    sequence_ends outside first_packet glide (process_packet_v3 outside first_packet glide)
      (record { at_most_one = inl refl; kept = λ e. absurd (omega (arith, e)) }) refl refl
      (inl (refl, λ e. omega (arith, e)))

abbrev glide_v8 : Alps
glide_v8 = record glide {
  proto_version = proto_v8;
  process_packet = process_ss4_v2;
  decode_fields = ss4_v2;
}

abbrev two_packet : List ℕ
two_packet = 0x18 ∷ 9 ∷ 0x12 ∷ 0x18 ∷ 17 ∷ 3 ∷ []

abbrev multi_packet : List ℕ
multi_packet = 0x19 ∷ 25 ∷ 2 ∷ 0x38 ∷ 33 ∷ 5 ∷ []

two_packet-id : packet_id two_packet ≡ two
unfolding packet_id
two_packet-id = refl

multi_packet-id : packet_id multi_packet ≡ multi
unfolding packet_id
multi_packet-id = refl

process_packet_ss4_v2_twice_example :
    (f : Fields) × IsMerged glide_v8 two_packet multi_packet f
    × (process_packet_ss4_v2 outside multi_packet
          (process_packet_ss4_v2 outside two_packet glide_v8)
        ≡ alps_buttons f (
            prepare_voodoo_input outside f f.fingers
              (record glide_v8 { multi_packet = 0; multi_data = two_packet })))
process_packet_ss4_v2_twice_example =
    process_packet_ss4_v2_twice outside two_packet multi_packet glide_v8 refl refl refl
      two_packet-id refl multi_packet-id

abbrev glide_v4 : Alps
glide_v4 = record glide { proto_version = proto_v4; process_packet = process_v4; pktsize = 8 }

abbrev v4_packet : ℕ → ℕ → List ℕ
v4_packet a b = 0x8f ∷ 20 ∷ 30 ∷ 0 ∷ 0 ∷ 50 ∷ a ∷ b ∷ []

glide-IsStream : IsStream glide
glide-IsStream = record {
  is_ring = record {
    size = refl;
    small = omega arith;
    head_in = omega arith;
    tail_in = omega arith;
  };
  empty = refl;
  aligned = refl;
  size = inl refl;
  incomplete = omega arith;
  bare_short = λ e. omega arith;
}

receive-IsStream_example : IsStream (receive outside no_fields 0x8f glide)
receive-IsStream_example = receive-IsStream outside no_fields 0x8f glide glide-IsStream

-- Five cells, three values so far.
abbrev averaging : Average
averaging = record { buffer = 10 ∷ 20 ∷ 30 ∷ 0 ∷ 0 ∷ []; count = 3; sum = 60; index = 3 }

cells-lt : (i : ℕ) → get_or averaging.buffer i 0 < 0x1_0000_0000
cells-lt zero = omega arith
cells-lt (suc zero) = omega arith
cells-lt (suc (suc zero)) = omega arith
cells-lt (suc (suc (suc zero))) = omega arith
cells-lt (suc (suc (suc (suc zero)))) = omega arith
cells-lt (suc (suc (suc (suc (suc i))))) = omega arith

averaging-IsAverage : IsAverage 5 averaging
unfolding window
averaging-IsAverage = record {
  size = refl;
  some_cell = omega arith;
  small = omega arith;
  count_in = omega arith;
  index_in = omega arith;
  filling = λ e. refl;
  words = cells-lt;
  summed = refl;
}

filter_lem_example :
    (recent 5 (filter 5 44 averaging).1 ≡ last 5 (recent 5 averaging ++ 44 ∷ []))
    × ((filter 5 44 averaging).0 ≡ average_of (recent 5 (filter 5 44 averaging).1))
    × IsAverage 5 (filter 5 44 averaging).1
filter_lem_example = filter_lem 5 44 averaging averaging-IsAverage (omega arith)

decode_pinnacle-encode_example :
    decode_pinnacle (encode (bitmap 68 40 1)) no_fields ≡ received (bitmap 68 40 1) no_fields
decode_pinnacle-encode_example =
    decode_pinnacle-encode (bitmap 68 40 1) no_fields (omega arith, omega arith, omega arith)

-- The reports of a pad of version 2.
abbrev e7_report : List ℕ
e7_report = 0x53 ∷ 2 ∷ 0x14 ∷ []

abbrev ec_report : List ℕ
ec_report = 0x10 ∷ 0 ∷ 0x64 ∷ []

known_pad : identify e7_report ec_report ≡ some (0x200, 0xf8, 0xf8)
unfolding identify identified find_model
known_pad = refl

identify_not_bare_example : bit_and 0xf9 0xc8 ≢ 0x08
identify_not_bare_example =
    identify_not_bare e7_report ec_report 0x200 0xf8 0xf8 0xf9 known_pad (λ e. omega (arith, e))
      (omega arith) refl
