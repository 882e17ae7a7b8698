-- ===== src/Elan/Slots/Heads.antt =====
-- A status packet and the head packets after it: where the fingers are, and when the report goes out.
use voodoo_ps2_focal_tech.Common.{
  ℕ, zero, suc, ◌+◌, ◌-◌, ◌≤◌, ◌<◌, ◌≡◌, refl, sym, ap, ◌∙◌, arith, List, [], ◌∷◌, ◌++◌, map, Bool,
  true, false, ◌==◌, All, length, modify, length-modify, bit_set, low_bits, u32,
}
use voodoo_ps2_focal_tech.Alps.{byte, field}
use voodoo_ps2_focal_tech.Elan.{Elan, DeviceInfo, VirtualFinger}
use voodoo_ps2_focal_tech.Elan.Touch.{send_touch_data}
use voodoo_ps2_focal_tech.Elan.Slots.{
  take_buttons, touch_fingers, count_fingers, place_head, status_v4, head_v4,
}
use voodoo_ps2_focal_tech.Elan.Slots.Positions.{
  Timed, IsHead, position, put_by, placed, position-placed, put_by-append, put_by-cons,
  position-touch_fingers, length-touch_fingers,
}

unfoldable pub run_heads : List Timed → Elan → Elan
run_heads [] s = s
run_heads ((now, p) ∷ ps) s = run_heads ps (head_v4 now p s)

abbrev pub touches : Elan → List Bool
touches s = map (λ (v : VirtualFinger). v.touch) s.virtual_finger

-- The lowest `n` bits of a mask from bit `i` on.
abbrev pub bits : ℕ → ℕ → List VirtualFinger → List Bool
bits mask i [] = []
bits mask i (v ∷ vs) = bit_set mask i ∷ bits mask (suc i) vs

touches-touch_fingers :
    (mask i : ℕ) (vs : List VirtualFinger)
    → map (λ (v : VirtualFinger). v.touch) (touch_fingers mask i vs) ≡ bits mask i vs
unfolding touch_fingers
touches-touch_fingers mask i [] = refl
touches-touch_fingers mask i (v ∷ vs) =
    ap (λ l. bit_set mask i ∷ l) (touches-touch_fingers mask (suc i) vs)

touches-place_head :
    (p : List ℕ) (y k : ℕ) (vs : List VirtualFinger)
    → map (λ (v : VirtualFinger). v.touch) (modify vs k (place_head p y))
      ≡ map (λ (v : VirtualFinger). v.touch) vs
unfolding place_head
touches-place_head p y k [] = refl
touches-place_head p y zero (v ∷ vs) = refl
touches-place_head p y (suc k) (v ∷ vs) = ap (λ l. v.touch ∷ l) (touches-place_head p y k vs)

count_fingers-le : (mask i : ℕ) (vs : List VirtualFinger) → count_fingers mask i vs ≤ length vs
unfolding count_fingers
count_fingers-le mask i [] = omega arith
count_fingers-le mask i (v ∷ vs) = ground (arith, count_fingers-le mask (suc i) vs)

head_waits :
    (now : ℕ) (p : List ℕ) (s : Elan)
    → IsHead (now, p)
    → s.head_packets_count + 1 < s.held_fingers
    → s.held_fingers < 256
    → head_v4 now p s ≡ placed p s
unfolding head_v4
head_waits now p s (named, known) early few =
    let other : (field (byte p 3) 5 3 == 0) ≡ false = ground (arith, named) in
    let more : (u32 (s.head_packets_count + 1) == s.held_fingers) ≡ false = ground arith in
    rw (other, more) refl

-- Before the last head packet nothing is sent, and each one puts its finger.
record IsWaiting (ps : List Timed) (s t : Elan) : Type 0 where
  log : t.log ≡ s.log
  held : t.held_fingers ≡ s.held_fingers
  counted : t.head_packets_count ≡ s.head_packets_count + length ps
  info : t.info ≡ s.info
  size : length t.virtual_finger ≡ length s.virtual_finger
  placed_at :
      (k : ℕ)
      → k < length s.virtual_finger
      → position k t.virtual_finger ≡ put_by s.info.y_max k ps (position k s.virtual_finger)
  touching : touches t ≡ touches s

run_heads-IsWaiting :
    (ps : List Timed) (s : Elan)
    → All IsHead ps
    → s.head_packets_count + length ps < s.held_fingers
    → s.held_fingers < 256
    → IsWaiting ps s (run_heads ps s)
unfolding run_heads
run_heads-IsWaiting [] s all early few = record {
  log = refl;
  held = refl;
  counted = omega arith;
  info = refl;
  size = refl;
  placed_at = λ k room. unfold put_by in refl;
  touching = refl;
}
run_heads-IsWaiting ((now, p) ∷ ps) s (named, all) early few =
    let one = head_waits now p s named (omega arith) few in
    let rest = run_heads-IsWaiting ps (placed p s) all (omega arith) few in
    rw one (record {
      log = rest.log;
      held = rest.held;
      counted = omega (arith, rest.counted);
      info = rest.info;
      size = rest.size ∙ length-modify s.virtual_finger _ (place_head p s.info.y_max);
      placed_at = λ k room.
          rest.placed_at k (
            omega (
              arith,
              length-modify s.virtual_finger (field (byte p 3) 5 3 - 1) (place_head p s.info.y_max),
            ))
          ∙ ap (put_by s.info.y_max k ps) (position-placed k now p s named room)
          ∙ sym (put_by-cons s.info.y_max k (now, p) ps (position k s.virtual_finger));
      touching = rest.touching ∙ touches-place_head p s.info.y_max _ s.virtual_finger;
    })

head_reports :
    (now : ℕ) (p : List ℕ) (s : Elan)
    → IsHead (now, p)
    → s.head_packets_count + 1 ≡ s.held_fingers
    → s.held_fingers < 256
    → head_v4 now p s ≡ send_touch_data now (record (placed p s) { head_packets_count = 0 })
unfolding head_v4
head_reports now p s (named, known) last few =
    let other : (field (byte p 3) 5 3 == 0) ≡ false = ground (arith, named) in
    let full : (u32 (s.head_packets_count + 1) == s.held_fingers) ≡ true = ground arith in
    rw (other, full) refl

-- The state after a status packet that names at least one finger.
abbrev told : List ℕ → Elan → Elan
told p s = record (take_buttons p s) {
  virtual_finger = touch_fingers (low_bits (byte p 1) 5) 0 s.virtual_finger;
  held_fingers = count_fingers (low_bits (byte p 1) 5) 0 s.virtual_finger;
  head_packets_count = 0;
}

status_waits :
    (now : ℕ) (p : List ℕ) (s : Elan)
    → 0 < count_fingers (low_bits (byte p 1) 5) 0 s.virtual_finger
    → status_v4 now p s ≡ told p s
unfolding status_v4
status_waits now p s some_touch =
    let touched : (count_fingers (low_bits (byte p 1) 5) 0 s.virtual_finger == 0) ≡ false =
      ground arith in
    rw touched refl

-- After a status packet with a mask of n fingers, n at least 1, and n - 1 head packets that each name one
-- of the five fingers, nothing has been sent; the next such packet sends one report, of a state in which
-- exactly the fingers of the mask touch, and in which each finger stands where the last of the n head
-- packets that names it puts it, or where it stood before if none names it.
pub status_heads :
    (now : ℕ) (p : List ℕ) (ps : List Timed) (last : Timed) (s : Elan)
    → length s.virtual_finger ≡ 5
    → All IsHead ps
    → IsHead last
    → suc (length ps) ≡ count_fingers (low_bits (byte p 1) 5) 0 s.virtual_finger
    → let t = run_heads ps (status_v4 now p s) in
      (t.log ≡ s.log)
      × (u : Elan) × (head_v4 last.0 last.1 t ≡ send_touch_data last.0 u)
      × (u.log ≡ s.log)
      × (touches u ≡ bits (low_bits (byte p 1) 5) 0 s.virtual_finger)
      × ((k : ℕ)
          → k < 5
          → position k u.virtual_finger
            ≡ put_by s.info.y_max k (ps ++ last ∷ []) (position k s.virtual_finger))
status_heads now p ps (time, q) s five all named enough =
    let mask = low_bits (byte p 1) 5 in
    let start = told p s in
    let few = count_fingers-le mask 0 s.virtual_finger in
    let w = run_heads-IsWaiting ps start all (omega arith) (omega arith) in
    let t = run_heads ps start in
    rw (status_waits now p s (omega arith)) (
      w.log,
      record (placed q t) { head_packets_count = 0 },
      head_reports time q t named (omega (arith, w.counted, w.held)) (omega (arith, w.held)),
      w.log,
      touches-place_head q t.info.y_max _ t.virtual_finger
          ∙ w.touching
          ∙ touches-touch_fingers mask 0 s.virtual_finger,
      λ k below.
          let all_five = length-touch_fingers mask 0 s.virtual_finger in
          let there : k < length start.virtual_finger = omega (arith, all_five, five) in
          position-placed k time q t named (omega (arith, w.size, there))
          ∙ ap (λ (i : DeviceInfo). put_by i.y_max k ((time, q) ∷ []) (position k t.virtual_finger))
              w.info
          ∙ ap (put_by s.info.y_max k ((time, q) ∷ [])) (
              w.placed_at k there
              ∙ ap (put_by s.info.y_max k ps) (position-touch_fingers mask 0 k s.virtual_finger))
          ∙ sym (put_by-append s.info.y_max k ps ((time, q) ∷ []) (position k s.virtual_finger)),
    )
