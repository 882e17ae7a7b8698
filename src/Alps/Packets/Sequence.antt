-- ===== src/Alps/Packets/Sequence.antt =====
-- The sequences of two packets of versions 3, 5 and 8.
use voodoo_ps2_focal_tech.Common.{
  ℕ, ◌≡◌, ◌⊎◌, refl, subst, contrary, sym, ◌∙◌, arith, List, Bool, true, false, not, ◌&&◌, ◌==◌,
  if◌then◌else◌, ltb, Bool-cases, inl, inr, none, if_else, ◌≢◌,
}
use voodoo_ps2_focal_tech.Alps.{
  Alps, byte, Fields, no_fields, Outside, Decoder, pinnacle, rushmore, dolphin, packet_v7, ss4_v2,
}
use voodoo_ps2_focal_tech.Alps.Decode.{
  decode_pinnacle, decode_rushmore, decode_dolphin, decode_buttons_v3,
}
use voodoo_ps2_focal_tech.Alps.Decode.V8.{
  decode_as, decode_ss4_v2, packet_id, PacketId, idle, one, two, multi, stick, decode_one,
  decode_two, decode_multi, decode_stick_buttons, decode_pad_buttons,
}
use voodoo_ps2_focal_tech.Alps.Bitmap.{process_bitmap}
use voodoo_ps2_focal_tech.Alps.Touch.{
  send_relative, send_scroll, alps_buttons, prepare_voodoo_input,
}
use voodoo_ps2_focal_tech.Alps.Touch.Kept.{alps_buttons-IsKept, prepare_voodoo_input-IsKept}
use voodoo_ps2_focal_tech.Alps.Packets.{
  decode, decode_with, process_touchpad_v3_v5, process_packet_v3, finish_semi_mt, reverse_y, use_st,
}
use voodoo_ps2_focal_tech.Alps.Packets.V8.{
  process_packet_ss4_v2, finish_ss4_v2, report_stick, is_stick,
}

-- What a packet is: the first of two, the second of two.
abbrev pub is_first : Decoder → Alps → List ℕ → Bool
is_first d s p =
    not (decode_with d s p no_fields).1.is_mp && (decode_with d s p no_fields).1.first_mp

abbrev pub is_second : Decoder → Alps → List ℕ → Bool
is_second d s p = (decode_with d s p no_fields).1.is_mp

abbrev pub has_sequences : Decoder → Bool
has_sequences packet_v7 = false
has_sequences _ = true

-- The flags of a packet, whatever was decoded before and whatever the driver's state is.
abbrev SameFlags : Fields → Fields → Type 0
SameFlags f g = (f.is_mp ≡ g.is_mp) × (f.first_mp ≡ g.first_mp)

decode_as-SameFlags :
    (id : PacketId) (s t : Alps) (p : List ℕ) (f g : Fields)
    → SameFlags (decode_as id s p f) (decode_as id t p g)
unfolding decode_as decode_one decode_two decode_multi decode_stick_buttons decode_pad_buttons
decode_as-SameFlags idle s t p f g = (refl, refl)
decode_as-SameFlags one s t p f g = (refl, refl)
decode_as-SameFlags two s t p f g = (refl, refl)
decode_as-SameFlags multi s t p f g = ground arith
decode_as-SameFlags stick s t p f g = (refl, refl)

decode_with-SameFlags :
    (d : Decoder) (s t : Alps) (p : List ℕ) (f g : Fields)
    → has_sequences d ≡ true
    → SameFlags (decode_with d s p f).1 (decode_with d t p g).1
unfolding decode_with decode_pinnacle decode_rushmore decode_dolphin decode_ss4_v2 decode_buttons_v3
decode_with-SameFlags pinnacle s t p f g h = ground arith
decode_with-SameFlags rushmore s t p f g h = ground arith
decode_with-SameFlags dolphin s t p f g h = ground arith
decode_with-SameFlags packet_v7 s t p f g h = absurd (ground (arith, h))
decode_with-SameFlags ss4_v2 s t p f g h = decode_as-SameFlags (packet_id p) s t p f g

-- A first packet is kept, or no packet is.
pub record IsPending (s : Alps) : Type 0 where
  pub at_most_one : (s.multi_packet ≡ 0) ⊎ (s.multi_packet ≡ 1)
  pub kept : s.multi_packet ≡ 1 → is_first s.decode_fields s s.multi_data ≡ true

-- How a packet leaves the sequence: kept if it is a first one, and ended otherwise.
record IsStep (p : List ℕ) (s t : Alps) : Type 0 where
  first_kept :
      is_first s.decode_fields s p ≡ true → t ≡ record s { multi_packet = 1; multi_data = p }
  ended : is_first s.decode_fields s p ≡ false → t.multi_packet ≡ 0

IsStep-IsPending :
    (p : List ℕ) (s t : Alps) → has_sequences s.decode_fields ≡ true → IsStep p s t → IsPending t
IsStep-IsPending p s t d h = elim (Bool-cases (is_first s.decode_fields s p)) [
  | inl first ↦ subst IsPending (sym (h.first_kept first)) (record {
    at_most_one = inr refl;
    kept = λ e. ground (
      arith,
      first,
      decode_with-SameFlags s.decode_fields (record s { multi_packet = 1; multi_data = p }) s p
          no_fields no_fields d,
    );
  })
  | inr other ↦ record {
    at_most_one = inl (h.ended other);
    kept = λ e. ground (arith, h.ended other, e);
  }
]

if-IsStep :
    (p : List ℕ) (s : Alps) (b : Bool) (x y : Alps)
    → (b ≡ true → IsStep p s x)
    → (b ≡ false → IsStep p s y)
    → IsStep p s (if b then x else y)
if-IsStep p s true x y h g = h refl
if-IsStep p s false x y h g = g refl

ended-IsStep :
    (p : List ℕ) (s t : Alps)
    → is_first s.decode_fields s p ≡ false
    → t.multi_packet ≡ 0
    → IsStep p s t
ended-IsStep p s t other ended = record {
  first_kept = λ first. absurd (contrary first other);
  ended = λ e. ended;
}

report-multi_packet :
    (e : Outside) (f : Fields) (n : ℕ) (t : Alps)
    → (alps_buttons f (prepare_voodoo_input e f n t)).multi_packet ≡ t.multi_packet
report-multi_packet e f n t =
    (alps_buttons-IsKept f (prepare_voodoo_input e f n t)).multi_packet
    ∙ (prepare_voodoo_input-IsKept e f n t).multi_packet

finish_semi_mt-ended :
    (e : Outside) (f : Fields) (n : ℕ) (t : Alps) → (finish_semi_mt e f n t).multi_packet ≡ 0
unfolding finish_semi_mt
finish_semi_mt-ended e f n t = elim (Bool-cases (ltb n 2)) [
  | inl few ↦ rw few (
      report-multi_packet e (reverse_y t (use_st f)) (if ltb 0 f.pressure then 1 else 0)
        (record t { multi_packet = 0; second_touch = none }))
  | inr several ↦
      rw several (report-multi_packet e (reverse_y t f) n (record t { multi_packet = 0 }))
]

process_bitmap-is_mp : (f : Fields) (s : Alps) → (process_bitmap f s).1.is_mp ≡ f.is_mp
unfolding process_bitmap
process_bitmap-is_mp f s = ground arith

-- The first packet under way is not a second one, whatever was decoded before it.
kept-is_mp :
    (s : Alps) (f : Fields)
    → IsPending s
    → has_sequences s.decode_fields ≡ true
    → (s.multi_packet == 0) ≡ false
    → (decode s s.multi_data f).1.is_mp ≡ false
kept-is_mp s f h d under_way =
    (decode_with-SameFlags s.decode_fields s s s.multi_data f no_fields d).0
    ∙ ground (arith, h.kept (ground (arith, h.at_most_one, under_way)))

process_touchpad_v3_v5-IsStep :
    (e : Outside) (p : List ℕ) (s : Alps)
    → IsPending s
    → has_sequences s.decode_fields ≡ true
    → s.ignoreall ≡ false
    → IsStep p s (process_touchpad_v3_v5 e p s)
unfolding process_touchpad_v3_v5
process_touchpad_v3_v5-IsStep e p s h d on =
    let f = (decode s p no_fields).1 in
    let both = (decode s s.multi_data f).1 in
    let (count, merged, after) = process_bitmap both s in
    if-IsStep p s s.ignoreall s _ (λ off. absurd (contrary off on))
      (λ same.
        if-IsStep p s (not (s.multi_packet == 0) && f.is_mp) _ _
          (λ pair.
            if-IsStep p s merged.is_mp after _
              (λ again. absurd (
                contrary again
                  (process_bitmap-is_mp both s ∙ kept-is_mp s f h d (ground (arith, pair)))))
              (λ whole.
                ended-IsStep p s _ (ground (arith, pair))
                  (finish_semi_mt-ended e merged (if count == 0 then 0 else f.fingers) after)))
          (λ no_pair.
            if-IsStep p s f.is_mp s _
              (λ second.
                ended-IsStep p s s (ground (arith, second)) (ground (arith, second, no_pair)))
              (λ position.
                if-IsStep p s f.first_mp (record s { multi_packet = 1; multi_data = p }) _
                  (λ first. record {
                    first_kept = λ again. refl;
                    ended = λ none_first. ground (arith, position, first, none_first);
                  })
                  (λ single.
                    ended-IsStep p s _ (ground (arith, single)) (finish_semi_mt-ended e f 0 s)))))

report_stick-multi_packet :
    (p : List ℕ) (f : Fields) (s : Alps) → (report_stick p f s).multi_packet ≡ s.multi_packet
unfolding report_stick send_relative send_scroll
report_stick-multi_packet p f s = ground arith

finish_ss4_v2-ended :
    (e : Outside) (p : List ℕ) (f : Fields) (s : Alps) → (finish_ss4_v2 e p f s).multi_packet ≡ 0
unfolding finish_ss4_v2
finish_ss4_v2-ended e p f s = elim (Bool-cases (is_stick (packet_id p))) [
  | inl on_stick ↦ rw on_stick (report_stick-multi_packet p f (record s { multi_packet = 0 }))
  | inr on_pad ↦
      rw on_pad (report-multi_packet e (reverse_y s f) f.fingers (record s { multi_packet = 0 }))
]

process_packet_ss4_v2-IsStep :
    (e : Outside) (p : List ℕ) (s : Alps)
    → IsPending s
    → has_sequences s.decode_fields ≡ true
    → s.ignoreall ≡ false
    → IsStep p s (process_packet_ss4_v2 e p s)
unfolding process_packet_ss4_v2
process_packet_ss4_v2-IsStep e p s h d on =
    let f = (decode s p no_fields).1 in
    let both = (decode s s.multi_data f).1 in
    if-IsStep p s s.ignoreall s _ (λ off. absurd (contrary off on))
      (λ same.
        if-IsStep p s (not (s.multi_packet == 0) && f.is_mp) _ _
          (λ pair.
            if-IsStep p s both.is_mp s _
              (λ again. absurd (contrary again (kept-is_mp s f h d (ground (arith, pair)))))
              (λ whole. ended-IsStep p s _ (ground (arith, pair)) (finish_ss4_v2-ended e p both s)))
          (λ no_pair.
            if-IsStep p s f.is_mp s _
              (λ second.
                ended-IsStep p s s (ground (arith, second)) (ground (arith, second, no_pair)))
              (λ position.
                if-IsStep p s f.first_mp (record s { multi_packet = 1; multi_data = p }) _
                  (λ first. record {
                    first_kept = λ again. refl;
                    ended = λ none_first. ground (arith, position, first, none_first);
                  })
                  (λ single.
                    ended-IsStep p s _ (ground (arith, single)) (finish_ss4_v2-ended e p f s)))))

-- A packet of the pad is kept only until the pad's next one comes: on versions 3, 5 and 8, unless input is
-- ignored, and on version 3 for packets that are not of the stick (their last byte is not 0x3f), a packet
-- that is the first of two is kept and nothing else changes; after any other packet none is
-- kept, so that a second one ends the sequence and a first one that is not followed is dropped. If
-- one is kept, it is the first of two, if it was so before.
pub sequence_ends :
    (e : Outside) (p : List ℕ) (s t : Alps)
    → IsPending s
    → has_sequences s.decode_fields ≡ true
    → s.ignoreall ≡ false
    → (t ≡ process_packet_v3 e p s × byte p 5 ≢ 0x3f)
      ⊎ ((t ≡ process_touchpad_v3_v5 e p s) ⊎ (t ≡ process_packet_ss4_v2 e p s))
    → IsPending t
      × (is_first s.decode_fields s p ≡ true → t ≡ record s { multi_packet = 1; multi_data = p })
      × (is_first s.decode_fields s p ≡ false → t.multi_packet ≡ 0)
unfolding process_packet_v3
sequence_ends e p s t h d on (inl (r, pad)) =
    let no_stick : (byte p 5 == 0x3f) ≡ false = ground (arith, pad) in
    let step = process_touchpad_v3_v5-IsStep e p s h d on in
    rw (r ∙ if_else (byte p 5 == 0x3f) _ (process_touchpad_v3_v5 e p s) no_stick)
      (IsStep-IsPending p s (process_touchpad_v3_v5 e p s) d step, step.first_kept, step.ended)
sequence_ends e p s t h d on (inr (inl r)) =
    let step = process_touchpad_v3_v5-IsStep e p s h d on in
    rw r (IsStep-IsPending p s (process_touchpad_v3_v5 e p s) d step, step.first_kept, step.ended)
sequence_ends e p s t h d on (inr (inr r)) =
    let step = process_packet_ss4_v2-IsStep e p s h d on in
    rw r (IsStep-IsPending p s (process_packet_ss4_v2 e p s) d step, step.first_kept, step.ended)
