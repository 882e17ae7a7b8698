-- ===== src/Alps/Packets/Merge.antt =====
-- The two packets of version 8 for three or more fingers: what is reported of them.
use voodoo_ps2_focal_tech.Common.{
  if_then, if_else, ℕ, ◌≡◌, ◌≢◌, refl, ap, ◌∙◌, arith, List, true, false, not, ◌&&◌, ◌==◌,
  if◌then◌else◌, bit_set, get_or, sub32, Bool-cases, inl, inr,
}
use voodoo_ps2_focal_tech.Alps.{Alps, Fields, no_fields, Position, nowhere, Outside, ss4_v2}
use voodoo_ps2_focal_tech.Alps.Decode.V8.{
  PacketId, packet_id, two, multi, decode_as, decode_ss4_v2, decode_two, decode_multi,
  decode_pad_buttons, finger_at, no_data, same_place,
}
use voodoo_ps2_focal_tech.Alps.Touch.{alps_buttons, prepare_voodoo_input}
use voodoo_ps2_focal_tech.Alps.Packets.{decode, decode_with, reverse_y}
use voodoo_ps2_focal_tech.Alps.Packets.V8.{process_packet_ss4_v2, finish_ss4_v2}

-- The fingers that the second packet counts.
abbrev pub fingers_of : Alps → List ℕ → ℕ
fingers_of s q =
    if bit_set (get_or q 2 0) 4
    then 5
    else if same_place (finger_at s q 3) (no_data s)
    then 3
    else 4

abbrev pub turned : Alps → Position → Position
turned s p = record p { y = sub32 s.y_max p.y }

-- The contacts of both packets: those of the first are turned, those of the second are not.
pub record IsMerged (s : Alps) (p q : List ℕ) (f : Fields) : Type 0 where
  pub fingers : f.fingers ≡ fingers_of s q
  pub finger_0 : get_or f.mt 0 nowhere ≡ turned s (finger_at s p 0)
  pub finger_1 : get_or f.mt 1 nowhere ≡ turned s (finger_at s p 3)
  pub finger_2 : get_or f.mt 2 nowhere ≡ finger_at s q 0
  pub finger_3 : 3 ≢ f.fingers → get_or f.mt 3 nowhere ≡ finger_at s q 3

abbrev both : Alps → List ℕ → List ℕ → Fields
both s p q = decode_as two s p (decode_as multi s q no_fields)

both-IsMerged :
    (s : Alps) (p q : List ℕ)
    → bit_set (get_or p 2 0) 4 ≡ true
    → IsMerged s p q (reverse_y s (both s p q))
unfolding decode_as decode_two decode_multi decode_pad_buttons
both-IsMerged s p q continues = elim (Bool-cases (bit_set (get_or q 2 0) 4)) [
  | inl five ↦ record {
    fingers = ground (arith, continues, five);
    finger_0 = ground (arith, continues, five);
    finger_1 = ground (arith, continues, five);
    finger_2 = ground (arith, continues, five);
    finger_3 = ground (arith, continues, five);
  }
  | inr fewer ↦ record {
    fingers = ground (arith, continues, fewer);
    finger_0 = ground (arith, continues, fewer);
    finger_1 = ground (arith, continues, fewer);
    finger_2 = ground (arith, continues, fewer);
    finger_3 = ground (arith, continues, fewer);
  }
]

first_kept :
    (e : Outside) (p : List ℕ) (s : Alps)
    → s.decode_fields ≡ ss4_v2
    → s.ignoreall ≡ false
    → s.multi_packet ≡ 0
    → packet_id p ≡ two
    → bit_set (get_or p 2 0) 4 ≡ true
    → process_packet_ss4_v2 e p s ≡ record s { multi_packet = 1; multi_data = p }
unfolding process_packet_ss4_v2 decode_with decode_ss4_v2 decode_as decode_two decode_pad_buttons
first_kept e p s d on idle_before first continues = rw (on, idle_before, d, first, continues) refl

multi-is_mp : (s : Alps) (q : List ℕ) (f : Fields) → (decode_as multi s q f).is_mp ≡ true
unfolding decode_as decode_multi decode_pad_buttons
multi-is_mp s q f = ground arith

two-is_mp : (s : Alps) (p : List ℕ) (f : Fields) → (decode_as two s p f).is_mp ≡ false
unfolding decode_as decode_two decode_pad_buttons
two-is_mp s p f = refl

decoded_as :
    (id : PacketId) (s : Alps) (p : List ℕ) (f : Fields)
    → s.decode_fields ≡ ss4_v2
    → packet_id p ≡ id
    → (decode s p f).1 ≡ decode_as id s p f
unfolding decode_with decode_ss4_v2
decoded_as id s p f d e = ap (λ k. (decode_with k s p f).1) d ∙ ap (λ k. decode_as k s p f) e

second_reported :
    (e : Outside) (q : List ℕ) (s : Alps)
    → s.decode_fields ≡ ss4_v2
    → s.ignoreall ≡ false
    → s.multi_packet ≡ 1
    → packet_id s.multi_data ≡ two
    → packet_id q ≡ multi
    → process_packet_ss4_v2 e q s ≡ finish_ss4_v2 e q (both s s.multi_data q) s
unfolding process_packet_ss4_v2
second_reported e q s d on under_way first second =
    let f = (decode s q no_fields).1 in
    let joined = (decode s s.multi_data f).1 in
    let is_second : f.is_mp ≡ true =
      ap (λ g. g.is_mp) (decoded_as multi s q no_fields d second) ∙ multi-is_mp s q no_fields in
    let whole : joined.is_mp ≡ false =
      ap (λ g. g.is_mp) (decoded_as two s s.multi_data f d first) ∙ two-is_mp s s.multi_data f in
    if_else s.ignoreall _ _ on
    ∙ if_then (not (s.multi_packet == 0) && f.is_mp) _ _ (ground (arith, under_way, is_second))
    ∙ if_else joined.is_mp _ _ whole
    ∙ ap (λ g. finish_ss4_v2 e q g s)
        (decoded_as two s s.multi_data f d first
          ∙ ap (decode_as two s s.multi_data) (decoded_as multi s q no_fields d second))

multi_reported :
    (e : Outside) (q : List ℕ) (f : Fields) (s : Alps)
    → packet_id q ≡ multi
    → finish_ss4_v2 e q f s
      ≡ alps_buttons
          (reverse_y s f)
          (prepare_voodoo_input e (reverse_y s f) f.fingers (record s { multi_packet = 0 }))
unfolding finish_ss4_v2
multi_reported e q f s second = rw second refl

-- On version 8, when a packet for two fingers announces another one and that one comes, the handler does
-- after both what it does for a single packet: it hands one set of fields to the buttons and to the input,
-- with no packet kept any more. Its count is three, four or five, as the second packet says; its first two
-- contacts are those of the first packet with their y axis turned, its third is the second packet's first,
-- and its fourth, unless the count is three, is the second packet's second; these come as they are.
pub process_packet_ss4_v2_twice :
    (e : Outside) (p q : List ℕ) (s : Alps)
    → s.decode_fields ≡ ss4_v2
    → s.ignoreall ≡ false
    → s.multi_packet ≡ 0
    → packet_id p ≡ two
    → bit_set (get_or p 2 0) 4 ≡ true
    → packet_id q ≡ multi
    → (f : Fields) × IsMerged s p q f
      × (process_packet_ss4_v2 e q (process_packet_ss4_v2 e p s)
          ≡ alps_buttons f
              (prepare_voodoo_input e f f.fingers (record s { multi_packet = 0; multi_data = p })))
unfolding decode_as decode_multi decode_pad_buttons decode_two no_data
process_packet_ss4_v2_twice e p q s d on idle_before first continues second =
    let kept = record s { multi_packet = 1; multi_data = p } in
    let f = both kept p q in
    (
      reverse_y kept f,
      both-IsMerged s p q continues,
      ap (process_packet_ss4_v2 e q) (first_kept e p s d on idle_before first continues)
          ∙ second_reported e q kept d on refl first second
          ∙ multi_reported e q f kept second,
    )
