-- ===== src/Alps/Identify/FirstByte.antt =====
-- The first byte of a packet of a known pad, and bare packets of three bytes.
use voodoo_ps2_focal_tech.Common.{
  ℕ, zero, suc, ◌<◌, ◌≡◌, ◌≢◌, inl, inr, refl, subst, sym, ◌∙◌, arith, List, [], ◌∷◌, Bool, true,
  false, not, ◌&&◌, ◌||◌, Option, none, some, Bool-cases, ◌==◌, bit_and,
}
use voodoo_ps2_focal_tech.Alps.{proto_v5, proto_v7, proto_v8}
use voodoo_ps2_focal_tech.Alps.Identify.{
  ModelInfo, alps_model_data, is_report, find_model, version_of, protocol_byte, identify,
  identified, proto_v6,
}

-- A byte that begins a packet of the pad and a bare packet.
abbrev clashes : ℕ → ℕ → ℕ → Bool
clashes byte0 mask0 b = bit_and b mask0 == byte0 && bit_and b 0xc8 == 0x08

unfoldable none_below : ℕ → ℕ → ℕ → Bool
none_below byte0 mask0 zero = true
none_below byte0 mask0 (suc b) = not (clashes byte0 mask0 b) && none_below byte0 mask0 b

and_left : (a b : Bool) → (a && b) ≡ true → a ≡ true
and_left true b h = refl
and_left false b h = h

and_right : (a b : Bool) → (a && b) ≡ true → b ≡ true
and_right true b h = h
and_right false b h = absurd (ground (arith, h))

not-true : (a : Bool) → not a ≡ true → a ≡ false
not-true true h = sym h
not-true false h = refl

none_below-clashes :
    (byte0 mask0 n b : ℕ) → none_below byte0 mask0 n ≡ true → b < n → clashes byte0 mask0 b ≡ false
unfolding none_below
none_below-clashes byte0 mask0 zero b h lt = absurd (omega arith)
none_below-clashes byte0 mask0 (suc n) b h lt = elim (Bool-cases (b == n)) [
  | inl last ↦
      let at : b ≡ n = ground (arith, last) in
      rw at (not-true (clashes byte0 mask0 n) (and_left (not (clashes byte0 mask0 n)) _ h))
  | inr before ↦
      none_below-clashes byte0 mask0 n b (and_right (not (clashes byte0 mask0 n)) _ h)
        (ground (arith, before))
]

-- No row of a table clashes.
abbrev clear_table : List ModelInfo → Bool
clear_table [] = true
clear_table (m ∷ ms) = none_below m.byte0 m.mask0 256 && clear_table ms

find_model-clear :
    (e7 : List ℕ) (ms : List ModelInfo) (m : ModelInfo)
    → clear_table ms ≡ true
    → find_model e7 ms ≡ some m
    → none_below m.byte0 m.mask0 256 ≡ true
unfolding find_model
find_model-clear e7 [] m clear found = absurd (ground (arith, found))
find_model-clear e7 (n ∷ ms) m clear found = elim (Bool-cases (is_report e7 n.signature)) [
  | inl same ↦
      let row : n ≡ m = ground (arith, found, same) in
      subst (λ k. none_below k.byte0 k.mask0 256 ≡ true) row
        (and_left (none_below n.byte0 n.mask0 256) (clear_table ms) clear)
  | inr other ↦
      find_model-clear e7 ms m (and_right (none_below n.byte0 n.mask0 256) (clear_table ms) clear)
        (ground (arith, found, other))
]

table_clear : clear_table alps_model_data ≡ true
unfolding none_below
table_clear = refl

-- The bytes of set_protocol, for every version but 8.
protocol_clear : (v : ℕ) → v ≢ proto_v8 → none_below (protocol_byte v) (protocol_byte v) 256 ≡ true
unfolding protocol_byte none_below
protocol_clear v h = elim (Bool-cases (v == proto_v5 || v == proto_v6)) [
  | inl dolphin ↦ rw dolphin refl
  | inr other ↦ elim (Bool-cases (v == proto_v7)) [
    | inl seven ↦ rw (other, seven) refl
    | inr not_seven ↦ elim (Bool-cases (v == proto_v8)) [
      | inl eight ↦ absurd (h (ground (arith, eight)))
      | inr not_eight ↦ rw (other, not_seven, not_eight) refl
    ]
  ]
]

identified_clear :
    (o : Option ModelInfo) (w : Option ℕ) (version byte0 mask0 : ℕ)
    → ((m : ModelInfo) → o ≡ some m → none_below m.byte0 m.mask0 256 ≡ true)
    → identified o w ≡ some (version, byte0, mask0)
    → version ≢ proto_v8
    → none_below byte0 mask0 256 ≡ true
unfolding identified
identified_clear (some m) w version byte0 mask0 listed known not_v8 =
    let b : byte0 ≡ m.byte0 = ground (arith, known) in
    let k : mask0 ≡ m.mask0 = ground (arith, known) in rw (b, k) (listed m refl)
identified_clear none (some v) version byte0 mask0 listed known not_v8 =
    let n : v ≡ version = ground (arith, known) in
    let b : byte0 ≡ protocol_byte v = ground (arith, known) in
    let k : mask0 ≡ protocol_byte v = ground (arith, known) in
    rw (b, k) (protocol_clear v (λ e. not_v8 (sym n ∙ e)))
identified_clear none none version byte0 mask0 listed known not_v8 = absurd (ground (arith, known))

-- On each pad that identify knows, except one of version 8: a byte that may begin a packet, by the
-- byte and mask of the pad, does not look like the beginning of a bare packet of three bytes.
pub identify_not_bare :
    (e7 ec : List ℕ) (version byte0 mask0 b : ℕ)
    → identify e7 ec ≡ some (version, byte0, mask0)
    → version ≢ proto_v8
    → b < 256
    → bit_and b mask0 ≡ byte0
    → bit_and b 0xc8 ≢ 0x08
unfolding identify
identify_not_bare e7 ec version byte0 mask0 b known not_v8 byte first bare =
    let clear : none_below byte0 mask0 256 ≡ true =
      identified_clear (find_model e7 alps_model_data) (version_of e7 ec) version byte0 mask0
        (λ m found. find_model-clear e7 alps_model_data m table_clear found) known not_v8 in
    let apart = none_below-clashes byte0 mask0 256 b clear byte in
    ground (arith, apart, first, bare)
