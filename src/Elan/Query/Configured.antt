-- ===== src/Elan/Query/Configured.antt =====
-- What elantechQueryInfo leaves.
use voodoo_ps2_focal_tech.Common.{
  ℕ, ◌-◌, ◌/◌, ◌≤◌, ◌<◌, ◌≡◌, ◌≢◌, ◌⊎◌, refl, arith, List, Bool, true, false, ◌&&◌, ◌||◌,
  if◌then◌else◌, ◌==◌, ltb, Option, none, some, get_or, low_bits,
}
use native.Mathlib.Nat.{le-div_iff_mul-le}
use voodoo_ps2_focal_tech.FocalTech.Setup.{Bus}
use voodoo_ps2_focal_tech.Alps.{byte, field}
use voodoo_ps2_focal_tech.Elan.{Elan}
use voodoo_ps2_focal_tech.Elan.Query.{
  M, bind, hw_of, hw_of_body, set_for, set_as, set_properties, convert_res, set_range, id_range,
  traces_v4, set_buttons, send_cmd, synaptics_send_cmd, elantech_send_cmd, set_resolution,
  ask_resolution, has_old_range, range_v2, ask_range, ask_capabilities, ask_samples, check_samples,
  with_version, query_info,
}

-- A value that is there meets a predicate.
abbrev pub Given {κ} : {A S : Type 0} → (A → Type κ) → Option A × S → Type κ
Given P (none, b) = Unit
Given P (some a, b) = P a

bind-Given :
    {A B S : Type 0} (Q : A → Type 0) (P : B → Type 0) (o : Option A × S) (f : A → M S B)
    → Given Q o
    → ((a : A) (b : S) → Q a → Given P (f a b))
    → Given P (bind f o)
bind-Given Q P (none, b) f h g = tt
bind-Given Q P (some a, b) f h g = g a b h

Anything : {A : Type 0} → A → Type 0
Anything a = Unit

any-Given : {A S : Type 0} (o : Option A × S) → Given Anything o
unfolding Anything
any-Given (none, b) = tt
any-Given (some a, b) = tt

if-Given :
    {A S : Type 0} (P : A → Type 0) (c : Bool) (x y : M S A) (b : S)
    → (c ≡ true → Given P (x b))
    → (c ≡ false → Given P (y b))
    → Given P ((if c then x else y) b)
if-Given P true x y b h g = h refl
if-Given P false x y b h g = g refl

pick-Given :
    {A S : Type 0} (P : A → Type 0) (c : Bool) (x y : Option A × S)
    → Given P x
    → Given P y
    → Given P (if c then x else y)
pick-Given P true x y h g = h
pick-Given P false x y h g = g

-- The version is known, and packets have its length.
pub record IsKnown (s : Elan) : Type 0 where
  pub versions : (1 ≤ s.info.hw_version) × (s.info.hw_version ≤ 4)
  pub length :
      (s.info.hw_version ≡ 1 × s.packet_length ≡ 4) ⊎ (1 < s.info.hw_version × s.packet_length ≡ 6)

-- No division by a resolution divides by zero.
pub record IsResolved (s : Elan) : Type 0 where
  pub known : IsKnown s
  pub x_res : 31 ≤ s.info.x_res
  pub y_res : 31 ≤ s.info.y_res

-- On version 4 the pad has at least two columns, and a trace has a width.
pub record IsConfigured (s : Elan) : Type 0 where
  pub resolved : IsResolved s
  pub traced :
      s.info.hw_version ≡ 4
      → (2 ≤ s.info.x_traces) × (s.info.x_traces ≤ s.info.x_max) × (1 ≤ s.info.width)
  pub one_kind : s.info.has_middle_button ≡ true → s.info.is_buttonpad ≡ false

-- As configured, but for the buttons.
abbrev IsRanged : Elan → Type 0
IsRanged s =
    IsResolved s
    × (s.info.hw_version ≡ 4
        → (2 ≤ s.info.x_traces) × (s.info.x_traces ≤ s.info.x_max) × (1 ≤ s.info.width))

hw_of_body-range : (ver hw : ℕ) → hw_of_body ver ≡ some hw → (2 ≤ hw) × (hw ≤ 4)
unfolding hw_of_body
hw_of_body-range ver hw h = ground arith

hw_of-range : (fw hw : ℕ) → hw_of fw ≡ some hw → (1 ≤ hw) × (hw ≤ 4)
hw_of-range fw hw h = ground (arith, h, hw_of_body-range (field fw 16 4) hw)

set_for-IsKnown :
    (set_hw : Bool) (hw : ℕ) (s : Elan) → 1 ≤ hw → hw ≤ 4 → IsKnown (set_for set_hw hw s)
unfolding set_for
set_for-IsKnown set_hw hw s low high = ground arith

width-pos : (x n : ℕ) → 2 ≤ n → n ≤ x → 1 ≤ x / (n - 1)
width-pos x n many few = (le-div_iff_mul-le (omega arith)).1 (omega arith)

module _ {S : Type 0} where
  set_as-IsKnown :
      (set_hw : Bool) (s : Elan) (o : Option ℕ) (b : S)
      → ((hw : ℕ) → o ≡ some hw → (1 ≤ hw) × (hw ≤ 4))
      → Given IsKnown (set_as set_hw s o, b)
  set_as-IsKnown set_hw s none b h = tt
  set_as-IsKnown set_hw s (some hw) b h = set_for-IsKnown set_hw hw s (h hw refl).0 (h hw refl).1

  set_properties-IsKnown :
      (set_hw : Bool) (s : Elan) (b : S) → Given IsKnown (set_properties set_hw s, b)
  unfolding set_properties
  set_properties-IsKnown set_hw s b =
      set_as-IsKnown set_hw s (hw_of s.info.fw_version) b (hw_of-range s.info.fw_version)

  when_some :
      {A : Type 0} (P : A → Type 0) (c : Bool) (x : A) (b : S)
      → (c ≡ false → P x)
      → Given P (if c then none else some x, b)
  when_some P true x b h = tt
  when_some P false x b h = h refl

  traces_v4-IsRanged : (s : Elan) (b : S) → IsResolved s → Given IsRanged (traces_v4 s, b)
  unfolding traces_v4
  traces_v4-IsRanged s b h =
      let columns = get_or s.info.capabilities 1 0 in
      when_some IsRanged (ltb columns 2 || ltb s.info.x_max columns) _ b (λ fits.
        let many : 2 ≤ columns = ground (arith, fits) in
        let few : columns ≤ s.info.x_max = ground (arith, fits) in
        (
          record {
            known = record { versions = h.known.versions; length = h.known.length };
            x_res = h.x_res;
            y_res = h.y_res;
          },
          λ four. (many, few, width-pos s.info.x_max columns many few),
        ))

convert_res-le : (v : ℕ) → 31 ≤ convert_res v
unfolding convert_res
convert_res-le v = omega arith

module _ (bus : Bus) (port : ℕ) where
  open bus use {State}

  send_any :
      (P : Elan → Type 0) (n c : ℕ) (s : Elan) (f : List ℕ → M State Elan) (b : State)
      → ((p : List ℕ) (b' : State) → Given P (f p b'))
      → Given P (bind f (send_cmd bus port n c s b))
  send_any P n c s f b h =
      bind-Given Anything P (send_cmd bus port n c s b) f (any-Given _) (λ p b' any. h p b')

  ask_capabilities-IsKnown :
      (s : Elan) (b : State) → IsKnown s → Given IsKnown (ask_capabilities bus port s b)
  unfolding ask_capabilities
  ask_capabilities-IsKnown s b h =
      send_any IsKnown 3 2 s _ b (λ p b'. record { versions = h.versions; length = h.length })

  ask_samples-IsKnown :
      (s : Elan) (b : State) → IsKnown s → Given IsKnown (ask_samples bus port s b)
  unfolding ask_samples
  ask_samples-IsKnown s b h =
      if-Given IsKnown (s.info.hw_version == 1) _ _ b (λ one. h)
        (λ more.
          send_any IsKnown 3 3 s _ b (λ p b'. record { versions = h.versions; length = h.length }))

  set_resolution-IsResolved :
      (s : Elan) (o : Option (List ℕ) × State)
      → IsResolved s
      → Given IsResolved (set_resolution bus port s o)
  set_resolution-IsResolved s (none, b) h = h
  set_resolution-IsResolved s (some p, b) h = record {
    known = record { versions = h.known.versions; length = h.known.length };
    x_res = convert_res-le (low_bits (byte p 1) 4);
    y_res = convert_res-le (field (byte p 1) 4 4);
  }

  ask_resolution-IsResolved :
      (s : Elan) (b : State) → IsKnown s → Given IsResolved (ask_resolution bus port s b)
  unfolding ask_resolution
  ask_resolution-IsResolved s b h =
      let plain : Elan = record s { info = record (s.info) { x_res = 31; y_res = 31 } } in
      let good : IsResolved plain = record {
        known = record { versions = h.versions; length = h.length };
        x_res = omega arith;
        y_res = omega arith;
      } in
      pick-Given IsResolved (s.info.hw_version == 4)
        (set_resolution bus port plain (elantech_send_cmd bus port 3 4 b)) (some plain, b)
        (set_resolution-IsResolved plain (elantech_send_cmd bus port 3 4 b) good) good

  -- A range that is set leaves what is known.
  set_range-IsResolved : (x y : ℕ) (s : Elan) → IsResolved s → IsResolved (set_range x y s)
  set_range-IsResolved x y s h = record {
    known = record { versions = h.known.versions; length = h.known.length };
    x_res = h.x_res;
    y_res = h.y_res;
  }

  -- A range on a version below 4.
  plain_range :
      (x y : ℕ) (s : Elan) → IsResolved s → s.info.hw_version ≢ 4 → IsRanged (set_range x y s)
  plain_range x y s h other =
      (set_range-IsResolved x y s h, λ (four : s.info.hw_version ≡ 4). absurd (other four))

  range_v2-IsRanged :
      (s : Elan) (p : List ℕ) (b : State)
      → IsResolved s
      → s.info.hw_version ≢ 4
      → Given IsRanged (range_v2 bus port s p b)
  unfolding range_v2
  range_v2-IsRanged s p b h other =
      if-Given IsRanged (s.info.fw_version / 0x1_0000 == 0x14 && field (byte p 1) 4 1 == 1) _ _ b
        (λ fixed. send_any IsRanged 3 3 s _ b (λ q b'. plain_range _ _ s h other))
        (λ _.
          if-Given IsRanged (s.info.fw_version == 0x04_0216) _ _ b
            (λ _. plain_range 819 405 s h other)
            (λ _.
              if-Given IsRanged (s.info.fw_version == 0x04_0219 || s.info.fw_version == 0x04_0215) _
                _ b (λ _. plain_range 900 500 s h other) (λ _. plain_range _ _ s h other)))

  ask_range-IsRanged :
      (s : Elan) (b : State) → IsResolved s → Given IsRanged (ask_range bus port s b)
  unfolding ask_range
  ask_range-IsRanged s b h =
      if-Given IsRanged (s.info.hw_version == 1) _ _ b
        (λ one. (
          record {
            known = record { versions = h.known.versions; length = h.known.length };
            x_res = h.x_res;
            y_res = h.y_res;
          },
          λ (four : s.info.hw_version ≡ 4). ground (arith, one, four),
        ))
        (λ _.
          if-Given IsRanged (s.info.hw_version == 2) _ _ b
            (λ two.
              let other : s.info.hw_version ≢ 4 = λ four. ground (arith, two, four) in
              if-Given IsRanged (has_old_range bus port s) _ _ b
                (λ _. (
                  record {
                    known = record { versions = h.known.versions; length = h.known.length };
                    x_res = h.x_res;
                    y_res = h.y_res;
                  },
                  λ (four : s.info.hw_version ≡ 4). absurd (other four),
                ))
                (λ _. send_any IsRanged 3 0 s _ b (λ p b'. range_v2-IsRanged s p b' h other)))
            (λ _.
              if-Given IsRanged (s.info.hw_version == 3) _ _ b
                (λ three.
                  send_any IsRanged 3 0 s _ b
                    (λ p b'. plain_range _ _ s h (λ four. ground (arith, three, four))))
                (λ _.
                  send_any IsRanged 3 0 s _ b
                    (λ p b'. traces_v4-IsRanged (id_range p s) b' (set_range-IsResolved _ _ s h)))))

  set_buttons-IsConfigured : (s : Elan) → IsRanged s → IsConfigured (set_buttons s)
  unfolding set_buttons
  set_buttons-IsConfigured s (h, traced) = record {
    resolved = record {
      known = record { versions = h.known.versions; length = h.known.length };
      x_res = h.x_res;
      y_res = h.y_res;
    };
    traced = traced;
    one_kind = λ e. ground (arith, e);
  }

  -- Whatever the pad answers and whatever was known before: if the query succeeds, the hardware
  -- version is from 1 to 4, packets have 4 bytes on version 1 and 6 on the others, no resolution is
  -- below 31, version 4 has from 2 traces to as many as the width of its range and a width of a trace
  -- that is not 0, and a pad with a middle button is no buttonpad.
  pub query_info-IsConfigured :
      (set_hw : Bool) (s : Elan) (b : State) → Given IsConfigured (query_info bus port set_hw s b)
  unfolding query_info
  query_info-IsConfigured set_hw s b =
      bind-Given Anything IsConfigured (synaptics_send_cmd bus port 3 1 b) _ (any-Given _)
        (λ version b1 any.
          bind-Given IsKnown IsConfigured _ _
            (set_properties-IsKnown set_hw (with_version bus port version s) b1)
            (λ known b2 h2.
              bind-Given IsKnown IsConfigured _ _ (ask_capabilities-IsKnown known b2 h2)
                (λ capable b3 h3.
                  bind-Given IsKnown IsConfigured _ _ (ask_samples-IsKnown capable b3 h3)
                    (λ sampled b4 h4.
                      bind-Given Anything IsConfigured _ _
                        (any-Given (check_samples bus port sampled b4))
                        (λ checked b5 any5.
                          bind-Given IsResolved IsConfigured _ _
                            (ask_resolution-IsResolved sampled b5 h4)
                            (λ resolved b6 h6.
                              bind-Given IsRanged IsConfigured _ _
                                (ask_range-IsRanged resolved b6 h6)
                                (λ ranged b7 h7. set_buttons-IsConfigured ranged h7)))))))
