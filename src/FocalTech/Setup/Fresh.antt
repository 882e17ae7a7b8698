-- ===== src/FocalTech/Setup/Fresh.antt =====
-- The state that set-up leaves.
use voodoo_ps2_focal_tech.Common.{
  ℕ, ◌≤◌, ◌≡◌, refl, arith, Bool, true, false, not, ◌&&◌, if◌then◌else◌, Bool-cases, inl, inr,
  length, replicate, ◌⊎◌, Option, none, some,
}
use voodoo_ps2_focal_tech.Ring.{reset, count}
use voodoo_ps2_focal_tech.FocalTech.{Driver, ring_size, no_hardware, no_virtual_finger}
use voodoo_ps2_focal_tech.FocalTech.Stream.Receive.{IsAligned}
use voodoo_ps2_focal_tech.FocalTech.Report.Force.{IsReported}
use voodoo_ps2_focal_tech.FocalTech.Setup.{
  Bus, clear_state, read_register, read_dimensions, store_dimensions, publish_input_properties,
  setup_hardware, reset_device, switch_to_native_protocol,
}

-- Ready for the first packet: nothing buffered, no click, no finger on the pad.
pub record IsFresh (s : Driver) : Type 0 where
  pub aligned : IsAligned s
  pub empty : count ring_size s.ring ≡ 0
  pub no_partial : s.packet_byte_count ≡ 0
  pub reported : IsReported s
  pub not_forced : s.force_active ≡ false
  pub no_raw : s.hardware ≡ no_hardware
  pub no_virtual : s.fingers ≡ replicate 5 no_virtual_finger

clear_state-IsFresh : (s : Driver) → length s.ring.cells ≡ ring_size → IsFresh (clear_state s)
unfolding clear_state reset count
clear_state-IsFresh s h = ground arith

store_dimensions-IsFresh :
    (o : Option (ℕ × ℕ × ℕ)) (s : Driver) → IsFresh s → IsFresh (store_dimensions o s).1
store_dimensions-IsFresh none s h = h
store_dimensions-IsFresh (some (p0, p1, p2)) s h =
    ground (arith, h, h.aligned, h.aligned.is_ring, h.reported, h.reported.click)

publish_input_properties-IsFresh : (s : Driver) → IsFresh s → IsFresh (publish_input_properties s)
unfolding publish_input_properties
publish_input_properties-IsFresh s h =
    ground (arith, h, h.aligned, h.aligned.is_ring, h.reported, h.reported.click)

-- The size that a register read gives: both bytes are at least 1.
stored_size :
    (o : Option (ℕ × ℕ × ℕ)) (s : Driver)
    → (store_dimensions o s).0 ≡ true
    → (128 ≤ (store_dimensions o s).1.x_max) × (128 ≤ (store_dimensions o s).1.y_max)
stored_size none s h = cc
stored_size (some (p0, p1, p2)) s h = ground arith

abbrev IsSized : Driver → Type 0
IsSized s = (128 ≤ s.x_max) × (128 ≤ s.y_max)

abbrev published_if : Bool → Driver → Driver
published_if publish s = if publish && not s.input_published then publish_input_properties s else s

published-IsSized : (s : Driver) → IsSized s → IsSized (publish_input_properties s)
unfolding publish_input_properties
published-IsSized s h = h

configured_lem :
    (publish : Bool) (s : Driver)
    → IsFresh s
    → IsSized s
    → IsFresh (published_if publish s)
      × ((true ≡ false)
          ⊎ ((128 ≤ (published_if publish s).x_max) × (128 ≤ (published_if publish s).y_max)))
configured_lem publish s h g = elim (Bool-cases (publish && not s.input_published)) [
  | inl e ↦ simp e (publish_input_properties-IsFresh s h, inr (published-IsSized s g))
  | inr e ↦ simp e (h, inr g)
]

module _ (bus : Bus) where
  open bus use {State}

  read_dimensions-IsFresh :
      (s : Driver) (b : State) → IsFresh s → IsFresh (read_dimensions bus s b).1
  unfolding read_dimensions
  read_dimensions-IsFresh s b h = store_dimensions-IsFresh (read_register bus 2 s b).0 s h

  read_dimensions-IsSized :
      (s : Driver) (b : State)
      → (read_dimensions bus s b).0 ≡ true
      → IsSized (read_dimensions bus s b).1
  unfolding read_dimensions
  read_dimensions-IsSized s b h = stored_size (read_register bus 2 s b).0 s h

  -- Whatever the device answers, set-up leaves a driver with nothing buffered, no click and no
  -- finger on the pad, whatever it held before; and when it succeeds the pad measures at least 128
  -- units in both directions.
  pub setup_hardware-IsFresh :
      (publish : Bool) (s : Driver) (b : State)
      → length s.ring.cells ≡ ring_size
      → let (configured, s', b') = setup_hardware bus publish s b in
        IsFresh s' × ((configured ≡ false) ⊎ ((128 ≤ s'.x_max) × (128 ≤ s'.y_max)))
  unfolding setup_hardware
  setup_hardware-IsFresh publish s b h =
      let s0 = clear_state s in
      let was_reset = reset_device bus s0 b in
      let sized =
        read_dimensions bus s0 (if s0.legacy_compatibility_path then b else was_reset.1) in
      let native = switch_to_native_protocol bus sized.1 sized.2 in
      let fresh = clear_state-IsFresh s h in
      let measured =
        read_dimensions-IsFresh s0 (if s0.legacy_compatibility_path then b else was_reset.1)
          fresh in
      elim (Bool-cases (not s0.legacy_compatibility_path && not was_reset.0)) [
        | inl e ↦ simp e (fresh, inl refl)
        | inr e ↦ simp e (elim (Bool-cases sized.0) [
          | inr f ↦ simp f (measured, inl refl)
          | inl f ↦ simp f (elim (Bool-cases native.0) [
            | inr g ↦ simp g (measured, inl refl)
            | inl g ↦ simp g (
                configured_lem publish sized.1 measured (
                  read_dimensions-IsSized s0
                    (if s0.legacy_compatibility_path then b else was_reset.1) f))
          ])
        ])
      ]
