-- ===== src/FocalTech/Setup/Detect.antt =====
-- The legacy fallback of the detection, and controllers with several AUX ports.
use voodoo_ps2_focal_tech.Common.{ℕ, ◌<◌, ◌≡◌, arith, true, false}
use voodoo_ps2_focal_tech.FocalTech.{Driver}
use voodoo_ps2_focal_tech.FocalTech.Stream.{publish_runtime_diagnostics}
use voodoo_ps2_focal_tech.FocalTech.Setup.{
  Bus, detect_focaltech, detect_with_fallback, count_aux_nubs, probe,
}

module _ (bus : Bus) where
  open bus use {State}

  fallback_kept_off :
      (s : Driver) (b : State)
      → 1 < s.aux_nub_count
      → detect_with_fallback bus s b ≡ (
        (detect_focaltech bus (record s { legacy_compatibility_path = false }) b).0,
        record s { legacy_compatibility_path = false },
        (detect_focaltech bus (record s { legacy_compatibility_path = false }) b).1,
      )
  unfolding detect_with_fallback
  fallback_kept_off s b h = ground arith

  -- Where the controller has more than one AUX nub, a probe does to the controller and its devices
  -- what the FocalTech signature query of its own port does, and nothing else: it sends nothing to
  -- the keyboard and leaves the command byte alone, and it never takes the legacy path.
  pub probe_muxed :
      (port : ℕ) (s : Driver) (b : State)
      → 1 < count_aux_nubs bus (record s { has_device = true; provider_port = port }) b
      → let asked =
          detect_focaltech bus
            (record s {
              has_device = true;
              provider_port = port;
              aux_nub_count =
                  count_aux_nubs bus (record s { has_device = true; provider_port = port }) b;
              legacy_compatibility_path = false;
            })
            b in
        let (detected, s', b') = probe bus port s b in
        (detected ≡ asked.0) × (b' ≡ asked.1) × (s'.legacy_compatibility_path ≡ false)
  unfolding probe publish_runtime_diagnostics
  probe_muxed port s b h =
      let s0 = record s { has_device = true; provider_port = port } in
      ground (arith, fallback_kept_off (record s0 { aux_nub_count = count_aux_nubs bus s0 b }) b h)
