-- ===== src/Elan/Query.antt =====
-- What VoodooPS2Trackpad/VoodooPS2Elan.cpp asks the pad: the commands from ps2_command to send_cmd,
-- elantechDetect, elantechQueryInfo and elantechSetProperties. Requests go through the controller of
-- the bus; the answers to a command that failed are not used. Waits leave no trace.

pub mod Configured
use voodoo_ps2_focal_tech.Common.{
  ℕ, zero, suc, ◌+◌, ◌-◌, ◌*◌, ◌/◌, ◌%◌, ◌^◌, List, [], ◌∷◌, Bool, true, false, not, ◌&&◌, ◌||◌,
  if◌then◌else◌, ◌==◌, ltb, leb, Option, none, some, get_or, replicate, bit_and, bit_or, low_bits,
  u32, sub32, div_signed,
}
use voodoo_ps2_focal_tech.Controller.Request.{Request}
use voodoo_ps2_focal_tech.FocalTech.Setup.{Bus, blank, ack, in_or_out_at}
use voodoo_ps2_focal_tech.Alps.{byte, field}
use voodoo_ps2_focal_tech.Elan.{Elan, DeviceInfo}

-- An operation on the bus that may fail.
abbrev pub M : Type 0 → Type 0 → Type 0
M S A = S → Option A × S

infixl 5 ◌>>=◌ ◌>>◌
abbrev pub bind : {S A B : Type 0} → (A → M S B) → Option A × S → Option B × S
bind f (none, b) = (none, b)
bind f (some a, b) = f a b

abbrev pub ◌>>=◌ : {S A B : Type 0} → M S A → (A → M S B) → M S B
◌>>=◌ m f b = bind f (m b)

abbrev pub ◌>>◌ : {S A B : Type 0} → M S A → M S B → M S B
m >> k = m >>= λ _. k

abbrev pub pure : {S A : Type 0} → A → M S A
pure a b = (some a, b)

abbrev pub fail : {S A : Type 0} → M S A
fail b = (none, b)

abbrev pub is_rate : ℕ → Bool
is_rate r = r == 200 || r == 100 || r == 80 || r == 60 || r == 40 || r == 20 || r == 10

-- The answer to ETP_FW_VERSION_QUERY is a firmware version, not the report of a mouse's rate.
unfoldable pub is_signature_valid : List ℕ → Bool
is_signature_valid p =
    if byte p 0 == 0
    then false
    else if byte p 1 == 0
    then true
    else if leb 6 (low_bits (byte p 0) 4) && bit_and (byte p 1) 0xaf == 0x0f && ltb (byte p 2) 40
    then true
    else not (is_rate (byte p 2))

unfoldable pub convert_res : ℕ → ℕ
convert_res v = (v * 10 + 790) * 10 / 254

-- `switch (ver)` for the version of the IC body.
unfoldable pub hw_of_body : ℕ → Option ℕ
hw_of_body ver =
    if ver == 2 || ver == 4
    then some 2
    else if ver == 5
    then some 3
    else if leb 6 ver && leb ver 15
    then some 4
    else none

abbrev pub hw_of : ℕ → Option ℕ
hw_of fw = if ltb fw 0x02_0030 || fw == 0x02_0600 then some 1 else hw_of_body (field fw 16 4)

-- `set_hw` is `_set_hw_resolution`.
unfoldable pub set_for : Bool → ℕ → Elan → Elan
set_for set_hw hw s =
    let fw = s.info.fw_version in
    record s {
      info = record (s.info) {
        hw_version = hw;
        paritycheck = true;
        jumpy_cursor = fw == 0x02_0022 || fw == 0x02_0600;
        reports_pressure = s.info.reports_pressure || (ltb 1 hw && leb 0x02_0800 fw);
        crc_enabled = field fw 14 1 == 1;
        set_hw_resolution = set_hw;
      };
      packet_length = if hw == 1 then 4 else 6;
    }

abbrev pub set_as : Bool → Elan → Option ℕ → Option Elan
set_as set_hw s none = none
set_as set_hw s (some hw) = some (set_for set_hw hw s)

unfoldable pub set_properties : Bool → Elan → Option Elan
set_properties set_hw s = set_as set_hw s (hw_of s.info.fw_version)

abbrev pub set_range : ℕ → ℕ → Elan → Elan
set_range x y s = record s { info = record (s.info) { x_max = x; y_max = y } }

-- The range of version 1, and of the version 2 that cannot be asked.
abbrev pub range_v1 : Elan → Elan
range_v1 s = record s {
  info = record (s.info) { x_min = 32; y_min = 32; x_max = 544; y_max = 352 };
}

abbrev pub old_range_v2 : Elan → Elan
old_range_v2 s = record s {
  info = record (s.info) { x_min = 0; y_min = 0; x_max = 1152; y_max = 768 };
}

abbrev pub id_range : List ℕ → Elan → Elan
id_range p s =
    set_range (low_bits (byte p 0) 4 * 256 + byte p 1) (field (byte p 0) 4 4 * 256 + byte p 2) s

-- The traces of version 4, where `s` has its range.
unfoldable pub traces_v4 : Elan → Option Elan
traces_v4 s =
    let columns = get_or s.info.capabilities 1 0 in
    let rows = get_or s.info.capabilities 2 0 in
    if ltb columns 2 || ltb s.info.x_max columns
    then none
    else some (record s {
      info = record (s.info) {
        width = s.info.x_max / (columns - 1);
        x_traces = columns;
        y_traces = if leb 2 rows && leb rows s.info.y_max then rows else s.info.y_traces;
      };
    })

abbrev pub is_new_ic : ℕ → Bool
is_new_ic fw = bit_and fw 0x0f_2000 == 0x0f_2000 && not (bit_and fw 0xff == 0)

unfoldable pub set_buttons : Elan → Elan
set_buttons s =
    let pad = field s.info.fw_version 12 1 == 1 in
    record s {
      info = record (s.info) {
        is_buttonpad = pad;
        has_middle_button = is_new_ic s.info.fw_version && not pad;
      };
    }

abbrev pub lift_option : {S A : Type 0} → Option A → M S A
lift_option o b = (o, b)

module _ (bus : Bus) (port : ℕ) where
  open bus use {State, submit}

  -- The answers of a request, from command `k` on.
  abbrev pub answers : ℕ → ℕ → Request → List ℕ
  answers zero k r = []
  answers (suc n) k r = in_or_out_at k r ∷ answers n (suc k) r

  abbrev pub answered : ℕ → Request × State → Option (List ℕ) × State
  answered n (r, b) = (if r.commands_count == suc n then some (answers n 1 r) else none, b)

  unfoldable pub ps2_command : ℕ → ℕ → M State (List ℕ)
  ps2_command n command b = answered n (
      submit
        (record { port = port; commands = ack command ∷ replicate n blank; commands_count = suc n })
        b)

  -- ps2_sliced_command: the command in four pairs of bits.
  unfoldable pub sliced_command : ℕ → M State (List ℕ)
  sliced_command command b =
      let (r, b') =
        submit
          (record {
            port = port;
            commands =
                ack 0xe6
                ∷ ack 0xe8
                ∷ ack (field command 6 2)
                ∷ ack 0xe8
                ∷ ack (field command 4 2)
                ∷ ack 0xe8
                ∷ ack (field command 2 2)
                ∷ ack 0xe8
                ∷ ack (field command 0 2)
                ∷ [];
            commands_count = 9;
          })
          b in
      (if r.commands_count == 9 then some [] else none, b')

  unfoldable pub synaptics_send_cmd : ℕ → ℕ → M State (List ℕ)
  synaptics_send_cmd n c = sliced_command c >> ps2_command n 0xe9

  unfoldable pub elantech_send_cmd : ℕ → ℕ → M State (List ℕ)
  elantech_send_cmd n c = ps2_command 0 0xf8 >> ps2_command 0 c >> ps2_command n 0xe9

  unfoldable pub send_cmd : ℕ → ℕ → Elan → M State (List ℕ)
  send_cmd n c s = if leb 3 s.info.hw_version then elantech_send_cmd n c else synaptics_send_cmd n c

  abbrev pub guard : Bool → M State (List ℕ)
  guard b = if b then pure [] else fail

  -- elantechDetect: the magic knock, and a firmware version.
  unfoldable pub detect : M State (List ℕ)
  detect = do
    ps2_command 0 0xf6
    ps2_command 0 0xf5
    ps2_command 0 0xe6
    ps2_command 0 0xe6
    ps2_command 0 0xe6
    knock ← ps2_command 3 0xe9
    guard (
        byte knock 0 == 0x3c
        && byte knock 1 == 0x03
        && (byte knock 2 == 0xc8 || byte knock 2 == 0x00))
    version ← synaptics_send_cmd 3 0x01
    guard (is_signature_valid version)

  -- A resolution that cannot be asked stays as it is.
  abbrev pub set_resolution : Elan → Option (List ℕ) × State → Option Elan × State
  set_resolution s (none, b) = (some s, b)
  set_resolution s (some p, b) = (
    some (record s {
      info = record (s.info) {
        x_res = convert_res (low_bits (byte p 1) 4);
        y_res = convert_res (field (byte p 1) 4 4);
        bus = byte p 2;
      };
    }),
    b,
  )

  unfoldable pub ask_resolution : Elan → M State Elan
  ask_resolution s b =
      let plain = record s { info = record (s.info) { x_res = 31; y_res = 31 } } in
      if s.info.hw_version == 4
      then set_resolution plain (elantech_send_cmd 3 0x04 b)
      else (some plain, b)

  -- The range of version 2, from the answer to ETP_FW_ID_QUERY.
  unfoldable pub range_v2 : Elan → List ℕ → M State Elan
  range_v2 s p =
      let fw = s.info.fw_version in
      let i = if ltb 0x02_0800 fw && ltb fw 0x02_0900 then 1 else 2 in
      let w = get_or s.info.capabilities 1 0 in
      let h = get_or s.info.capabilities 2 0 in
      if fw / 0x1_0000 == 0x14 && field (byte p 1) 4 1 == 1
      then (do
        q ← send_cmd 3 0x03 s
        pure (
            set_range (div_signed (u32 (sub32 w i * byte q 1)) 2)
              (div_signed (u32 (sub32 h i * byte q 2)) 2) s))
      else if fw == 0x04_0216
      then pure (set_range 819 405 s)
      else if fw == 0x04_0219 || fw == 0x04_0215
      then pure (set_range 900 500 s)
      else pure (set_range (u32 (sub32 w i * 64)) (u32 (sub32 h i * 64)) s)

  abbrev pub has_old_range : Elan → Bool
  has_old_range s =
      s.info.fw_version == 0x02_0800
      || s.info.fw_version == 0x02_0b00
      || s.info.fw_version == 0x02_0030

  unfoldable pub ask_range : Elan → M State Elan
  ask_range s =
      if s.info.hw_version == 1
      then pure (range_v1 s)
      else if s.info.hw_version == 2
      then (if has_old_range s
          then pure (old_range_v2 s)
          else (do p ← send_cmd 3 0x00 s; range_v2 s p))
      else if s.info.hw_version == 3
      then (do p ← send_cmd 3 0x00 s; pure (id_range p s))
      else (do p ← send_cmd 3 0x00 s; lift_option (traces_v4 (id_range p s)))

  unfoldable pub ask_capabilities : Elan → M State Elan
  ask_capabilities s = do
    p ← send_cmd 3 0x02 s
    pure (record s {
      info = record (s.info) { capabilities = p; has_trackpoint = field (byte p 0) 7 1 == 1 };
    })

  unfoldable pub ask_samples : Elan → M State Elan
  ask_samples s =
      if s.info.hw_version == 1
      then pure s
      else (do p ← send_cmd 3 0x03 s; pure (record s { info = record (s.info) { samples = p } }))

  -- This module's absolute mode is broken.
  abbrev pub check_samples : Elan → M State (List ℕ)
  check_samples s = guard (not (get_or s.info.samples 1 0 == 0x74 && s.info.hw_version == 3))

  abbrev pub with_version : List ℕ → Elan → Elan
  with_version p s = record s {
    info = record (s.info) { fw_version = byte p 0 * 0x1_0000 + byte p 1 * 0x100 + byte p 2 };
  }

  unfoldable pub query_info : Bool → Elan → M State Elan
  query_info set_hw s = do
    version ← synaptics_send_cmd 3 0x01
    known ← lift_option (set_properties set_hw (with_version version s))
    capable ← ask_capabilities known
    sampled ← ask_samples capable
    check_samples sampled
    resolved ← ask_resolution sampled
    ranged ← ask_range resolved
    pure (set_buttons ranged)
