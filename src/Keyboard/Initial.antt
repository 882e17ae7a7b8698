-- ===== src/Keyboard/Initial.antt =====
-- The keyboard after `init` has set up its keys.
use voodoo_ps2_focal_tech.Common.{
  ℕ, zero, suc, ◌+◌, ◌/◌, ◌%◌, ◌≤◌, ◌<◌, ◌≡◌, refl, arith, ◌∙◌, List, false, get_or, replicate,
  bit_set,
}
use voodoo_ps2_focal_tech.Keyboard.{Keyboard, init_keys, identity_from, is_key_down}
use voodoo_ps2_focal_tech.Keyboard.Packets.{IsFramed, IsStream}

get_or-identity_from : (i n k : ℕ) → k < n → get_or (identity_from i n) k 0 ≡ i + k
unfolding identity_from
get_or-identity_from i zero k h = absurd (omega arith)
get_or-identity_from i (suc n) zero h = omega arith
get_or-identity_from i (suc n) (suc k) h =
    omega (arith, get_or-identity_from (suc i) n k (omega arith))

abbrev zeros : ℕ → List ℕ
zeros n = replicate n 0

get_or-zeros : (n k : ℕ) → get_or (zeros n) k 0 ≡ 0
get_or-zeros zero k = refl
get_or-zeros (suc n) zero = refl
get_or-zeros (suc n) (suc k) = get_or-zeros n k

bit_set-zero : (k : ℕ) → bit_set 0 k ≡ false
bit_set-zero k = ground arith

is_key_down-zeros : (n k : ℕ) → is_key_down k (zeros n) ≡ false
unfolding is_key_down
is_key_down-zeros n k = rw (get_or-zeros n (k / 32)) (bit_set-zero (k % 32))

-- If the offsets of the ring are at packet boundaries and the sequence count is at most 2, then after init
-- the stream is in order, no key is down and each of the 512 scan codes maps to itself.
pub init_keys-IsStream :
    (m : Keyboard) (k : ℕ)
    → IsFramed m.ring
    → m.extend_count ≤ 2
    → k < 512
    → IsStream (init_keys m)
      × (is_key_down k (init_keys m).key_bit_vector ≡ false)
      × (get_or (init_keys m).ps2_to_ps2_map k 0 ≡ k)
unfolding init_keys
init_keys-IsStream m k framed low h = (
  record { framed = framed; units = refl; extend_low = low },
  is_key_down-zeros 16 k,
  get_or-identity_from 0 512 k h ∙ omega arith,
)
