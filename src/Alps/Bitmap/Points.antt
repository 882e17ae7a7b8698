-- ===== src/Alps/Bitmap/Points.antt =====
-- The scan of a bitmap against the bits of the map.
use native.Mathlib.Nat.{pow-suc}
use voodoo_ps2_focal_tech.Common.{
  ℕ, zero, suc, ◌+◌, ◌-◌, ◌/◌, ◌%◌, ◌^◌, ◌≤◌, ◌<◌, ◌≡◌, refl, sym, ap, ◌∙◌, arith, Bool, true,
  false, if◌then◌else◌, ◌==◌, ◌&&◌, not, bit_set, bit_set-suc, Bool-cases, inl, inr,
}
use voodoo_ps2_focal_tech.Alps.Bitmap.{Point, Scan, no_scan, scan_bit, scan, get_bitmap_points}

-- The bit before bit `i`, and the runs that begin below bit `i`.
abbrev pub before : ℕ → ℕ → Bool
before bits zero = false
before bits (suc i) = bit_set bits i

abbrev pub runs_below : ℕ → ℕ → ℕ
runs_below bits zero = 0
runs_below bits (suc i) =
    runs_below bits i + (if bit_set bits i && not (before bits i) then 1 else 0)

abbrev pub end_bit : Point → ℕ
end_bit p = p.start_bit + p.num_bits

-- After the bits below `i`, for bit `j` with the value `v`, if it is among them; `p` is the bit
-- before bit `i`, and `n` counts the runs so far.
record IsScanned (v p : Bool) (n j i : ℕ) (a : Scan) : Type 0 where
  counted : a.fingers ≡ n
  previous : a.prev_bit ≡ p
  recent : suc j ≡ i → v ≡ p
  low_ends : a.on_high ≡ true → j ≡ end_bit a.low → v ≡ false
  high_new : 2 ≤ a.fingers → suc j ≡ a.high.start_bit → v ≡ false
  none_yet : a.fingers ≡ 0 → (a.on_high ≡ false) × (a.prev_bit ≡ false) × (j < i → v ≡ false)
  low_long : 1 ≤ a.fingers → (1 ≤ a.low.num_bits) × (end_bit a.low ≤ i)
  low_first : 1 ≤ a.fingers → j < a.low.start_bit → v ≡ false
  low_run : 1 ≤ a.fingers → a.low.start_bit ≤ j → j < end_bit a.low → v ≡ true
  still_low :
      a.on_high ≡ false
      → 1 ≤ a.fingers
      → (a.fingers ≡ 1) × (end_bit a.low ≡ i) × (a.prev_bit ≡ true)
  only_low :
      a.fingers ≡ 1
      → a.on_high ≡ true
      → (a.prev_bit ≡ false) × (end_bit a.low < i) × (end_bit a.low ≤ j → j < i → v ≡ false)
  high_long :
      2 ≤ a.fingers
      → (a.on_high ≡ true)
        × (1 ≤ a.high.num_bits)
        × (end_bit a.high ≤ i)
        × (end_bit a.low < a.high.start_bit)
        × (a.prev_bit ≡ true → end_bit a.high ≡ i)
  high_run : 2 ≤ a.fingers → a.high.start_bit ≤ j → j < end_bit a.high → v ≡ true
  high_last : 2 ≤ a.fingers → end_bit a.high ≤ j → j < i → v ≡ false

scan_bit-IsScanned :
    (b v p : Bool) (n j i : ℕ) (a : Scan)
    → (j ≡ i → v ≡ b)
    → IsScanned v p n j i a
    → IsScanned v b (n + (if b && not p then 1 else 0)) j (suc i) (scan_bit i b a)
unfolding scan_bit
scan_bit-IsScanned true v p n j i a at h = record {
  counted = ground (arith, h.counted, h.previous);
  previous = ground (arith, h.previous);
  recent = ground (arith, at, h.recent);
  low_ends = ground (arith, at, h.none_yet, h.still_low, h.only_low, h.high_long, h.low_ends);
  high_new = ground (arith, h.recent, h.previous, h.only_low, h.still_low, h.high_long, h.high_new);
  none_yet = ground (arith, at, h.none_yet);
  low_long = ground (arith, h.low_long, h.still_low, h.none_yet);
  low_first = ground (arith, h.low_first, h.none_yet, h.still_low);
  low_run = ground (arith, at, h.low_run, h.low_long, h.none_yet, h.still_low);
  still_low = ground (arith, h.none_yet, h.still_low);
  only_low = ground (arith, at, h.none_yet, h.still_low, h.only_low, h.high_long);
  high_long = ground (arith, h.none_yet, h.low_long, h.still_low, h.only_low, h.high_long);
  high_run = ground (arith, at, h.none_yet, h.still_low, h.only_low, h.high_long, h.high_run);
  high_last = ground (arith, at, h.none_yet, h.still_low, h.only_low, h.high_long, h.high_last);
}
scan_bit-IsScanned false v p n j i a at h = record {
  counted = ground (arith, h.counted, h.previous);
  previous = ground (arith, h.previous);
  recent = ground (arith, at, h.recent);
  low_ends = ground (arith, at, h.none_yet, h.still_low, h.only_low, h.high_long, h.low_ends);
  high_new = ground (arith, h.recent, h.previous, h.only_low, h.still_low, h.high_long, h.high_new);
  none_yet = ground (arith, at, h.none_yet);
  low_long = ground (arith, h.low_long, h.still_low, h.none_yet);
  low_first = ground (arith, h.low_first, h.none_yet, h.still_low);
  low_run = ground (arith, at, h.low_run, h.low_long, h.none_yet, h.still_low);
  still_low = ground (arith, h.none_yet, h.still_low);
  only_low = ground (arith, at, h.none_yet, h.still_low, h.only_low, h.high_long);
  high_long = ground (arith, h.none_yet, h.low_long, h.still_low, h.only_low, h.high_long);
  high_run = ground (arith, at, h.none_yet, h.still_low, h.only_low, h.high_long, h.high_run);
  high_last = ground (arith, at, h.none_yet, h.still_low, h.only_low, h.high_long, h.high_last);
}

-- What the scan promises of a bit `v` at `j`, when the map has no bits behind the scan.
pub record IsRuns (v : Bool) (j : ℕ) (a : Scan) : Type 0 where
  pub none_at_all : a.fingers ≡ 0 → v ≡ false
  pub before_low : 1 ≤ a.fingers → j < a.low.start_bit → v ≡ false
  pub in_low : 1 ≤ a.fingers → a.low.start_bit ≤ j → j < end_bit a.low → v ≡ true
  pub behind_low : 1 ≤ a.fingers → j ≡ end_bit a.low → v ≡ false
  pub only_low : a.fingers ≡ 1 → end_bit a.low ≤ j → v ≡ false
  pub before_high : 2 ≤ a.fingers → suc j ≡ a.high.start_bit → v ≡ false
  pub in_high : 2 ≤ a.fingers → a.high.start_bit ≤ j → j < end_bit a.high → v ≡ true
  pub behind_high : 2 ≤ a.fingers → end_bit a.high ≤ j → v ≡ false
  pub low_long : 1 ≤ a.fingers → 1 ≤ a.low.num_bits
  pub high_long : 2 ≤ a.fingers → (1 ≤ a.high.num_bits) × (end_bit a.low < a.high.start_bit)

IsScanned-IsRuns :
    (v p : Bool) (n j i : ℕ) (a : Scan) → IsScanned v p n j i a → (i ≤ j → v ≡ false) → IsRuns v j a
IsScanned-IsRuns v p n j i a h clear = record {
  none_at_all = ground (arith, clear, h.none_yet);
  before_low = h.low_first;
  in_low = h.low_run;
  behind_low = ground (arith, clear, h.low_ends, h.still_low);
  only_low = ground (arith, clear, h.only_low, h.still_low);
  before_high = h.high_new;
  in_high = h.high_run;
  behind_high = ground (arith, clear, h.high_last);
  low_long = ground (arith, h.low_long);
  high_long = ground (arith, h.high_long);
}

bit_of_zero : (b k : ℕ) → b ≡ 0 → bit_set b k ≡ false
bit_of_zero b zero e = ground arith
bit_of_zero b (suc k) e = bit_set-suc b k ∙ bit_of_zero (b / 2) k (ground arith)

bit_at_zero : (b i j : ℕ) → j ≡ i → bit_set b (j - i) ≡ (b % 2 == 1)
bit_at_zero b i j e = let here : j - i ≡ 0 = omega arith in rw here (ground arith)

bit_ahead : (b i j : ℕ) → suc i ≤ j → bit_set b (j - i) ≡ bit_set (b / 2) (j - suc i)
bit_ahead b i j le =
    let one_more : j - i ≡ suc (j - suc i) = omega arith in rw one_more (bit_set-suc b (j - suc i))

-- The rest `b` of the map, whose bit 0 is bit `i` of it, holds bit `j` if that is still to come.
scan-IsRuns :
    (fuel i b j n : ℕ) (v p : Bool) (a : Scan)
    → b < 2 ^ fuel
    → (i ≤ j → v ≡ bit_set b (j - i))
    → IsScanned v p n j i a
    → IsRuns v j (scan fuel i b a)
unfolding scan
scan-IsRuns zero i b j n v p a small at h =
    IsScanned-IsRuns v p n j i a h (λ le. at le ∙ bit_of_zero b (j - i) (omega arith))
scan-IsRuns (suc fuel) i b j n v p a small at h = elim (Bool-cases (b == 0)) [
  | inl none_left ↦
      rw none_left
        (IsScanned-IsRuns v p n j i a h (λ le. at le ∙ bit_of_zero b (j - i) (ground arith)))
  | inr more ↦
      let bit = b % 2 == 1 in
      let next =
        scan_bit-IsScanned bit v p n j i a (λ e. at (omega arith) ∙ bit_at_zero b i j e) h in
      rw more (
        scan-IsRuns fuel (suc i) (b / 2) j (n + (if bit && not p then 1 else 0)) v bit
          (scan_bit i bit a) (ground (arith, pow-suc 2 fuel))
          (λ le. at (omega arith) ∙ bit_ahead b i j le) next)
]

-- The bits of `m` from `i` on are zero, so no run begins there.
runs_below_clear :
    (m i : ℕ)
    → ((k : ℕ) → i ≤ k → bit_set m k ≡ false)
    → (d : ℕ) → runs_below m (i + d) ≡ runs_below m i
runs_below_clear m i clear zero = ap (runs_below m) (omega arith)
runs_below_clear m i clear (suc d) =
    let longer : i + suc d ≡ suc (i + d) = omega arith in
    rw longer (ground (arith, clear (i + d), runs_below_clear m i clear d))

counts_bit :
    (i : ℕ) (b : Bool) (m : ℕ) (a : Scan)
    → bit_set m i ≡ b
    → a.fingers ≡ runs_below m i
    → a.prev_bit ≡ before m i
    → (scan_bit i b a).fingers ≡ runs_below m (suc i)
unfolding scan_bit
counts_bit i true m a e count prev = ground arith
counts_bit i false m a e count prev = ground arith

follows_bit : (i : ℕ) (b : Bool) (a : Scan) → (scan_bit i b a).prev_bit ≡ b
unfolding scan_bit
follows_bit i true a = ground arith
follows_bit i false a = ground arith

no_scan-IsScanned : (v : Bool) (j : ℕ) → IsScanned v false 0 j 0 no_scan
no_scan-IsScanned v j = record {
  counted = refl;
  previous = refl;
  recent = ground arith;
  low_ends = ground arith;
  high_new = ground arith;
  none_yet = ground arith;
  low_long = ground arith;
  low_first = ground arith;
  low_run = ground arith;
  still_low = ground arith;
  only_low = ground arith;
  high_long = ground arith;
  high_run = ground arith;
  high_last = ground arith;
}

scan_counts :
    (fuel i b m : ℕ) (a : Scan)
    → b < 2 ^ fuel
    → ((k : ℕ) → i ≤ k → bit_set m k ≡ bit_set b (k - i))
    → a.fingers ≡ runs_below m i
    → a.prev_bit ≡ before m i
    → (scan fuel i b a).fingers ≡ runs_below m (i + fuel)
unfolding scan
scan_counts zero i b m a small at count prev = count ∙ ap (runs_below m) (omega arith)
scan_counts (suc fuel) i b m a small at count prev = elim (Bool-cases (b == 0)) [
  | inl none_left ↦ rw none_left (
      count
      ∙ sym (
          runs_below_clear m i (λ k le. at k le ∙ bit_of_zero b (k - i) (ground arith)) (suc fuel)))
  | inr more ↦
      let now = at i (omega arith) ∙ bit_at_zero b i i refl in
      let longer : i + suc fuel ≡ suc i + fuel = omega arith in
      rw (more, longer)
        (scan_counts fuel (suc i) (b / 2) m (scan_bit i (b % 2 == 1) a)
          (ground (arith, pow-suc 2 fuel)) (λ k le. at k (omega arith) ∙ bit_ahead b i k le)
          (counts_bit i (b % 2 == 1) m a now count prev) (follows_bit i (b % 2 == 1) a ∙ sym now))
]

-- For a 32-bit map, the scan counts the runs of ones, and at any bit: the map is clear below `low`,
-- set in it and clear behind it, and clear everywhere behind it if that is the only run. If there
-- are more, then `high` lies behind the gap, the bit before it is clear, the bits in it are set and
-- all behind it are clear. Without a run all bits are clear.
pub get_bitmap_points-IsRuns :
    (map j : ℕ)
    → map < 2 ^ 32
    → ((get_bitmap_points map).fingers ≡ runs_below map 32)
      × IsRuns (bit_set map j) j (get_bitmap_points map)
unfolding get_bitmap_points
get_bitmap_points-IsRuns map j small = (
  scan_counts 32 0 map map no_scan small (λ k le. ap (bit_set map) (omega arith)) refl refl,
  scan-IsRuns 32 0 map j 0 (bit_set map j) false no_scan small
      (λ le. ap (bit_set map) (omega arith)) (no_scan-IsScanned _ j),
)
