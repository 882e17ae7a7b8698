-- ===== src/Average.antt =====
-- `SimpleAverage<T, N>` of VoodooPS2Trackpad/VoodooPS2TrackpadCommon.h, with T the 32-bit signed
-- integers: the average of the last N values, over a circular buffer of length `n`.
pub mod Recent
use voodoo_ps2_focal_tech.Common.{
  ℕ, ◌+◌, ◌-◌, List, Bool, if◌then◌else◌, ◌==◌, ltb, leb, get_or, set, u32, sub32, div_signed,
}

pub record Average : Type 0 where
  pub buffer : List ℕ
  pub count : ℕ
  pub sum : ℕ
  pub index : ℕ

unfoldable pub reset : Average → Average
reset a = record a { count = 0; sum = 0; index = 0 }

unfoldable pub filter : ℕ → ℕ → Average → ℕ × Average
filter n x a =
    let added = u32 (a.sum + x) in
    let sum = if a.count == n then sub32 added (get_or a.buffer a.index 0) else added in
    let count = if ltb a.count n then a.count + 1 else a.count in
    (
      div_signed sum count,
      record {
        buffer = set a.buffer a.index x;
        count = count;
        sum = sum;
        index = if leb n (a.index + 1) then 0 else a.index + 1;
      },
    )

unfoldable pub oldest : ℕ → Average → ℕ
oldest n a =
    if a.count == 0
    then 0
    else if ltb a.count n
    then get_or a.buffer 0 0
    else get_or a.buffer a.index 0

unfoldable pub newest : Average → ℕ
newest a =
    if a.count == 0
    then 0
    else get_or a.buffer (if a.index == 0 then a.count - 1 else a.index - 1) 0

unfoldable pub average : Average → ℕ
average a = if a.count == 0 then 0 else div_signed a.sum a.count
