-- ===== src/Average/Recent.antt =====
-- The filter against its specification: a list of the last N values.
use voodoo_ps2_focal_tech.Common.{
  ℕ, zero, suc, ◌+◌, ◌-◌, ◌≤◌, ◌<◌, ◌≡◌, refl, sym, ap, ◌∙◌, arith, List, [], ◌∷◌, ◌++◌,
  if◌then◌else◌, ltb, get_or, get_or-set_self, set, length, length-set, length-append, drop, u32,
  sub32, div_signed, Bool-cases, inl, inr,
}
use voodoo_ps2_focal_tech.Ring.Window.{window, offset, window_snoc, window-set, length-window}
use voodoo_ps2_focal_tech.Average.{Average, filter}

-- The values that the buffer holds, the oldest first.
abbrev pub recent : ℕ → Average → List ℕ
recent n a = window n a.buffer a.count (if ltb a.count n then 0 else a.index)

abbrev pub total : List ℕ → ℕ
total [] = 0
total (x ∷ xs) = x + total xs

abbrev pub last : ℕ → List ℕ → List ℕ
last n xs = drop (length xs - n) xs

pub record IsAverage (n : ℕ) (a : Average) : Type 0 where
  pub size : length a.buffer ≡ n
  pub some_cell : 1 ≤ n
  pub small : n < 0x8000_0000
  pub count_in : a.count ≤ n
  pub index_in : a.index < n
  pub filling : a.count < n → a.index ≡ a.count
  pub words : (i : ℕ) → get_or a.buffer i 0 < 0x1_0000_0000
  pub summed : a.sum ≡ u32 (total (recent n a))

total-snoc : (xs : List ℕ) (x : ℕ) → total (xs ++ x ∷ []) ≡ total xs + x
total-snoc [] x = ground arith
total-snoc (y ∷ xs) x = omega (arith, total-snoc xs x)

-- While the buffer fills, the value is written behind the others.
window-filling :
    (n x : ℕ) (cells : List ℕ) (k : ℕ)
    → length cells ≡ n
    → k < n
    → window n (set cells k x) (suc k) 0 ≡ window n cells k 0 ++ x ∷ []
window-filling n x cells k size room =
    let at_end : offset n 0 k ≡ k = ground (arith, room) in
    rw
      (
        window_snoc n (set cells k x) k 0 (omega (arith, room)) room,
        at_end,
        get_or-set_self cells k x 0 (omega (arith, size, room)),
        window-set n cells k 0 k x (omega (arith, room)) (omega (arith, room))
            (λ m below e. ground (arith, room, below, e)),
      )
      refl

-- When it is full, the value takes the place of the oldest.
window-full :
    (k x : ℕ) (cells : List ℕ) (i : ℕ)
    → length cells ≡ suc k
    → i < suc k
    → window (suc k) (set cells i x) (suc k) (offset (suc k) i 1)
      ≡ window (suc k) cells k (offset (suc k) i 1) ++ x ∷ []
window-full k x cells i size inside =
    let next = offset (suc k) i 1 in
    let next_in : next < suc k = ground (arith, inside) in
    let round : offset (suc k) next k ≡ i = ground (arith, inside) in
    rw
      (
        window_snoc (suc k) (set cells i x) k next next_in (omega arith),
        round,
        get_or-set_self cells i x 0 (omega (arith, size, inside)),
        window-set (suc k) cells k next i x next_in (omega arith)
            (λ m below e. ground (arith, inside, below, e)),
      )
      refl

window-at :
    (n k k' i i' : ℕ) (cells : List ℕ) → k ≡ k' → i ≡ i' → window n cells k i ≡ window n cells k' i'
window-at n k k' i i' cells e f = rw (e, f) refl

filter_filling :
    (n x : ℕ) (a : Average)
    → IsAverage n a
    → a.count < n
    → recent n (filter n x a).1 ≡ recent n a ++ x ∷ []
unfolding filter
filter_filling n x a h room =
    let b = (filter n x a).1 in
    let at_count = h.filling room in
    window-at n b.count (suc a.count) (if ltb b.count n then 0 else b.index) 0 b.buffer
      (ground (arith, room)) (ground (arith, room, at_count))
    ∙ ap (λ i. window n (set a.buffer i x) (suc a.count) 0) at_count
    ∙ window-filling n x a.buffer a.count h.size room
    ∙ ap (λ w. w ++ x ∷ [])
        (window-at n a.count a.count 0 (if ltb a.count n then 0 else a.index) a.buffer refl
          (ground (arith, room)))

-- When it is full, the oldest value goes.
filter_full :
    (k x : ℕ) (a : Average)
    → IsAverage (suc k) a
    → a.count ≡ suc k
    → (recent (suc k) a
        ≡ get_or a.buffer a.index 0 ∷ window (suc k) a.buffer k (offset (suc k) a.index 1))
      × (recent (suc k) (filter (suc k) x a).1
          ≡ window (suc k) a.buffer k (offset (suc k) a.index 1) ++ x ∷ [])
unfolding filter
filter_full k x a h full =
    let b = (filter (suc k) x a).1 in
    (
      window-at (suc k) a.count (suc k) (if ltb a.count (suc k) then 0 else a.index) a.index
            a.buffer full (ground (arith, full))
          ∙ unfold window in refl,
      window-at (suc k) b.count (suc k) (if ltb b.count (suc k) then 0 else b.index)
            (offset (suc k) a.index 1) b.buffer (ground (arith, full))
            (ground (arith, full, h.index_in))
          ∙ window-full k x a.buffer a.index h.size h.index_in,
    )

abbrev pub average_of : List ℕ → ℕ
average_of xs = div_signed (u32 (total xs)) (length xs)

last-shorter : (n x : ℕ) (xs : List ℕ) → length xs < n → last n (xs ++ x ∷ []) ≡ xs ++ x ∷ []
last-shorter n x xs h =
    let whole : length (xs ++ x ∷ []) - n ≡ 0 = omega (arith, h, length-append xs (x ∷ [])) in
    rw whole refl

last-full :
    (n x y : ℕ) (ys : List ℕ) → suc (length ys) ≡ n → last n (y ∷ ys ++ x ∷ []) ≡ ys ++ x ∷ []
last-full n x y ys h =
    let one : suc (length (ys ++ x ∷ [])) - n ≡ 1 = omega (arith, h, length-append ys (x ∷ [])) in
    rw one refl

set-words :
    (cells : List ℕ) (j x i : ℕ)
    → x < 0x1_0000_0000
    → get_or cells i 0 < 0x1_0000_0000
    → get_or (set cells j x) i 0 < 0x1_0000_0000
set-words [] j x i word h = h
set-words (c ∷ cells) zero x zero word h = word
set-words (c ∷ cells) zero x (suc i) word h = h
set-words (c ∷ cells) (suc j) x zero word h = h
set-words (c ∷ cells) (suc j) x (suc i) word h = set-words cells j x i word h

slide_sum : (t x y : ℕ) → y < 0x1_0000_0000 → sub32 (u32 (u32 (y + t) + x)) y ≡ u32 (t + x)
slide_sum t x y h = omega (arith, h)

-- The buffer after a value: what it holds, and the sum of that.
record IsSlid (n x : ℕ) (a b : Average) : Type 0 where
  holds : recent n b ≡ last n (recent n a ++ x ∷ [])
  summed : b.sum ≡ u32 (total (recent n b))

filling-IsSlid :
    (n x : ℕ) (a : Average) → IsAverage n a → a.count < n → IsSlid n x a (filter n x a).1
unfolding filter
filling-IsSlid n x a h room =
    let holds = filter_filling n x a h room in
    let long = length-window n a.buffer a.count (if ltb a.count n then 0 else a.index) in
    record {
      holds = holds ∙ sym (last-shorter n x (recent n a) (omega (arith, long, room)));
      summed =
          ground (arith, room, h.summed)
          ∙ sym (ap (λ l. u32 (total l)) holds ∙ ap u32 (total-snoc (recent n a) x));
    }

full-IsSlid :
    (k x : ℕ) (a : Average)
    → IsAverage (suc k) a
    → a.count ≡ suc k
    → IsSlid (suc k) x a (filter (suc k) x a).1
unfolding filter
full-IsSlid k x a h full =
    let (before, after) = filter_full k x a h full in
    let y = get_or a.buffer a.index 0 in
    let ys = window (suc k) a.buffer k (offset (suc k) a.index 1) in
    let long = length-window (suc k) a.buffer k (offset (suc k) a.index 1) in
    let sum : a.sum ≡ u32 (y + total ys) = h.summed ∙ ap (λ l. u32 (total l)) before in
    record {
      holds =
          after
          ∙ sym (
              ap (λ l. last (suc k) (l ++ x ∷ [])) before ∙ last-full (suc k) x y ys (ap suc long));
      summed =
          ground (arith, full, sum, slide_sum (total ys) x y (h.words a.index))
          ∙ sym (ap (λ l. u32 (total l)) after ∙ ap u32 (total-snoc ys x));
    }

filter-IsSlid : (n x : ℕ) (a : Average) → IsAverage n a → IsSlid n x a (filter n x a).1
filter-IsSlid zero x a h = absurd (omega (arith, h.some_cell))
filter-IsSlid (suc k) x a h = elim (Bool-cases (ltb a.count (suc k))) [
  | inl room ↦ filling-IsSlid (suc k) x a h (ground (arith, room))
  | inr full ↦ full-IsSlid k x a h (ground (arith, full, h.count_in))
]

-- After a value, the buffer holds the last N values, that one included, the filter returns their
-- average, which is the sum on 32 bits divided by their number, and the buffer is in order again, if
-- it was so before and the value is a 32-bit word.
pub filter_lem :
    (n x : ℕ) (a : Average)
    → IsAverage n a
    → x < 0x1_0000_0000
    → (recent n (filter n x a).1 ≡ last n (recent n a ++ x ∷ []))
      × ((filter n x a).0 ≡ average_of (recent n (filter n x a).1))
      × IsAverage n (filter n x a).1
unfolding filter
filter_lem n x a h word =
    let b = (filter n x a).1 in
    let slid = filter-IsSlid n x a h in
    let long = length-window n b.buffer b.count (if ltb b.count n then 0 else b.index) in
    (
      slid.holds,
      ap (λ t. div_signed t b.count) slid.summed
          ∙ ap (div_signed (u32 (total (recent n b)))) (sym long),
      record {
        size = length-set a.buffer a.index x ∙ h.size;
        some_cell = h.some_cell;
        small = h.small;
        count_in = ground (arith, h.count_in);
        index_in = ground (arith, h.index_in);
        filling = ground (arith, h.filling, h.index_in, h.count_in);
        words = λ i. set-words a.buffer a.index x i word (h.words i);
        summed = slid.summed;
      },
    )
