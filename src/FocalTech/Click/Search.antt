-- ===== src/FocalTech/Click/Search.antt =====
-- The finger that clicks, among those that are down and have a position.
use voodoo_ps2_focal_tech.Common.{
  ℕ, zero, suc, ◌+◌, ◌≤◌, ◌<◌, ◌≡◌, refl, ◌∙◌, arith, List, [], ◌∷◌, true, ◌⊎◌, inl, inr, some,
  length, get_or, sub32, Bool-cases, not, ◌&&◌, ◌||◌, ltb,
}
use voodoo_ps2_focal_tech.FocalTech.{Finger, no_finger, Driver}
use voodoo_ps2_focal_tech.FocalTech.Click.{
  clamp_position, is_usable, ClickSearch, consider, click_search, no_click, find_click,
}

-- A clamped coordinate lies on the pad.
pub clamp_position-le :
    (max v : ℕ) → max < 0x8000_0000 → v < 0x1_0000_0000 → clamp_position max v ≤ max
unfolding clamp_position
clamp_position-le max v h k = ground arith

module _ (x_max y_max : ℕ) where
  -- How far down the pad a finger is: the driver's y grows towards the user.
  abbrev pub lowness : Finger → ℕ
  lowness f = sub32 y_max (clamp_position y_max f.y)

  abbrev search : ℕ → ClickSearch → List Finger → ClickSearch
  search = click_search x_max y_max

  consider_grows :
      (i : ℕ) (f : Finger) (c : ClickSearch)
      → c.found ≡ true
      → ((consider x_max y_max i f c).found ≡ true)
        × (c.click_y ≤ (consider x_max y_max i f c).click_y)
  unfolding consider
  consider_grows i f c h = ground arith

  search_grows :
      (i : ℕ) (c : ClickSearch) (fs : List Finger)
      → c.found ≡ true
      → ((search i c fs).found ≡ true) × (c.click_y ≤ (search i c fs).click_y)
  unfolding click_search
  search_grows i c [] h = ground arith
  search_grows i c (f ∷ fs) h =
      let (found, below) = consider_grows i f c h in
      let (rest, higher) = search_grows (suc i) (consider x_max y_max i f c) fs found in
      (rest, omega arith)

  consider_sees :
      (i : ℕ) (f : Finger) (c : ClickSearch)
      → is_usable f ≡ true
      → ((consider x_max y_max i f c).found ≡ true)
        × (lowness f ≤ (consider x_max y_max i f c).click_y)
  unfolding consider
  consider_sees i f c h = ground arith

  -- No usable finger is lower than the result.
  search_dominates :
      (i : ℕ) (c : ClickSearch) (fs : List Finger) (k : ℕ)
      → k < length fs
      → is_usable (get_or fs k no_finger) ≡ true
      → ((search i c fs).found ≡ true) × (lowness (get_or fs k no_finger) ≤ (search i c fs).click_y)
  unfolding click_search
  search_dominates i c [] k h u = elim h [ ]
  search_dominates i c (f ∷ fs) zero h u =
      let (found, below) = consider_sees i f c u in
      let (rest, higher) = search_grows (suc i) (consider x_max y_max i f c) fs found in
      (rest, omega arith)
  search_dominates i c (f ∷ fs) (suc k) h u =
      search_dominates (suc i) (consider x_max y_max i f c) fs k (omega arith) u

  -- The result is what the search began with, or stands for a usable finger.
  abbrev pub Chosen : ℕ → ClickSearch → List Finger → Type 0
  Chosen i c fs =
      (k : ℕ) × (k < length fs)
      × (c.found ≡ true)
      × (c.click_finger ≡ some (i + k))
      × (is_usable (get_or fs k no_finger) ≡ true)
      × (c.click_x ≡ clamp_position x_max (get_or fs k no_finger).x)
      × (c.click_y ≡ lowness (get_or fs k no_finger))

  consider_chooses :
      (i : ℕ) (f : Finger) (fs : List Finger) (c : ClickSearch)
      → (consider x_max y_max i f c ≡ c) ⊎ Chosen i (consider x_max y_max i f c) (f ∷ fs)
  unfolding consider
  consider_chooses i f fs c =
      elim (Bool-cases (is_usable f && (not c.found || ltb c.click_y (lowness f)))) [
        | inl better ↦
            rw better (inr (0, omega arith, refl, ground arith, ground arith, refl, refl))
        | inr worse ↦ rw worse (inl refl)
      ]

  search_chooses :
      (i : ℕ) (c : ClickSearch) (fs : List Finger)
      → (search i c fs ≡ c) ⊎ Chosen i (search i c fs) fs
  unfolding click_search
  search_chooses i c [] = inl refl
  search_chooses i c (f ∷ fs) = elim (search_chooses (suc i) (consider x_max y_max i f c) fs) [
    | inl kept ↦ elim (consider_chooses i f fs c) [
      | inl same ↦ inl (kept ∙ same)
      | inr here ↦ inr (rw kept here)
    ]
    | inr (k, below, found, finger, usable, at_x, at_y) ↦
        inr (suc k, omega arith, found, finger ∙ ground arith, usable, at_x, at_y)
  ]

abbrev pub raw_finger : Driver → ℕ → Finger
raw_finger s k = get_or s.hardware.fingers k no_finger

-- The clicking finger, the search's result, and its place on the pad.
abbrev pub Clicked : Driver → ℕ → Type 0
Clicked s k =
    let c = find_click s in
    (k < length s.hardware.fingers)
    × (c.found ≡ true)
    × (c.click_finger ≡ some k)
    × (is_usable (raw_finger s k) ≡ true)
    × (c.click_x ≡ clamp_position s.x_max (raw_finger s k).x)
    × (c.click_y ≡ lowness s.x_max s.y_max (raw_finger s k))

pub find_click-Clicked : (s : Driver) → (find_click s ≡ no_click) ⊎ ((k : ℕ) × Clicked s k)
unfolding find_click
find_click-Clicked s = elim (search_chooses s.x_max s.y_max 0 no_click s.hardware.fingers) [
  | inl none_found ↦ inl none_found
  | inr (k, below, found, finger, usable, at_x, at_y) ↦
      inr (k, (below, found, finger ∙ ground arith, usable, at_x, at_y))
]

find_click_dominates :
    (s : Driver) (j : ℕ)
    → j < length s.hardware.fingers
    → is_usable (raw_finger s j) ≡ true
    → ((find_click s).found ≡ true)
      × (lowness s.x_max s.y_max (raw_finger s j) ≤ (find_click s).click_y)
unfolding find_click
find_click_dominates s j h u = search_dominates s.x_max s.y_max 0 no_click s.hardware.fingers j h u

-- If any finger is usable, the finger that clicks is a usable one, its recorded position is its own
-- clamped to the pad, and no usable finger lies lower.
pub find_click_lowest :
    (s : Driver) (j : ℕ)
    → j < length s.hardware.fingers
    → is_usable (raw_finger s j) ≡ true
    → (k : ℕ) × Clicked s k × (lowness s.x_max s.y_max (raw_finger s j) ≤ (find_click s).click_y)
find_click_lowest s j h u = elim (find_click-Clicked s) [
  | inl nothing ↦ cc (nothing, (find_click_dominates s j h u).0)
  | inr (k, clicked) ↦ (k, clicked, (find_click_dominates s j h u).1)
]
