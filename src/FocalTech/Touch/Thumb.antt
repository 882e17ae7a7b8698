-- ===== src/FocalTech/Touch/Thumb.antt =====
-- The choice of the thumb in a frame of four or five contacts.
use voodoo_ps2_focal_tech.Common.{
  ℕ, zero, suc, ◌+◌, ◌≤◌, ◌<◌, ◌≡◌, ◌≢◌, ◌⊎◌, refl, sym, ◌∙◌, ap, arith, List, [], ◌∷◌, false, inl,
  inr, length, get_or, modify, take, get_or-modify_self, get_or-modify_ne, length-modify,
  Bool-cases, ◌==◌, ltb,
}
use voodoo_ps2_focal_tech.FocalTech.{Transducer, thumb}
use voodoo_ps2_focal_tech.FocalTech.Touch.{
  finger_type_for_index, ThumbSearch, compare_thumb, thumb_search, assign_thumb, is_thumb, set_type,
  no_transducer,
}

abbrev pub at : List Transducer → ℕ → Transducer
at ts k = get_or ts k no_transducer

abbrev pub depth : Transducer → ℕ
depth t = t.current_coordinates.y

thumb_search_grows :
    (i : ℕ) (ts : List Transducer) (a : ThumbSearch) → a.max_y ≤ (thumb_search i ts a).max_y
unfolding thumb_search compare_thumb
thumb_search_grows i [] a = omega arith
thumb_search_grows i (t ∷ ts) a =
    ground (arith, thumb_search_grows (suc i) ts (compare_thumb i t a))

-- No contact lies lower than the maximum found.
thumb_search_dominates :
    (i : ℕ) (ts : List Transducer) (a : ThumbSearch) (k : ℕ)
    → k < length ts
    → depth (at ts k) ≤ (thumb_search i ts a).max_y
unfolding thumb_search compare_thumb
thumb_search_dominates i [] a k h = elim h [ ]
thumb_search_dominates i (t ∷ ts) a zero h =
    ground (arith, thumb_search_grows (suc i) ts (compare_thumb i t a))
thumb_search_dominates i (t ∷ ts) a (suc k) h =
    thumb_search_dominates (suc i) ts (compare_thumb i t a) k (omega arith)

-- The maximum is the start's, or some contact's, which is then the new thumb.
thumb_search_chooses :
    (i : ℕ) (ts : List Transducer) (a : ThumbSearch)
    → (((thumb_search i ts a).max_y ≡ a.max_y) × ((thumb_search i ts a).new_thumb ≡ a.new_thumb))
      ⊎ ((k : ℕ) × (k < length ts)
          × ((thumb_search i ts a).new_thumb ≡ i + k)
          × ((thumb_search i ts a).max_y ≡ depth (at ts k)))
unfolding thumb_search compare_thumb
thumb_search_chooses i [] a = inl (refl, refl)
thumb_search_chooses i (t ∷ ts) a = elim (thumb_search_chooses (suc i) ts (compare_thumb i t a)) [
  | inl (max, new) ↦ elim (Bool-cases (ltb a.max_y (depth t))) [
    | inl lower ↦ inr (0, omega arith, ground arith, ground arith)
    | inr same ↦ inl (ground arith, ground arith)
  ]
  | inr (k, below, new, max) ↦ inr (suc k, omega arith, omega arith, max)
]

is_thumb-finger_type_for_index : (k : ℕ) → is_thumb (finger_type_for_index k) ≡ (k == 3)
unfolding finger_type_for_index
is_thumb-finger_type_for_index zero = refl
is_thumb-finger_type_for_index (suc zero) = refl
is_thumb-finger_type_for_index (suc (suc zero)) = refl
is_thumb-finger_type_for_index (suc (suc (suc zero))) = refl
is_thumb-finger_type_for_index (suc (suc (suc (suc zero)))) = refl
is_thumb-finger_type_for_index (suc (suc (suc (suc (suc k))))) = ground arith

-- The types that the frame gave to contacts `i`, `i + 1`, …
abbrev pub IsTyped : ℕ → List Transducer → Type 0
IsTyped i [] = Unit
IsTyped i (t ∷ ts) = (t.finger_type ≡ finger_type_for_index i) × IsTyped (suc i) ts

-- Past contact 3 the old thumb does not change; up to it, contact 3 becomes the old thumb.
old_kept :
    (i : ℕ) (ts : List Transducer) (a : ThumbSearch)
    → IsTyped i ts
    → 3 < i
    → (thumb_search i ts a).old_thumb ≡ a.old_thumb
unfolding thumb_search compare_thumb
old_kept i [] a types h = refl
old_kept i (t ∷ ts) a types h = ground (
  arith,
  is_thumb-finger_type_for_index i,
  types.0,
  old_kept (suc i) ts (compare_thumb i t a) types.1,
)

old_found :
    (i : ℕ) (ts : List Transducer) (a : ThumbSearch)
    → IsTyped i ts
    → i ≤ 3
    → 3 < i + length ts
    → (thumb_search i ts a).old_thumb ≡ 3
unfolding thumb_search compare_thumb
old_found i [] a types h g = absurd (omega arith)
old_found i (t ∷ ts) a types h g = elim (Bool-cases (i == 3)) [
  | inl at_three ↦ ground (
    arith,
    is_thumb-finger_type_for_index i,
    types.0,
    old_kept (suc i) ts (compare_thumb i t a) types.1,
  )
  | inr before ↦ old_found (suc i) ts (compare_thumb i t a) types.1 (ground arith) (omega arith)
]

typed_at :
    (i : ℕ) (ts : List Transducer) (k : ℕ)
    → IsTyped i ts
    → k < length ts
    → (at ts k).finger_type ≡ finger_type_for_index (i + k)
typed_at i [] k types h = elim h [ ]
typed_at i (t ∷ ts) zero types h = types.0 ∙ ap finger_type_for_index (omega arith)
typed_at i (t ∷ ts) (suc k) types h =
    typed_at (suc i) ts k types.1 (omega arith) ∙ ap finger_type_for_index (omega arith)

at-take : (n k : ℕ) (ts : List Transducer) → k < n → at (take n ts) k ≡ at ts k
at-take zero k ts h = elim h [ ]
at-take (suc n) k [] h = refl
at-take (suc n) zero (t ∷ ts) h = refl
at-take (suc n) (suc k) (t ∷ ts) h = at-take n k ts (omega arith)

length-take : (n : ℕ) (ts : List Transducer) → n ≤ length ts → length (take n ts) ≡ n
length-take zero ts h = refl
length-take (suc n) [] h = absurd (omega arith)
length-take (suc n) (t ∷ ts) h = ap suc (length-take n ts (omega arith))

abbrev start : ThumbSearch
start = record { max_y = 0; new_thumb = 0; old_thumb = 0 }

abbrev pub searched : ℕ → List Transducer → ThumbSearch
searched count ts = thumb_search 0 (take count ts) start

module _ (count : ℕ) (ts : List Transducer) (four : 4 ≤ count) (fits : count ≤ length ts)
    (types : IsTyped 0 (take count ts)) where
  lengths : length (take count ts) ≡ count
  lengths = length-take count ts fits

  old_is_three : (searched count ts).old_thumb ≡ 3
  old_is_three = old_found 0 (take count ts) start types (omega arith) (omega (arith, lengths))

  new_in_range : (searched count ts).new_thumb < count
  new_in_range = elim (thumb_search_chooses 0 (take count ts) start) [
    | inl (max, new) ↦ omega arith
    | inr (k, below, new, max) ↦ omega (arith, lengths)
  ]

  new_is_lowest :
      (k : ℕ) → k < count → depth (at ts k) ≤ depth (at ts (searched count ts).new_thumb)
  new_is_lowest k h =
      let below =
        rw (at-take count k ts h) at
          (thumb_search_dominates 0 (take count ts) start k (omega (arith, lengths))) in
      elim (thumb_search_chooses 0 (take count ts) start) [
        | inl (max, new) ↦ omega arith
        | inr (j, inside, new, max) ↦
            let found = max ∙ ap depth (at-take count j ts (omega (arith, lengths))) in
            let here : (searched count ts).new_thumb ≡ j = omega arith in rw here (omega arith)
      ]

  type_at : (k : ℕ) → k < count → is_thumb (at ts k).finger_type ≡ (k == 3)
  type_at k h =
      ap (λ (t : Transducer). is_thumb t.finger_type) (sym (at-take count k ts h))
      ∙ ap is_thumb (typed_at 0 (take count ts) k types (omega (arith, lengths)))
      ∙ ap (λ (j : ℕ). is_thumb (finger_type_for_index j)) (omega arith)
      ∙ is_thumb-finger_type_for_index k

  abbrev new : ℕ
  new = (searched count ts).new_thumb

  abbrev retyped : List Transducer
  retyped = modify ts 3 (set_type (at ts new).finger_type)

  retyped-at : (k : ℕ) → k < count → k ≢ new → is_thumb (at retyped k).finger_type ≡ false
  retyped-at k h other = elim (Bool-cases (k == 3)) [
    | inl third ↦
        let here : k ≡ 3 = ground arith in
        rw
          (
            here,
            get_or-modify_self ts 3 (set_type (at ts new).finger_type) no_transducer (omega arith),
            type_at new new_in_range,
          )
          (ground arith)
    | inr elsewhere ↦
        rw
          (
            get_or-modify_ne ts 3 k (set_type (at ts new).finger_type) no_transducer (ground arith),
            type_at k h,
          )
          elsewhere
  ]

  thumb_only :
      (k : ℕ)
      → k < count
      → is_thumb (at (modify retyped new (set_type thumb)) k).finger_type ≡ (k == new)
  thumb_only k h = elim (Bool-cases (k == new)) [
    | inl chosen ↦
        let here : k ≡ new = ground arith in
        let inside : new < length retyped =
          omega (arith, new_in_range, length-modify ts 3 (set_type (at ts new).finger_type)) in
        rw (chosen, here, get_or-modify_self retyped new (set_type thumb) no_transducer inside) refl
    | inr other ↦
        rw (other, get_or-modify_ne retyped new k (set_type thumb) no_transducer (ground arith))
          (retyped-at k h (ground arith))
  ]

  assigned : assign_thumb count ts ≡ modify retyped new (set_type thumb)
  unfolding assign_thumb
  assigned = rw old_is_three refl

-- In a frame of at least four contacts, typed in their order, the thumb goes to a contact that no
-- other contact lies below, and to it alone.
pub assign_thumb_lowest :
    (count : ℕ) (ts : List Transducer) (k : ℕ)
    → 4 ≤ count
    → count ≤ length ts
    → IsTyped 0 (take count ts)
    → k < count
    → (j : ℕ) × (j < count)
      × (depth (at ts k) ≤ depth (at ts j))
      × (is_thumb (at (assign_thumb count ts) k).finger_type ≡ (k == j))
assign_thumb_lowest count ts k four fits types h = (
  (searched count ts).new_thumb,
  new_in_range count ts four fits types,
  new_is_lowest count ts four fits types k h,
  rw (assigned count ts four fits types) (thumb_only count ts four fits types k h),
)
