-- ===== src/Controller/Read.antt =====
-- What reading for a port returns, and where the other bytes go.
use mathlib.Core.Path.{subst}
use voodoo_ps2_focal_tech.Common.{
  ℕ, zero, suc, ◌+◌, ◌<◌, ◌≡◌, refl, sym, arith, List, [], ◌∷◌, ◌++◌, Bool, false, ◌&&◌, ◌==◌,
  if◌then◌else◌, Option, none, some, Bool-cases, inl, inr,
}
use voodoo_ps2_focal_tech.Controller.{
  Poll, idle, ready, Dispatch, Controller, port_from_status, dispatch_driver_interrupt, read_loop,
  read_data_port, dispatch_unless_ignored, match_byte, expect_loop, expect_data_port,
}

-- How often the chip is looked at in vain.
abbrev pub idles : List Poll → ℕ
idles [] = 0
idles (idle ∷ ps) = suc (idles ps)
idles (ready status byte ∷ ps) = idles ps

-- The bytes that the history brings for one port, in order.
abbrev pub on_port : Bool → ℕ → List Poll → List ℕ
on_port mux port [] = []
on_port mux port (idle ∷ ps) = on_port mux port ps
on_port mux port (ready status byte ∷ ps) =
    if port == port_from_status mux status then byte ∷ on_port mux port ps else on_port mux port ps

-- How often a byte for a port stands in a history, and among the dispatches.
abbrev pub same : ℕ → ℕ → ℕ → ℕ → ℕ
same port byte p b = if port == p && byte == b then 1 else 0

abbrev pub tally_polls : Bool → ℕ → ℕ → List Poll → ℕ
tally_polls mux port byte [] = 0
tally_polls mux port byte (idle ∷ ps) = tally_polls mux port byte ps
tally_polls mux port byte (ready status b ∷ ps) =
    same port byte (port_from_status mux status) b + tally_polls mux port byte ps

abbrev pub tally_dispatched : ℕ → ℕ → List Dispatch → ℕ
tally_dispatched port byte [] = 0
tally_dispatched port byte (d ∷ ds) = same port byte d.port d.byte + tally_dispatched port byte ds

tally_dispatched-append :
    (port byte : ℕ) (ds es : List Dispatch)
    → tally_dispatched port byte (ds ++ es)
      ≡ tally_dispatched port byte ds + tally_dispatched port byte es
tally_dispatched-append port byte [] es = omega arith
tally_dispatched-append port byte (d ∷ ds) es =
    omega (arith, tally_dispatched-append port byte ds es)

tally-dispatch :
    (port byte p b : ℕ) (c : Controller)
    → tally_dispatched port byte (dispatch_driver_interrupt p b c).dispatched
      ≡ tally_dispatched port byte c.dispatched + same port byte p b
unfolding dispatch_driver_interrupt
tally-dispatch port byte p b c = omega (arith, tally_dispatched-append port byte c.dispatched)

dispatch_keeps :
    (p b : ℕ) (c : Controller)
    → ((dispatch_driver_interrupt p b c).mux_present ≡ c.mux_present)
      × ((dispatch_driver_interrupt p b c).suppress_timeout ≡ c.suppress_timeout)
      × ((dispatch_driver_interrupt p b c).ignore_out_of_order ≡ c.ignore_out_of_order)
unfolding dispatch_driver_interrupt
dispatch_keeps p b c = (refl, refl, refl)

abbrev pub first_or : ℕ → List ℕ → ℕ
first_or d [] = d
first_or d (b ∷ bs) = b

read_loop_first :
    (expected n : ℕ) (ps : List Poll) (c : Controller)
    → c.suppress_timeout ≡ false
    → idles ps < n
    → (read_loop expected n ps c).0 ≡ first_or 0 (on_port c.mux_present expected ps)
unfolding read_loop
read_loop_first expected zero ps c s h = absurd (omega arith)
read_loop_first expected (suc n) [] c s h = refl
read_loop_first expected (suc n) (idle ∷ ps) c s h = read_loop_first expected n ps c s (omega arith)
read_loop_first expected (suc n) (ready status byte ∷ ps) c s h =
    let port = port_from_status c.mux_present status in
    let passed = dispatch_driver_interrupt port byte c in
    ground (arith, dispatch_keeps port byte c, read_loop_first expected (suc n) ps passed)

-- If the chip is not idle for the whole of the timeout, reading for a port returns the first byte
-- of that port's stream, or 0 if the stream has none, whatever else arrives in between.
pub read_data_port_first :
    (expected : ℕ) (c : Controller)
    → c.suppress_timeout ≡ false
    → idles c.polls < 20000
    → (read_data_port expected c).0 ≡ first_or 0 (on_port c.mux_present expected c.polls)
unfolding read_data_port
read_data_port_first expected c s h = read_loop_first expected 20000 c.polls c s h

-- The answer to a read that expects a byte: the first two bytes of the port decide.
abbrev pub expected_answer : ℕ → List ℕ → ℕ
expected_answer wanted [] = 0
expected_answer wanted (a ∷ []) = a
expected_answer wanted (a ∷ b ∷ bs) = if a == wanted then a else if b == wanted then b else a

abbrev pub held_answer : ℕ → Option ℕ → List ℕ → ℕ
held_answer wanted none bs = expected_answer wanted bs
held_answer wanted (some a) [] = a
held_answer wanted (some a) (b ∷ bs) = if b == wanted then b else a

dispatch_unless_keeps :
    (p b : ℕ) (c : Controller)
    → ((dispatch_unless_ignored p b c).mux_present ≡ c.mux_present)
      × ((dispatch_unless_ignored p b c).ignore_out_of_order ≡ c.ignore_out_of_order)
unfolding dispatch_unless_ignored
dispatch_unless_keeps p b c = ground (arith, dispatch_keeps p b c)

expected_answer_cons :
    (wanted a : ℕ) (bs : List ℕ)
    → expected_answer wanted (a ∷ bs) ≡ (if a == wanted then a else held_answer wanted (some a) bs)
expected_answer_cons wanted a [] = ground arith
expected_answer_cons wanted a (b ∷ bs) = refl

expect_loop_answer :
    (expected wanted : ℕ) (held : Option ℕ) (n : ℕ) (ps : List Poll) (c : Controller)
    → idles ps < n
    → (expect_loop expected wanted held n ps c).0
      ≡ held_answer wanted held (on_port c.mux_present expected ps)
unfolding expect_loop match_byte dispatch_unless_ignored
expect_loop_answer expected wanted held zero ps c h = absurd (omega arith)
expect_loop_answer expected wanted none (suc n) [] c h = refl
expect_loop_answer expected wanted (some a) (suc n) [] c h = refl
expect_loop_answer expected wanted held (suc n) (idle ∷ ps) c h =
    expect_loop_answer expected wanted held n ps c (omega arith)
expect_loop_answer expected wanted none (suc n) (ready status byte ∷ ps) c h =
    let port = port_from_status c.mux_present status in
    elim (Bool-cases (expected == port)) [
      | inl ours ↦
          rw (ours, expected_answer_cons wanted byte (on_port c.mux_present expected ps))
            (elim (Bool-cases (byte == wanted)) [
              | inl hit ↦ rw hit refl
              | inr miss ↦ rw miss (expect_loop_answer expected wanted (some byte) (suc n) ps c h)
            ])
      | inr other ↦ rw other (
          rw (dispatch_unless_keeps port byte c).0 at (
            expect_loop_answer expected wanted none (suc n) ps (dispatch_unless_ignored port byte c)
              h))
    ]
expect_loop_answer expected wanted (some a) (suc n) (ready status byte ∷ ps) c h =
    let port = port_from_status c.mux_present status in
    elim (Bool-cases (expected == port)) [
      | inl ours ↦
          rw ours
            (elim (Bool-cases (byte == wanted)) [ inl hit ↦ rw hit refl | inr miss ↦ rw miss refl ])
      | inr other ↦ rw other (
          rw (dispatch_unless_keeps port byte c).0 at (
            expect_loop_answer expected wanted (some a) (suc n) ps
              (dispatch_unless_ignored port byte c) h))
    ]

-- A read that expects a byte returns it if it is the first or the second byte of the port's stream,
-- and otherwise the first byte; with an empty stream it returns 0.
pub expect_data_port_answer :
    (expected wanted : ℕ) (c : Controller)
    → idles c.polls < 10000
    → (expect_data_port expected wanted c).0
      ≡ expected_answer wanted (on_port c.mux_present expected c.polls)
unfolding expect_data_port
expect_data_port_answer expected wanted c h =
    expect_loop_answer expected wanted none 10000 c.polls c h

-- What a read has consumed, with what it held back before.
abbrev held_tally : ℕ → ℕ → ℕ → Option ℕ → ℕ
held_tally port byte expected none = 0
held_tally port byte expected (some a) = same port byte expected a

-- A byte is there to be returned: one is held, or one comes.
abbrev IsAnswered : Option ℕ → List ℕ → Type 0
IsAnswered none [] = ⊥
IsAnswered none (b ∷ bs) = Unit
IsAnswered (some a) bs = Unit

tally-dispatch_unless :
    (port byte p b : ℕ) (c : Controller)
    → c.ignore_out_of_order ≡ 0
    → tally_dispatched port byte (dispatch_unless_ignored p b c).dispatched
      ≡ tally_dispatched port byte c.dispatched + same port byte p b
unfolding dispatch_unless_ignored
tally-dispatch_unless port byte p b c i = ground (arith, tally-dispatch port byte p b c)

not_ignored :
    (p b : ℕ) (c : Controller)
    → c.ignore_out_of_order ≡ 0
    → dispatch_unless_ignored p b c ≡ dispatch_driver_interrupt p b c
unfolding dispatch_unless_ignored
not_ignored p b c i = ground arith

abbrev Conserves : ℕ → ℕ → ℕ → ℕ → Option ℕ → ℕ → List Poll → Controller → Type 0
Conserves port byte expected wanted held n ps c =
    let (result, c') = expect_loop expected wanted held n ps c in
    tally_dispatched port byte c'.dispatched
      + same port byte expected result
      + tally_polls c.mux_present port byte c'.polls
    ≡ tally_dispatched port byte c.dispatched
      + tally_polls c.mux_present port byte ps
      + held_tally port byte expected held

expect_loop-Conserves :
    (port byte expected wanted : ℕ) (held : Option ℕ) (n : ℕ) (ps : List Poll) (c : Controller)
    → c.ignore_out_of_order ≡ 0
    → idles ps < n
    → IsAnswered held (on_port c.mux_present expected ps)
    → Conserves port byte expected wanted held n ps c
unfolding expect_loop match_byte dispatch_driver_interrupt
expect_loop-Conserves port byte expected wanted held zero ps c i h e = absurd (omega arith)
expect_loop-Conserves port byte expected wanted none (suc n) [] c i h e = absurd e
expect_loop-Conserves port byte expected wanted (some a) (suc n) [] c i h e = omega arith
expect_loop-Conserves port byte expected wanted held (suc n) (idle ∷ ps) c i h e =
    expect_loop-Conserves port byte expected wanted held n ps c i (omega arith) e
expect_loop-Conserves port byte expected wanted none (suc n) (ready status b ∷ ps) c i h e =
    elim (Bool-cases (expected == port_from_status c.mux_present status)) [
      | inl ours ↦ elim (Bool-cases (b == wanted)) [
        | inl hit ↦ rw (ours, hit) (ground arith)
        | inr miss ↦
            rw (ours, miss)
              (ground (
                arith,
                expect_loop-Conserves port byte expected wanted (some b) (suc n) ps c i h tt,
              ))
      ]
      | inr other ↦
          let port' = port_from_status c.mux_present status in
          rw (other, not_ignored port' b c i)
            (omega (
              arith,
              expect_loop-Conserves port byte expected wanted none (suc n) ps
                  (dispatch_driver_interrupt port' b c) i h (rw other at e),
              tally-dispatch port byte port' b c,
            ))
    ]
expect_loop-Conserves port byte expected wanted (some a) (suc n) (ready status b ∷ ps) c i h e =
    elim (Bool-cases (expected == port_from_status c.mux_present status)) [
      | inl ours ↦ elim (Bool-cases (b == wanted)) [
        | inl hit ↦ rw (ours, hit) (ground (arith, tally-dispatch_unless port byte expected a c i))
        | inr miss ↦
            rw (ours, miss) (ground (arith, tally-dispatch_unless port byte expected b c i))
      ]
      | inr other ↦
          let port' = port_from_status c.mux_present status in
          rw (other, not_ignored port' b c i)
            (omega (
              arith,
              expect_loop-Conserves port byte expected wanted (some a) (suc n) ps
                  (dispatch_driver_interrupt port' b c) i h (tt),
              tally-dispatch port byte port' b c,
            ))
    ]

-- A read that expects a byte loses none: as often as a byte comes for a port, it is dispatched to
-- that port's driver, left unread, or returned. That holds if out-of-order data is not ignored, the
-- chip does not idle for the whole of the timeout, and the port's stream is not empty.
pub expect_data_port_conserves :
    (port byte expected wanted first : ℕ) (more : List ℕ) (c : Controller)
    → c.ignore_out_of_order ≡ 0
    → idles c.polls < 10000
    → on_port c.mux_present expected c.polls ≡ first ∷ more
    → let (result, c') = expect_data_port expected wanted c in
      tally_dispatched port byte c'.dispatched
        + same port byte expected result
        + tally_polls c.mux_present port byte c'.polls
      ≡ tally_dispatched port byte c.dispatched + tally_polls c.mux_present port byte c.polls
unfolding expect_data_port
expect_data_port_conserves port byte expected wanted first more c i h e = omega (
  arith,
  expect_loop-Conserves port byte expected wanted none 10000 c.polls c i h
      (subst (IsAnswered none) (sym e) tt),
)
