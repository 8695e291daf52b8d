-- ===== src/Rate/Window.antt =====
-- rate/window.go: a tick counter packed into one 64-bit word, and the pair of them that forms the
-- sliding window. Counts and ticks are uint32, subticks and packed words uint64, all kept as
-- numbers with their wrap-around written out.
pub mod Packing
pub mod Schedule
pub mod Racing
pub mod Carry
mod Tests
use pmesh.Base.{
  ℕ, zero, suc, ◌+◌, ◌-◌, ◌*◌, ◌/◌, ◌%◌, ◌^◌, min, bit_and, bit_or, Bool, true, false, List, [],
  ◌∷◌, Option, none, some, ◌==◌, ltb, leb, if◌then◌else◌,
}

abbrev pub u32 : ℕ → ℕ
u32 n = n % 2 ^ 32

abbrev pub u64 : ℕ → ℕ
u64 n = n % 2 ^ 64

abbrev pub max_counter : ℕ
max_counter = 2 ^ 32 - 1

abbrev pub sliding_precision_shift : ℕ
sliding_precision_shift = 8

abbrev pub sliding_precision_mask : ℕ
sliding_precision_mask = 2 ^ 8 - 1

-- Unix nanoseconds over the nanoseconds of the period. Go's division panics at a zero period:
-- `none`. Clock readings and periods are not negative here.
unfoldable pub to_ticks : ℕ → ℕ → Option ℕ
to_ticks now dur = if dur == 0 then none else some (u32 (now / dur))

unfoldable pub to_subticks : ℕ → ℕ → Option ℕ
to_subticks now dur =
    if dur == 0 then none else some (u64 (now * 2 ^ sliding_precision_shift) / dur)

-- `Subtick.Tick`
unfoldable pub tick_of : ℕ → ℕ
tick_of s = u32 (s / 2 ^ sliding_precision_shift)

-- `Subtick.Carry`; `^s` of a uint64 is 2^64 - 1 - s.
unfoldable pub carry : ℕ → ℕ → ℕ → ℕ
carry s prev limit =
    let coeff = bit_and (2 ^ 64 - 1 - s) sliding_precision_mask in
    min limit (u32 (u64 (prev * coeff) / 2 ^ sliding_precision_shift))

-- The window is its 64-bit word: the count in the high half, the tick in the low half.
abbrev pub Window : Type 0
Window = ℕ

abbrev pub count_of : Window → ℕ
count_of v = u32 (v / 2 ^ 32)

abbrev pub stamp_of : Window → ℕ
stamp_of v = u32 v

unfoldable pub reset : Window → Window
reset w = 0

unfoldable pub read : Window → ℕ → ℕ
read v tick = if stamp_of v == tick then count_of v else 0

-- `uint64(count)<<32 | uint64(now)`
unfoldable pub pack : ℕ → ℕ → Window
pack count now = bit_or (u64 (count * 2 ^ 32)) now

-- The body of `window.Inc` between the load and the swap: the word to store, or a refusal.
unfoldable pub propose : Window → ℕ → ℕ → Option Window
propose expected now limit =
    let count = if ltb (stamp_of expected) now then 0 else count_of expected in
    if leb limit count then none else some (pack (u32 (count + 1)) now)

-- `window.Inc` where no other goroutine writes between the load and the swap: the swap succeeds in
-- the first round of the loop.
unfoldable pub inc : Window → ℕ → ℕ → Window × Bool
unfolding propose
inc w now limit = elim (propose w now limit) [ none ↦ (w, false) | some desired ↦ (desired, true) ]

-- One round of the loop, with the word that the swap finds: `none` is another round.
unfoldable pub swap_round : Window → Window → ℕ → ℕ → Window × Option Bool
unfolding propose
swap_round loaded found now limit = elim (propose loaded now limit) [
  | none ↦ (found, some false)
  | some desired ↦ if found == loaded then (desired, some true) else (found, none)
]

-- The loop of `window.Inc` under interference: each round loads the word, and meets the word that
-- `writes` leaves there before its swap. Behind the word and the answer stand the writes that come
-- after the loop.
unfoldable pub inc_loop :
    List (Window → Window) → Window → ℕ → ℕ → Window × Option Bool × List (Window → Window)
unfolding swap_round
inc_loop [] w now limit = let (w', ok) = inc w now limit in (w', some ok, [])
inc_loop (write ∷ writes) w now limit =
    let (w', answer) = swap_round w (write w) now limit in
    elim answer [ none ↦ inc_loop writes w' now limit | some ok ↦ (w', some ok, writes) ]

pub record SlidingWindow : Type 0 where
  pub even : Window  -- window[0]
  pub odd : Window  -- window[1]

unfoldable pub reset_sliding : SlidingWindow → SlidingWindow
unfolding reset
reset_sliding w = record { even = reset w.even; odd = reset w.odd }

-- `w.window[i]` and `w.window[i^1]` at `i = tick & 1`
unfoldable pub current : SlidingWindow → ℕ → Window
current w tick = if bit_and tick 1 == 0 then w.even else w.odd

unfoldable pub other : SlidingWindow → ℕ → Window
other w tick = if bit_and tick 1 == 0 then w.odd else w.even

abbrev pub store : SlidingWindow → ℕ → Window → SlidingWindow
store w tick v = record {
  even = if bit_and tick 1 == 0 then v else w.even;
  odd = if bit_and tick 1 == 0 then w.odd else v;
}

-- `slidingWindow.Inc`
unfoldable pub inc_sliding : SlidingWindow → ℕ → ℕ → SlidingWindow × Bool
unfolding current other
inc_sliding w subtick limit =
    let tick = tick_of subtick in
    let count = carry subtick (read (other w tick) tick) (limit / 2) in
    if leb limit count
    then (w, false)
    else (let (v, ok) = inc (current w tick) tick (limit - count) in (store w tick v, ok))

-- `slidingWindow.Read`; the sum wraps.
unfoldable pub read_sliding : SlidingWindow → ℕ → ℕ → ℕ
unfolding current other
read_sliding w subtick limit =
    let tick = tick_of subtick in
    u32 (carry subtick (read (other w tick) tick) (limit / 2) + read (current w tick) tick)
