-- ===== src/UserSpace/Clocks.antt =====
-- user_space/test_programs/getdelay.c and getres.c: what they print of the replies of the clocks.
use cse422_archive.Base.{
  ℕ, ◌+◌, ◌-◌, ◌*◌, ◌≤◌, ◌<◌, ◌≡◌, ap, true, false, lt→ltb, List, [], ◌∷◌, ltb, if◌then◌else◌,
  arith, ℤ, pos, negsuc,
}

-- `struct timespec`
pub record Timespec : Type 0 where
  pub tv_sec : ℕ
  pub tv_nsec : ℕ

-- The difference of two numbers, as a `long`.
abbrev pub long_difference : ℕ → ℕ → ℤ
long_difference a b = if ltb a b then negsuc (b - a - 1) else pos (a - b)

-- getdelay.c, from the two replies of `clock_gettime`.
unfoldable pub getdelay : Timespec → Timespec → ℤ
getdelay start end = long_difference end.tv_nsec start.tv_nsec

-- The clocks of getres.c, and its two units; a line names the unit that is printed.
pub data Clock : Type 0 where
  realtime realtime_coarse tai monotonic_raw : Clock

pub data Label : Type 0 where
  realtime_ns realtime_s realtime_coarse_ns tai_ns tai_s monotonic_ns monotonic_s : Label

-- getres.c, from the replies of `clock_getres`: the seconds of the coarse clock are printed as its
-- nanoseconds.
unfoldable pub getres : (Clock → Timespec) → List (Label × ℕ)
getres res =
    (realtime_ns, (res realtime).tv_nsec)
    ∷ (realtime_s, (res realtime).tv_sec)
    ∷ (realtime_coarse_ns, (res realtime_coarse).tv_nsec)
    ∷ (realtime_coarse_ns, (res realtime_coarse).tv_sec)
    ∷ (tai_ns, (res tai).tv_nsec)
    ∷ (tai_s, (res tai).tv_sec)
    ∷ (monotonic_ns, (res monotonic_raw).tv_nsec)
    ∷ (monotonic_s, (res monotonic_raw).tv_sec)
    ∷ []

abbrev pub nanoseconds : Timespec → ℕ
nanoseconds t = t.tv_sec * 1000000000 + t.tv_nsec

-- Where less than a second passes, `getdelay` prints the time that has passed if the second has not
-- changed, and that time less a second if it has.
getdelay-by_second :
    (start end : Timespec)
    → nanoseconds start ≤ nanoseconds end
    → nanoseconds end < nanoseconds start + 1000000000
    → start.tv_nsec < 1000000000
    → end.tv_nsec < 1000000000
    → (start.tv_sec ≡ end.tv_sec → getdelay start end ≡ pos (nanoseconds end - nanoseconds start))
      × (start.tv_sec < end.tv_sec
          → getdelay start end ≡ negsuc (999999999 - (nanoseconds end - nanoseconds start)))
unfolding getdelay
getdelay-by_second start end order near a b = (
  λ e. rw (not_below e) (ap pos (omega (arith, e))),
  λ l. rw (below l) (ap negsuc (omega (arith, l, order, near, a, b))),
)
  where
    still : start.tv_nsec ≤ end.tv_nsec → ltb end.tv_nsec start.tv_nsec ≡ false
    still h = ground arith

    not_below : start.tv_sec ≡ end.tv_sec → ltb end.tv_nsec start.tv_nsec ≡ false
    not_below e = still (omega (arith, e, order))

    below : start.tv_sec < end.tv_sec → ltb end.tv_nsec start.tv_nsec ≡ true
    below l = lt→ltb end.tv_nsec start.tv_nsec (omega (arith, l, near))
