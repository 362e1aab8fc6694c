-- ===== src/Tui/Ticks.antt =====
-- The timers neither stop nor multiply.
use cage.Common.{ℕ, ◌+◌, Bool, true, false, ◌&&◌, ltb, if◌then◌else◌}
use cage.Tui.{Msg, tick, splash_tick, Cmd, next_tick, next_splash_tick, View, splash, batch}
use cage.Tui.Detail
use cage.Tui.Model.{Model, reveal_cols}

-- How many timers of the list's refreshes a command starts, and how many of the banner's steps.
abbrev pub refresh_timers : Cmd → ℕ
refresh_timers next_tick = 1
refresh_timers (batch a b) = refresh_timers a + refresh_timers b
refresh_timers _ = 0

abbrev pub banner_timers : Cmd → ℕ
banner_timers next_splash_tick = 1
banner_timers (batch a b) = banner_timers a + banner_timers b
banner_timers _ = 0

abbrev pub is_tick : Msg → Bool
is_tick tick = true
is_tick _ = false

abbrev is_open : View → Bool → Bool
is_open splash false = true
is_open _ _ = false

-- A step of the banner that is not its last one.
abbrev pub goes_on : {L I : Type 0} → ℕ → Msg → Model L I → Bool
goes_on banner_width splash_tick m =
    is_open m.view m.splash_done && ltb (m.splash_cols + reveal_cols) banner_width
goes_on banner_width _ m = false

abbrev pub once : Bool → ℕ
once b = if b then 1 else 0
