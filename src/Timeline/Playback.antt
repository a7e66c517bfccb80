-- ===== src/Timeline/Playback.antt =====
-- What playback does over many breaths.
use thaum_painter.Base.{ℕ, zero, suc, ◌+◌, ◌-◌, ◌≤◌, ◌≡◌, refl, ◌∙◌, true, none, some, ltb, leb}
use thaum_painter.Base.{add32_fits, add32-le, u32_max, arith, if◌then◌else◌, ◌&&◌}
use thaum_painter.Timeline.{TimelineState, advance_playback}

-- Whatever the state and the window, `advance_playback` leaves `playing` as it was, also with the
-- loop off, and it reports the breath where the playhead ends exactly while playing.
pub advance_playback-playing :
    (s : TimelineState) (window_start window_end : ℕ)
    → let r = advance_playback s window_start window_end in
      (r.0.playing ≡ s.playing) × (r.1 ≡ (if s.playing then some r.0.current_breath else none))
unfolding advance_playback
advance_playback-playing s a b =
    (ground (arith, add32-le s.current_breath 1), ground (arith, add32-le s.current_breath 1))

-- While playing, the playhead moves one breath on if it stood in the window before its last breath,
-- and to the window's start otherwise.
pub advance_playback-window :
    (s : TimelineState) (window_start window_end : ℕ)
    → s.playing ≡ true
    → window_start ≤ window_end
    → window_end ≤ u32_max
    → (advance_playback s window_start window_end).0.current_breath ≡ (
        if leb window_start s.current_breath && ltb s.current_breath window_end
        then s.current_breath + 1
        else window_start)
unfolding advance_playback
advance_playback-window s a b p h k =
    ground (arith, add32-le s.current_breath 1, add32_fits s.current_breath 1)

-- `n` ticks of the playback clock.
abbrev pub play : ℕ → TimelineState → ℕ → ℕ → TimelineState
play zero s a b = s
play (suc n) s a b = play n (advance_playback s a b).0 a b

play-inside :
    (n : ℕ) (s : TimelineState) (a b : ℕ)
    → s.playing ≡ true
    → a ≤ s.current_breath
    → s.current_breath + n ≤ b
    → b ≤ u32_max
    → (play n s a b).current_breath ≡ s.current_breath + n
play-inside zero s a b p h k l = omega arith
play-inside (suc n) s a b p h k l =
    let step : (advance_playback s a b).0.current_breath ≡ s.current_breath + 1 =
      ground (arith, advance_playback-window s a b p (omega arith) l) in
    let still = (advance_playback-playing s a b).0 ∙ p in
    play-inside n (advance_playback s a b).0 a b still (omega arith) (omega arith) l ∙ omega arith

play-suc :
    (n : ℕ) (s : TimelineState) (a b : ℕ)
    → play (suc n) s a b ≡ (advance_playback (play n s a b) a b).0
play-suc zero s a b = refl
play-suc (suc n) s a b = play-suc n (advance_playback s a b).0 a b

play-playing : (n : ℕ) (s : TimelineState) (a b : ℕ) → (play n s a b).playing ≡ s.playing
play-playing zero s a b = refl
play-playing (suc n) s a b =
    play-playing n (advance_playback s a b).0 a b ∙ (advance_playback-playing s a b).0

-- From the start of a window, playback shows every breath of it, one after the other up to the last,
-- and then the start again, whether the loop is on or off.
pub play-window :
    (s : TimelineState) (window_start window_end n : ℕ)
    → s.playing ≡ true
    → s.current_breath ≡ window_start
    → window_start ≤ window_end
    → window_end ≤ u32_max
    → n ≤ window_end - window_start
    → ((play n s window_start window_end).current_breath ≡ window_start + n)
      × ((play (suc (window_end - window_start)) s window_start window_end).current_breath
          ≡ window_start)
play-window s a b n p e h k l =
    let last = play-inside (b - a) s a b p (omega arith) (omega arith) k in
    let still = play-playing (b - a) s a b ∙ p in
    (
      play-inside n s a b p (omega arith) (omega arith) k ∙ omega arith,
      rw play-suc (ground (arith, advance_playback-window (play (b - a) s a b) a b still h k)),
    )
