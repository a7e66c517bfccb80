-- ===== src/Timeline/Tests.antt =====
-- Runs of the playback clock, and the theorems at concrete states.
use thaum_painter.Base.{◌≡◌, refl, true, false, some, arith}
use thaum_painter.Base.{add32}
use thaum_painter.Timeline.{TimelineState, advance_playback}
use thaum_painter.Timeline.Playback.{advance_playback-playing, play, play-window}

-- The loop is off and the playhead stands on the last breath.
abbrev at_end : TimelineState
at_end = record {
  current_breath = 9;
  auto_key_enabled = false;
  playing = true;
  loop_enabled = false;
}

wraps_with_loop_off : advance_playback at_end 4 9 ≡ (record at_end { current_breath = 4 }, some 4)
unfolding advance_playback add32
wraps_with_loop_off = refl

advance_playback-playing_example :
    ((advance_playback at_end 4 9).0.playing ≡ true)
    × ((advance_playback at_end 4 9).1 ≡ some (advance_playback at_end 4 9).0.current_breath)
advance_playback-playing_example = advance_playback-playing at_end 4 9

abbrev at_start : TimelineState
at_start = record at_end { current_breath = 4 }

play-window_example :
    ((play 3 at_start 4 9).current_breath ≡ 7) × ((play 6 at_start 4 9).current_breath ≡ 4)
play-window_example = play-window at_start 4 9 3 refl refl (omega arith) (omega arith) (omega arith)
