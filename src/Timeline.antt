-- ===== src/Timeline.antt =====
-- The playhead and the playback session (domain/painter-session/timeline-state/timeline_state.rs).
mod Tests
pub mod Playback
use thaum_painter.Base.{ℕ, ◌+◌, max, Bool, true, false, not, ◌||◌, Option, none, some, List}
use thaum_painter.Base.{if◌then◌else◌, ltb, leb, add32}
use thaum_painter.Breath.Pieces.{BreathBar, BarCell, CellType, empty, solid, covering_bar_cell}

pub record TimelineState : Type 0 where
  pub current_breath : ℕ
  pub auto_key_enabled : Bool
  pub playing : Bool
  pub loop_enabled : Bool

unfoldable pub default : TimelineState
default = record {
  current_breath = 0;
  auto_key_enabled = false;
  playing = false;
  loop_enabled = true;
}

unfoldable pub set_current_breath : TimelineState → ℕ → TimelineState
set_current_breath s breath = record s { current_breath = breath }

unfoldable pub toggle_auto_key : TimelineState → TimelineState
toggle_auto_key s = record s { auto_key_enabled = not s.auto_key_enabled }

unfoldable pub toggle_play : TimelineState → TimelineState
toggle_play s = record s { playing = not s.playing }

unfoldable pub toggle_loop : TimelineState → TimelineState
toggle_loop s = record s { loop_enabled = not s.loop_enabled }

unfoldable pub advance_playback : TimelineState → ℕ → ℕ → TimelineState × Option ℕ
advance_playback s window_start window_end =
    let end = max window_end window_start in
    let next = add32 s.current_breath 1 in
    if not s.playing
    then (s, none)
    else if ltb s.current_breath window_start || leb end s.current_breath
    then (record s { current_breath = window_start }, some window_start)
    else if ltb end next
    then if s.loop_enabled
      then (record s { current_breath = window_start }, some window_start)
      else (record s { playing = false }, none)
    else (record s { current_breath = next }, some next)

-- `filter(|cell| cell.cell_type == CellType::Solid).map(|_| breath)`
breath_if_solid : Option BarCell → ℕ → Option ℕ
breath_if_solid none breath = none
breath_if_solid (some cell) breath = elim cell.cell_type [ empty ↦ none | solid ↦ some breath ]

unfoldable pub resolve_editable_breath :
    {B : Type 0} ⦃bar : BreathBar B⦄ → TimelineState → List B → Option ℕ
unfolding breath_if_solid
resolve_editable_breath s blocks =
    if s.auto_key_enabled
    then some s.current_breath
    else breath_if_solid (covering_bar_cell blocks s.current_breath) s.current_breath
