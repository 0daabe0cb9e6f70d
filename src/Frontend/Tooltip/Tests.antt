-- ===== src/Frontend/Tooltip/Tests.antt =====
-- Runs of frontend/src/components/Tooltip.jsx with a row of buttons, and witnesses.
use stock_dashboard.Prelude.{ℕ, ◌≡◌, refl, true, false, none, some, List, [], ◌∷◌}
use stock_dashboard.Frontend.Tooltip.{Props, release_group, hide, claim_group, group_is_warm, show}
use stock_dashboard.Frontend.Tooltip.Step.{Event, on_enter, on_leave, fire, step, run, initial}
use stock_dashboard.Frontend.Tooltip.Laws.{run-initial-is_single}
use stock_dashboard.Frontend.Tooltip.Suppressed.{
  lifts, dismisses, none_lifts, dismissed_stays_closed,
}

abbrev undo_props : ℕ → Props
undo_props i = record {
  content = some "Undo";
  combos = true;
  disabled = false;
  truncate = false;
  open_on_click = false;
}

-- The first opens after its delay; the group is warm, so the second opens at once and closes it.
abbrev scan_row : List (ℕ × ℕ × Event)
scan_row =
    (0, 1000, Event.pointer_enter false none)
    ∷ (0, 1400, Event.open_fires none)
    ∷ (0, 1500, Event.pointer_leave false)
    ∷ (1, 1510, Event.pointer_enter false none)
    ∷ []

scan_row_runs :
    let s = run scan_row (initial undo_props) in
    ((s.tips 0).is_open ≡ false) × ((s.tips 1).is_open ≡ true) × (s.owner ≡ some 1)
unfolding run step on_enter on_leave fire show claim_group hide release_group group_is_warm
scan_row_runs = (refl, refl, refl)

opened : ((run scan_row (initial undo_props)).tips 1).is_open ≡ true
unfolding run step on_enter on_leave fire show claim_group hide release_group group_is_warm
opened = refl

run-initial-is_single_example : ◌≡◌ {A = ℕ} 1 1
run-initial-is_single_example = run-initial-is_single undo_props scan_row 1 1 opened opened

quiet : none_lifts 1 ((1, 1700, Event.pointer_enter false none) ∷ []) ≡ true
unfolding none_lifts lifts
quiet = refl

pressed : dismisses (Event.pointer_down false) ((run scan_row (initial undo_props)).tips 1) ≡ true
unfolding dismisses run step on_enter on_leave fire show claim_group hide release_group
    group_is_warm
pressed = refl

-- Pressing the second button closes its tooltip, and moving over the button does not reopen it.
dismissed_stays_closed_example :
    ((run
        ((1, 1600, Event.pointer_down false) ∷ (1, 1700, Event.pointer_enter false none) ∷ [])
        (run scan_row (initial undo_props))).tips
      1).is_open
    ≡ false
dismissed_stays_closed_example =
    dismissed_stays_closed 1 1600 (Event.pointer_down false)
      ((1, 1700, Event.pointer_enter false none) ∷ []) (run scan_row (initial undo_props)) pressed
      quiet
