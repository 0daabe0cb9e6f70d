-- ===== src/Frontend/Drawings/Tests.antt =====
-- The drawing layer's theorems at concrete inputs, and runs of its definitions.
use stock_dashboard.Prelude.{ℕ, ◌≡◌, refl, true, false, none, some, List, [], ◌∷◌, arith}
use stock_dashboard.Prelude.Int.{ℤ, pos, ◌+ℤ◌, ◌-ℤ◌, eq_ℤ}
use stock_dashboard.Frontend.Drawings.Shapes.{Prices, Shape}
use stock_dashboard.Frontend.Drawings.Tools.{points_needed}
use stock_dashboard.Frontend.Drawings.Editor.{Editor, commit, commit_from, replace_shapes}
use stock_dashboard.Frontend.Drawings.Editor.History.{
  commits, undo_times, redo_times, Holds, redo-undo-commits,
}
use stock_dashboard.Frontend.Drawings.Editor.Pointer.{Pointer}
use stock_dashboard.Frontend.Drawings.Editor.Events.{Event, down, up, choose_tool, run, step}
use stock_dashboard.Frontend.Drawings.Editor.Invariants.{IsValid, run-IsValid}
use stock_dashboard.Frontend.Drawings.Storage.{Local, World, Conditions, load, persist}
use stock_dashboard.Frontend.Drawings.Storage.Laws.{IsClean, load-persist_failed, load-synced}

-- Whole prices, in cents.
abbrev cents : Prices
cents = record {
  R = ℤ;
  add = λ x y. x +ℤ y;
  sub = λ x y. x -ℤ y;
  neg = λ x. pos 0 -ℤ x;
  abs = λ x. x;
  two_percent = λ x. x;
  half = λ x. x;
  is_zero = λ x. eq_ℤ x (pos 0);
}

abbrev line : Shape ℤ
line = record {
  id = "d1";
  kind = "trendline";
  points =
      record { time = 10; off = pos 0; price = pos 500 }
      ∷ record { time = 20; off = pos 0; price = pos 600 }
      ∷ [];
  text = "";
  locked = false;
}

abbrev empty : Editor ℤ
empty = record {
  tool = none;
  shapes = [];
  selected = none;
  past = [];
  future = [];
  pending = none;
  brush = none;
  drag = none;
  editing = none;
  lock_all = false;
  stored = [];
  has_saved = false;
}

abbrev at_bar : ℕ → Pointer ℤ
at_bar time = record {
  hit = none;
  snapped = some (record { time = time; off = pos 0; price = pos 500 });
  fractional = some (record { time = time; off = pos 0; price = pos 500 });
  fresh_id = "d2";
  on_screen = true;
}

-- A load, a trend line by two clicks, and undo.
abbrev session : List (Event ℤ)
session =
    Event.begin_load
    ∷ Event.loaded (line ∷ [])
    ∷ choose_tool (some "trendline")
    ∷ down (at_bar 10)
    ∷ up false
    ∷ down (at_bar 20)
    ∷ up false
    ∷ Event.undo
    ∷ []

run-IsValid_example : IsValid (run cents (10 ∷ 20 ∷ []) session empty)
unfolding step points_needed
run-IsValid_example =
    run-IsValid cents (10 ∷ 20 ∷ []) session empty
      (tt, (refl, (tt, (refl, (tt, (refl, (tt, (tt, tt))))))))
      (record { fits = omega arith; is_stored = λ m. refl })

-- The line is being dragged, and has moved.
abbrev dragging : Editor ℤ
dragging = record empty {
  shapes = line ∷ [];
  drag = some (record { id = "d1"; handle = some 0; moved = true; last = none; start = [] });
}

abbrev on_line : Pointer ℤ
on_line = record (at_bar 10) { hit = some (record { shape = line; handle = none }) }

redo-undo-commits_example :
    Holds [] (undo_times 2 (commits ([] ∷ (line ∷ []) ∷ []) empty))
    × Holds [] (redo_times 2 (undo_times 2 (commits ([] ∷ (line ∷ []) ∷ []) empty)))
unfolding commit
redo-undo-commits_example = redo-undo-commits ([] ∷ (line ∷ []) ∷ []) empty refl (omega arith)

-- The very array on screen, loaded again, is stored, and there is nothing to undo after it.
same_array : (replace_shapes true (line ∷ []) (record empty { shapes = line ∷ [] })).past ≡ []
unfolding replace_shapes commit_from
same_array = refl

abbrev online : Conditions
online = record { can_get = true; can_save = true; can_store = true; now = 50; stamp = some 60 }

abbrev save_fails : Conditions
save_fails = record online { can_save = false }

abbrev world : World ℕ
world = record { local = none; remote = record { shapes = 1 ∷ []; updated_at = some 40 } }

load-persist_failed_example :
    ((persist save_fails (1 ∷ 2 ∷ []) world).1 ≡ false)
    × ((load online (persist save_fails (1 ∷ 2 ∷ []) world).0).1.shapes ≡ 1 ∷ 2 ∷ [])
    × ((load online (persist save_fails (1 ∷ 2 ∷ []) world).0).1.synced ≡ true)
    × ((load online (persist save_fails (1 ∷ 2 ∷ []) world).0).0.remote.shapes ≡ 1 ∷ 2 ∷ [])
load-persist_failed_example =
    load-persist_failed save_fails online (1 ∷ 2 ∷ []) world refl refl refl refl

abbrev behind : World ℕ
behind = record world {
  local = some (record { shapes = 3 ∷ []; updated_at = some 30; dirty = false });
}

load-synced_example :
    ((load online behind).0.remote.shapes ≡ (load online behind).1.shapes)
    × IsClean (load online behind).1.shapes (load online behind).0.local
unfolding load
load-synced_example = load-synced online behind refl refl

abbrev unsent : Local ℕ
unsent = record { shapes = 3 ∷ []; updated_at = some 30; dirty = true }
