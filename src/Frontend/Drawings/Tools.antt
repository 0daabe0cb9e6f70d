-- ===== src/Frontend/Drawings/Tools.antt =====
-- frontend/src/lib/drawings/tools.js: the catalogue of the drawing tools.
use stock_dashboard.Prelude.{
  ℕ, String, Bool, not, ◌&&◌, Option, none, some, List, [], ◌∷◌, str_eq, find?, contains,
}

pub record Tool : Type 0 where
  pub key : String
  pub label : String
  pub group : String
  -- clicks that finish the shape; 0 is a freehand drag
  pub points : ℕ
  -- Alt+<key>, or the empty text
  pub shortcut : String

abbrev pub tool : String → String → String → ℕ → String → Tool
tool key label group points shortcut = record {
  key = key;
  label = label;
  group = group;
  points = points;
  shortcut = shortcut;
}

abbrev pub tools : List Tool
tools =
    tool "trendline" "Trend line" "lines" 2 "T"
    ∷ tool "tray" "Ray" "lines" 2 ""
    ∷ tool "extline" "Extended line" "lines" 2 ""
    ∷ tool "hline" "Horizontal line" "lines" 1 "H"
    ∷ tool "ray" "Horizontal ray" "lines" 1 "J"
    ∷ tool "vline" "Vertical line" "lines" 1 "V"
    ∷ tool "arrow" "Arrow" "lines" 2 "A"
    ∷ tool "channel" "Parallel channel" "lines" 3 "C"
    ∷ tool "fib" "Fib retracement" "fib" 2 "G"
    ∷ tool "fibext" "Trend-based fib extension" "fib" 3 ""
    ∷ tool "zone" "Rectangle" "shapes" 2 "R"
    ∷ tool "ellipse" "Ellipse" "shapes" 2 "O"
    ∷ tool "brush" "Brush" "shapes" 0 "B"
    ∷ tool "text" "Text" "annotate" 1 "X"
    ∷ tool "callout" "Callout" "annotate" 2 ""
    ∷ tool "measure" "Measure" "measure" 2 "M"
    ∷ tool "long" "Long position" "measure" 2 "L"
    ∷ tool "short" "Short position" "measure" 2 "S"
    ∷ []

-- `TOOL_BY_KEY[kind]`
unfoldable pub tool_by_key : String → Option Tool
tool_by_key kind = find? (λ t. str_eq t.key kind) tools

-- `TOOL_BY_SHORTCUT[letter]`
unfoldable pub tool_by_shortcut : String → Option String
tool_by_shortcut letter =
    elim (find? (λ t. not (str_eq t.shortcut "") && str_eq t.shortcut letter) tools) [
      | none ↦ none
      | some t ↦ some t.key
    ]

unfoldable pub textual : String → Bool
textual kind = contains kind ("text" ∷ "callout" ∷ [])

-- Unknown kinds default to two points.
unfoldable pub points_needed : String → ℕ
unfolding tool_by_key
points_needed kind = elim (tool_by_key kind) [ none ↦ 2 | some t ↦ t.points ]
