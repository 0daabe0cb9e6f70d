-- ===== src/Frontend/Tooltip.antt =====
-- frontend/src/components/Tooltip.jsx: the tooltips of a page, each with its timers, and the group
-- that they share. An instance is its number, which stands for its token; `group.close` is always
-- the `hide` of the owner. A timer that fires is an event, so any delay is allowed; one set for
-- `show` keeps the properties of the render that set it.
pub mod Step
mod Rule
pub mod Laws
pub mod Suppressed
mod Tests
use stock_dashboard.Prelude.{
  ℕ, ◌-◌, String, Bool, true, false, not, ◌&&◌, ◌||◌, Option, none, some, ltb, ◌==◌, if◌then◌else◌,
  str_eq, is_some,
}

abbrev pub warm_window_ms : ℕ
warm_window_ms = 500

pub data Mode : Type 0 where
  hover focus touch click : Mode

-- The properties that the parent passes; `combos` tells whether there is a shortcut.
pub record Props : Type 0 where
  pub content : Option String
  pub combos : Bool
  pub disabled : Bool
  pub truncate : Bool
  pub open_on_click : Bool

-- One instance: its state, its refs and the timers that are running.
pub record Tip : Type 0 where
  pub props : Props
  pub is_open : Bool
  pub clipped_text : Option String
  pub mode : Option Mode
  pub suppressed : Bool
  pub open_timer : Option Props
  pub close_timer : Bool
  pub press_timer : Option Props

pub record Page : Type 0 where
  pub tips : ℕ → Tip
  pub owner : Option ℕ
  pub last_closed_at : ℕ

abbrev pub is_text : Option String → Bool
is_text none = false
is_text (some s) = not (str_eq s "")

abbrev pub or_else : Option String → Option String → Option String
or_else none b = b
or_else (some a) b = some a

abbrev pub has_content : Props → Option String → Bool
has_content p clipped =
    is_text (if p.truncate then or_else p.content clipped else p.content) || p.combos

-- What is on screen.
unfoldable pub is_shown : Tip → Bool
is_shown t = t.is_open && not t.props.disabled && has_content t.props t.clipped_text

abbrev pub set_tip : ℕ → Tip → Page → Page
set_tip i t s = record s { tips = λ j. if j == i then t else s.tips j }

abbrev pub owns : ℕ → Option ℕ → Bool
owns i none = false
owns i (some j) = j == i

unfoldable pub release_group : ℕ → Bool → ℕ → Page → Page
release_group i closed now s =
    if owns i s.owner
    then record s { owner = none; last_closed_at = if closed then now else s.last_closed_at }
    else s

abbrev pub closed_tip : Tip → Tip
closed_tip t = record t {
  open_timer = none;
  close_timer = false;
  press_timer = none;
  mode = none;
  is_open = false;
}

unfoldable pub hide : ℕ → ℕ → Page → Page
unfolding release_group
hide i now s = release_group i true now (set_tip i (closed_tip (s.tips i)) s)

abbrev close_other : ℕ → ℕ → Option ℕ → Page → Page
close_other i now none s = s
close_other i now (some j) s = if j == i then s else hide j now s

unfoldable pub claim_group : ℕ → ℕ → Page → Page
unfolding hide release_group
claim_group i now s = record (close_other i now s.owner s) { owner = some i }

unfoldable pub group_is_warm : ℕ → Page → Bool
group_is_warm now s = is_some s.owner || ltb (now - s.last_closed_at) warm_window_ms

abbrev opened_tip : Mode → Option String → Tip → Tip
opened_tip how clipped t = record t {
  open_timer = none;
  close_timer = false;
  mode = some how;
  is_open = true;
  clipped_text = clipped;
}

-- `clipped` is the text of the trigger, where `isClipped` says that it is clipped, and `p` the
-- properties that `show` was made with.
abbrev pub may_show : Props → Option String → Option String → Bool
may_show p clipped seen =
    not p.disabled && (if p.truncate then is_some clipped else has_content p seen)

abbrev pub text_after : Props → Option String → Option String → Option String
text_after p clipped seen = if p.truncate && not (is_some p.content) then clipped else seen

unfoldable pub show : Props → Mode → Option String → ℕ → ℕ → Page → Page
unfolding claim_group hide release_group
show p how clipped i now s =
    let t = s.tips i in
    if may_show p clipped t.clipped_text
    then set_tip i (opened_tip how (text_after p clipped t.clipped_text) t) (claim_group i now s)
    else s
