-- ===== src/Client/Screen.antt =====
-- src/client/ui: windows with their widgets, and the label whose text is shown for some time. What
-- ncurses prints is a parameter.
pub mod Response
use twitter_clone.Prelude.{
  ℕ, zero, suc, ◌+◌, ◌≤◌, ◌<◌, ◌≡◌, ◌≢◌, Bool, true, false, List, [], ◌∷◌, ◌++◌, map, Option, some,
  if◌then◌else◌, ltb, is_empty, length, get_elem?, All, Bytes,
}

-- A byte that mvwprintw, whose text is a format, prints as it is.
abbrev pub IsPlain : ℕ → Type 0
IsPlain c = (31 < c) × (c < 127) × (c ≢ b'%')

-- A window of ncurses, with the byte in each cell.
pub record Terminal : Type 1 where
  pub Screen : Type 0
  pub width : ℕ
  pub cell : Screen → ℕ → ℕ → ℕ
  -- mvwprintw, at a row and a column.
  pub print : Screen → ℕ → ℕ → Bytes → Screen
  -- The text stands from the column on, if it fits into the row, and nothing behind it changes.
  pub print_in :
      (s : Screen) (y x : ℕ) (t : Bytes) (i c : ℕ)
      → All IsPlain t
      → x + length t ≤ width
      → get_elem? t i ≡ some c
      → cell (print s y x t) y (x + i) ≡ c
  pub print_behind :
      (s : Screen) (y x : ℕ) (t : Bytes) (i : ℕ)
      → All IsPlain t
      → x + length t ≤ width
      → length t ≤ i
      → cell (print s y x t) y (x + i) ≡ cell s y (x + i)
  -- box(window, 0, 0), and wborder with a space for each of its eight bytes.
  pub box : Screen → Screen
  pub wborder : Screen → Screen
  -- The border takes up the first row.
  pub wborder_top : (s : Screen) (x : ℕ) → x < width → cell (wborder s) 0 x ≡ b' '

pub record Vector2 : Type 0 where
  pub x : ℕ
  pub y : ℕ

pub record TimeoutLabel : Type 0 where
  pub text : Bytes
  pub timeout_seconds : ℕ
  pub init : ℕ
  pub position : Vector2

unfoldable pub new_timeout_label : Vector2 → Bytes → TimeoutLabel
new_timeout_label position text = record {
  text = text;
  timeout_seconds = 2;
  init = 0;
  position = position;
}

unfoldable pub set_timeout : ℕ → TimeoutLabel → TimeoutLabel
set_timeout seconds l = record l { timeout_seconds = seconds }

-- setText, at the time `now`.
unfoldable pub set_text : ℕ → Bytes → TimeoutLabel → TimeoutLabel
set_text now text l = record l { init = now; text = text }

-- std::string(n, ' ').
unfoldable pub spaces : ℕ → Bytes
spaces zero = []
spaces (suc n) = b' ' ∷ spaces n

module _ (k : Terminal) where
  open k use {Screen, print, box, wborder}

  -- A widget by its method draw, at a time.
  abbrev pub Widget : Type 0
  Widget = ℕ → Screen → Screen

  unfoldable pub draw_timeout_label : TimeoutLabel → Widget
  draw_timeout_label l now s =
      if is_empty l.text
      then s
      else if ltb now (l.timeout_seconds + l.init)
      then print s l.position.y l.position.x l.text
      else print s l.position.y l.position.x (spaces (length l.text))

  unfoldable pub draw_label : Vector2 → Bytes → Widget
  draw_label position text now s = print s position.y position.x text

  -- A window with its ncurses window; its place on the screen only goes to newwin.
  pub record Window : Type 0 where
    pub window : Screen
    pub name : Bytes
    pub widgets : List Widget
    pub show_border : Bool

  -- With what newwin gives.
  unfoldable pub new_window : Screen → Window
  new_window window = record { window = window; name = []; widgets = []; show_border = true }

  unfoldable pub add_name : Bytes → Window → Window
  add_name name w = record w { name = name }

  unfoldable pub set_show_border : Bool → Window → Window
  set_show_border show w = record w { show_border = show }

  unfoldable pub add_widget : Widget → Window → Window
  add_widget widget w = record w { widgets = w.widgets ++ widget ∷ [] }

  unfoldable pub draw_widgets : List Widget → Widget
  draw_widgets [] now s = s
  draw_widgets (widget ∷ widgets) now s = draw_widgets widgets now (widget now s)

  -- Window::draw: the border, the widgets in their order, the name.
  unfoldable pub draw_window : ℕ → Window → Window
  draw_window now w =
      let bordered = if w.show_border then box w.window else wborder w.window in
      let drawn = draw_widgets w.widgets now bordered in
      record w { window = if is_empty w.name then drawn else print drawn 0 2 w.name }

  -- App: its windows in the order in which they were made, and drawing them.
  unfoldable pub create_window : Screen → List Window → List Window
  create_window window windows = windows ++ new_window window ∷ []

  unfoldable pub draw_app : ℕ → List Window → List Window
  draw_app now windows = map (draw_window now) windows

  -- The window without a border that main makes for responses, where its label has been given a
  -- text at the time `at`, and what newwin or drawing it left in its ncurses window.
  unfoldable pub response_window : Screen → ℕ → Bytes → Window
  response_window window at text =
      let label = set_timeout 4 (new_timeout_label (record { x = 0; y = 0 }) []) in
      add_widget (draw_timeout_label (set_text at text label))
        (set_show_border false (new_window window))
