-- ===== src/Logs/Viewer.antt =====
-- logViewer of ui_logs.go and the mouse of a row, ui_logrow.go. Redrawing leaves no state and is left
-- out; scroll offsets are whole numbers. `bottom_of` is the offset at which Fyne's list stands after
-- ScrollToBottom.
pub mod Ends
pub mod Following
pub mod Pulling
pub mod Watching
pub mod Live
pub mod Selection
pub mod Selected
use tswipoexp.Prelude.{
  ℕ, zero, suc, ◌+◌, ◌-◌, ◌≡◌, refl, Bool, true, false, not, ◌&&◌, ◌||◌, Option, none, some, List,
  [], ◌∷◌, ◌++◌, Bytes, length, drop, ltb, leb, if◌then◌else◌, ◌==◌, nat_eq,
}
use tswipoexp.Logs.Sink.{LogSink, since, stats, Fetched}

-- The keys of a `map[int]bool` whose values are all true.
abbrev pub Rows : Type 0
Rows = List ℕ

unfoldable pub selects : Rows → ℕ → Bool
selects [] i = false
selects (k ∷ ks) i = k == i || selects ks i

unfoldable pub unselect : ℕ → Rows → Rows
unselect i [] = []
unselect i (k ∷ ks) = let rest = unselect i ks in if k == i then rest else k ∷ rest

-- An anchor of -1 is `none`. `offset` is the list's, and `label` the numbers in the label.
pub record LogViewer : Type 0 where
  pub lines : List Bytes
  pub next : ℕ
  pub gen : ℕ
  pub selected : Rows
  pub anchor : Option ℕ
  pub follow : Bool
  pub last_bottom : ℕ
  pub shown : Bool
  pub offset : ℕ
  pub label : ℕ × ℕ

abbrev pub clear_selection : LogViewer → LogViewer
clear_selection v = record v { selected = []; anchor = none }

unfoldable pub stop_following : LogViewer → LogViewer
stop_following v = record v { follow = false }

unfoldable pub select_one : ℕ → LogViewer → LogViewer
unfolding stop_following
select_one index v = record (stop_following v) { selected = index ∷ []; anchor = some index }

unfoldable pub toggle_select : ℕ → LogViewer → LogViewer
unfolding stop_following
toggle_select index v =
    if selects v.selected index
    then record (stop_following v) { selected = unselect index v.selected }
    else record (stop_following v) { selected = index ∷ v.selected; anchor = some index }

-- `for i := lo; i <= hi && i < len(v.lines); i++`, with `count` rounds to go.
unfoldable pub rows_from : ℕ → ℕ → Rows
rows_from lo zero = []
rows_from lo (suc count) = lo ∷ rows_from (suc lo) count

abbrev pub smaller : ℕ → ℕ → ℕ
smaller a b = if ltb a b then a else b

-- The rows from `lo` to `hi` that there are.
unfoldable pub rows_between : ℕ → ℕ → List Bytes → Rows
unfolding rows_from
rows_between lo hi ls = rows_from lo (smaller (suc hi) (length ls) - lo)

abbrev pub between : ℕ → ℕ → List Bytes → Rows
between a index ls = if ltb index a then rows_between index a ls else rows_between a index ls

abbrev pub range_from : Option ℕ → ℕ → LogViewer → LogViewer
range_from none index v = select_one index v
range_from (some a) index v = record (stop_following v) { selected = between a index v.lines }

unfoldable pub select_range : ℕ → LogViewer → LogViewer
unfolding select_one stop_following rows_between
select_range index v = range_from v.anchor index v

-- `b.WriteString` of each selected row, from the row `i` on.
unfoldable pub selected_text : Bytes → Rows → ℕ → List Bytes → Bytes
selected_text eol rows i [] = []
selected_text eol rows i (l ∷ ls) =
    let rest = selected_text eol rows (suc i) ls in
    if selects rows i then l ++ eol ++ rest else rest

-- What `copySelection` puts on the clipboard; with no selection it puts nothing there.
unfoldable pub copy_selection : Bytes → LogViewer → Option Bytes
unfolding selected_text
copy_selection eol v = elim v.selected [
  | [] ↦ none
  | k ∷ ks ↦ some (selected_text eol v.selected 0 v.lines)
]

-- `strings.Join`
unfoldable pub joined : Bytes → List Bytes → Bytes
joined sep [] = []
joined sep (l ∷ []) = l
joined sep (l ∷ m ∷ ls) = l ++ sep ++ joined sep (m ∷ ls)

unfoldable pub copy_all : Bytes → LogViewer → Bytes
unfolding joined
copy_all eol v = joined eol v.lines ++ eol

-- The modifier keys of a click with the primary button.
pub data Modifier : Type 0 where
  shift control no_modifier : Modifier

unfoldable pub mouse_down : Modifier → ℕ → LogViewer → LogViewer
unfolding select_range toggle_select select_one
mouse_down shift index v = select_range index v
mouse_down control index v = toggle_select index v
mouse_down no_modifier index v = select_one index v

-- A right click, up to the menu.
unfoldable pub tapped_secondary : ℕ → LogViewer → LogViewer
unfolding select_one
tapped_secondary index v = if selects v.selected index then v else select_one index v

-- The loose bound by line count: `n` is the sink's count.
unfoldable pub bounded : ℕ → LogViewer → LogViewer
bounded n v =
    if ltb n (length v.lines)
    then clear_selection (record v { lines = drop (length v.lines - n) v.lines })
    else v

unfoldable pub update_count : LogSink → LogViewer → LogViewer
update_count s v = record v { label = stats s }

-- Lines of another generation are dropped; then the new lines go to the end.
unfoldable pub regenerated : ℕ → LogViewer → LogViewer
regenerated gen v = if gen == v.gen then v else clear_selection (record v { gen = gen; lines = [] })

abbrev pub nonempty : List Bytes → Bool
nonempty [] = false
nonempty (l ∷ ls) = true

abbrev pub appended : Fetched → LogViewer → LogViewer
appended f v = record v { lines = v.lines ++ f.lines; next = f.next }

-- `if changed` of `pull`, where the sink has become `s`.
abbrev pub pulled : Bool → LogSink → LogViewer → LogViewer × Bool
pulled true s v = (update_count s (bounded (stats s).0 v), true)
pulled false s v = (v, false)

-- `pull`: the sink is `s` for Since and `s'`, which others may have changed, for Stats.
unfoldable pub pull : LogSink → LogSink → LogViewer → LogViewer × Bool
unfolding regenerated bounded update_count
pull s s' v =
    let f = since v.next s in
    pulled (not (f.gen == v.gen) || nonempty f.lines) s' (appended f (regenerated f.gen v))

abbrev pub opening : LogViewer
opening = record {
  lines = [];
  next = 0;
  gen = 0;
  selected = [];
  anchor = none;
  follow = true;
  last_bottom = 0;
  shown = false;
  offset = 0;
  label = (0, 0);
}

module _ (bottom_of : List Bytes → ℕ) where
  unfoldable pub scroll_to_bottom : LogViewer → LogViewer
  scroll_to_bottom v =
      if v.shown
      then record v { offset = bottom_of v.lines; last_bottom = bottom_of v.lines }
      else v

  -- The user's click on Follow.
  unfoldable pub set_follow : Bool → LogViewer → LogViewer
  unfolding scroll_to_bottom
  set_follow on v =
      let v' = record v { follow = on } in if on then scroll_to_bottom (clear_selection v') else v'

  -- `v.list.GetScrollOffset() < v.lastBottom-1`: the user has scrolled up, and Follow turns off.
  unfoldable pub notice_scroll : LogViewer → LogViewer
  unfolding set_follow
  notice_scroll v =
      if v.follow && nonempty v.lines && ltb (v.offset + 1) v.last_bottom
      then set_follow false v
      else v

  abbrev pub followed : LogViewer × Bool → LogViewer
  followed (v, changed) = if changed && v.follow then scroll_to_bottom v else v

  unfoldable pub tick : LogSink → LogSink → LogViewer → LogViewer
  unfolding notice_scroll pull scroll_to_bottom
  tick s s' v = followed (pull s s' (notice_scroll v))

  -- `showLogViewer` where no viewer is open
  unfoldable pub show_log_viewer : LogSink → LogSink → LogViewer
  unfolding pull scroll_to_bottom
  show_log_viewer s s' = scroll_to_bottom (record (pull s s' opening).0 { shown = true })

-- The Clear button, after the sink's own Clear
unfoldable pub clear_viewer : LogSink → LogViewer → LogViewer
unfolding update_count
clear_viewer s v = update_count s (clear_selection (record v { lines = [] }))
