-- ===== src/Pstable/Row.antt =====
-- `Classify`, `Row`, `RenderRow` and `RenderJSON` of internal/pstable/pstable.go.
use Prim.Native.Nat.{max}
use dockup.Base.{
  ℕ, ◌+◌, ◌≤◌, ◌≡◌, map, ◌↔◌, refl, Bool, true, false, not, Option, none, some, List, [], ◌∷◌, ◌++◌,
  Str, codes, arith, length, trim_right, str_eq, ◌==◌, if◌then◌else◌,
}
use dockup.Io.{Result, ok, err}
use dockup.Pstable.Ansi.{
  bold, gray, yellow, green, paint, visible_len, pad, visible_len-pad, visible_len-paint,
  visible_len-le-length,
}

abbrev pub status_running : Str
status_running = codes "running"

abbrev pub status_stopped : Str
status_stopped = codes "stopped"

abbrev pub status_starting : Str
status_starting = codes "starting..."

unfoldable pub classify : Bool → Bool → Bool → Str
classify pipe_alive installed engine_ready =
    if not pipe_alive
    then status_stopped
    else if not installed
    then status_stopped
    else if not engine_ready
    then status_starting
    else status_running

unfoldable pub autostart_text : Bool → Str
autostart_text on = if on then codes "on" else codes "off"

unfoldable pub installed_text : Bool → Str
installed_text installed = if installed then codes "yes" else codes "no"

pub record Row : Type 0 where
  pub status : Str
  pub autostart : Str
  pub installed : Str
  pub size : Str
  pub memory : Str

pub colored_status : Bool → Str → Str
colored_status enabled s =
    if str_eq s status_running
    then paint enabled green s
    else if str_eq s status_starting
    then paint enabled yellow s
    else paint enabled gray s

abbrev pub headers : List Str
headers =
    codes "STATUS" ∷ codes "AUTOSTART" ∷ codes "INSTALLED" ∷ codes "SIZE" ∷ codes "MEMORY" ∷ []

pub values : Bool → Row → List Str
unfolding colored_status
values enabled r =
    colored_status enabled r.status ∷ r.autostart ∷ r.installed ∷ r.size ∷ r.memory ∷ []

-- `max(len(headers[i]), visibleLen(values[i])) + 4` for each column
pub column_widths : List Str → List Str → List ℕ
column_widths (h ∷ hs) (v ∷ vs) = (max (length h) (visible_len v) + 4) ∷ column_widths hs vs
column_widths _ _ = []

-- The cells of one line, each padded to its column.
pub cells : List Str → List ℕ → List Str
cells (v ∷ vs) (w ∷ ws) = pad v w ∷ cells vs ws
cells _ _ = []

concat : List Str → Str
concat [] = []
concat (s ∷ ss) = s ++ concat ss

pub bold_all : Bool → List Str → List Str
bold_all enabled [] = []
bold_all enabled (h ∷ hs) = paint enabled bold h ∷ bold_all enabled hs

unfoldable pub render_row : Bool → Row → Str
unfolding concat bold_all cells column_widths values
render_row enabled r =
    let vs = values enabled r in
    let widths = column_widths headers vs in
    trim_right (λ c. c == b' ')
      (concat (cells (bold_all enabled headers) widths) ++ (b'\n' ∷ concat (cells vs widths)))

-- `RenderJSON`, `json.MarshalIndent` of the row being a parameter
unfoldable pub render_json : (Row → Option Str) → Row → Result Str
render_json marshal r = elim (marshal r) [ none ↦ err (codes "json") | some text ↦ ok text ]

columns_aligned :
    (enabled : Bool) (hs vs : List Str)
    → length hs ≡ length vs
    → (map visible_len (cells (bold_all enabled hs) (column_widths hs vs)) ≡ column_widths hs vs)
      × (map visible_len (cells vs (column_widths hs vs)) ≡ column_widths hs vs)
unfolding cells bold_all column_widths
columns_aligned enabled [] [] e = (refl, refl)
columns_aligned enabled [] (v ∷ vs) e = absurd (omega arith)
columns_aligned enabled (h ∷ hs) [] e = absurd (omega arith)
columns_aligned enabled (h ∷ hs) (v ∷ vs) e =
    let w = max (length h) (visible_len v) + 4 in
    let (head_eq, body_eq) = columns_aligned enabled hs vs (omega arith) in
    let narrow : visible_len (paint enabled bold h) ≤ w =
      omega (arith, visible_len-paint enabled bold h, visible_len-le-length h) in
    let head_w : visible_len (pad (paint enabled bold h) w) ≡ w =
      omega (arith, visible_len-pad (paint enabled bold h) w) in
    let body_w : visible_len (pad v w) ≡ w = omega (arith, visible_len-pad v w) in
    (cc (head_eq, head_w), cc (body_eq, body_w))

-- In the table every header and every value takes exactly the visible width of its column, with
-- colours on or off and whatever bytes the values hold: the columns line up.
pub render_row-aligned :
    (enabled : Bool) (r : Row)
    → let widths = column_widths headers (values enabled r) in
      (map visible_len (cells (bold_all enabled headers) widths) ≡ widths)
      × (map visible_len (cells (values enabled r) widths) ≡ widths)
unfolding values
render_row-aligned enabled r = columns_aligned enabled headers (values enabled r) refl

-- dockup is reported as running exactly when the pipe answers, the install record is there and the
-- engine answers; as starting exactly when the first two hold and the engine does not answer.
pub classify_iff :
    (pipe_alive installed engine_ready : Bool)
    → ((classify pipe_alive installed engine_ready ≡ status_running)
        ↔ ((pipe_alive ≡ true) × (installed ≡ true) × (engine_ready ≡ true)))
      × ((classify pipe_alive installed engine_ready ≡ status_starting)
          ↔ ((pipe_alive ≡ true) × (installed ≡ true) × (engine_ready ≡ false)))
unfolding classify
classify_iff pipe_alive installed engine_ready = ground arith
