-- ===== src/Attach/Border.antt =====
-- internal/attach/attach.go: where the border is drawn.
use swash.Prelude.{
  ℕ, zero, suc, ◌+◌, ◌-◌, ◌/◌, ◌≤◌, ◌<◌, ◌≡◌, refl, ap, ◌∙◌, inl, inr, not, ◌&&◌, List, [], ◌∷◌,
  ◌++◌, append_assoc, append-nil, arith, ltb, ◌==◌, if◌then◌else◌, ==_iff, Bool-cases, length, All,
  All-append, Bytes, codes, format_uint, format_uint-All,
}
use swash.Host.Tty.{cursor_move}
use swash.Attach.{
  Renderer, calculate_offsets, new_renderer, border_info, horizontal, vertical, border_cells,
  border_line, top_border, bottom_border, side_borders, draw_border,
}

-- The columns that UTF-8 text takes, a column for a character: its bytes but for those that go on with
-- one.
unfoldable pub columns : Bytes → ℕ
columns [] = 0
columns (c ∷ s) = let rest = columns s in if not (ltb c 128) && ltb c 192 then rest else suc rest

columns-append : (s t : Bytes) → columns (s ++ t) ≡ columns s + columns t
unfolding columns
columns-append [] t = omega arith
columns-append (c ∷ s) t = ground (arith, columns-append s t)

columns-ascii : (s : Bytes) → All (λ c. c < 128) s → columns s ≡ length s
unfolding columns
columns-ascii [] h = refl
columns-ascii (c ∷ s) h = ground (arith, h.0, columns-ascii s h.1)

-- Behind the label each cell has its line.
cells_behind :
    (fuel i start cols : ℕ) (label : Bytes)
    → start < i
    → cols ≤ i + fuel
    → columns (border_cells fuel i start cols label) ≡ cols - i
unfolding columns border_cells
cells_behind zero i start cols label behind enough = omega arith
cells_behind (suc fuel) i start cols label behind enough = ground (
  arith,
  ==_iff i start,
  cells_behind fuel (i + 1) start cols label,
  columns-append horizontal (border_cells fuel (i + 1) start cols label),
)

cells_before :
    (fuel i start cols : ℕ) (label : Bytes)
    → i ≤ start
    → start + length label ≤ cols
    → 0 < length label
    → All (λ c. c < 128) label
    → cols ≤ i + fuel
    → columns (border_cells fuel i start cols label) ≡ cols - i
unfolding columns border_cells
cells_before zero i start cols label before fits some_label ascii enough = omega arith
cells_before (suc fuel) i start cols label before fits some_label ascii enough =
    elim (Bool-cases (i == start)) [
      | inl here ↦ ground (
        arith,
        ==_iff i start,
        columns-append label (border_cells fuel (i + length label) start cols label),
        columns-ascii label ascii,
        cells_behind fuel (i + length label) start cols label,
      )
      | inr other ↦ ground (
        arith,
        ==_iff i start,
        columns-append horizontal (border_cells fuel (i + 1) start cols label),
        cells_before fuel (i + 1) start cols label,
      )
    ]

columns-border_line :
    (left right label : Bytes) (cols : ℕ)
    → columns left ≡ 1
    → columns right ≡ 1
    → 0 < length label
    → length label ≤ cols
    → All (λ c. c < 128) label
    → columns (border_line left right label cols) ≡ cols + 2
unfolding border_line
columns-border_line left right label cols one one' some_label fits ascii =
    let start = (cols - length label) / 2 in
    let cells = border_cells cols 0 start cols label in
    omega (
      arith,
      columns-append left (cells ++ right),
      columns-append cells right,
      cells_before cols 0 start cols label (omega arith) (omega arith) some_label ascii
          (omega arith),
    )

border_info-All :
    (r : Renderer) → All (λ c. c < 128) r.session_id → All (λ c. c < 128) (border_info r)
unfolding border_info
border_info-All r ascii = (
  omega arith,
  All-append (λ c. c < 128) r.session_id _ ascii
      (
        omega arith,
        (
          omega arith,
          All-append (λ c. c < 128) (format_uint r.remote_cols) _ (format_uint-All r.remote_cols)
              (
                omega arith,
                All-append (λ c. c < 128) (format_uint r.remote_rows) (codes "] ")
                    (format_uint-All r.remote_rows) (omega arith, (omega arith, tt)),
              ),
        ),
      ),
)

hint_ascii : All (λ c. c < 128) (codes " Ctrl+\\ to detach ")
hint_ascii = ground arith

-- A text at a row and a column.
abbrev pub Spot : Type 0
Spot = ℕ × ℕ × Bytes

unfoldable pub drawn : List Spot → Bytes
drawn [] = []
drawn ((row, col, text) ∷ spots) = cursor_move (row, col) ++ (text ++ drawn spots)

-- The sides of as many rows, the first of them at a row.
unfoldable pub side_spots : ℕ → ℕ → ℕ → ℕ → List Spot
side_spots zero row left right = []
side_spots (suc rows) row left right =
    (row, left, vertical) ∷ (row, right, vertical) ∷ side_spots rows (row + 1) left right

-- The border of a rectangle of rows and columns, the upper left corner of the border at a place.
unfoldable pub border_spots : ℕ → ℕ → ℕ → ℕ → Bytes → Bytes → List Spot
unfolding side_spots
border_spots top left rows cols above below =
    (top, left, above)
    ∷ (side_spots rows (top + 1) left (left + cols + 1) ++ (top + rows + 1, left, below) ∷ [])

drawn-append : (xs ys : List Spot) → drawn (xs ++ ys) ≡ drawn xs ++ drawn ys
unfolding drawn
drawn-append [] ys = refl
drawn-append ((row, col, text) ∷ xs) ys =
    rw
      (
        drawn-append xs ys,
        append_assoc (cursor_move (row, col)) (text ++ drawn xs) (drawn ys),
        append_assoc text (drawn xs) (drawn ys),
      )
      refl

drawn-side_spots :
    (rows row : ℕ) (r : Renderer)
    → side_borders rows row r
      ≡ drawn (
          side_spots rows
            (r.border_top + row + 1)
            r.border_left
            (r.border_left + r.remote_cols + 1))
unfolding side_borders drawn side_spots
drawn-side_spots zero row r = refl
drawn-side_spots (suc rows) row r =
    let next : r.border_top + (row + 1) + 1 ≡ r.border_top + row + 1 + 1 = omega arith in
    rw (drawn-side_spots rows (row + 1) r, next) refl

draw_border-border_spots :
    (r : Renderer)
    → draw_border r
      ≡ drawn (
          border_spots r.border_top r.border_left r.remote_rows r.remote_cols
            (top_border r)
            (bottom_border r))
unfolding draw_border drawn border_spots
draw_border-border_spots r =
    let top : r.border_top + 0 + 1 ≡ r.border_top + 1 = omega arith in
    let sides =
      side_spots r.remote_rows (r.border_top + 1) r.border_left
        (r.border_left + r.remote_cols + 1) in
    let side : side_borders r.remote_rows 0 r ≡ drawn sides =
      drawn-side_spots r.remote_rows 0 r
      ∙ ap
          (λ row.
            drawn (side_spots r.remote_rows row r.border_left (r.border_left + r.remote_cols + 1)))
          top in
    rw
      (
        side,
        drawn-append sides
            ((r.border_top + r.remote_rows + 1, r.border_left, bottom_border r) ∷ []),
        append-nil (bottom_border r),
      )
      refl

-- The text lies in a terminal of that size.
abbrev pub Inside : ℕ → ℕ → Spot → Type 0
Inside rows cols (row, col, text) = (row < rows) × (col + columns text ≤ cols)

side_spots-Inside :
    (rows row left right local_rows local_cols : ℕ)
    → row + rows ≤ local_rows
    → left < local_cols
    → right < local_cols
    → All (Inside local_rows local_cols) (side_spots rows row left right)
unfolding side_spots columns
side_spots-Inside zero row left right local_rows local_cols h l r = tt
side_spots-Inside (suc rows) row left right local_rows local_cols h l r = (
  (omega arith, omega arith),
  (
    (omega arith, omega arith),
    side_spots-Inside rows (row + 1) left right local_rows local_cols (omega arith) l r,
  ),
)

-- In a local terminal with room for the remote one and a border, and a remote one with room for the
-- labels, of which the session id is ASCII, what is drawn is a line, two columns wider than the remote
-- terminal, above the remote rows, its sides in the columns next to the remote ones on each remote row,
-- and such a line below, and all of it lies inside the local terminal.
pub draw_border_fits :
    (session_id : Bytes) (remote_rows remote_cols local_rows local_cols : ℕ)
    → All (λ c. c < 128) session_id
    → length (border_info (new_renderer session_id remote_rows remote_cols local_rows local_cols))
      ≤ remote_cols
    → 18 ≤ remote_cols
    → remote_rows + 2 ≤ local_rows
    → remote_cols + 2 ≤ local_cols
    → let r = new_renderer session_id remote_rows remote_cols local_rows local_cols in
      let spots =
        border_spots r.border_top r.border_left remote_rows remote_cols
          (top_border r)
          (bottom_border r) in
      (draw_border r ≡ drawn spots)
      × (columns (top_border r) ≡ remote_cols + 2)
      × (columns (bottom_border r) ≡ remote_cols + 2)
      × All (Inside local_rows local_cols) spots
unfolding new_renderer top_border bottom_border columns border_info border_spots calculate_offsets
draw_border_fits session_id remote_rows remote_cols local_rows local_cols ascii label hint rows
      cols =
    let r = new_renderer session_id remote_rows remote_cols local_rows local_cols in
    let above : columns (top_border r) ≡ remote_cols + 2 =
      columns-border_line (0xe2 ∷ 0x94 ∷ 0x8c ∷ []) (0xe2 ∷ 0x94 ∷ 0x90 ∷ []) (border_info r)
        remote_cols refl refl (omega arith) label (border_info-All r ascii) in
    let below : columns (bottom_border r) ≡ remote_cols + 2 =
      columns-border_line (0xe2 ∷ 0x94 ∷ 0x94 ∷ []) (0xe2 ∷ 0x94 ∷ 0x98 ∷ [])
        (codes " Ctrl+\\ to detach ") remote_cols refl refl (omega arith) hint hint_ascii in
    let sides =
      side_spots remote_rows (r.border_top + 1) r.border_left (r.border_left + remote_cols + 1) in
    (
      draw_border-border_spots r,
      above,
      below,
      (
        (omega arith, omega (arith, above)),
        All-append (Inside local_rows local_cols) sides _
            (side_spots-Inside remote_rows (r.border_top + 1) r.border_left
              (r.border_left + remote_cols + 1) local_rows local_cols (omega arith) (omega arith)
              (omega arith))
            ((omega arith, omega (arith, below)), tt),
      ),
    )
