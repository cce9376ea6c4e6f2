-- ===== src/JournalFile/Reader/Cursor.antt =====
-- pkg/journalfile/reader.go: cursors, the texts that name a place in the journal.
use swash.Prelude.{
  ℕ, ◌+◌, ◌-◌, ◌/◌, ◌%◌, ◌≤◌, ◌≡◌, refl, ap, ◌∙◌, inr, Option, none, some, List, [], ◌∷◌, ◌++◌,
  arith, ltb, if◌then◌else◌, Bytes, codes, cut_prefix, split, split-append, ◌>>=◌, max_uint64,
  format_uint, parse_uint, parse_uint-format_uint, format_uint-Lacks,
}
use swash.JournalFile.Reader.{JournalEntry, Reader, reset_iteration}

-- The two digits that `%x` writes for a byte.
unfoldable pub hex_digit : ℕ → ℕ
hex_digit n = if ltb n 10 then b'0' + n else b'a' + (n - 10)

unfoldable pub hex : Bytes → Bytes
unfolding hex_digit
hex [] = []
hex (b ∷ bytes) = hex_digit (b / 16) ∷ hex_digit (b % 16) ∷ hex bytes

-- `formatCursor`.
unfoldable pub format_cursor : ℕ → Bytes → Bytes
unfolding hex format_uint
format_cursor seqnum boot_id = codes "s=" ++ (format_uint seqnum ++ (codes ";b=" ++ hex boot_id))

-- `GetCursor`.
unfoldable pub get_cursor : JournalEntry → Bytes
unfolding format_cursor
get_cursor e = format_cursor e.seqnum e.boot_id

-- The loop of `parseCursor`.
unfoldable pub parse_parts : List Bytes → Option ℕ
unfolding cut_prefix parse_uint
parse_parts [] = none
parse_parts (part ∷ parts) = elim (cut_prefix (codes "s=") part) [
  | none ↦ parse_parts parts
  | some digits ↦ parse_uint digits
]

-- `parseCursor`.
unfoldable pub parse_cursor : Bytes → Option ℕ
unfolding split parse_parts
parse_cursor cursor = parse_parts (split b';' cursor)

-- `SeekCursor`: no result is its error.
unfoldable pub seek_cursor : Bytes → Reader → Option Reader
unfolding parse_cursor reset_iteration
seek_cursor cursor r =
    parse_cursor cursor >>= λ seqnum. some (reset_iteration (record r { current_seqnum = seqnum }))

-- A cursor gives its number back, whatever the boot id.
pub parse_cursor-format_cursor :
    (seqnum : ℕ) (boot_id : Bytes)
    → seqnum ≤ max_uint64
    → parse_cursor (format_cursor seqnum boot_id) ≡ some seqnum
unfolding parse_cursor format_cursor parse_parts cut_prefix
parse_cursor-format_cursor seqnum boot_id small =
    ap parse_parts (
      split-append b';' (codes "s=" ++ format_uint seqnum) (codes "b=" ++ hex boot_id)
        (omega arith, (omega arith, format_uint-Lacks b';' seqnum (inr (omega arith)))))
    ∙ parse_uint-format_uint seqnum small

-- The cursor of an entry, whose number fits 64 bits, takes a reader to the place behind that number, with
-- no array loaded, and changes nothing else of it.
pub seek_cursor-get_cursor :
    (e : JournalEntry) (r : Reader)
    → e.seqnum ≤ max_uint64
    → seek_cursor (get_cursor e) r ≡ some (reset_iteration (record r { current_seqnum = e.seqnum }))
unfolding seek_cursor get_cursor
seek_cursor-get_cursor e r small = rw (parse_cursor-format_cursor e.seqnum e.boot_id small) refl
