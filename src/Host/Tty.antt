-- ===== src/Host/Tty.antt =====
-- internal/host/tty.go: a `TTYHost`, its terminal, its scrollback and its attached clients. The mutex
-- makes each method, or each part of one between a lock and its unlock, one step on the state.
pub mod Scrollback
pub mod Clients
pub mod Sizes
pub mod Fits
pub mod Locks
use swash.Prelude.{
  ℕ, zero, suc, ◌+◌, ◌-◌, ◌*◌, ◌/◌, ◌%◌, ◌^◌, ◌≤◌, ◌<◌, min, max, ◌≡◌, refl, sym, ap, ◌∙◌, fun_ext,
  subst, ◌≢◌, ◌↔◌, ◌⊎◌, inl, inr, Bool, true, false, not, ◌&&◌, ◌||◌, Option, none, some, List, [],
  ◌∷◌, ◌++◌, map, append_assoc, append-nil, arith, ltb, leb, ◌==◌, if◌then◌else◌, ltb→lt, lt→ltb,
  ==_iff, Bool-cases, Option-cases, length, get_elem?, take, drop, replicate, select, length-append,
  length-replicate, length-drop, drop-append, take-append, select-append, All, All-append, Bytes,
  codes, Lacks, same, same_iff, same_refl, has_prefix, cut_prefix, cut_prefix-append, trim_prefix,
  cut, cut-append, split, cons_head, join, join_rest, split_view, split-append, split-Lacks,
  split-ne-nil, join-split, split-join, split-All-Lacks, Map, Fields, or_else, find, put, remove,
  copy, find-put, find-remove, find-copy, find-copy_nil, map_laws, ◌>>=◌, max_uint64, format_uint,
  parse_uint, parse_uint-format_uint, format_uint-Lacks, format_uint-injective, format_uint-ne-nil,
  format_uint-All, is_blank, split_spaces, not_empty, words, IsWord, words-word, words-last,
  words-join, parse_uint_value, parse_uint_value-format_uint,
}
use swash.Prelude.Int.{ℤ, pos, negsuc, less, not_positive, to_uint16}
use swash.Journal.{
  EventRecord, EventFilter, Entry, ExitCode, pos, neg, event_started, event_exited, event_screen,
  event_stats, field_event, field_session, field_command, field_exit_code, field_stats,
  filter_by_session, filter_by_event, itoa, emit_started, emit_exited, emit_screen,
  emit_session_event, write_output, matches_filters,
}

-- What the host uses of `vterm.VTerm` (vterm/wasm.go), which reads the bytes of the task.
pub record Terminal (V : Type 0) : Type 0 where
  pub set_size : ℤ → ℤ → V → V
  pub get_size : V → ℤ × ℤ
  pub write : Bytes → V → V
  pub get_screen_ansi : V → Bytes
  pub get_cursor : V → ℕ × ℕ
  pub get_size-set_size : (rows cols : ℤ) (v : V) → get_size (set_size rows cols v) ≡ (rows, cols)
  pub get_size-write : (data_bytes : Bytes) (v : V) → get_size (write data_bytes v) ≡ get_size v

-- `attachedClient`, with the chunks that went into its output pipe so far.
pub record Client : Type 0 where
  pub received : List Bytes
  pub rows : ℤ
  pub cols : ℤ

pub data TermProp : Type 0 where
  prop_title : Bytes → TermProp
  prop_alt_screen : Bool → TermProp
  prop_other : TermProp

pub record TtyHost (V : Type 0) : Type 0 where
  pub rows : ℤ
  pub cols : ℤ
  pub tags : Fields
  pub vt : V
  -- The size of the open PTY pair, if there is one.
  pub pty_pair : Option (ℕ × ℕ)
  -- The size of the pair of `startTTYProcess` that is not stored yet.
  pub new_pair : Option (ℕ × ℕ)
  -- Whether the system lets the open pair be sized now.
  pub pty_works : Bool
  pub title : Bytes
  pub alternate_screen : Bool
  pub scrollback : List Bytes
  pub max_scrollback : ℕ
  pub attached_clients : Map Client
  pub next_client_id : ℕ
  -- Whether `eventErr` holds an error.
  pub event_err : Bool
  pub log : List Entry

pub data AttachError : Type 0 where
  too_small pipe_failed : AttachError

-- What `attachFilesLocked` returns of a new client, beside the pipes.
pub record Attached : Type 0 where
  pub rows : ℤ
  pub cols : ℤ
  pub screen_ansi : Bytes
  pub client_id : Bytes

pub data Answer : Type 0 where
  attached : Attached → Answer
  refused : AttachError → Answer

-- "If rows <= 0, use the default".
unfoldable pub or_default : ℤ → ℕ → ℤ
or_default n d = if not_positive n then pos d else n

unfoldable pub client_key : ℕ → Bytes
client_key n = b'c' ∷ format_uint n

-- "\x1b[%d;%dH".
unfoldable pub cursor_move : ℕ × ℕ → Bytes
cursor_move (row, col) =
    0x1b ∷ b'[' ∷ (format_uint (row + 1) ++ b';' ∷ (format_uint (col + 1) ++ b'H' ∷ []))

-- All but the first entry, `s[1:]`.
unfoldable pub rest_of : List Bytes → List Bytes
rest_of [] = []
rest_of (l ∷ ls) = ls

module _ {V : Type 0} (T : Terminal V) where
  -- `NewTTYHost`, with the terminal that `vterm.New` returned.
  unfoldable pub new_tty_host : ℤ → ℤ → Fields → Bytes → V → TtyHost V
  unfolding or_default
  new_tty_host rows cols tags session_id vt = record {
    rows = or_default rows 24;
    cols = or_default cols 80;
    tags = put (copy [] tags) field_session session_id;
    vt = T.set_size (or_default rows 24) (or_default cols 80) vt;
    pty_pair = none;
    new_pair = none;
    pty_works = true;
    title = [];
    alternate_screen = false;
    scrollback = [];
    max_scrollback = 10000;
    attached_clients = [];
    next_client_id = 0;
    event_err = false;
    log = [];
  }

  -- The callback of `OnPushLine`; the flag is whether the write to the event log succeeds.
  unfoldable pub push_line : Bool → Bytes → TtyHost V → TtyHost V
  unfolding rest_of
  push_line written line h =
      let lines = h.scrollback ++ line ∷ [] in
      let kept = if ltb h.max_scrollback (length lines) then rest_of lines else lines in
      if h.alternate_screen then h else record h {
        scrollback = kept;
        log = if written then h.log ++ write_output 1 line h.tags ∷ [] else h.log;
        event_err = not written || h.event_err;
      }

  -- The callback of `OnTermProp`.
  unfoldable pub term_prop : TermProp → TtyHost V → TtyHost V
  term_prop (prop_title title) h = record h { title = title }
  term_prop (prop_alt_screen alt) h = record h { alternate_screen = alt }
  term_prop prop_other h = h

  -- `GetScrollback`.
  unfoldable pub get_scrollback : ℤ → TtyHost V → List Bytes
  get_scrollback (pos n) h = drop (length h.scrollback - min n (length h.scrollback)) h.scrollback
  get_scrollback (negsuc n) h = []

  -- `ptyPair.SetSize`, which may fail and then leaves the size.
  unfoldable pub set_pty : ℤ → ℤ → Bool → Option (ℕ × ℕ) → Option (ℕ × ℕ)
  set_pty rows cols works none = none
  set_pty rows cols false (some size) = some size
  set_pty rows cols true (some size) = some (to_uint16 rows, to_uint16 cols)

  -- The three parts of `Resize`: the one under the mutex, the terminal's and the pair's.
  unfoldable pub resize_host : ℤ → ℤ → TtyHost V → TtyHost V
  resize_host rows cols h = record h { rows = rows; cols = cols }

  unfoldable pub size_vterm : ℤ → ℤ → TtyHost V → TtyHost V
  size_vterm rows cols h = record h { vt = T.set_size rows cols h.vt }

  unfoldable pub resize_pty : ℤ → ℤ → TtyHost V → TtyHost V
  unfolding set_pty
  resize_pty rows cols h = record h { pty_pair = set_pty rows cols h.pty_works h.pty_pair }

  -- The first client's part of `attachFilesLocked`, all under the mutex. A call of `Resize` does the same
  -- when no other size is set meanwhile.
  unfoldable pub resize : ℤ → ℤ → TtyHost V → TtyHost V
  unfolding set_pty
  resize rows cols h = record h {
    rows = rows;
    cols = cols;
    vt = T.set_size rows cols h.vt;
    pty_pair = set_pty rows cols h.pty_works h.pty_pair;
  }

  -- Whether `Resize` returns no error: its only one is that of the pair.
  unfoldable pub resize_ok : TtyHost V → Bool
  resize_ok h = elim h.pty_pair [ none ↦ true | some size ↦ h.pty_works ]

  -- The rest of `attachFilesLocked`, with the size settled and the pipes made.
  unfoldable pub add_client : ℤ → ℤ → TtyHost V → TtyHost V × Answer
  unfolding client_key cursor_move
  add_client client_rows client_cols h =
      let id = client_key (h.next_client_id + 1) in
      (
        record h {
          next_client_id = h.next_client_id + 1;
          attached_clients =
              put h.attached_clients id
                (record { received = []; rows = client_rows; cols = client_cols });
        },
        attached (record {
          rows = h.rows;
          cols = h.cols;
          screen_ansi = T.get_screen_ansi h.vt ++ cursor_move (T.get_cursor h.vt);
          client_id = id;
        }),
      )

  -- `attachFilesLocked` behind the defaults; the flag is whether the pipes can be made.
  unfoldable pub attach_sized : ℤ → ℤ → Bool → TtyHost V → TtyHost V × Answer
  unfolding resize add_client
  attach_sized r c pipes h =
      if length h.attached_clients == 0
      then if pipes then add_client r c (resize r c h) else (resize r c h, refused pipe_failed)
      else if less r h.rows || less c h.cols
      then (h, refused too_small)
      else if pipes
      then add_client r c h
      else (h, refused pipe_failed)

  unfoldable pub attach : ℤ → ℤ → Bool → TtyHost V → TtyHost V × Answer
  unfolding or_default attach_sized
  attach r c = attach_sized (or_default r 24) (or_default c 80)

  -- `Detach`; `none` is the error that the client is not attached.
  unfoldable pub detach : Bytes → TtyHost V → Option (TtyHost V)
  detach id h = elim (find id h.attached_clients) [
    | none ↦ none
    | some client ↦ some (record h { attached_clients = remove h.attached_clients id })
  ]

  -- The end of `forwardAttachedInput`, when the client has closed its input pipe.
  unfoldable pub input_closed : Bytes → TtyHost V → TtyHost V
  input_closed id h = elim (find id h.attached_clients) [
    | none ↦ h
    | some client ↦ record h { attached_clients = remove h.attached_clients id }
  ]

  -- One chunk into every client's pipe.
  unfoldable pub send_all : Bytes → Map Client → Map Client
  send_all chunk [] = []
  send_all chunk ((id, c) ∷ cs) =
      (id, record c { received = c.received ++ chunk ∷ [] }) ∷ send_all chunk cs

  -- The reader's broadcast in `startTTYProcess`, under the mutex.
  unfoldable pub broadcast : Bytes → TtyHost V → TtyHost V
  unfolding send_all
  broadcast chunk h = record h { attached_clients = send_all chunk h.attached_clients }

  -- The reader's `h.vt.Write`, which calls back for lines and properties in steps of their own.
  unfoldable pub feed : Bytes → TtyHost V → TtyHost V
  feed chunk h = record h { vt = T.write chunk h.vt }

  -- `closePTYMaster`.
  unfoldable pub close_pty_master : TtyHost V → TtyHost V
  close_pty_master h = record h { pty_pair = none }

  -- `ptyPair.SetSize` in `startTTYProcess`, outside the mutex.
  unfoldable pub size_pty : TtyHost V → TtyHost V
  size_pty h = record h { new_pair = some (to_uint16 h.rows, to_uint16 h.cols) }

  -- The store of the pair in `startTTYProcess`, with the task started in between.
  unfoldable pub store_pty : TtyHost V → TtyHost V
  store_pty h = record h { pty_pair = h.new_pair }

  unfoldable pub get_attached_clients : TtyHost V → ℕ × ℤ × ℤ
  get_attached_clients h = (length h.attached_clients, h.rows, h.cols)

-- What happens to a host, one locked section at a time. A call of `Resize` is three of these: `resizes`,
-- `sizes_vterm` and, if it found a pair, `resizes_pty`, with others in between. The pair may begin or cease
-- to take sizes at any time.
pub data Event : Type 0 where
  attaches : ℤ → ℤ → Bool → Event
  detaches closes_input : Bytes → Event
  broadcasts feeds : Bytes → Event
  pushes : Bool → Bytes → Event
  props : TermProp → Event
  resizes sizes_vterm resizes_pty : ℤ → ℤ → Event
  pty_turns : Bool → Event
  sizes_pty stores_pty closes_pty : Event

module _ {V : Type 0} (T : Terminal V) where
  unfoldable pub step : TtyHost V → Event → TtyHost V
  step h (attaches r c pipes) = (attach T r c pipes h).0
  step h (detaches id) = elim (detach T id h) [ none ↦ h | some h' ↦ h' ]
  step h (closes_input id) = input_closed T id h
  step h (broadcasts chunk) = broadcast T chunk h
  step h (feeds chunk) = feed T chunk h
  step h (pushes written line) = push_line T written line h
  step h (props p) = term_prop T p h
  step h (resizes r c) = resize_host T r c h
  step h (sizes_vterm r c) = size_vterm T r c h
  step h (resizes_pty r c) = resize_pty T r c h
  step h (pty_turns works) = record h { pty_works = works }
  step h sizes_pty = size_pty T h
  step h stores_pty = store_pty T h
  step h closes_pty = close_pty_master T h

  unfoldable pub run : TtyHost V → List Event → TtyHost V
  unfolding step
  run h [] = h
  run h (e ∷ es) = run (step h e) es
