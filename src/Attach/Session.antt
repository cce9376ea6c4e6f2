-- ===== src/Attach/Session.antt =====
-- internal/attach/attach.go: the goroutines and the event loop of an attached `Session`. What they get
-- from the terminal, the stream and the client comes as arguments.
pub mod Input
pub mod Size
use swash.Prelude.{
  ℕ, zero, suc, ◌+◌, ◌-◌, ◌*◌, ◌/◌, ◌%◌, ◌^◌, ◌≤◌, ◌<◌, min, max, ◌≡◌, refl, sym, ap, ◌∙◌, fun_ext,
  subst, ◌≢◌, ◌↔◌, ◌⊎◌, inl, inr, Bool, true, false, not, ◌&&◌, ◌||◌, Option, none, some, List, [],
  ◌∷◌, ◌++◌, map, append_assoc, append-nil, arith, ltb, leb, ◌==◌, if◌then◌else◌, ltb→lt, lt→ltb,
  ==_iff, Bool-cases, Option-cases, length, get_elem?, take, drop, replicate, select, length-append,
  length-replicate, length-drop, drop-append, take-append, select-append, All, All-append, Bytes,
  codes, Lacks, same, same_iff, same_refl, has_prefix, cut_prefix, cut_prefix-append, trim_prefix,
  cut, cut-append, split, cons_head, join, join_rest, split_view, split-append, split-Lacks,
  split-ne-nil, join-split, split-join, split-All-Lacks, Map, Fields, or_else, find, put, remove,
  copy, find-put, find-remove, find-copy, find-copy_nil, map_laws, ◌>>=◌, max_uint64, format_uint,
  parse_uint, parse_uint-format_uint, format_uint-Lacks, format_uint-injective, format_uint-ne-nil,
  format_uint-All, is_blank, split_spaces, not_empty, words, IsWord, words-word, words-last,
  words-join, parse_uint_value, parse_uint_value-format_uint,
}
use swash.Prelude.Int.{ℤ, pos, negsuc}
use swash.Host.Tty.{
  Terminal, Client, TermProp, prop_title, prop_alt_screen, prop_other, TtyHost, AttachError,
  too_small, pipe_failed, Attached, Answer, attached, refused, or_default, client_key, cursor_move,
  rest_of, new_tty_host, push_line, term_prop, get_scrollback, resize, add_client, attach_sized,
  attach, detach, input_closed, send_all, broadcast, feed, close_pty_master, size_pty, store_pty,
  get_attached_clients, Event, attaches, detaches, closes_input, broadcasts, feeds, pushes, props,
  resizes, sizes_pty, stores_pty, closes_pty, step, run, set_pty, resize_host, size_vterm,
  resize_pty, resize_ok, sizes_vterm, resizes_pty, pty_turns,
}
use swash.Attach.{
  get_content_size, Renderer, calculate_offsets, new_renderer, update_size, border_info, horizontal,
  vertical, border_cells, border_line, top_border, bottom_border, side_borders, draw_border,
}
use swash.Attach.Owner.{
  Callback, damage, cursor_visibility, other_callback, VTerm, VtermMsg, vterm_write, vterm_resize,
  vterm_render, Owner, render_rows, content, render, run_callbacks, print_frame, write_bytes,
  handle, settle, run_loops, run_vterm_owner,
}

-- What `readOutput` hands to the owner of the chunks that it reads.
unfoldable pub read_output : List Bytes → List VtermMsg
read_output [] = []
read_output (chunk ∷ chunks) =
    let rest = read_output chunks in if length chunk == 0 then rest else vterm_write chunk ∷ rest

-- How `readInput` ends.
pub data InputEnd : Type 0 where
  stdin_ended : InputEnd
  detach_requested : InputEnd
  write_failed : InputEnd

-- `readInput` over the keys that it reads, each with whether the stream takes it: what the stream took,
-- and how it ends.
unfoldable pub read_input : List (ℕ × Bool) → Bytes × InputEnd
read_input [] = ([], stdin_ended)
read_input ((key, taken) ∷ keys) =
    let (sent, ending) = read_input keys in
    if key == 0x1c
    then ([], detach_requested)
    else if taken
    then (key ∷ sent, ending)
    else ([], write_failed)

-- What the session uses of `host.TTYClient` while it runs; `none` and `false` are errors.
pub record TtyClient (S : Type 0) : Type 0 where
  pub get_attached_clients : S → Option (ℕ × ℤ × ℤ)
  pub resize : ℤ → ℤ → S → S × Bool

-- The calls as a host answers them: `Resize` returns the error of the PTY pair when it has set the other
-- sizes. No other size is set while it runs.
unfoldable pub host_client : {V : Type 0} → Terminal V → TtyClient (TtyHost V)
host_client T = record {
  get_attached_clients = λ h. some (swash.Host.Tty.get_attached_clients T h);
  resize = λ rows cols h. (swash.Host.Tty.resize T rows cols h, resize_ok T h);
}

-- What `handleResize` leaves: the other side of the client, the renderer, and the message it sent.
pub record Resized (S : Type 0) : Type 0 where
  pub server : S
  pub rend : Renderer
  pub sent : Option VtermMsg

module _ {S : Type 0} (c : TtyClient S) where
  -- `handleResize`, with the rows and columns of the terminal, if standard input is one and tells.
  unfoldable pub handle_resize : Option (ℕ × ℕ) → S → Renderer → Resized S
  unfolding update_size
  handle_resize none s r = record { server = s; rend = r; sent = none }
  handle_resize (some (new_rows, new_cols)) s r =
      let rows = max (new_rows - 2) 1 in
      let cols = max (new_cols - 2) 1 in
      let shared : Resized S = record {
        server = s;
        rend = update_size new_rows new_cols r.remote_rows r.remote_cols r;
        sent = some (vterm_render true);
      } in
      let (s', done) = c.resize (pos rows) (pos cols) s in
      let alone : Resized S =
        if done
        then record {
          server = s';
          rend = update_size new_rows new_cols rows cols r;
          sent = some (vterm_resize rows cols);
        }
        else record { server = s'; rend = r; sent = none } in
      elim (c.get_attached_clients s) [
        | none ↦ shared
        | some (count, attached_rows, attached_cols) ↦ if count == 1 then alone else shared
      ]

-- `ExitReason` and `Result`.
pub data ExitReason : Type 0 where
  reason_exited : ExitReason
  reason_detached : ExitReason
  reason_interrupted : ExitReason
  reason_disconnected : ExitReason

pub record Result : Type 0 where
  pub reason : ExitReason
  pub exit_code : Option ℤ

-- What the select of `Run` finds ready. A window change carries the size of the terminal then.
pub data Wake : Type 0 where
  exit_code_read : ℤ → Wake
  detach_closed : Wake
  window_changed : Option (ℕ × ℕ) → Wake
  terminated : Wake

-- The event loop of `Run`, with the messages of its resizes: the result, if one of the events ends it.
module _ {S : Type 0} (c : TtyClient S) where
  unfoldable pub event_loop :
      List Wake → S → Renderer → List VtermMsg → Option Result × S × Renderer × List VtermMsg
  unfolding handle_resize
  event_loop [] s r sent = (none, s, r, sent)
  event_loop (exit_code_read code ∷ ws) s r sent =
      (some (record { reason = reason_exited; exit_code = some code }), s, r, sent)
  event_loop (detach_closed ∷ ws) s r sent =
      (some (record { reason = reason_detached; exit_code = none }), s, r, sent)
  event_loop (terminated ∷ ws) s r sent =
      (some (record { reason = reason_interrupted; exit_code = none }), s, r, sent)
  event_loop (window_changed size ∷ ws) s r sent =
      let done = handle_resize c size s r in
      event_loop ws done.server done.rend
        (elim done.sent [ none ↦ sent | some m ↦ sent ++ (m ∷ []) ])

-- The verb `%d` of an int.
unfoldable pub format_int : ℤ → Bytes
unfolding format_uint
format_int (pos n) = format_uint n
format_int (negsuc n) = 0x2d ∷ format_uint (n + 1)

-- `PrintResult`.
unfoldable pub print_result : Result → Bytes
unfolding format_int
print_result r = elim r.reason [
  | reason_exited ↦ elim r.exit_code [
    | some code ↦ codes "[exited: " ++ (format_int code ++ codes "]\n")
    | none ↦ codes "[exited]\n"
  ]
  | reason_detached ↦ codes "[detached]\n"
  | reason_interrupted ↦ codes "[interrupted]\n"
  | reason_disconnected ↦ codes "[disconnected]\n"
]
