-- ===== src/Tests/Attach.antt =====
-- internal/attach/attach.go at a concrete emulator, a concrete host and concrete messages.
use swash.Prelude.{
  ℕ, zero, suc, ◌+◌, ◌-◌, ◌*◌, ◌/◌, ◌%◌, ◌^◌, ◌≤◌, ◌<◌, min, max, ◌≡◌, refl, sym, ap, ◌∙◌, fun_ext,
  subst, ◌≢◌, ◌↔◌, ◌⊎◌, inl, inr, Bool, true, false, not, ◌&&◌, ◌||◌, Option, none, some, List, [],
  ◌∷◌, ◌++◌, map, append_assoc, append-nil, arith, ltb, leb, ◌==◌, if◌then◌else◌, ltb→lt, lt→ltb,
  ==_iff, Bool-cases, Option-cases, length, get_elem?, take, drop, replicate, select, length-append,
  length-replicate, length-drop, drop-append, take-append, select-append, All, All-append, Bytes,
  codes, Lacks, same, same_iff, same_refl, has_prefix, cut_prefix, cut_prefix-append, trim_prefix,
  cut, cut-append, split, cons_head, join, join_rest, split_view, split-append, split-Lacks,
  split-ne-nil, join-split, split-join, split-All-Lacks, Map, Fields, or_else, find, put, remove,
  copy, find-put, find-remove, find-copy, find-copy_nil, map_laws, ◌>>=◌, max_uint64, format_uint,
  parse_uint, parse_uint-format_uint, format_uint-Lacks, format_uint-injective, format_uint-ne-nil,
  format_uint-All, is_blank, split_spaces, not_empty, words, IsWord, words-word, words-last,
  words-join, parse_uint_value, parse_uint_value-format_uint,
}
use swash.Prelude.Int.{ℤ, pos, negsuc}
use swash.Host.Tty.{
  Terminal, TtyHost, or_default, client_key, new_tty_host, resize, add_client, attach_sized, attach,
}
use swash.Attach.{Renderer, new_renderer, border_info, top_border, bottom_border, draw_border}
use swash.Attach.Border.{columns, drawn, border_spots, Inside, draw_border_fits}
use swash.Attach.Owner.{
  damage, VTerm, VtermMsg, vterm_write, vterm_resize, run_callbacks, print_frame, write_bytes,
  handle, settle, run_loops, run_vterm_owner,
}
use swash.Attach.Owner.Current.{damaged, Quiet, Current, run_vterm_owner-Current}
use swash.Attach.Session.{
  host_client, handle_resize, reason_exited, detach_closed, window_changed, format_int, event_loop,
  print_result,
}
use swash.Attach.Session.Size.{Agrees, event_loop-Agrees, resize_error-disagrees}

-- An emulator of one row that shows what was written to it.
abbrev one_row : VTerm Bytes
one_row = record {
  set_size = λ rows cols v. (v, []);
  write = λ chunk v. (v ++ chunk, damage ∷ []);
  get_rows = λ v. 1;
  get_cursor = λ v. (0, length v);
  render_row_ansi = λ row v. v;
}

one_row-Quiet : Quiet one_row
unfolding Quiet damaged
one_row-Quiet = λ chunk v silent. absurd (ground arith)

abbrev rend : Renderer
unfolding new_renderer
rend = new_renderer (codes "AB12CD") 4 24 8 30

-- Two writes that the owner drains, a resize that ends the batch, and an empty channel.
abbrev messages : List (Option VtermMsg)
messages =
    some (vterm_write (codes "a"))
    ∷ some (vterm_write (codes "b"))
    ∷ some (vterm_resize 2 20)
    ∷ none
    ∷ some (vterm_write (codes "c"))
    ∷ []

frames_printed : length (run_vterm_owner one_row rend (codes "$ ") (codes "") messages).printed ≡ 4
unfolding run_vterm_owner run_loops write_bytes handle settle print_frame run_callbacks
frames_printed = refl

run_vterm_owner-Current_example :
    Current one_row (run_vterm_owner one_row rend (codes "$ ") (codes "") messages)
run_vterm_owner-Current_example =
    run_vterm_owner-Current one_row one_row-Quiet rend (codes "$ ") (codes "") messages

info_length : length (border_info rend) ≡ 15
unfolding border_info format_uint rend
info_length = refl

draw_border_fits_example :
    let spots =
      border_spots rend.border_top rend.border_left 4 24 (top_border rend) (bottom_border rend) in
    (draw_border rend ≡ drawn spots)
    × (columns (top_border rend) ≡ 26)
    × (columns (bottom_border rend) ≡ 26)
    × All (Inside 8 30) spots
unfolding border_info format_uint new_renderer rend
draw_border_fits_example =
    draw_border_fits (codes "AB12CD") 4 24 8 30 (ground arith) (omega arith) (omega arith)
      (omega arith) (omega arith)

-- A terminal that remembers its size, and its host with one client attached.
abbrev sized : Terminal (ℤ × ℤ)
sized = record {
  set_size = λ rows cols s. (rows, cols);
  get_size = λ s. s;
  write = λ chunk s. s;
  get_screen_ansi = λ s. [];
  get_cursor = λ s. (0, 0);
  get_size-set_size = λ rows cols s. refl;
  get_size-write = λ chunk s. refl;
}

abbrev tty : TtyHost (ℤ × ℤ)
tty =
    (attach sized (pos 22) (pos 78) true
      (new_tty_host sized (pos 24) (pos 80) [] (codes "AB12CD") (pos 0, pos 0))).0

abbrev wide : Renderer
unfolding new_renderer
wide = new_renderer (codes "AB12CD") 22 78 24 80

tty_size : Agrees tty wide
unfolding Agrees attach attach_sized add_client resize new_tty_host or_default client_key
    swash.Prelude.Int.not_positive wide
tty_size = (refl, refl)

tty_works : tty.pty_works ≡ true
unfolding attach attach_sized add_client resize new_tty_host
tty_works = refl

event_loop-Agrees_example :
    let (result, h', r', sent') =
      event_loop
        (host_client sized)
        (window_changed (some (40, 100))
          ∷ window_changed none
          ∷ window_changed (some (2, 90))
          ∷ detach_closed
          ∷ [])
        tty
        wide
        [] in
    Agrees h' r'
event_loop-Agrees_example = event_loop-Agrees sized _ tty wide [] tty_works tty_size

-- The same host with a pair that takes no size.
abbrev broken : TtyHost (ℤ × ℤ)
broken = record tty { pty_pair = some (22, 78); pty_works = false }

broken_alone : length broken.attached_clients ≡ 1
unfolding attach attach_sized add_client resize new_tty_host or_default client_key format_uint put
broken_alone = refl

resize_error-disagrees_example :
    let done = handle_resize (host_client sized) (some (40, 100)) broken wide in
    (done.rend ≡ wide)
    × (done.sent ≡ none)
    × (sized.get_size done.server.vt ≡ (pos 38, pos 98))
    × (Agrees done.server done.rend → (38 ≡ wide.remote_rows) × (98 ≡ wide.remote_cols))
resize_error-disagrees_example =
    resize_error-disagrees sized 40 100 broken wide broken_alone (λ e. ground arith) refl

results :
    print_result (record { reason = reason_exited; exit_code = some (negsuc 0) })
    ≡ codes "[exited: -1]\n"
unfolding print_result format_int format_uint
results = refl
