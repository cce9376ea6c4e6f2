-- ===== src/Tests/Tty.antt =====
-- internal/host/tty.go at a concrete terminal and concrete events.
use swash.Prelude.{
  min, ◌≡◌, refl, ◌≢◌, true, false, none, some, List, [], ◌∷◌, ◌++◌, arith, length, Bytes, codes,
  same, find, put, format_uint,
}
use swash.Prelude.Int.{not_positive, to_uint16, ℤ, pos, negsuc, less}
use swash.Host.Tty.{
  Terminal, prop_alt_screen, TtyHost, Attached, attached, or_default, client_key, cursor_move,
  new_tty_host, push_line, term_prop, get_scrollback, resize, add_client, attach_sized, attach,
  feed, size_pty, store_pty, Event, attaches, detaches, broadcasts, feeds, pushes, props, resizes,
  sizes_pty, stores_pty, step, run, set_pty, sizes_vterm, resizes_pty,
}
use swash.Host.Tty.Scrollback.{get_scrollback-run, lines_of, last_n}
use swash.Host.Tty.Clients.{received-attach, Stays, received}
use swash.Host.Tty.Sizes.{lost_resize, resizes_race}
use swash.Host.Tty.Fits.{client_fits}
use swash.Host.Tty.Locks.{
  host_mu, vterm_mu, lock, unlock, Threads, callbacks, write_locks, vterm_call, set_size_locks,
  attach_locks, resize_locks, act, thread, threads_of, reader_acts, caller_acts, Reach, here, next,
  Stuck, Finished, attach_deadlock, resize_finishes, attach_never_returns,
}

-- A terminal that shows what was written to it.
abbrev Screen : Type 0
Screen = ℤ × ℤ × Bytes

abbrev plain : Terminal Screen
plain = record {
  set_size = λ rows cols s. (rows, cols, s.2);
  get_size = λ s. (s.0, s.1);
  write = λ data_bytes s. (s.0, s.1, s.2 ++ data_bytes);
  get_screen_ansi = λ s. s.2;
  get_cursor = λ s. (0, length s.2);
  get_size-set_size = λ rows cols s. refl;
  get_size-write = λ data_bytes s. refl;
}

abbrev blank : Screen
blank = (pos 0, pos 0, [])

abbrev host : TtyHost Screen
host = new_tty_host plain (pos 0) (negsuc 3) [] (codes "KXO284") blank

-- Three lines, the second of them in the alternate screen.
abbrev lines : List Event
lines =
    pushes true (codes "a")
    ∷ props (prop_alt_screen true)
    ∷ pushes true (codes "b")
    ∷ props (prop_alt_screen false)
    ∷ pushes false (codes "c")
    ∷ []

get_scrollback-run_example :
    get_scrollback plain (pos 5) (run plain host lines)
    ≡ last_n (min 5 10000) (lines_of plain host lines)
get_scrollback-run_example =
    get_scrollback-run plain (pos 0) (negsuc 3) [] (codes "KXO284") blank lines 5

lines_of-lines : lines_of plain host lines ≡ codes "a" ∷ codes "c" ∷ []
unfolding step push_line term_prop new_tty_host
lines_of-lines = refl

-- The second client, while the first one leaves.
abbrev first_joined : TtyHost Screen
first_joined = (attach plain (pos 30) (pos 100) true host).0

abbrev second : Attached
second = record {
  rows = pos 30;
  cols = pos 100;
  screen_ansi = cursor_move (0, 0);
  client_id = codes "c2";
}

second-attached : (attach plain (pos 40) (pos 100) true first_joined).1 ≡ attached second
unfolding attach attach_sized add_client resize new_tty_host or_default client_key cursor_move
    format_uint put length less not_positive
second-attached = refl

abbrev traffic : List Event
traffic =
    broadcasts (codes "x")
    ∷ detaches (codes "c1")
    ∷ attaches (pos 50) (pos 120) true
    ∷ broadcasts (codes "y")
    ∷ []

c2-Stays : Stays (codes "c2") traffic
unfolding same
c2-Stays = (refl, (refl, (refl, (refl, tt))))

received-attach_example :
    received plain
      (codes "c2")
      (run plain (attach plain (pos 40) (pos 100) true first_joined).0 traffic)
    ≡ some (codes "x" ∷ codes "y" ∷ [])
received-attach_example =
    received-attach plain (pos 40) (pos 100) true first_joined second traffic second-attached
      c2-Stays

abbrev task : List Event
task = sizes_pty ∷ stores_pty ∷ attaches (pos 30) (pos 70000) true ∷ feeds (codes "z") ∷ []

task_pair : (run plain host task).pty_pair ≡ some (30, 4464)
unfolding run step size_pty store_pty attach attach_sized add_client resize feed new_tty_host
    or_default length set_pty not_positive to_uint16
task_pair = refl

abbrev resized_late : TtyHost Screen
resized_late =
    run plain host
      (sizes_pty ∷ resizes (pos 50) (pos 132) ∷ sizes_vterm (pos 50) (pos 132) ∷ stores_pty ∷ [])

lost_resize_example :
    (resized_late.pty_pair ≡ some (to_uint16 host.rows, to_uint16 host.cols))
    × (resized_late.rows ≡ pos 50)
    × (resized_late.cols ≡ pos 132)
    × (plain.get_size resized_late.vt ≡ (pos 50, pos 132))
lost_resize_example = lost_resize plain (pos 50) (pos 132) host

-- An open pair and two calls of `Resize` at once.
abbrev opened : TtyHost Screen
opened = run plain host (sizes_pty ∷ stores_pty ∷ [])

opened_pair : opened.pty_pair ≡ some (24, 80)
unfolding run step size_pty store_pty new_tty_host or_default not_positive to_uint16
opened_pair = refl

opened_works : opened.pty_works ≡ true
unfolding run step size_pty store_pty new_tty_host
opened_works = refl

opened-ne-none : opened.pty_pair ≢ none
opened-ne-none = ground (arith, opened_pair)

resizes_race_example :
    let after = run plain opened (
      resizes (pos 30) (pos 90)
      ∷ resizes (pos 40) (pos 100)
      ∷ sizes_vterm (pos 40) (pos 100)
      ∷ resizes_pty (pos 40) (pos 100)
      ∷ sizes_vterm (pos 30) (pos 90)
      ∷ resizes_pty (pos 30) (pos 90)
      ∷ []) in
    (after.rows ≡ pos 40)
    × (after.cols ≡ pos 100)
    × (plain.get_size after.vt ≡ (pos 30, pos 90))
    × (after.pty_pair ≡ some (to_uint16 (pos 30), to_uint16 (pos 90)))
resizes_race_example =
    resizes_race plain (pos 30) (pos 90) (pos 40) (pos 100) opened opened-ne-none opened_works

abbrev guests : List Event
guests = attaches (pos 30) (pos 100) true ∷ attaches (pos 20) (pos 200) true ∷ []

c1_there :
    find (codes "c1") (run plain host guests).attached_clients
    ≡ some (record { received = []; rows = pos 30; cols = pos 100 })
unfolding run step attach attach_sized add_client resize new_tty_host or_default client_key
    format_uint put find length less same not_positive
c1_there = refl

client_fits_example :
    (less (pos 30) (run plain host guests).rows ≡ false)
    × (less (pos 100) (run plain host guests).cols ≡ false)
client_fits_example =
    client_fits plain (pos 0) (negsuc 3) [] (codes "KXO284") blank guests (codes "c1") _
      (refl, (refl, tt)) c1_there

attach_deadlock_example :
    (s : Threads) × Reach (threads_of (write_locks 3) (attach_locks (some 0))) s
    × Stuck s
    × (s.reader.program ≢ [])
    × (s.caller.program ≢ [])
attach_deadlock_example = attach_deadlock 2 (some 0)

-- One write without a callback and one resize, each of them to its end.
abbrev all_done : Threads
all_done = record { reader = thread []; caller = thread [] }

all_done-Reach : Reach (threads_of (write_locks 0) (resize_locks 0)) all_done
unfolding threads_of thread write_locks callbacks resize_locks set_size_locks act
all_done-Reach =
    next
      (next
        (next (next (next (next here (reader_acts refl)) (caller_acts refl)) (reader_acts refl))
          (caller_acts refl))
        (caller_acts refl))
      (caller_acts refl)

all_done-Stuck : Stuck all_done
unfolding thread act
all_done-Stuck = (refl, refl)

resize_finishes_example : Finished all_done
resize_finishes_example = resize_finishes 0 0 all_done all_done-Reach all_done-Stuck

-- Alone, a first client whose size pushes a line out comes as far as the line.
abbrev halted : Threads
unfolding thread attach_locks set_size_locks callbacks vterm_call
halted = record {
  reader = thread [];
  caller = record {
    holds_host = true;
    holds_vterm = true;
    program =
        lock host_mu
        ∷ unlock host_mu
        ∷ unlock vterm_mu
        ∷ lock vterm_mu
        ∷ unlock vterm_mu
        ∷ lock vterm_mu
        ∷ unlock vterm_mu
        ∷ unlock host_mu
        ∷ [];
  };
}

halted-Reach : Reach (threads_of [] (attach_locks (some 1))) halted
unfolding threads_of thread attach_locks set_size_locks callbacks vterm_call act halted
halted-Reach = next (next here (caller_acts refl)) (caller_acts refl)

attach_never_returns_example : halted.caller.program ≢ []
attach_never_returns_example = attach_never_returns [] 0 halted halted-Reach
