-- ===== src/Tests/Combined.antt =====
-- internal/journal/combined.go at a concrete log.
use swash.Prelude.{◌≡◌, refl, true, false, Option, none, some, [], ◌∷◌, codes}
use swash.Journal.{Entry}
use swash.Journal.Fake.{FakeJournal, write_entry, poll}
use swash.Journal.Combined.{with_nonce, write_sync, fake_log, write_sync-readable}

abbrev hello : Entry
hello = record { message = codes "hello"; fields = (codes "A", codes "1") ∷ [] }

abbrev empty_log : FakeJournal
empty_log = record { entries = []; cursor = 0; closed = false }

abbrev log_of : Option FakeJournal → FakeJournal
log_of none = empty_log
log_of (some f) = f

abbrev hello_log : FakeJournal
hello_log = log_of (write_entry 7 (with_nonce (codes "n-1") hello) empty_log)

-- Nobody has the nonce before the deadline.
write_sync_timeout :
    write_sync (fake_log 7) (codes "n-1") hello empty_log (empty_log ∷ []) ≡ (hello_log, false)
unfolding write_sync write_entry poll
write_sync_timeout = refl

write_sync-readable_example :
    write_sync (fake_log 7) (codes "n-1") hello empty_log (empty_log ∷ hello_log ∷ [])
    ≡ (hello_log, true)
unfolding write_entry
write_sync-readable_example =
    write_sync-readable 7 (codes "n-1") hello empty_log hello_log hello_log (empty_log ∷ []) [] []
      refl refl refl
