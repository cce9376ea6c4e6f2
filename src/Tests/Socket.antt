-- ===== src/Tests/Socket.antt =====
-- internal/journal/socket.go at a message of two lines and a field.
use swash.Prelude.{◌≡◌, refl, some, [], ◌∷◌, ◌++◌, arith, All, Bytes, codes, Fields}
use swash.Journal.Socket.{put_little_endian, has_newline, append_field, append_fields, encode_entry}
use swash.Journal.Socket.Receive.{IsField, receive_all}
use swash.Journal.Socket.RoundTrip.{receive_all-encode_entry}

abbrev message : Bytes
message = codes "a\nb"

abbrev fields : Fields
fields = (codes "FD", codes "1") ∷ []

encode_entry_lem :
    encode_entry message fields
    ≡ codes "MESSAGE\n" ++ 3 ∷ 0 ∷ 0 ∷ 0 ∷ 0 ∷ 0 ∷ 0 ∷ 0 ∷ codes "a\nb\nPRIORITY=6\nFD=1\n"
unfolding encode_entry append_fields append_field put_little_endian has_newline
encode_entry_lem = refl

fields-IsField : All IsField fields
fields-IsField = ((refl, omega arith), tt)

receive_all-encode_entry_example :
    receive_all (encode_entry message fields)
    ≡ some ((codes "MESSAGE", message) ∷ (codes "PRIORITY", codes "6") ∷ fields)
receive_all-encode_entry_example =
    receive_all-encode_entry message fields (omega arith) fields-IsField
