-- ===== src/Journal/Socket/RoundTrip.antt =====
-- The datagrams of internal/journal/socket.go at their receiver.
use swash.Prelude.{
  ℕ, zero, suc, ◌+◌, ◌≤◌, ◌<◌, ◌≡◌, refl, ap, ◌∙◌, inl, inr, Option, none, some, List, [], ◌∷◌,
  ◌++◌, arith, Bool-cases, length, length-append, All, Bytes, codes, Fields, max_uint64,
}
use swash.Journal.Socket.{put_little_endian, has_newline, append_field, append_fields, encode_entry}
use swash.Journal.Socket.Receive.{
  read_name, read_value, receive, receive_all, take_received, taken_fields, IsField, field_bytes,
  append_fields-field_bytes, plain_field, sized_field, read_field,
}

-- `receive` behind the first field.
then_receive : ℕ → Bytes → Option (Bytes × Bytes) → Option (List (Bytes × Bytes))
then_receive fuel name none = none
then_receive fuel name (some (value, more)) = elim (receive fuel more) [
  | none ↦ none
  | some fields ↦ some ((name, value) ∷ fields)
]

after_name : ℕ → Option (Bytes × ℕ × Bytes) → Option (List (Bytes × Bytes))
after_name fuel none = none
after_name fuel (some (name, end, rest)) = then_receive fuel name (read_value end rest)

receive-read :
    (fuel : ℕ) (s name : Bytes) (end : ℕ) (after : Bytes)
    → read_name s ≡ some (name, end, after)
    → receive (suc fuel) s ≡ then_receive fuel name (read_value end after)
unfolding then_receive after_name
receive-read fuel [] name end after e = ground arith
receive-read fuel (c ∷ s) name end after e = ap (after_name fuel) e

receive-field_bytes :
    (fields : Fields) (fuel : ℕ)
    → All IsField fields
    → length fields < fuel
    → receive fuel (field_bytes fields) ≡ some fields
unfolding then_receive
receive-field_bytes [] zero ok h = absurd (omega arith)
receive-field_bytes [] (suc fuel) ok h = refl
receive-field_bytes ((k, v) ∷ fields) zero ok h = absurd (omega arith)
receive-field_bytes ((k, v) ∷ fields) (suc fuel) (field, ok) h =
    let (end, after, name, value) = read_field k v (field_bytes fields) field in
    receive-read fuel (append_field [] k v ++ field_bytes fields) k end after name
    ∙ ap (then_receive fuel k) value
    ∙ rw (then_receive, receive-field_bytes fields fuel ok (omega arith))

-- Every field is a byte or more.
length-field_bytes : (fields : Fields) → length fields ≤ length (field_bytes fields)
length-field_bytes [] = omega arith
length-field_bytes ((k, v) ∷ fields) = elim (Bool-cases (has_newline v)) [
  | inl sized ↦
      let size = put_little_endian 8 (length v) in
      let after = size ++ (v ++ b'\n' ∷ field_bytes fields) in
      rw (sized_field k v (field_bytes fields) sized) (
        omega (
          arith,
          length-append k (b'\n' ∷ after),
          length-append size (v ++ b'\n' ∷ field_bytes fields),
          length-append v (b'\n' ∷ field_bytes fields),
          length-field_bytes fields,
        ))
  | inr plain ↦ rw (plain_field k v (field_bytes fields) plain) (
      omega (
        arith,
        length-append k (b'=' ∷ (v ++ b'\n' ∷ field_bytes fields)),
        length-append v (b'\n' ∷ field_bytes fields),
        length-field_bytes fields,
      ))
]

-- All that an entry has.
abbrev pub all_fields : Bytes → Fields → Fields
all_fields message fields = (codes "MESSAGE", message) ∷ (codes "PRIORITY", codes "6") ∷ fields

encode_entry-field_bytes :
    (message : Bytes) (fields : Fields)
    → encode_entry message fields ≡ field_bytes (all_fields message fields)
unfolding encode_entry append_fields
encode_entry-field_bytes message fields = append_fields-field_bytes (all_fields message fields) []

all_fields-IsField :
    (message : Bytes) (fields : Fields)
    → length message ≤ max_uint64
    → All IsField fields
    → All IsField (all_fields message fields)
all_fields-IsField message fields small ok = ((refl, small), ((refl, omega arith), ok))

taken_fields-All : (fields : Fields) → All IsField fields → taken_fields fields ≡ fields
taken_fields-All [] ok = refl
taken_fields-All ((k, v) ∷ fields) (field, ok) = rw (field.0, taken_fields-All fields ok) refl

-- A receiver that follows the protocol, and so leaves out fields whose names are empty, begin with "_" or
-- hold "=", a control character or a byte beyond ASCII, gets the message, the priority and the fields of
-- an entry back from its datagram, unchanged and in their order, whatever the message and the values hold,
-- as long as no name is such a one and each size fits into 64 bits.
pub receive_all-encode_entry :
    (message : Bytes) (fields : Fields)
    → length message ≤ max_uint64
    → All IsField fields
    → receive_all (encode_entry message fields)
      ≡ some ((codes "MESSAGE", message) ∷ (codes "PRIORITY", codes "6") ∷ fields)
receive_all-encode_entry message fields small ok =
    let bytes = field_bytes (all_fields message fields) in
    let all_ok = all_fields-IsField message fields small ok in
    let received : receive (length bytes + 1) bytes ≡ some (all_fields message fields) =
      receive-field_bytes (all_fields message fields) (length bytes + 1) all_ok
        (omega (arith, length-field_bytes (all_fields message fields))) in
    rw (encode_entry-field_bytes message fields)
      (ap take_received received ∙ ap some (taken_fields-All (all_fields message fields) all_ok))
