-- ===== src/Journal/Socket/Receive.antt =====
-- A receiver that follows pkg/journalfile/JOURNAL_NATIVE_PROTOCOL.md, and what it makes of one field
-- of internal/journal/socket.go.
use swash.Prelude.{
  ℕ, zero, suc, ◌+◌, ◌*◌, ◌/◌, ◌≤◌, ◌<◌, ◌≡◌, refl, ap, ◌∙◌, subst, inl, inr, Bool, true, false,
  not, ◌&&◌, ◌||◌, Option, none, some, List, [], ◌∷◌, ◌++◌, append_assoc, append-nil, arith, ltb,
  ◌==◌, if◌then◌else◌, Bool-cases, length, take, drop, drop-append, take-append, Bytes, Lacks, cut,
  cut-append, Fields, max_uint64,
}
use swash.Journal.Socket.{put_little_endian, has_newline, append_field, append_fields}

-- The name of a field, the byte that ends it, and what follows.
abbrev pub read_name : Bytes → Option (Bytes × ℕ × Bytes)
read_name [] = none
read_name (c ∷ s) =
    if c == b'=' || c == b'\n'
    then some ([], c, s)
    else elim (read_name s) [ none ↦ none | some (name, end, rest) ↦ some (c ∷ name, end, rest) ]

abbrev pub get_little_endian : Bytes → ℕ
get_little_endian [] = 0
get_little_endian (d ∷ ds) = d + 256 * get_little_endian ds

-- A value of the given size, with a newline behind it.
abbrev pub read_sized : ℕ → Bytes → Option (Bytes × Bytes)
read_sized n s = elim (drop n s) [
  | [] ↦ none
  | c ∷ rest ↦ if c == b'\n' then some (take n s, rest) else none
]

abbrev pub read_value : ℕ → Bytes → Option (Bytes × Bytes)
read_value end s =
    if end == b'=' then cut b'\n' s else read_sized (get_little_endian (take 8 s)) (drop 8 s)

-- The fields of a datagram in their order; a field takes a byte at least.
abbrev pub receive : ℕ → Bytes → Option (List (Bytes × Bytes))
receive zero s = none
receive (suc fuel) [] = some []
receive (suc fuel) (c ∷ s) = elim (read_name (c ∷ s)) [
  | none ↦ none
  | some (name, end, rest) ↦ elim (read_value end rest) [
    | none ↦ none
    | some (value, more) ↦ elim (receive fuel more) [
      | none ↦ none
      | some fields ↦ some ((name, value) ∷ fields)
    ]
  ]
]

-- A byte of ASCII that is no control character, and not the one that ends a name.
abbrev pub is_name_byte : ℕ → Bool
is_name_byte c = ltb 31 c && ltb c 127 && not (c == b'=')

abbrev pub all_name_bytes : Bytes → Bool
all_name_bytes [] = true
all_name_bytes (c ∷ s) = is_name_byte c && all_name_bytes s

-- The names that a receiver takes: none that is empty, and none of the trusted ones that it sets itself,
-- which begin with "_".
abbrev pub is_taken : Bytes → Bool
is_taken [] = false
is_taken (c ∷ name) = not (c == b'_') && all_name_bytes (c ∷ name)

-- Fields with other names are left out.
abbrev pub taken_fields : List (Bytes × Bytes) → List (Bytes × Bytes)
taken_fields [] = []
taken_fields ((name, value) ∷ fields) =
    if is_taken name then (name, value) ∷ taken_fields fields else taken_fields fields

abbrev pub take_received : Option (List (Bytes × Bytes)) → Option (List (Bytes × Bytes))
take_received none = none
take_received (some fields) = some (taken_fields fields)

abbrev pub receive_all : Bytes → Option (List (Bytes × Bytes))
receive_all s = take_received (receive (length s + 1) s)

-- A name that the protocol can carry.
abbrev pub IsName : Bytes → Type 0
IsName name = is_taken name ≡ true

Lacks-name : (b : ℕ) → is_name_byte b ≡ false → (s : Bytes) → all_name_bytes s ≡ true → Lacks b s
Lacks-name b no_byte [] h = tt
Lacks-name b no_byte (c ∷ s) h =
    ((λ e. ground (arith, ap is_name_byte e)), Lacks-name b no_byte s (ground arith))

IsName-bytes : (name : Bytes) → IsName name → all_name_bytes name ≡ true
IsName-bytes [] h = refl
IsName-bytes (c ∷ name) h = ground arith

-- The size of a value is a number of 64 bits.
abbrev pub IsField : Bytes × Bytes → Type 0
IsField (name, value) = IsName name × (length value ≤ max_uint64)

read_name-append :
    (name : Bytes) (end : ℕ) (rest : Bytes)
    → (end == b'=' || end == b'\n') ≡ true
    → Lacks b'=' name
    → Lacks b'\n' name
    → read_name (name ++ end ∷ rest) ≡ some (name, end, rest)
read_name-append [] end rest ends no_eq no_nl = rw ends
read_name-append (c ∷ name) end rest ends (c_eq, name_eq) (c_nl, name_nl) =
    ground (arith, read_name-append name end rest ends name_eq name_nl)

length-put_little_endian : (k n : ℕ) → length (put_little_endian k n) ≡ k
unfolding put_little_endian
length-put_little_endian zero n = refl
length-put_little_endian (suc k) n = omega (arith, length-put_little_endian k (n / 256))

bound : ℕ → ℕ
bound zero = 1
bound (suc k) = 256 * bound k

get-put_little_endian : (k n : ℕ) → n < bound k → get_little_endian (put_little_endian k n) ≡ n
unfolding put_little_endian bound
get-put_little_endian zero n h = omega arith
get-put_little_endian (suc k) n h = omega (arith, get-put_little_endian k (n / 256) (omega arith))

read_sized-append :
    (value rest : Bytes) → read_sized (length value) (value ++ b'\n' ∷ rest) ≡ some (value, rest)
read_sized-append value rest =
    rw (read_sized, drop-append value (b'\n' ∷ rest), take-append value (b'\n' ∷ rest))

Lacks-newline : (s : Bytes) → has_newline s ≡ false → Lacks b'\n' s
unfolding has_newline
Lacks-newline [] h = tt
Lacks-newline (c ∷ s) h = ((λ e. ground arith), Lacks-newline s (ground arith))

-- The fields of a datagram behind each other.
abbrev pub field_bytes : Fields → Bytes
field_bytes [] = []
field_bytes ((k, v) ∷ fields) = append_field [] k v ++ field_bytes fields

append_field-buf : (buf k v : Bytes) → append_field buf k v ≡ buf ++ append_field [] k v
unfolding append_field
append_field-buf buf k v = elim (Bool-cases (has_newline v)) [
  | inl sized ↦ rw sized (append_assoc buf k _)
  | inr plain ↦ rw plain (append_assoc buf k _)
]

pub append_fields-field_bytes :
    (fields : Fields) (buf : Bytes) → append_fields buf fields ≡ buf ++ field_bytes fields
unfolding append_fields
append_fields-field_bytes [] buf = rw append-nil
append_fields-field_bytes ((k, v) ∷ fields) buf =
    append_fields-field_bytes fields (append_field buf k v)
    ∙ rw (append_field-buf buf k v, append_assoc)

pub plain_field :
    (k v rest : Bytes)
    → has_newline v ≡ false
    → append_field [] k v ++ rest ≡ k ++ b'=' ∷ (v ++ b'\n' ∷ rest)
unfolding append_field
plain_field k v rest plain = rw plain (
    append_assoc k (b'=' ∷ (v ++ b'\n' ∷ [])) rest
    ∙ ap (λ s. k ++ b'=' ∷ s) (append_assoc v (b'\n' ∷ []) rest))

pub sized_field :
    (k v rest : Bytes)
    → has_newline v ≡ true
    → append_field [] k v ++ rest
      ≡ k ++ b'\n' ∷ (put_little_endian 8 (length v) ++ (v ++ b'\n' ∷ rest))
unfolding append_field
sized_field k v rest sized =
    let size = put_little_endian 8 (length v) in
    rw sized (
      append_assoc k (b'\n' ∷ (size ++ v ++ b'\n' ∷ [])) rest
      ∙ ap (λ s. k ++ b'\n' ∷ s)
          (append_assoc size (v ++ b'\n' ∷ []) rest
            ∙ ap (λ s. size ++ s) (append_assoc v (b'\n' ∷ []) rest)))

read_size :
    (n : ℕ) (s : Bytes)
    → n ≤ max_uint64
    → (get_little_endian (take 8 (put_little_endian 8 n ++ s)) ≡ n)
      × (drop 8 (put_little_endian 8 n ++ s) ≡ s)
read_size n s small =
    let size = length-put_little_endian 8 n in
    let front : take 8 (put_little_endian 8 n ++ s) ≡ put_little_endian 8 n =
      subst (λ m. take m (put_little_endian 8 n ++ s) ≡ put_little_endian 8 n) size
        (take-append (put_little_endian 8 n) s) in
    let back : drop 8 (put_little_endian 8 n ++ s) ≡ s =
      subst (λ m. drop m (put_little_endian 8 n ++ s) ≡ s) size
        (drop-append (put_little_endian 8 n) s) in
    (rw front (get-put_little_endian 8 n (unfold bound in omega arith)), back)

-- One field is read back, whichever form it has.
pub read_field :
    (k v rest : Bytes)
    → IsField (k, v)
    → (end : ℕ) × (after : Bytes) × (read_name (append_field [] k v ++ rest) ≡ some (k, end, after))
      × (read_value end after ≡ some (v, rest))
read_field k v rest (name, small) = elim (Bool-cases (has_newline v)) [
  | inl sized ↦
      let (size, value) = read_size (length v) (v ++ b'\n' ∷ rest) small in
      (
        b'\n',
        put_little_endian 8 (length v) ++ (v ++ b'\n' ∷ rest),
        rw (sized_field k v rest sized) (
            read_name-append k b'\n' _ refl (Lacks-name b'=' refl k (IsName-bytes k name))
              (Lacks-name b'\n' refl k (IsName-bytes k name))),
        rw (size, value) (read_sized-append v rest),
      )
  | inr plain ↦ (
    b'=',
    v ++ b'\n' ∷ rest,
    rw (plain_field k v rest plain) (
        read_name-append k b'=' (v ++ b'\n' ∷ rest) refl
          (Lacks-name b'=' refl k (IsName-bytes k name))
          (Lacks-name b'\n' refl k (IsName-bytes k name))),
    cut-append b'\n' v rest (Lacks-newline v plain),
  )
]
