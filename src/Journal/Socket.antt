-- ===== src/Journal/Socket.antt =====
-- internal/journal/socket.go: the datagram of an entry. The fields come in the order in which the map
-- gives them.
pub mod Receive
pub mod RoundTrip
use swash.Prelude.{
  ℕ, zero, suc, ◌+◌, ◌-◌, ◌*◌, ◌/◌, ◌%◌, ◌^◌, ◌≤◌, ◌<◌, min, max, ◌≡◌, refl, sym, ap, ◌∙◌, fun_ext,
  subst, ◌≢◌, ◌↔◌, ◌⊎◌, inl, inr, Bool, true, false, not, ◌&&◌, ◌||◌, Option, none, some, List, [],
  ◌∷◌, ◌++◌, map, append_assoc, append-nil, arith, ltb, leb, ◌==◌, if◌then◌else◌, ltb→lt, lt→ltb,
  ==_iff, Bool-cases, Option-cases, length, get_elem?, take, drop, replicate, select, length-append,
  length-replicate, length-drop, drop-append, select-append, All, All-append, Bytes, codes, Lacks,
  same, same_iff, same_refl, has_prefix, cut_prefix, cut_prefix-append, trim_prefix, cut,
  cut-append, split, cons_head, join, join_rest, split_view, split-append, split-Lacks,
  split-ne-nil, join-split, split-join, split-All-Lacks, Map, Fields, or_else, find, put, remove,
  copy, find-put, find-remove, find-copy, find-copy_nil, map_laws, max_uint64, format_uint,
  parse_uint, parse_uint-format_uint, format_uint-Lacks, format_uint-injective, parse_uint_value,
  parse_uint_value-format_uint,
}

-- `binary.LittleEndian.PutUint64`, for eight bytes.
unfoldable pub put_little_endian : ℕ → ℕ → Bytes
put_little_endian zero n = []
put_little_endian (suc k) n = n % 256 ∷ put_little_endian k (n / 256)

-- `strings.ContainsAny(value, "\n")`.
unfoldable pub has_newline : Bytes → Bool
has_newline [] = false
has_newline (c ∷ s) = c == b'\n' || has_newline s

unfoldable pub append_field : Bytes → Bytes → Bytes → Bytes
unfolding put_little_endian has_newline
append_field buf key value =
    if has_newline value
    then buf ++ key ++ b'\n' ∷ (put_little_endian 8 (length value) ++ value ++ b'\n' ∷ [])
    else buf ++ key ++ b'=' ∷ (value ++ b'\n' ∷ [])

-- The loop over the fields.
unfoldable pub append_fields : Bytes → Fields → Bytes
unfolding append_field
append_fields buf [] = buf
append_fields buf ((k, v) ∷ fields) = append_fields (append_field buf k v) fields

unfoldable pub encode_entry : Bytes → Fields → Bytes
unfolding append_fields
encode_entry message fields =
    append_fields
      (append_field (append_field [] (codes "MESSAGE") message) (codes "PRIORITY") (codes "6"))
      fields
