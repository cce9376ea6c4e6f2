-- ===== src/Host/Sampler/Diag.antt =====
-- internal/host/sampler_linux.go: the attributes of a socket in a dump of the kernel. The native order
-- of bytes is the little end first, as on the machines that swash is built for.
use swash.Prelude.{
  ℕ, zero, suc, ◌+◌, ◌-◌, ◌*◌, ◌/◌, ◌%◌, ◌≤◌, ◌≡◌, refl, sym, ◌≢◌, false, ◌||◌, Option, none, some,
  List, [], ◌∷◌, ◌++◌, append_assoc, arith, ltb, if◌then◌else◌, length, take, drop, replicate,
  length-append, length-replicate, length-drop, drop-append, take-append, All, Bytes, ◌>>=◌,
}

-- `syscall.NetlinkRouteAttr`.
pub record RouteAttr : Type 0 where
  pub len : ℕ
  pub attr_type : ℕ
  pub value : Bytes

-- The length with what aligns it to four bytes.
unfoldable pub aligned : ℕ → ℕ
aligned l = (l + 3) / 4 * 4

-- The loop of `parseDiagAttrs`; `none` is a slice out of range. A round takes four bytes at least, so as
-- many rounds as there are bytes are enough.
unfoldable pub diag_attrs : ℕ → Bytes → Option (List RouteAttr)
unfolding aligned
diag_attrs (suc fuel) (l0 ∷ l1 ∷ t0 ∷ t1 ∷ rest) =
    let l = l0 + 256 * l1 in
    let attr : RouteAttr = record {
      len = l;
      attr_type = t0 + 256 * t1;
      value = take (l - 4) rest;
    } in
    let later = diag_attrs fuel (drop (aligned l - 4) rest) in
    if ltb l 4 || ltb (length rest + 4) l
    then some []
    else if ltb (length rest + 4) (aligned l)
    then none
    else later >>= λ attrs. some (attr ∷ attrs)
diag_attrs fuel b = some []

unfoldable pub parse_diag_attrs : Bytes → Option (List RouteAttr)
unfolding diag_attrs
parse_diag_attrs b = diag_attrs (length b) b

diag_attrs-total : (fuel : ℕ) (b : Bytes) → length b % 4 ≡ 0 → diag_attrs fuel b ≢ none
unfolding diag_attrs aligned
diag_attrs-total zero b whole = λ e. cc
diag_attrs-total (suc fuel) [] whole = λ e. cc
diag_attrs-total (suc fuel) (l0 ∷ []) whole = λ e. cc
diag_attrs-total (suc fuel) (l0 ∷ l1 ∷ []) whole = λ e. cc
diag_attrs-total (suc fuel) (l0 ∷ l1 ∷ t0 ∷ []) whole = λ e. cc
diag_attrs-total (suc fuel) (l0 ∷ l1 ∷ t0 ∷ t1 ∷ rest) whole =
    let l = l0 + 256 * l1 in
    let later = diag_attrs-total fuel (drop (aligned l - 4) rest) in
    ground (arith, later, length-drop (aligned l - 4) rest)

-- A message whose attributes take a multiple of four bytes, as the kernel's do, is read with no slice
-- out of range, whatever lengths the attributes claim.
pub parse_diag_attrs-total : (b : Bytes) → length b % 4 ≡ 0 → parse_diag_attrs b ≢ none
unfolding parse_diag_attrs
parse_diag_attrs-total b whole = diag_attrs-total (length b) b whole

-- An attribute as the kernel lays it out.
unfoldable pub diag_attr : RouteAttr → Bytes
unfolding aligned
diag_attr a =
    (a.len % 256)
    ∷ (a.len / 256)
    ∷ (a.attr_type % 256)
    ∷ (a.attr_type / 256)
    ∷ (a.value ++ replicate (aligned a.len - a.len) 0)

unfoldable pub diag_message : List RouteAttr → Bytes
unfolding diag_attr
diag_message [] = []
diag_message (a ∷ attrs) = diag_attr a ++ diag_message attrs

-- The length is that of the value and the header.
abbrev pub Sized : RouteAttr → Type 0
Sized a = a.len ≡ length a.value + 4

diag_attrs-diag_message :
    (fuel : ℕ) (attrs : List RouteAttr)
    → All Sized attrs
    → length (diag_message attrs) ≤ fuel
    → diag_attrs fuel (diag_message attrs) ≡ some attrs
unfolding diag_attrs diag_message diag_attr aligned
diag_attrs-diag_message zero [] sized enough = refl
diag_attrs-diag_message (suc fuel) [] sized enough = refl
diag_attrs-diag_message zero (a ∷ attrs) sized enough = absurd (omega arith)
diag_attrs-diag_message (suc fuel) (a ∷ attrs) sized enough =
    let pad : Bytes = replicate (aligned a.len - a.len) 0 in
    let body = a.value ++ pad in
    let more = diag_message attrs in
    let pad_length = length-replicate {A = ℕ} (aligned a.len - a.len) 0 in
    let body_length : length body ≡ aligned a.len - 4 =
      omega (arith, sized.0, length-append a.value pad, pad_length) in
    let len : a.len % 256 + 256 * (a.len / 256) ≡ a.len = omega arith in
    let attr_type : a.attr_type % 256 + 256 * (a.attr_type / 256) ≡ a.attr_type = omega arith in
    let value_length : a.len - 4 ≡ length a.value = omega (arith, sized.0) in
    let value : take (a.len - 4) (body ++ more) ≡ a.value =
      rw (value_length, append_assoc a.value pad more) (take-append a.value (pad ++ more)) in
    let later : drop (aligned a.len - 4) (body ++ more) ≡ more =
      rw (sym body_length) (drop-append body more) in
    let inside : ltb (length (body ++ more) + 4) (aligned a.len) ≡ false =
      ground (arith, length-append body more, body_length) in
    let long : ltb a.len 4 ≡ false = ground (arith, sized.0) in
    let whole : ltb (length (body ++ more) + 4) a.len ≡ false =
      ground (arith, length-append body more, body_length) in
    let read =
      diag_attrs-diag_message fuel attrs sized.1 (omega (arith, enough, length-append body more)) in
    rw (len, attr_type, value, later, long, whole, inside, read) refl

-- The attributes of a message that the kernel lays out are read as they are.
pub parse_diag_attrs-diag_message :
    (attrs : List RouteAttr) → All Sized attrs → parse_diag_attrs (diag_message attrs) ≡ some attrs
unfolding parse_diag_attrs
parse_diag_attrs-diag_message attrs sized =
    diag_attrs-diag_message (length (diag_message attrs)) attrs sized (omega arith)
