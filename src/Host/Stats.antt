-- ===== src/Host/Stats.antt =====
-- internal/host/stats.go: the totals of a session as fields of its exited event, and back.
use swash.Prelude.{
  ℕ, zero, suc, ◌≤◌, ◌≡◌, refl, ap, ◌∙◌, false, none, some, [], ◌∷◌, Bytes, codes, same, same_refl,
  Fields, find, put, find-put, max_uint64, format_uint, parse_uint_value,
  parse_uint_value-format_uint,
}

-- The cumulative fields of `Stats`, which are those that the exited event has.
pub record Stats : Type 0 where
  pub cpu_usec : ℕ
  pub mem_peak : ℕ
  pub swap_peak : ℕ
  pub oom_kills : ℕ
  pub disk_read : ℕ
  pub disk_write : ℕ
  pub net_rx : ℕ
  pub net_tx : ℕ

-- `if n > 0 { fields[name] = … }`.
unfoldable pub put_if_positive : Bytes → ℕ → Fields → Fields
put_if_positive name zero fields = fields
put_if_positive name (suc n) fields = put fields name (format_uint (suc n))

-- The fields that are always there.
unfoldable pub total_fields : Stats → Fields
total_fields s =
    (codes "SWASH_CPU_USEC", format_uint s.cpu_usec)
    ∷ (codes "SWASH_DISK_READ", format_uint s.disk_read)
    ∷ (codes "SWASH_DISK_WRITE", format_uint s.disk_write)
    ∷ (codes "SWASH_NET_RX", format_uint s.net_rx)
    ∷ (codes "SWASH_NET_TX", format_uint s.net_tx)
    ∷ []

abbrev oom : Bytes
oom = codes "SWASH_OOM_KILLS"

abbrev swap : Bytes
swap = codes "SWASH_SWAP_PEAK"

abbrev mem : Bytes
mem = codes "SWASH_MEM_PEAK"

unfoldable pub exit_fields : Stats → Fields
unfolding put_if_positive total_fields
exit_fields s =
    put_if_positive oom s.oom_kills
      (put_if_positive swap s.swap_peak (put_if_positive mem s.mem_peak (total_fields s)))

-- `get` in `StatsFromExitFields`: a missing name gives the empty text.
unfoldable pub get : Fields → Bytes → ℕ
get fields name = elim (find name fields) [
  | none ↦ parse_uint_value []
  | some text ↦ parse_uint_value text
]

unfoldable pub stats_from_exit_fields : Fields → Stats
unfolding get
stats_from_exit_fields fields = record {
  cpu_usec = get fields (codes "SWASH_CPU_USEC");
  mem_peak = get fields mem;
  swap_peak = get fields swap;
  oom_kills = get fields oom;
  disk_read = get fields (codes "SWASH_DISK_READ");
  disk_write = get fields (codes "SWASH_DISK_WRITE");
  net_rx = get fields (codes "SWASH_NET_RX");
  net_tx = get fields (codes "SWASH_NET_TX");
}

-- Every total fits into 64 bits.
abbrev pub Fits : Stats → Type 0
Fits s =
    (s.cpu_usec ≤ max_uint64)
    × (s.mem_peak ≤ max_uint64)
    × (s.swap_peak ≤ max_uint64)
    × (s.oom_kills ≤ max_uint64)
    × (s.disk_read ≤ max_uint64)
    × (s.disk_write ≤ max_uint64)
    × (s.net_rx ≤ max_uint64)
    × (s.net_tx ≤ max_uint64)

find-put_if_positive :
    (name other : Bytes) (n : ℕ) (fields : Fields)
    → same name other ≡ false
    → find other (put_if_positive name n fields) ≡ find other fields
unfolding put_if_positive
find-put_if_positive name other zero fields h = refl
find-put_if_positive name other (suc n) fields h = rw (find-put, h)

-- A total that is 0 is left out, and read back as 0.
get-put_if_positive :
    (name : Bytes) (n : ℕ) (fields : Fields)
    → n ≤ max_uint64
    → find name fields ≡ none
    → get (put_if_positive name n fields) name ≡ n
unfolding put_if_positive get parse_uint_value
get-put_if_positive name zero fields h new = rw (get, new)
get-put_if_positive name (suc n) fields h new =
    rw (get, find-put, same_refl) (parse_uint_value-format_uint (suc n) h)

get-find : (fs gs : Fields) (name : Bytes) → find name fs ≡ find name gs → get fs name ≡ get gs name
unfolding get
get-find fs gs name e =
    ap (λ o. elim o [ none ↦ parse_uint_value [] | some t ↦ parse_uint_value t ]) e

get-other :
    (name other : Bytes) (n : ℕ) (fields : Fields)
    → same name other ≡ false
    → get (put_if_positive name n fields) other ≡ get fields other
get-other name other n fields h =
    get-find (put_if_positive name n fields) fields other
      (find-put_if_positive name other n fields h)

get-mem : (s : Stats) → s.mem_peak ≤ max_uint64 → get (exit_fields s) mem ≡ s.mem_peak
unfolding exit_fields total_fields find same
get-mem s h =
    get-other oom mem s.oom_kills _ refl
    ∙ get-other swap mem s.swap_peak _ refl
    ∙ get-put_if_positive mem s.mem_peak (total_fields s) h refl

get-swap : (s : Stats) → s.swap_peak ≤ max_uint64 → get (exit_fields s) swap ≡ s.swap_peak
unfolding exit_fields total_fields find same
get-swap s h =
    let new = find-put_if_positive mem swap s.mem_peak (total_fields s) refl in
    get-other oom swap s.oom_kills _ refl ∙ get-put_if_positive swap s.swap_peak _ h new

get-oom : (s : Stats) → s.oom_kills ≤ max_uint64 → get (exit_fields s) oom ≡ s.oom_kills
unfolding exit_fields total_fields find same
get-oom s h =
    let new = find-put_if_positive mem oom s.mem_peak (total_fields s) refl in
    let newer =
      find-put_if_positive swap oom s.swap_peak (put_if_positive mem s.mem_peak (total_fields s))
        refl in
    get-put_if_positive oom s.oom_kills _ h (newer ∙ new)

-- A total that is always there.
get-total :
    (s : Stats) (name : Bytes) (n : ℕ)
    → same oom name ≡ false
    → same swap name ≡ false
    → same mem name ≡ false
    → find name (total_fields s) ≡ some (format_uint n)
    → n ≤ max_uint64
    → get (exit_fields s) name ≡ n
unfolding exit_fields get
get-total s name n a b c e h =
    get-other oom name s.oom_kills _ a
    ∙ get-other swap name s.swap_peak _ b
    ∙ get-other mem name s.mem_peak (total_fields s) c
    ∙ text (total_fields s) e
  where
    text : (fields : Fields) → find name fields ≡ some (format_uint n) → get fields name ≡ n
    text fields e = rw (get, e) (parse_uint_value-format_uint n h)

-- The totals that `ExitFields` writes are read back by `StatsFromExitFields`, whichever of them are 0.
pub stats_from_exit_fields-exit_fields :
    (s : Stats) → Fits s → stats_from_exit_fields (exit_fields s) ≡ s
unfolding stats_from_exit_fields total_fields same find
stats_from_exit_fields-exit_fields s (c, m, w, o, r, d, x, t) = rw (
  get-total s (codes "SWASH_CPU_USEC") s.cpu_usec refl refl refl refl c,
  get-mem s m,
  get-swap s w,
  get-oom s o,
  get-total s (codes "SWASH_DISK_READ") s.disk_read refl refl refl refl r,
  get-total s (codes "SWASH_DISK_WRITE") s.disk_write refl refl refl refl d,
  get-total s (codes "SWASH_NET_RX") s.net_rx refl refl refl refl x,
  get-total s (codes "SWASH_NET_TX") s.net_tx refl refl refl refl t,
)
