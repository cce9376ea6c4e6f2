-- ===== src/Backend/Limits.antt =====
-- internal/backend/limits.go: the limits of a session and the texts that set them. `strings.TrimSpace`
-- and `strings.ToUpper` are those of ASCII text, and Go's `float64` is a record of operations.
pub mod Commute
pub mod Order
pub mod Caps
use swash.Prelude.{
  ℕ, ◌*◌, ◌/◌, Bool, true, false, ◌&&◌, ◌||◌, Option, none, some, List, [], ◌∷◌, leb, ◌==◌,
  if◌then◌else◌, Bytes, codes, same, cut, split, parse_uint,
}

-- `float64`, with what the source does with it.
pub record Float (F : Type 0) : Type 0 where
  pub zero_value : F
  pub one : F
  pub kilo : F
  pub mega : F
  pub giga : F
  pub tera : F
  pub parse_float : Bytes → Option F
  pub not_positive : F → Bool
  pub above_hundred : F → Bool
  pub multiply : F → F → F
  pub percent_of : F → ℕ → F
  pub to_uint64 : F → ℕ

pub record Limits (F : Type 0) : Type 0 where
  pub cpus : F
  pub cpu_weight : ℕ
  pub io_weight : ℕ
  pub memory_high : ℕ
  pub memory_max : ℕ
  pub swap_max : ℕ
  pub no_swap : Bool
  pub tasks_max : ℕ

-- The cases of the `switch` on the key.
pub data Key : Type 0 where
  cpus_key weight_key io_weight_key mem_key swap_key high_key tasks_key : Key

unfoldable pub key_of : Bytes → Option Key
key_of s =
    if same s (codes "cpus") || same s (codes "cpu")
    then some cpus_key
    else if same s (codes "weight")
    then some weight_key
    else if same s (codes "io-weight")
    then some io_weight_key
    else if same s (codes "mem") || same s (codes "memory")
    then some mem_key
    else if same s (codes "swap")
    then some swap_key
    else if same s (codes "high")
    then some high_key
    else if same s (codes "tasks")
    then some tasks_key
    else none

unfoldable pub is_space : ℕ → Bool
is_space c = c == b' ' || (leb 9 c && leb c 13)

unfoldable pub trim_left : Bytes → Bytes
unfolding is_space
trim_left [] = []
trim_left (c ∷ s) = if is_space c then trim_left s else c ∷ s

unfoldable pub trim_right : Bytes → Bytes
unfolding is_space
trim_right [] = []
trim_right (c ∷ s) = let rest = trim_right s in if is_space c && same rest [] then [] else c ∷ rest

-- `strings.TrimSpace`.
unfoldable pub trim_space : Bytes → Bytes
unfolding trim_left trim_right
trim_space s = trim_right (trim_left s)

-- The last byte and what stands before it.
unfoldable pub last_byte : Bytes → Option (Bytes × ℕ)
last_byte [] = none
last_byte (c ∷ s) =
    let rest = last_byte s in
    elim rest [ none ↦ some ([], c) | some (front, b) ↦ some (c ∷ front, b) ]

-- `off := value == "off" || value == "none" || value == "0"`.
unfoldable pub is_off : Bytes → Bool
is_off value = same value (codes "off") || same value (codes "none") || same value (codes "0")

module _ {F : Type 0} (float : Float F) where
  unfoldable pub no_limits : Limits F
  no_limits = record {
    cpus = float.zero_value;
    cpu_weight = 0;
    io_weight = 0;
    memory_high = 0;
    memory_max = 0;
    swap_max = 0;
    no_swap = false;
    tasks_max = 0;
  }

  -- The factor of a unit, if the byte is one.
  unfoldable pub unit : ℕ → Option F
  unit c =
      if c == b'K' || c == b'k'
      then some float.kilo
      else if c == b'M' || c == b'm'
      then some float.mega
      else if c == b'G' || c == b'g'
      then some float.giga
      else if c == b'T' || c == b't'
      then some float.tera
      else none

  -- The end of `ParseSize`.
  unfoldable pub parse_amount : F → Bytes → Option ℕ
  parse_amount mult s = elim (float.parse_float s) [
    | none ↦ none
    | some v ↦ if float.not_positive v then none else some (float.to_uint64 (float.multiply v mult))
  ]

  -- A percentage of the memory, which is 0 if it cannot be read.
  unfoldable pub parse_percentage : ℕ → Bytes → Option ℕ
  parse_percentage total s = elim (float.parse_float s) [
    | none ↦ none
    | some p ↦
        if float.not_positive p || float.above_hundred p || total == 0
        then none
        else some (float.to_uint64 (float.percent_of p total))
  ]

  -- `ParseSize`, with the memory of the machine; `none` is an error.
  unfoldable pub parse_size : ℕ → Bytes → Option ℕ
  unfolding trim_space last_byte unit parse_amount parse_percentage
  parse_size total s = elim (last_byte (trim_space s)) [
    | none ↦ parse_amount float.one []
    | some (front, c) ↦ if c == b'%' then parse_percentage total front else elim (unit c) [
      | none ↦ parse_amount float.one (trim_space s)
      | some mult ↦ parse_amount mult front
    ]
  ]

-- The variables of the loop in `ParseLimits`.
pub record Parsing (F : Type 0) : Type 0 where
  pub limits : Limits F
  pub high_set : Bool
  pub swap_set : Bool

abbrev pub Setting : Type 0
Setting = Key × Bytes

module _ {F : Type 0} (float : Float F) (total : ℕ) where
  unfoldable set_cpus : Bytes → Parsing F → Option (Parsing F)
  set_cpus value p = elim (float.parse_float value) [
    | none ↦ none
    | some n ↦
        if float.not_positive n
        then none
        else some (record p { limits = record p.limits { cpus = n } })
  ]

  -- A cap of the memory, which sets the limits that were not set beside it.
  unfoldable pub set_mem : ℕ → Parsing F → Parsing F
  set_mem n p = record p {
    limits = record p.limits {
      memory_max = n;
      memory_high = if p.high_set then p.limits.memory_high else n / 10 * 9;
      swap_max = if p.swap_set then p.limits.swap_max else 0;
      no_swap = if p.swap_set then p.limits.no_swap else true;
    };
  }

  unfoldable pub set_swap : Option ℕ → Bool → Parsing F → Option (Parsing F)
  set_swap none forbidden p = none
  set_swap (some n) forbidden p =
      some (record p {
        limits = record p.limits { swap_max = n; no_swap = forbidden };
        swap_set = true;
      })

  -- One setting; `none` is an error.
  unfoldable pub apply_setting : Setting → Parsing F → Option (Parsing F)
  unfolding set_cpus set_mem set_swap is_off parse_size parse_uint
  apply_setting (cpus_key, value) p =
      if is_off value
      then some (record p { limits = record p.limits { cpus = float.zero_value } })
      else set_cpus value p
  apply_setting (weight_key, value) p = elim (if is_off value then some 0 else parse_uint value) [
    | none ↦ none
    | some n ↦ some (record p { limits = record p.limits { cpu_weight = n } })
  ]
  apply_setting (io_weight_key, value) p =
      elim (if is_off value then some 0 else parse_uint value) [
        | none ↦ none
        | some n ↦ some (record p { limits = record p.limits { io_weight = n } })
      ]
  apply_setting (mem_key, value) p =
      if is_off value
      then some (record p { limits = record p.limits { memory_max = 0; memory_high = 0 } })
      else elim (parse_size float total value) [ none ↦ none | some n ↦ some (set_mem n p) ]
  apply_setting (swap_key, value) p =
      if same value (codes "off") || same value (codes "none")
      then set_swap (some 0) false p
      else if same value (codes "0")
      then set_swap (some 0) true p
      else set_swap (parse_size float total value) false p
  apply_setting (high_key, value) p =
      elim (if is_off value then some 0 else parse_size float total value) [
        | none ↦ none
        | some n ↦ some (record {
          limits = record p.limits { memory_high = n };
          high_set = true;
          swap_set = p.swap_set;
        })
      ]
  apply_setting (tasks_key, value) p = elim (if is_off value then some 0 else parse_uint value) [
    | none ↦ none
    | some n ↦ some (record p { limits = record p.limits { tasks_max = n } })
  ]

  -- The loop over the settings, which ends at the first error.
  unfoldable pub apply_settings : List Setting → Parsing F → Option (Parsing F)
  unfolding apply_setting
  apply_settings [] p = some p
  apply_settings (s ∷ ss) p = elim (apply_setting s p) [
    | none ↦ none
    | some q ↦ apply_settings ss q
  ]

-- One part of the text, cut at "="; `none` is a part that is no setting.
unfoldable pub setting_of : Bytes → Option Setting
unfolding cut key_of trim_space
setting_of part = elim (cut b'=' (trim_space part)) [
  | none ↦ none
  | some (key, value) ↦ elim (key_of key) [ none ↦ none | some k ↦ some (k, value) ]
]

unfoldable pub settings_of : List Bytes → Option (List Setting)
unfolding setting_of
settings_of [] = some []
settings_of (part ∷ parts) = elim (setting_of part) [
  | none ↦ none
  | some s ↦ elim (settings_of parts) [ none ↦ none | some ss ↦ some (s ∷ ss) ]
]

module _ {F : Type 0} (float : Float F) where
  unfoldable pub start : Limits F → Parsing F
  start base = record { limits = base; high_set = false; swap_set = false }

  -- `ParseLimits`, with the memory of the machine. A text with an error anywhere has none of its
  -- settings, so it makes no difference that all of its parts are cut before the first is applied.
  unfoldable pub parse_limits : ℕ → Bytes → Limits F → Option (Limits F)
  unfolding settings_of apply_settings start trim_space split no_limits
  parse_limits total spec base =
      let text = trim_space spec in
      if same text []
      then some base
      else if same text (codes "off") || same text (codes "none") || same text (codes "unlimited")
      then some (no_limits float)
      else elim (settings_of (split b',' text)) [
        | none ↦ none
        | some settings ↦ elim (apply_settings float total settings (start base)) [
          | none ↦ none
          | some p ↦ some p.limits
        ]
      ]
