-- ===== src/Host/Login.antt =====
-- internal/host/login.go: the environment and the shell that a session starts with.
use swash.Prelude.{
  ℕ, ◌≡◌, refl, ap, ◌∙◌, inl, inr, Bool, true, false, not, ◌&&◌, ◌||◌, Option, none, some, List, [],
  ◌∷◌, map, arith, leb, ◌==◌, if◌then◌else◌, Bool-cases, Option-cases, get_elem?, All, Bytes, codes,
  Lacks, same, same_iff, same_refl, has_prefix, cut, split, join, split-join, Fields, or_else, find,
  put, find-put,
}

unfoldable pub name_start : ℕ → Bool
name_start c = c == b'_' || (leb b'A' c && leb c b'Z') || (leb b'a' c && leb c b'z')

unfoldable pub name_rest : Bytes → Bool
unfolding name_start
name_rest [] = true
name_rest (c ∷ s) = (name_start c || (leb b'0' c && leb c b'9')) && name_rest s

-- `validEnvName`. A byte outside of ASCII belongs to a rune that is refused.
unfoldable pub valid_env_name : Bytes → Bool
unfolding name_rest
valid_env_name [] = false
valid_env_name (c ∷ s) = name_start c && name_rest s

-- Whether `ForwardedEnvironment` keeps an entry with this name.
unfoldable pub is_forwarded : Bytes → Bool
unfolding valid_env_name has_prefix
is_forwarded name = not (has_prefix (codes "_") name) && valid_env_name name

-- The loop of `ForwardedEnvironment`.
unfoldable pub forward : Fields → List Bytes → Fields
unfolding is_forwarded cut
forward env [] = env
forward env (e ∷ es) = elim (cut b'=' e) [
  | none ↦ forward env es
  | some (name, value) ↦ forward (if is_forwarded name then put env name value else env) es
]

unfoldable pub forwarded_environment : List Bytes → Fields
unfolding forward
forwarded_environment environ = forward [] environ

-- The shell in the fields of one line, or what the lines behind it give.
unfoldable pub shell_in : Bytes → List Bytes → Bytes → Bytes
unfolding same
shell_in want fields rest = elim (get_elem? fields 2) [
  | none ↦ rest
  | some uid ↦ elim (get_elem? fields 6) [
    | none ↦ rest
    | some shell ↦ if same uid want then shell else rest
  ]
]

-- `passwdShell`, over the lines of the file.
unfoldable pub passwd_shell : Bytes → List Bytes → Bytes
unfolding split shell_in
passwd_shell want [] = []
passwd_shell want (line ∷ lines) = shell_in want (split b':' line) (passwd_shell want lines)

-- `loginShell`, with the lines of /etc/passwd, whether the shell that they name exists, and $SHELL.
unfoldable pub login_shell : Bytes → List Bytes → Bool → Bytes → Bytes
unfolding passwd_shell
login_shell uid lines exists env_shell =
    let shell = passwd_shell uid lines in
    if not (same shell []) && exists
    then shell
    else if not (same env_shell [])
    then env_shell
    else codes "/bin/sh"

-- `LoginCommand`, behind `loginShell`.
unfoldable pub login_command : Bytes → List Bytes → List Bytes
login_command shell command =
    shell ∷ codes "-l" ∷ codes "-c" ∷ codes "exec \"$@\"" ∷ codes "swash" ∷ command

-- The value of an entry, cut at "=", if it has the name.
abbrev pub value_in : Bytes → Option (Bytes × Bytes) → Option Bytes
value_in name none = none
value_in name (some (n, v)) = if same n name then some v else none

-- The value of the last entry with the name.
abbrev pub last_value : Bytes → List Bytes → Option Bytes
last_value name [] = none
last_value name (e ∷ es) = or_else (last_value name es) (value_in name (cut b'=' e))

abbrev forward_one : Fields → Bytes → Bytes → Fields
forward_one env n v = if is_forwarded n then put env n v else env

or_else_assoc : {A : Type 0} (a b c : Option A) → or_else (or_else a b) c ≡ or_else a (or_else b c)
or_else_assoc none b c = refl
or_else_assoc (some x) b c = refl

find-forward_one :
    (env : Fields) (n v name : Bytes)
    → is_forwarded name ≡ true
    → find name (forward_one env n v) ≡ or_else (value_in name (some (n, v))) (find name env)
find-forward_one env n v name kept = elim (Bool-cases (same n name)) [
  | inl equal ↦
      let e : n ≡ name = (same_iff n name).0 equal in rw (equal, e, kept, find-put, same_refl)
  | inr other ↦ elim (Bool-cases (is_forwarded n)) [
    | inl put_in ↦ rw (put_in, find-put, other)
    | inr left_out ↦ rw (left_out, other)
  ]
]

find-forward_one_dropped :
    (env : Fields) (n v name : Bytes)
    → is_forwarded name ≡ false
    → find name (forward_one env n v) ≡ find name env
find-forward_one_dropped env n v name dropped = elim (Bool-cases (is_forwarded n)) [
  | inr left_out ↦ rw left_out
  | inl put_in ↦ elim (Bool-cases (same n name)) [
    | inr other ↦ rw (put_in, find-put, other)
    | inl equal ↦ let e = ap is_forwarded ((same_iff n name).0 equal) in ground (arith, e)
  ]
]

find-forward :
    (environ : List Bytes) (env : Fields) (name : Bytes)
    → is_forwarded name ≡ true
    → find name (forward env environ) ≡ or_else (last_value name environ) (find name env)
unfolding forward
find-forward [] env name kept = refl
find-forward (e ∷ es) env name kept = elim (Option-cases (cut b'=' e)) [
  | inl no_value ↦ rw (forward, no_value, or_else_assoc) (find-forward es env name kept)
  | inr ((n, v), hit) ↦
      rw (forward, hit, or_else_assoc, ← find-forward_one env n v name kept)
        (find-forward es (forward_one env n v) name kept)
]

find-forward_dropped :
    (environ : List Bytes) (env : Fields) (name : Bytes)
    → is_forwarded name ≡ false
    → find name (forward env environ) ≡ find name env
unfolding forward
find-forward_dropped [] env name dropped = refl
find-forward_dropped (e ∷ es) env name dropped = elim (Option-cases (cut b'=' e)) [
  | inl no_value ↦ rw (forward, no_value) (find-forward_dropped es env name dropped)
  | inr ((n, v), hit) ↦
      rw (forward, hit, ← find-forward_one_dropped env n v name dropped)
        (find-forward_dropped es (forward_one env n v) name dropped)
]

or_else-none : {A : Type 0} (a : Option A) → or_else a none ≡ a
or_else-none none = refl
or_else-none (some x) = refl

-- A variable reaches the session if its name is valid and does not start with an underscore, and then
-- with the value of its last entry.
pub find-forwarded_environment :
    (environ : List Bytes) (name : Bytes)
    → find name (forwarded_environment environ)
      ≡ (if is_forwarded name then last_value name environ else none)
unfolding forwarded_environment find
find-forwarded_environment environ name = elim (Bool-cases (is_forwarded name)) [
  | inl kept ↦ rw kept (find-forward environ [] name kept ∙ or_else-none (last_value name environ))
  | inr dropped ↦ rw dropped (find-forward_dropped environ [] name dropped)
]

-- An account of /etc/passwd.
pub record Account : Type 0 where
  pub name : Bytes
  pub password : Bytes
  pub uid : Bytes
  pub gid : Bytes
  pub comment : Bytes
  pub home : Bytes
  pub shell : Bytes

abbrev pub fields_of : Account → List Bytes
fields_of a = a.password ∷ a.uid ∷ a.gid ∷ a.comment ∷ a.home ∷ a.shell ∷ []

abbrev pub HasNoColon : Account → Type 0
HasNoColon a = All (Lacks b':') (a.name ∷ fields_of a)

abbrev pub line_of : Account → Bytes
line_of a = join (b':' ∷ []) (a.name ∷ fields_of a)

abbrev pub shell_of : Bytes → List Account → Bytes
shell_of uid [] = []
shell_of uid (a ∷ accounts) = if same a.uid uid then a.shell else shell_of uid accounts

-- The shell that is found in the lines of some accounts is that of the first one with the uid, or
-- empty if there is none.
pub passwd_shell-shell_of :
    (uid : Bytes) (accounts : List Account)
    → All HasNoColon accounts
    → passwd_shell uid (map line_of accounts) ≡ shell_of uid accounts
unfolding passwd_shell shell_in
passwd_shell-shell_of uid [] h = refl
passwd_shell-shell_of uid (a ∷ accounts) (ha, h) =
    ap (λ fields. shell_in uid fields (passwd_shell uid (map line_of accounts)))
      (split-join b':' a.name (fields_of a) ha)
    ∙ ap (λ rest. if same a.uid uid then a.shell else rest) (passwd_shell-shell_of uid accounts h)
