-- ===== src/Tests/Login.antt =====
-- internal/host/login.go at a small environment and two accounts.
use swash.Prelude.{
  ◌≡◌, refl, true, none, some, List, [], ◌∷◌, map, arith, if◌then◌else◌, All, Bytes, codes, same,
  has_prefix, cut, split, cons_head, join, put,
}
use swash.Host.Login.{
  name_start, name_rest, forward, valid_env_name, is_forwarded, forwarded_environment, shell_in,
  passwd_shell, login_shell, login_command, last_value, Account, HasNoColon, line_of, shell_of,
  passwd_shell-shell_of,
}

abbrev environ : List Bytes
environ =
    codes "PATH=/bin"
    ∷ codes "_=/usr/bin/env"
    ∷ codes "SENTRY-TRACE=1"
    ∷ codes "PATH=/usr/bin:/opt=x"
    ∷ codes "LANG"
    ∷ []

last_value-environ :
    (if is_forwarded (codes "PATH") then last_value (codes "PATH") environ else none)
    ≡ some (codes "/usr/bin:/opt=x")
unfolding is_forwarded valid_env_name name_rest name_start has_prefix cut same
last_value-environ = refl

forwarded_environment_lem :
    forwarded_environment environ ≡ (codes "PATH", codes "/usr/bin:/opt=x") ∷ []
unfolding forwarded_environment forward is_forwarded valid_env_name name_rest name_start has_prefix
    cut put same
forwarded_environment_lem = refl

abbrev account : Bytes → Bytes → Bytes → Account
account name uid shell = record {
  name = name;
  password = codes "x";
  uid = uid;
  gid = codes "100";
  comment = [];
  home = codes "/home";
  shell = shell;
}

abbrev accounts : List Account
accounts =
    account (codes "root") (codes "0") (codes "/bin/sh")
    ∷ account (codes "ada") (codes "1000") (codes "/bin/zsh")
    ∷ []

accounts-HasNoColon : All HasNoColon accounts
accounts-HasNoColon = ground arith

passwd_shell-shell_of_example :
    passwd_shell (codes "1000") (map line_of accounts) ≡ shell_of (codes "1000") accounts
passwd_shell-shell_of_example = passwd_shell-shell_of (codes "1000") accounts accounts-HasNoColon

login_shell_lem :
    login_command
      (login_shell (codes "1000") (map line_of accounts) true (codes "/bin/bash"))
      (codes "make" ∷ [])
    ≡ codes "/bin/zsh"
      ∷ codes "-l"
      ∷ codes "-c"
      ∷ codes "exec \"$@\""
      ∷ codes "swash"
      ∷ codes "make"
      ∷ []
unfolding login_command login_shell passwd_shell shell_in join split cons_head same
login_shell_lem = refl
