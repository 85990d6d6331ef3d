-- ===== src/Osinfo/Tests.antt =====
-- Paths of a system that knows one command.
use pwdmanlib.Base.{◌≡◌, refl, false, none, some, codes, ok}
use pwdmanlib.Osinfo.{System, get_absolute_path}

abbrev system : System
system = record {
  realpath = λ path. none;
  popen = λ command. some (some (codes "/bin/ls\n"));
  readlink = λ path. none;
}

which_finds :
    get_absolute_path system (codes "ls")
    ≡ ok (record { abs_path = codes "/bin/ls"; set_environ_flag = false })
unfolding get_absolute_path
which_finds = refl
