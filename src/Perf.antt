-- ===== src/Perf.antt =====
-- apps/tsn_perf.c, the latency test: its options and the checks of them. `getopt`, `atoi` and `atol` are
-- the C library's: what `getopt` returns is a list, with the text of each argument.
pub mod Config
pub mod Talk
pub mod Talker
pub mod Times
pub mod Wire
mod Tests
use kuberne_tsn.Common.{
  ℕ, ◌-◌, Bool, true, false, not, ◌&&◌, ◌||◌, Option, none, some, List, [], ◌∷◌, replicate, ◌==◌,
  if◌then◌else◌,
}
use kuberne_tsn.Common.Int.{ℤ, pos, ltb_ℤ, eqb_ℤ}
use kuberne_tsn.Common.Run.{Run, done, aborted, ◌>>=◌}
use kuberne_tsn.Common.Text.{strncpy}

-- `struct app_config`
pub record AppConfig : Type 0 where
  pub is_talker : ℕ
  pub port : ℤ
  pub addr : List ℕ
  pub n_msgs : ℤ
  pub msg_size : ℤ
  pub use_txtime : ℕ
  pub wakeup_delay : ℤ
  pub interval : ℤ
  pub priority : ℤ
  pub verbose : ℕ

-- `DEFAULT_ADDR`, 192.168.100.12
abbrev pub default_addr : List ℕ
default_addr = 49 ∷ 57 ∷ 50 ∷ 46 ∷ 49 ∷ 54 ∷ 56 ∷ 46 ∷ 49 ∷ 48 ∷ 48 ∷ 46 ∷ 49 ∷ 50 ∷ []

abbrev pub default_config : AppConfig
default_config = record {
  is_talker = 1;
  port = pos 9999;
  addr = replicate 64 0;
  n_msgs = pos 1000;
  msg_size = pos 512;
  use_txtime = 0;
  wakeup_delay = pos 100000;
  interval = pos 1000000;
  priority = pos 0;
  verbose = 0;
}

-- `atoi` and `atol`
pub record Libc : Type 0 where
  pub atoi : List ℕ → ℤ
  pub atol : List ℕ → ℤ

-- what `getopt` returns, with the argument where the option has one
pub data Flag : Type 0 where
  port_flag n_msgs_flag msg_size_flag addr_flag interval_flag wakeup_flag : (optarg : List ℕ) → Flag
  txtime_flag verbose_flag unknown_flag : Flag

-- The `switch` over an option. `aborted` is the exit after the usage message.
unfoldable pub set_option : Libc → AppConfig → Flag → Run AppConfig
set_option libc config (port_flag optarg) = done (record config { port = libc.atoi optarg })
set_option libc config (n_msgs_flag optarg) = done (record config { n_msgs = libc.atoi optarg })
set_option libc config (msg_size_flag optarg) = done (record config { msg_size = libc.atoi optarg })
set_option libc config (addr_flag optarg) =
    done (record config { addr = strncpy config.addr optarg (64 - 1) })
set_option libc config (interval_flag optarg) = done (record config { interval = libc.atol optarg })
set_option libc config (wakeup_flag optarg) =
    done (record config { wakeup_delay = libc.atol optarg })
set_option libc config txtime_flag = done (record config { use_txtime = 1 })
set_option libc config verbose_flag = done (record config { verbose = 1 })
set_option libc config unknown_flag = aborted

-- the loop over the options
unfoldable pub parse_options : Libc → List Flag → AppConfig → Run AppConfig
parse_options libc [] config = done config
parse_options libc (flag ∷ flags) config =
    set_option libc config flag >>= λ next. parse_options libc flags next

-- The checks after the loop; a failed one exits.
unfoldable pub check_config : AppConfig → Run AppConfig
check_config config =
    let fixed = if ltb_ℤ (pos 0) config.n_msgs then config else record config { n_msgs = pos 1 } in
    if eqb_ℤ config.port (pos 0)
    then aborted
    else if not (ltb_ℤ (pos 0) config.msg_size) || ltb_ℤ (pos 1450) config.msg_size
    then aborted
    else done fixed

-- `strcmp` of two texts is 0.
unfoldable pub same_text : List ℕ → List ℕ → Bool
same_text [] [] = true
same_text (x ∷ xs) (y ∷ ys) = (x == y) && same_text xs ys
same_text xs ys = false

-- "talker" and "listener"
abbrev pub talker : List ℕ
talker = 116 ∷ 97 ∷ 108 ∷ 107 ∷ 101 ∷ 114 ∷ []

abbrev pub listener : List ℕ
listener = 108 ∷ 105 ∷ 115 ∷ 116 ∷ 101 ∷ 110 ∷ 101 ∷ 114 ∷ []

-- The role from the environment, if APP_ROLE is set; `aborted` is the fault of `strcmp` on a NULL.
unfoldable pub set_role : Option (List ℕ) → AppConfig → Run AppConfig
set_role none config = aborted
set_role (some role) config =
    if same_text role talker
    then done (record config { is_talker = 1 })
    else if same_text role listener
    then done (record config { is_talker = 0 })
    else done config

-- `main` up to the call of `do_talker` or `do_listener`
unfoldable pub configure : Libc → List Flag → Option (List ℕ) → Run AppConfig
configure libc flags role = do
  config ←
      parse_options libc flags
        (record default_config { addr = strncpy default_config.addr default_addr (64 - 1) })
  checked ← check_config config
  set_role role checked
