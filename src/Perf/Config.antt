-- ===== src/Perf/Config.antt =====
-- What the options of the latency test can make of its configuration.
use mathlib.Core.Path.{subst}
use kuberne_tsn.Common.{
  ℕ, ◌≡◌, ◌≢◌, Option, none, some, List, inl, inr, Bool-cases, arith, not, ◌||◌, if◌then◌else◌,
  false,
}
use kuberne_tsn.Common.Int.{pos, ltb_ℤ, eqb_ℤ, ◌<ℤ◌, ◌≤ℤ◌}
use kuberne_tsn.Common.Run.{done, done-inj, bind-done}
use kuberne_tsn.Perf.{
  AppConfig, Libc, Flag, parse_options, check_config, same_text, talker, listener, set_role,
  configure,
}

-- A configuration that the test runs with.
pub record Usable (config : AppConfig) : Type 0 where
  pub has_port : config.port ≢ pos 0
  pub smallest : pos 0 <ℤ config.msg_size
  pub largest : config.msg_size ≤ℤ pos 1450
  pub some_msgs : pos 0 <ℤ config.n_msgs

fixed-Usable :
    (config : AppConfig)
    → eqb_ℤ config.port (pos 0) ≡ false
    → (not (ltb_ℤ (pos 0) config.msg_size) || ltb_ℤ (pos 1450) config.msg_size) ≡ false
    → Usable (if ltb_ℤ (pos 0) config.n_msgs then config else record config { n_msgs = pos 1 })
fixed-Usable config port size = elim (Bool-cases (ltb_ℤ (pos 0) config.n_msgs)) [
  | inl some_msgs ↦ rw some_msgs record {
    has_port = λ none_set. ground arith;
    smallest = ground arith;
    largest = ground arith;
    some_msgs = ground arith;
  }
  | inr no_msgs ↦ rw no_msgs record {
    has_port = λ none_set. ground arith;
    smallest = ground arith;
    largest = ground arith;
    some_msgs = omega arith;
  }
]

check_config-Usable :
    (config : AppConfig) {checked : AppConfig} → check_config config ≡ done checked → Usable checked
unfolding check_config
check_config-Usable config ended = elim (Bool-cases (eqb_ℤ config.port (pos 0))) [
  | inl no_port ↦ absurd (cc (rw (no_port, check_config) at ended))
  | inr port ↦
      elim (Bool-cases (not (ltb_ℤ (pos 0) config.msg_size) || ltb_ℤ (pos 1450) config.msg_size)) [
        | inl bad ↦ absurd (cc (rw (port, bad, check_config) at ended))
        | inr good ↦
            subst Usable (done-inj (rw (port, good, check_config) at ended))
              (fixed-Usable config port good)
      ]
]

-- The role changes nothing that the checks are about.
set_role-Usable :
    (role : Option (List ℕ)) (config : AppConfig) {c : AppConfig}
    → Usable config
    → set_role role config ≡ done c
    → Usable c
unfolding set_role
set_role-Usable none config usable ended = absurd cc
set_role-Usable (some role) config usable ended = elim (Bool-cases (same_text role talker)) [
  | inl talks ↦ subst Usable (done-inj (rw (talks, set_role) at ended)) record {
    has_port = usable.has_port;
    smallest = usable.smallest;
    largest = usable.largest;
    some_msgs = usable.some_msgs;
  }
  | inr silent ↦ elim (Bool-cases (same_text role listener)) [
    | inl listens ↦ subst Usable (done-inj (rw (silent, listens, set_role) at ended)) record {
      has_port = usable.has_port;
      smallest = usable.smallest;
      largest = usable.largest;
      some_msgs = usable.some_msgs;
    }
    | inr other ↦ subst Usable (done-inj (rw (silent, other, set_role) at ended)) usable
  ]
]

-- Whatever the options are, when the configuration ends without an exit it has a port other than 0, a
-- message size from 1 to 1450 and at least one message to send.
pub configure-Usable :
    (libc : Libc) (flags : List Flag) (role : Option (List ℕ)) {config : AppConfig}
    → configure libc flags role ≡ done config
    → Usable config
unfolding configure
configure-Usable libc flags role ended =
    let (parsed, _, rest) = bind-done (parse_options libc flags _) _ ended in
    let (checked, ok, last) = bind-done (check_config parsed) _ rest in
    set_role-Usable role checked (check_config-Usable parsed ok) last

-- Without APP_ROLE in the environment there is no configuration, whatever the options are.
pub configure-no_role :
    (libc : Libc) (flags : List Flag) {config : AppConfig} → configure libc flags none ≢ done config
unfolding configure set_role
configure-no_role libc flags ended =
    let (parsed, _, rest) = bind-done (parse_options libc flags _) _ ended in
    let (checked, ok, last) = bind-done (check_config parsed) _ rest in absurd cc
