-- ===== src/Tests/Configs.antt =====
-- The theorems on the configuration and on validation, at concrete inputs.
use knl.Common.{
  ℕ, not, ◌≡◌, ◌≢◌, ◌↔◌, refl, arith, ◌==◌, true, false, none, some, pos, ok, panic, if◌then◌else◌,
  eqb,
}
use knl.Api.{KnlConfigSpec}
use knl.Api.Defaults.{def_knl_config, def_store}
use knl.Config.{KnlConfig, set, reconcile, default_knl_config}
use knl.Config.Life.{
  World, start, made, run, Reach, here, next, create, change, reconciled, reconcile_catches_up,
}
use knl.Config.Valid.{validate_config, IsConfig, validate_config_iff, default_config-ne-panic}
use knl.Text.Split.{lacks}
use knl.Validate.{validate_lab}
use knl.Validate.Imports.{Parsers}
use knl.Validate.Srl.{parse_chassis_str}
use knl.Validate.Srl.RoundTrip.{chassis_str, parse_chassis_str-chassis_str}
use knl.Validate.Whole.{IsLab, validate_lab_iff}
use knl.Tests.Labs.{readme_lab}

-- parsers that know a few texts
abbrev pub parsers : Parsers
parsers = record {
  Addr = ℕ;
  Prefix = ℕ;
  parse_addr = λ s. if s == "ff18::100" then some 6 else none;
  is4 = λ a. eqb a 4;
  is_multicast = λ a. eqb a 6;
  parse_prefix = λ s. if s == "10.0.0.1/24" then some 4 else none;
  is_valid_prefix = λ p. true;
  prefix_addr = λ p. p;
  parse_mac = λ s. not (s == "");
  parse_ip = λ s. false;
  split_host_port = λ s. some (s, "22");
  match_string = λ pattern s. true;
  parse_reference = λ s. not (s == "");
  split_shell = λ s. true;
}

abbrev new_spec : KnlConfigSpec
new_spec = record def_knl_config { pvc_storage_class = some "nfs"; vxlan_default_dev = some "eth0" }

-- made, read, and changed since
abbrev before : World
before = record { shared = start.shared; object = some (made def_knl_config) }

abbrev renewed : KnlConfig
renewed = record { generation = pos 2; spec = new_spec; observed_generation = some (pos 1) }

abbrev after : World
after = record {
  shared = record { config = def_knl_config; generation = pos 1 };
  object = some renewed;
}

after-Reach : Reach after
unfolding run reconcile set
after-Reach =
    next
      (next (next here (create start.shared def_knl_config))
        (reconciled before (ok (made def_knl_config)) true (λ k e. ground (arith, e))))
      (change (after.shared) (record (made def_knl_config) { observed_generation = some (pos 1) })
        new_spec)

catches_up_example :
    (run (ok renewed) false after).shared ≡ record { config = new_spec; generation = pos 2 }
catches_up_example = reconcile_catches_up after renewed false after-Reach refl

config_example : (validate_config parsers new_spec ≡ ok tt) ↔ IsConfig parsers new_spec
config_example = validate_config_iff parsers new_spec

default_example : validate_config parsers (default_knl_config new_spec) ≢ panic
default_example = default_config-ne-panic parsers new_spec

accepted_example :
    (validate_lab parsers readme_lab def_store ≡ ok tt) ↔ IsLab parsers readme_lab def_store
accepted_example = validate_lab_iff parsers readme_lab def_store

chassis_example :
    parse_chassis_str parsers (chassis_str 68 "FA:FA:01:00:00:00" 184 1 182 199)
    ≡ ok (record {
      chassis_type = pos 68;
      base_mac = "FA:FA:01:00:00:00";
      cpm = pos 184;
      slot = pos 1;
      card_type = pos 182;
      mda_type = pos 199;
    })
unfolding lacks
chassis_example =
    parse_chassis_str-chassis_str parsers 68 "FA:FA:01:00:00:00" 184 1 182 199 (omega arith)
      (omega arith) (omega arith) (omega arith) (omega arith) refl (λ h. cc) refl

-- the text is the one that is meant
chassis_text :
    chassis_str 68 "FA:FA:01:00:00:00" 184 1 182 199 ≡ "68-FA:FA:01:00:00:00-184-1-182-199"
unfolding chassis_str
chassis_text = refl

-- a good configuration is accepted
config_accepted : validate_config parsers new_spec ≡ ok tt
unfolding validate_config def_knl_config
config_accepted = refl
