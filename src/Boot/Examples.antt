-- ===== src/Boot/Examples.antt =====
-- A configuration of three entries, two for one keyboard, and a device of udev.
use clackd.Base.{◌≡◌, refl, List, [], ◌∷◌, true, false, none, some}
use clackd.Engine.{Channel, accepted, value}
use clackd.Engine.Worker.Examples.{one_key}
use clackd.Engine.Supervisor.{find_factory}
use clackd.Clackctl.Text.{
  codes, trim_start, trim_end, is_whitespace, from_str_radix, digits, to_digit,
}
use clackd.Boot.{
  DeviceConfig, parsed, gmk67, backend_of, sync_flag, wants_sync, Drivers, factory_of,
  build_driver_table, init_coalesce_config,
}
use clackd.Boot.Table.{build_driver_table-last}

abbrev wide : Channel
wide = record { Sender = Unit {0}; fresh = tt; try_send = λ op u. (accepted, u) }

-- Every node opens.
abbrev opened : Drivers one_key (Unit {0}) wide
opened = record {
  via_new = λ path m w. (value 0, w);
  via_with_coalescing = λ path m interval w. (value 0, w);
  gmk67_new = λ path m layers sync w. (value 0, w);
}

abbrev entries : List DeviceConfig
entries =
    record {
      vid = 1;
      pid = 2;
      rows = 6;
      cols = 17;
      layer_count_override = none;
      driver = none;
      sync_on_attach = false;
    }
    ∷ record {
      vid = 3;
      pid = 4;
      rows = 5;
      cols = 15;
      layer_count_override = none;
      driver = some "epomaker";
      sync_on_attach = true;
    }
    ∷ record {
      vid = 1;
      pid = 2;
      rows = 5;
      cols = 15;
      layer_count_override = none;
      driver = some "gmk67";
      sync_on_attach = false;
    }
    ∷ []

build_driver_table-last_example :
    find_factory one_key
      (Unit {0})
      wide
      (build_driver_table one_key (Unit {0}) wide opened (some 50) (parsed entries))
      1
      2
    ≡ some (factory_of one_key (Unit {0}) wide opened (some 50) false gmk67)
unfolding sync_flag wants_sync backend_of
build_driver_table-last_example =
    build_driver_table-last one_key (Unit {0}) wide opened (some 50) (parsed entries) 1 2

coalesce_test :
    (init_coalesce_config (some (codes " 50 ")) ≡ some 50)
    × (init_coalesce_config (some (codes "0")) ≡ none)
unfolding init_coalesce_config trim_start trim_end is_whitespace from_str_radix digits to_digit
coalesce_test = (refl, refl)
