-- ===== src/Via/Driver/Examples.antt =====
-- The driver over a keyboard that follows the protocol.
use clackd.Base.{ℕ, ◌≡◌, refl, none, inl}
use clackd.Keymap.{Pos, at, get}
use clackd.Via.Examples.{plugged, bus, keys_of, InStep, device}
use clackd.Via.Coalescer.{
  HashOrder, start, handle, on_flush, flush_buffer, save_touched_channels, save_channels,
}
use clackd.Via.Coalescer.Flush.{IsOrder}
use clackd.Via.Driver.{ViaDriver, coalesced, set_keycode, commit_to_nvram, commit, relay}
use clackd.Via.Contract.{Shows, request, reads_key, request-Shows}
use clackd.Via.Writes.{Writes, device_view, set_keycode-Shows, commit_to_nvram-view}

abbrev in_order : HashOrder
in_order = record { positions = λ ps. ps; channels = λ cs. cs }

in_order-IsOrder : IsOrder in_order
in_order-IsOrder = record { meets = λ p ps h. h }

abbrev blank : Pos → ℕ
blank p = 0

abbrev attached : ViaDriver bus in_order 300
attached = record {
  inner = coalesced (start bus in_order 300 plugged);
  matrix = (5, 15);
  protocol_version = none;
}

attached-Shows : Shows bus in_order 300 keys_of InStep device in_order-IsOrder blank attached
unfolding get
attached-Shows = record { ready = inl refl; sorted = tt; reads = λ p. refl }

request-Shows_example : Shows bus in_order 300 keys_of InStep device in_order-IsOrder blank (
    request bus in_order 300 keys_of InStep device in_order-IsOrder 1000
      (reads_key (at 0 0 0))
      attached)
request-Shows_example =
    request-Shows bus in_order 300 keys_of InStep device in_order-IsOrder blank 1000
      (reads_key (at 0 0 0)) attached attached-Shows

set_keycode-Shows_example :
    Writes bus in_order 300 keys_of InStep device in_order-IsOrder blank
      (at 0 0 0)
      4
      (set_keycode bus in_order 300 1000 (at 0 0 0) 4 attached)
set_keycode-Shows_example =
    set_keycode-Shows bus in_order 300 keys_of InStep device in_order-IsOrder blank 1000 (at 0 0 0)
      4 attached attached-Shows

commit_to_nvram-view_example :
    device_view bus in_order 300 keys_of InStep device in_order-IsOrder
      (commit_to_nvram bus in_order 300 1000 attached).1
    ≡ blank
unfolding commit_to_nvram commit relay handle on_flush flush_buffer save_touched_channels
    save_channels
commit_to_nvram-view_example =
    commit_to_nvram-view bus in_order 300 keys_of InStep device in_order-IsOrder blank 1000 attached
      attached-Shows refl
