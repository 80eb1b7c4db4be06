-- ===== src/Examples/Settings.antt =====
-- The settings hooks and the direct entries at concrete values.
use cfp2dreamcast.Base.{ℕ, ◌+◌, ◌<◌, ◌≡◌, refl, List, [], ◌∷◌, get_or, u8, ◌==◌, suc, zero}
use cfp2dreamcast.Machine.{pos, Never, Runs, Ends}
use cfp2dreamcast.Machine.Memory.{load8}
use cfp2dreamcast.Shim.{Blobs}
use cfp2dreamcast.Shim.Config.{shim_ee_read, shim_monitor_set}
use cfp2dreamcast.Shim.Config.Delivered.{shim_ee_read-Delivered, Monitor, shim_monitor_set-Ends}
use cfp2dreamcast.Shim.Reply.{shim_maple_entry}
use cfp2dreamcast.Shim.Reply.Entry.{Entered, shim_maple_entry-Runs}
use cfp2dreamcast.Shim.Reply.Frame.{Resets}
use cfp2dreamcast.Examples.Drive.{drive}
use cfp2dreamcast.Examples.Cart.{start}
use cfp2dreamcast.Examples.Bus.{plugged, blobs}

abbrev counting : ℕ → List ℕ
counting zero = []
counting (suc n) = n ∷ counting n

-- A settings memory of 128 bytes.
abbrev full : Blobs
full = record blobs { eeprom_img = counting 128 }

shim_ee_read-Delivered_example :
    ((i : ℕ)
      → i < 128
      → load8 (shim_ee_read drive full start).ram (0x8c1c954c + i) ≡ u8 (get_or (counting 128) i 0))
    × ((i : ℕ)
        → i < 18
        → load8 (shim_ee_read drive full start).ram (0x8c1c9528 + i)
          ≡ u8 (get_or (counting 128) i 0))
    × ((i : ℕ)
        → i < 18
        → load8 (shim_ee_read drive full start).ram (0x8c1c953a + i)
          ≡ u8 (get_or (counting 128) (18 + i) 0))
shim_ee_read-Delivered_example = shim_ee_read-Delivered drive full start refl

shim_monitor_set-Ends_example :
    Ends
      (λ r t. (r ≡ pos 0) × Monitor drive (t.cable_latch == 0) t.ram)
      Never
      (shim_monitor_set drive start)
shim_monitor_set-Ends_example = shim_monitor_set-Ends drive start

shim_maple_entry-Runs_example :
    Runs (Entered start) Never Resets (shim_maple_entry drive plugged blobs start)
shim_maple_entry-Runs_example = shim_maple_entry-Runs drive plugged blobs start
