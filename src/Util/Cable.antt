-- ===== src/Util/Cable.antt =====
-- The latch of the video-cable sense.
use cfp2dreamcast.Base.{◌≡◌, Bool, arith}
use cfp2dreamcast.Machine.{Platform, Machine, returns}
use cfp2dreamcast.Util.{shim_cable_is_vga}

module _ (p : Platform) where
  open p use {Dev}

  -- The port is read once: after the first call every later one gives the same answer and changes
  -- nothing, whatever the port and the rest of the state have become, as long as the latch stands.
  pub cable_latched :
      (s t u : Machine Dev) (v : Bool)
      → shim_cable_is_vga p s ≡ returns v t
      → u.cable_latch ≡ t.cable_latch
      → shim_cable_is_vga p u ≡ returns v u
  unfolding shim_cable_is_vga
  cable_latched s t u v first kept = ground arith
