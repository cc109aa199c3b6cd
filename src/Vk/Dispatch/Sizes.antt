-- ===== src/Vk/Dispatch/Sizes.antt =====
-- Whether a status fits a packet.
use orv.Base.{◌≤◌, arith, [], none}
use orv.Vk.State.{StatusBody, Wire}
use orv.Vk.Handlers.Status.{trim_services, trim_leaves, trim_cvks, trim_parent, trim_status}

-- A status without services, leaves, child VKs and parent.
abbrev pub smallest : StatusBody → StatusBody
smallest b = record b { services = []; child_leaves = []; child_vks = []; parent = none }

-- If a status fits the packet once it has lost its services, leaves, child VKs and parent, then the
-- status that is sent fits.
pub trim_status-fits :
    (w : Wire) (b : StatusBody)
    → w.status_size (smallest b) ≤ 1014
    → w.status_size (trim_status w b) ≤ 1014
unfolding trim_status trim_services trim_leaves trim_cvks trim_parent
trim_status-fits w b fits = ground arith
