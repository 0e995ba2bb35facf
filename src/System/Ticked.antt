-- ===== src/System/Ticked.antt =====
-- What a tick of the running service does to the cache.
use Prim.Native.String.{◌++◌ as append}
use climate_control.Prelude.{String, Bool, false, none, some, nat_eq, string_eq}
use climate_control.Prelude.Dict.{Dict}
use climate_control.Scheduler.Tick.{Transport}

-- The broker takes the command for a device: it is encoded, and published with QoS 2 to the device.
abbrev pub is_sent : Transport → String → Bool → String → Bool
is_sent link t b h =
    elim (link.marshal_payload (record { hw_id = h; actuator_type = t; state = b })) [
      | none ↦ false
      | some payload ↦ link.publish (append "devices/" (append h "/cmd")) 2 payload
    ]
