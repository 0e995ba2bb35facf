-- ===== src/Api/RoomHandler/Override.antt =====
-- A manual override from the request to the control loop and back to the client.
use climate_control.Prelude.{
  ◌≡◌, refl, String, true, false, Option, none, some, ◌==◌, string_eq, arith,
}
use climate_control.Prelude.Int.{◌<ℤ◌}
use climate_control.Prelude.Result.{ok}
use climate_control.Time.{Instant}
use climate_control.Cache.{RoomCache}
use climate_control.Control.{manual_override}
use climate_control.Api.RoomHandler.{
  indefinite_override, OverrideText, null, indefinite, timestamp, override_text,
  resolve_manual_override,
}

-- What a request asks for.
data Asked (parse_time : String → Option Instant) : Option String → OverrideText → Type 0 where
  cleared : Asked parse_time none null
  forever : Asked parse_time (some "indefinite") indefinite
  until :
      (raw : String) (t : Instant)
      → raw == "indefinite" ≡ false
      → parse_time raw ≡ some t
      → ¬ (t ≡ indefinite_override)
      → Asked parse_time (some raw) (timestamp t)

-- An override that is null, "indefinite", or a time other than 9999-12-31T23:59:59Z is stored and
-- shown to the client as it was asked for.
override_text-resolve_manual_override :
    (parse_time : String → Option Instant) (raw : Option String) (shown : OverrideText)
    → Asked parse_time raw shown
    → (stored : Option Instant) × (resolve_manual_override parse_time raw ≡ ok stored)
      × (override_text stored ≡ shown)
unfolding resolve_manual_override override_text
override_text-resolve_manual_override parse_time _ _ cleared = (none, refl, refl)
override_text-resolve_manual_override parse_time _ _ forever =
    (some indefinite_override, refl, refl)
override_text-resolve_manual_override parse_time _ _ (until raw t n e d) =
    (some t, rw (n, e) refl, ground (arith, d))

-- While a room's cached state has manual control active and the override that the request
-- "indefinite" resolves to, the control loop takes the manual targets at every instant before
-- 9999-12-31T23:59:59Z.
resolve_manual_override-manual_override :
    {R : Type 0} (parse_time : String → Option Instant) (rc : RoomCache R) (now : Instant)
    → resolve_manual_override parse_time (some "indefinite")
      ≡ ok rc.desired_state.manual_override_until
    → rc.desired_state.manual_active ≡ true
    → now <ℤ indefinite_override
    → manual_override rc now ≡ true
unfolding resolve_manual_override manual_override
resolve_manual_override-manual_override parse_time rc now h active before =
    ground (arith, h, active, before)
