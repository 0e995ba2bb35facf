-- ===== src/Appdb/Reload/Coverage.antt =====
-- From the database's rows to the commands of a tick.
use climate_control.Prelude.{
  ◌≡◌, refl, ◌∙◌, ap, String, Bool, Option, none, some, List, [], ◌∷◌, map, nat_eq, string_eq,
  eq_refl, subst, sym, arith,
}
use climate_control.Prelude.Dict.{Dict, KeysDistinct, contains}
use climate_control.Prelude.Result.{ok}
use climate_control.Float.{Float64}
use climate_control.Time.{Instant, Duration}
use climate_control.Cache.{Uuid, RoomCache, Store, room, add_room}
use climate_control.Cache.Laws.{room-add_room}
use climate_control.Appdb.{RoomRow, DeviceRow, ActuatorRow, Queries}
use climate_control.Appdb.Assembly.{build_room_cache, build_actuator_hw_ids}
use climate_control.Appdb.Actuators.{
  hw_ids_with, build_actuator_hw_ids-hw_ids_with, build_actuator_hw_ids-KeysDistinct,
}
use climate_control.Appdb.Reload.{
  fetch_room_row, actuators_by_device, load_room, keep_runtime, reload_row, reload_room,
}
use climate_control.Control.Evaluate.{evaluate}
use climate_control.Control.Commands.{commands_for, commands_of}
use climate_control.Control.Logging.{evaluate-commands}

hw_ids-commands_for :
    (t : String) (b : Bool) (hs : List String) → map (λ c. c.hw_id) (commands_for t b hs) ≡ hs
hw_ids-commands_for t b [] = refl
hw_ids-commands_for t b (h ∷ hs) = ap (λ (l : List String). h ∷ l) (hw_ids-commands_for t b hs)

module _ {R : Type 0} (q : Queries R) (id : Uuid) where
  load_room-actuators :
      (rm : RoomRow R) (rc : RoomCache R) (devices : List DeviceRow)
      (abd : Dict Uuid (List ActuatorRow))
      → q.device_rows id ≡ some devices
      → actuators_by_device q devices ≡ ok abd
      → load_room q id rm ≡ ok rc
      → rc.actuator_hw_ids ≡ build_actuator_hw_ids devices abd
  unfolding load_room build_room_cache
  load_room-actuators rm rc devices abd d a l = ground arith

  keep_runtime-actuators :
      (o : Option (RoomCache R)) (rc : RoomCache R)
      → (keep_runtime o rc).actuator_hw_ids ≡ rc.actuator_hw_ids
  unfolding keep_runtime
  keep_runtime-actuators none rc = refl
  keep_runtime-actuators (some old) rc = refl

  reload_room-loaded :
      (s : Store R) (rm : RoomRow R) (rc : RoomCache R)
      → fetch_room_row q id ≡ ok (some rm)
      → load_room q id rm ≡ ok rc
      → (s' : Store R) × (reload_room q id s ≡ ok s')
        × (room s' id ≡ some (keep_runtime (room s id) rc))
  unfolding reload_room reload_row
  reload_room-loaded s rm rc r l = (
    add_room id (keep_runtime (room s id) rc) s,
    rw (r, l),
    rw (room-add_room s id id (keep_runtime (room s id) rc), eq_refl id),
  )

  -- If the database has a row for the room, its device rows and their actuators, and the entry can be
  -- built, then a reload succeeds, and every tick of the reloaded room sends one command to each of
  -- the devices' heaters and humidifiers, in the order of the rows.
  pub reload-evaluate_coverage :
      ⦃f : Float64 R⦄ (s : Store R) (rm : RoomRow R) (rc : RoomCache R) (devices : List DeviceRow)
      (abd : Dict Uuid (List ActuatorRow)) (now : Instant) (threshold : Duration)
      → fetch_room_row q id ≡ ok (some rm)
      → load_room q id rm ≡ ok rc
      → q.device_rows id ≡ some devices
      → actuators_by_device q devices ≡ ok abd
      → (s' : Store R) × (new : RoomCache R) × (reload_room q id s ≡ ok s')
        × (room s' id ≡ some new)
        × (map (λ c. c.hw_id) (commands_of "heater" (evaluate new now threshold).commands)
            ≡ hw_ids_with "heater" devices abd)
        × (map (λ c. c.hw_id) (commands_of "humidifier" (evaluate new now threshold).commands)
            ≡ hw_ids_with "humidifier" devices abd)
  reload-evaluate_coverage s rm rc devices abd now threshold r l d a =
      let (s', reloaded, cached) = reload_room-loaded s rm rc r l in
      let new = keep_runtime (room s id) rc in
      let ids : new.actuator_hw_ids ≡ build_actuator_hw_ids devices abd =
        keep_runtime-actuators (room s id) rc ∙ load_room-actuators rm rc devices abd d a l in
      let distinct : KeysDistinct new.actuator_hw_ids =
        subst KeysDistinct (sym ids) (build_actuator_hw_ids-KeysDistinct devices abd) in
      let sent = evaluate-commands new now threshold distinct in
      (
        s',
        new,
        reloaded,
        cached,
        rw (sent.0, hw_ids-commands_for, ids)
            (build_actuator_hw_ids-hw_ids_with "heater" devices abd (unfold contains in refl)),
        rw (sent.1, hw_ids-commands_for, ids)
            (build_actuator_hw_ids-hw_ids_with "humidifier" devices abd (unfold contains in refl)),
      )
