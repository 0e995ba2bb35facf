-- ===== src/Cache/Laws.antt =====
-- What a lookup sees after each change of the store, and that its maps keep one entry for each key.
use climate_control.Prelude.{String, ◌≡◌, refl, none, some, ◌==◌, nat_eq, string_eq, if◌then◌else◌}
use climate_control.Prelude.Dict.{lookup-insert, lookup-erase}
use climate_control.Cache.{
  Uuid, RoomCache, DeviceCache, Store, room, device, add_room, delete_room, add_device,
  delete_device,
}

module _ {R : Type 0} where
  pub room-add_room :
      (s : Store R) (id j : Uuid) (rc : RoomCache R)
      → room (add_room id rc s) j ≡ (if id == j then some rc else room s j)
  unfolding room add_room
  room-add_room s id j rc = lookup-insert id j rc s.rooms

  pub room-delete_room :
      (s : Store R) (id j : Uuid) → room (delete_room id s) j ≡ (if id == j then none else room s j)
  unfolding room delete_room
  room-delete_room s id j = lookup-erase id j s.rooms

  pub device-add_device :
      (s : Store R) (h j : String) (dc : DeviceCache)
      → device (add_device h dc s) j ≡ (if h == j then some dc else device s j)
  unfolding device add_device
  device-add_device s h j dc = lookup-insert h j dc s.devices

  pub device-delete_device :
      (s : Store R) (h j : String)
      → device (delete_device h s) j ≡ (if h == j then none else device s j)
  unfolding device delete_device
  device-delete_device s h j = lookup-erase h j s.devices

  pub room-add_device :
      (s : Store R) (h : String) (j : Uuid) (dc : DeviceCache)
      → room (add_device h dc s) j ≡ room s j
  unfolding room add_device
  room-add_device s h j dc = refl

  pub room-delete_device :
      (s : Store R) (h : String) (j : Uuid) → room (delete_device h s) j ≡ room s j
  unfolding room delete_device
  room-delete_device s h j = refl

  pub device-add_room :
      (s : Store R) (id : Uuid) (h : String) (rc : RoomCache R)
      → device (add_room id rc s) h ≡ device s h
  unfolding device add_room
  device-add_room s id h rc = refl

  pub device-delete_room :
      (s : Store R) (id : Uuid) (h : String) → device (delete_room id s) h ≡ device s h
  unfolding device delete_room
  device-delete_room s id h = refl

pub ruleset store_laws = (
  room-add_room, room-delete_room, device-add_device, device-delete_device, room-add_device,
  room-delete_device, device-add_room, device-delete_room,
)
