-- ===== src/Cache.antt =====
-- device-service/internal/cache/cache.go: the in-memory store. A method that changes the store returns
-- the new one; each runs under the store's mutex, so it is one step. A UUID is the number of its 128
-- bits, `uuid.Nil` is 0. A nil pointer or nil map is `none`.
pub mod Laws
use climate_control.Prelude.{
  ℕ, String, Bool, true, false, Option, none, some, List, [], ◌∷◌, map, get_elem?, Eq, nat_eq,
  string_eq,
}
use climate_control.Prelude.Int.{ℤ, pos}
use climate_control.Prelude.Dict.{Dict, lookup, insert, erase}
use climate_control.Time.{Instant, Location}

abbrev pub Uuid : Type 0
Uuid = ℕ

pub record TimestampedReading (R : Type 0) : Type 0 where
  pub value : R
  pub timestamp : Instant

-- map[string]*float64
abbrev pub Targets : Type 0 → Type 0
Targets R = Option (Dict String (Option R))

pub record DesiredStateCache (R : Type 0) : Type 0 where
  pub mode : String
  pub manual_active : Bool
  pub targets : Targets R
  pub manual_override_until : Option Instant

pub record SchedulePeriodCache (R : Type 0) : Type 0 where
  pub id : Uuid
  pub days_of_week : List Bool  -- [8]bool
  pub start_minutes : ℤ
  pub end_minutes : ℤ
  pub mode : String
  pub targets : Targets R

pub record RoomCache (R : Type 0) : Type 0 where
  pub room_id : Uuid
  pub user_timezone : String
  pub location : Option Location
  pub deadband_temp : R
  pub deadband_hum : R
  pub desired_state : DesiredStateCache R
  pub active_periods : List (SchedulePeriodCache R)
  pub actuator_hw_ids : Dict String (List String)
  pub actuator_states : Dict String Bool
  pub latest_readings : Dict String (List (TimestampedReading R))
  pub last_active_period : Option (SchedulePeriodCache R)

pub record SensorEntry : Type 0 where
  pub sensor_id : Uuid
  pub measurement_type : String

pub record ActuatorEntry : Type 0 where
  pub actuator_id : Uuid
  pub actuator_type : String

pub record DeviceCache : Type 0 where
  pub device_id : Uuid
  pub hw_id : String
  pub room_id : Option Uuid
  pub sensors : Dict String SensorEntry
  pub actuators : Dict String ActuatorEntry

unfoldable pub get_room_id : DeviceCache → Option Uuid
get_room_id dc = dc.room_id

unfoldable pub set_room_id : Option Uuid → DeviceCache → DeviceCache
set_room_id id dc = record dc { room_id = id }

pub record Store (R : Type 0) : Type 0 where
  pub rooms : Dict Uuid (RoomCache R)
  pub devices : Dict String DeviceCache
  pub assigned_partitions : List ℤ
  pub num_partitions : ℤ

-- arr[i] of an array of Booleans; the services read it in range only
unfoldable pub bit_at : List Bool → ℕ → Bool
bit_at bits i = elim (get_elem? bits i) [ none ↦ false | some b ↦ b ]

-- m[k] of a map of Booleans, `false` for a missing key
unfoldable pub flag_at : String → Dict String Bool → Bool
flag_at k m = elim (lookup k m) [ none ↦ false | some b ↦ b ]

module _ {ℓ κ} {K : Type ℓ} {A : Type κ} ⦃e : Eq K⦄ where
  -- m[k] of a map of slices, the nil slice for a missing key
  unfoldable pub slice_at : K → Dict K (List A) → List A
  slice_at k m = elim (lookup k m) [ none ↦ [] | some xs ↦ xs ]

module _ {R : Type 0} where
  -- m[k] of a map of pointers that may be nil itself
  unfoldable pub target_at : String → Targets R → Option R
  target_at k none = none
  target_at k (some m) = elim (lookup k m) [ none ↦ none | some t ↦ t ]

  unfoldable pub new_store : Store R
  new_store = record { rooms = []; devices = []; assigned_partitions = []; num_partitions = pos 0 }

  unfoldable pub room : Store R → Uuid → Option (RoomCache R)
  room s id = lookup id s.rooms

  unfoldable pub device : Store R → String → Option DeviceCache
  device s hw_id = lookup hw_id s.devices

  unfoldable pub add_room : Uuid → RoomCache R → Store R → Store R
  add_room id rc s = record s { rooms = insert id rc s.rooms }

  unfoldable pub delete_room : Uuid → Store R → Store R
  delete_room id s = record s { rooms = erase id s.rooms }

  unfoldable pub add_device : String → DeviceCache → Store R → Store R
  add_device hw_id dc s = record s { devices = insert hw_id dc s.devices }

  unfoldable pub delete_device : String → Store R → Store R
  delete_device hw_id s = record s { devices = erase hw_id s.devices }

  unfoldable pub room_ids : Store R → List Uuid
  room_ids s = map (λ e. e.0) s.rooms

  unfoldable pub owns_room : Store R → Uuid → Bool
  owns_room s id = true

  unfoldable pub device_hw_ids : Store R → List String
  device_hw_ids s = map (λ e. e.0) s.devices
