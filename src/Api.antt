-- ===== src/Api.antt =====
-- api-service/internal: the services and handlers of the rooms and the devices, and the events that
-- they publish. Here stand the types they share. Postgres is a parameter: each query is a function of
-- the database, and one that fails leaves it alone. XADD is taken to succeed: a published event is
-- one more entry, the last one first.
pub mod Events
pub mod Rooms
pub mod RoomHandler
pub mod Devices
pub mod Conflict
use climate_control.Prelude.{ℕ, String, Option, none, some, List, [], ◌∷◌}
use climate_control.Prelude.Result.{Result, ok, err}
use climate_control.Cache.{Uuid}

-- What gorm's errors are tested for.
pub data DbError (E : Type 0) : Type 0 where
  record_not_found unique_violation : DbError E
  failed : E → DbError E

-- One for each function of internal/events/events.go.
pub data Event : Type 0 where
  room_created room_deleted room_config_changed desired_state_changed schedule_changed :
      Uuid → Event
  device_assigned device_unassigned : Uuid → String → Event

pub record ServiceState (D : Type 0) : Type 0 where
  pub db : D
  pub events : List Event

module _ {D : Type 0} where
  abbrev pub publish : Event → ServiceState D → ServiceState D
  publish e w = record w { events = e ∷ w.events }

  abbrev pub set_db : D → ServiceState D → ServiceState D
  set_db d w = record w { db = d }

-- A handler's answer: a status with a body, with an error text, or alone. The texts are left out.
pub data Reply (B : Type 0) : Type 0 where
  json : ℕ → B → Reply B
  error : ℕ → Reply B
  status : ℕ → Reply B

abbrev pub status_of : {B : Type 0} → Reply B → ℕ
status_of (json n b) = n
status_of (error n) = n
status_of (status n) = n
