-- ===== src/Api/Rooms.antt =====
-- api-service/internal/room: repository.go over gorm, which is a parameter, and service.go, with
-- models/room.go and models/desired_state.go. The timestamps that gorm keeps are left out.
pub mod Targets
use climate_control.Prelude.{
  String, Bool, true, false, not, ◌&&◌, ◌||◌, Option, none, some, List, [], ◌∷◌, ◌==◌, string_eq,
  nat_eq, map, is_some, if◌then◌else◌,
}
use climate_control.Prelude.Dict.{Dict, lookup}
use climate_control.Prelude.Result.{Result, ok, err, ◌>>=◌, wrap_err}
use climate_control.Float.{Float64, ◌≺◌, ◌⊘◌, float}
use climate_control.Time.{Instant}
use climate_control.Cache.{Uuid}
use climate_control.Api.{
  DbError, record_not_found, unique_violation, failed, Event, room_created, room_deleted,
  room_config_changed, desired_state_changed, ServiceState, publish, set_db,
}

pub record RoomModel (R : Type 0) : Type 0 where
  pub id : Uuid
  pub user_id : Uuid
  pub name : String
  pub deadband_temp : R
  pub deadband_hum : R

pub record DesiredState (R : Type 0) : Type 0 where
  pub id : Uuid
  pub room_id : Uuid
  pub mode : String
  pub manual_active : Bool
  pub target_temp : Option R
  pub target_hum : Option R
  pub manual_override_until : Option Instant

pub record RoomCapabilities : Type 0 where
  pub temperature : Bool
  pub humidity : Bool

pub record RoomWithCapabilities (R : Type 0) : Type 0 where
  pub room : RoomModel R
  pub capabilities : RoomCapabilities

pub data RoomError (E : Type 0) : Type 0 where
  not_found name_taken no_capability invalid_state invalid_target : RoomError E
  database : DbError E → RoomError E

-- The calls of gorm. An insert returns the row with the ID that the database gave it.
pub record RoomTables (R D E : Type 0) : Type 0 where
  pub find_rooms : Uuid → D → Result (DbError E) (List (RoomModel R))
  pub find_room : Uuid → Uuid → D → Result (DbError E) (RoomModel R)
  pub insert_room : RoomModel R → D → Result (DbError E) (RoomModel R × D)
  pub insert_desired_state : DesiredState R → D → Result (DbError E) D
  pub save_room : RoomModel R → D → Result (DbError E) D
  pub delete_room : Uuid → D → Result (DbError E) D
  pub find_desired_state : Uuid → D → Result (DbError E) (DesiredState R)
  pub save_desired_state : DesiredState R → D → Result (DbError E) D
  pub capabilities : Uuid → D → Result (DbError E) RoomCapabilities
  pub bulk_capabilities : List Uuid → D → Result (DbError E) (Dict Uuid RoomCapabilities)

module _ {E : Type 0} where
  abbrev pub not_found_error : DbError E → RoomError E
  not_found_error record_not_found = not_found
  not_found_error e = database e

  abbrev pub name_taken_error : DbError E → RoomError E
  name_taken_error unique_violation = name_taken
  name_taken_error e = database e

module _ {R D E : Type 0} (db : RoomTables R D E) where
  -- The repository.
  unfoldable pub get_room : Uuid → Uuid → D → Result (RoomError E) (RoomModel R)
  get_room id user_id d = wrap_err not_found_error (db.find_room id user_id d)

  -- One transaction: a failure of either insert leaves the database alone.
  unfoldable pub create_with_desired_state :
      RoomModel R → D → Result (RoomError E) (RoomModel R × D)
  create_with_desired_state room d = do
    (rm, d1) ← wrap_err name_taken_error (db.insert_room room d)
    d2 ← wrap_err database (
        db.insert_desired_state
          (record {
            id = 0;
            room_id = rm.id;
            mode = "OFF";
            manual_active = false;
            target_temp = none;
            target_hum = none;
            manual_override_until = none;
          })
          d1)
    ok (rm, d2)

  unfoldable pub save_room : RoomModel R → D → Result (RoomError E) D
  save_room rm d = wrap_err name_taken_error (db.save_room rm d)

  unfoldable pub find_desired_state : Uuid → D → Result (RoomError E) (DesiredState R)
  find_desired_state room_id d = wrap_err not_found_error (db.find_desired_state room_id d)

  unfoldable pub room_capabilities : Uuid → D → Result (RoomError E) RoomCapabilities
  room_capabilities room_id d = wrap_err database (db.capabilities room_id d)

  unfoldable pub has_temperature_capability : Uuid → D → Result (RoomError E) Bool
  has_temperature_capability room_id d = room_capabilities room_id d >>= λ caps. ok caps.temperature

  unfoldable pub has_humidity_capability : Uuid → D → Result (RoomError E) Bool
  has_humidity_capability room_id d = room_capabilities room_id d >>= λ caps. ok caps.humidity

  -- no query for an empty list
  unfoldable pub bulk_room_capabilities :
      List Uuid → D → Result (RoomError E) (Dict Uuid RoomCapabilities)
  bulk_room_capabilities [] d = ok []
  bulk_room_capabilities (id ∷ ids) d = wrap_err database (db.bulk_capabilities (id ∷ ids) d)

  -- The service. caps[rm.ID] is the zero value for a room without a row.
  unfoldable pub with_capabilities :
      Dict Uuid RoomCapabilities → RoomModel R → RoomWithCapabilities R
  with_capabilities caps rm = record {
    room = rm;
    capabilities = elim (lookup rm.id caps) [
      | none ↦ record { temperature = false; humidity = false }
      | some c ↦ c
    ];
  }

  unfoldable pub list_rooms : Uuid → D → Result (RoomError E) (List (RoomWithCapabilities R))
  list_rooms user_id d = do
    rms ← wrap_err database (db.find_rooms user_id d)
    caps ← bulk_room_capabilities (map (λ rm. rm.id) rms) d
    ok (map (with_capabilities caps) rms)

  unfoldable pub get_room_by_id : Uuid → Uuid → D → Result (RoomError E) (RoomWithCapabilities R)
  get_room_by_id id user_id d = do
    rm ← get_room id user_id d
    caps ← room_capabilities rm.id d
    ok (record { room = rm; capabilities = caps })

  unfoldable pub create_room :
      ⦃f : Float64 R⦄
      → Uuid
      → String
      → ServiceState D
      → Result (RoomError E) (RoomModel R × ServiceState D)
  create_room user_id name w = do
    (rm, d) ←
        create_with_desired_state
          (record {
            id = 0;
            user_id = user_id;
            name = name;
            deadband_temp = float 1 ⊘ float 2;
            deadband_hum = float 2;
          })
          w.db
    ok (rm, publish (room_created rm.id) (set_db d w))

  -- Also after an error of the last query the row is saved and the event is out.
  unfoldable pub saved_room : RoomModel R → Option R → Option R → String → RoomModel R
  saved_room rm deadband_temp deadband_hum name = record rm {
    name = name;
    deadband_temp = elim deadband_temp [ none ↦ rm.deadband_temp | some x ↦ x ];
    deadband_hum = elim deadband_hum [ none ↦ rm.deadband_hum | some x ↦ x ];
  }

  unfoldable pub update_room :
      Uuid
      → Uuid
      → String
      → Option R
      → Option R
      → ServiceState D
      → Result (RoomError E) (RoomWithCapabilities R) × ServiceState D
  update_room id user_id name deadband_temp deadband_hum w = elim (get_room id user_id w.db) [
    | err e ↦ (err e, w)
    | ok rm ↦
        let new = saved_room rm deadband_temp deadband_hum name in
        elim (save_room new w.db) [
          | err e ↦ (err e, w)
          | ok d ↦
              let w' = publish (room_config_changed rm.id) (set_db d w) in
              (
                (room_capabilities rm.id d >>= λ caps.
                    ok (record { room = new; capabilities = caps })),
                w',
              )
        ]
  ]

  unfoldable pub delete_owned_room :
      Uuid → Uuid → ServiceState D → Result (RoomError E) (ServiceState D)
  delete_owned_room id user_id w = do
    _ ← get_room id user_id w.db
    d ← wrap_err database (db.delete_room id w.db)
    ok (publish (room_deleted id) (set_db d w))

  unfoldable pub get_desired_state : Uuid → Uuid → D → Result (RoomError E) (DesiredState R)
  get_desired_state room_id user_id d =
      get_room room_id user_id d >>= λ _. find_desired_state room_id d
