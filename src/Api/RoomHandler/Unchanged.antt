-- ===== src/Api/RoomHandler/Unchanged.antt =====
-- The answers of the handlers that change rooms and desired states.
use climate_control.Prelude.{
  ℕ, ◌<◌, ◌≤◌, ◌≡◌, refl, ◌⊎◌, inl, inr, String, Option, none, some, ◌∷◌, arith,
}
use climate_control.Prelude.Result.{ok, Result-cases}
use climate_control.Float.{Float64}
use climate_control.Time.{Instant}
use climate_control.Cache.{Uuid}
use climate_control.Api.{
  ServiceState, Reply, status_of, Event, room_config_changed, desired_state_changed, room_created,
  room_deleted,
}
use climate_control.Api.Rooms.{
  RoomModel, RoomError, RoomTables, create_room, update_room, delete_owned_room, get_room,
  save_room, saved_room, room_capabilities,
}
use climate_control.Api.Rooms.Targets.{update_desired_state}
use climate_control.Api.Rooms.Targets.Accepted.{update_desired_state-WithinBounds}
use climate_control.Api.RoomHandler.{
  RoomRequest, UpdateDesiredStateRequest, resolve_manual_override, input_of, not_found_reply,
  name_taken_reply, update_room_reply, update_desired_state_reply, handle_create_room,
  handle_update_room, handle_delete_room, handle_update_desired_state,
}

-- The requests that change something.
pub data RoomCall (R : Type 0) : Type 0 where
  create : Option (RoomRequest R) → RoomCall R
  update : Option Uuid → Option (RoomRequest R) → RoomCall R
  delete : Option Uuid → RoomCall R
  update_state : Option Uuid → Option (UpdateDesiredStateRequest R) → RoomCall R

-- Exactly one event was published, or nothing at all has changed.
pub data Answered {D : Type 0} (w : ServiceState D) (n : ℕ) (w' : ServiceState D) : Type 0 where
  published : (e : Event) → w'.events ≡ e ∷ w.events → (n < 400) ⊎ (n ≡ 500) → Answered w n w'
  unchanged : w' ≡ w → 400 ≤ n → Answered w n w'

module _ {D : Type 0} (w : ServiceState D) where
  abbrev Answers : {B : Type 0} → Reply B × ServiceState D → Type 0
  Answers (r, w') = Answered w (status_of r) w'

module _ {E : Type 0} (B : Type 0) where
  not_found_reply_lem : (e : RoomError E) → 400 ≤ status_of (not_found_reply {B = B} e)
  not_found_reply_lem e = ground arith

  name_taken_reply_lem : (e : RoomError E) → 400 ≤ status_of (name_taken_reply {B = B} e)
  name_taken_reply_lem e = ground arith

  update_room_reply_lem : (e : RoomError E) → 400 ≤ status_of (update_room_reply {B = B} e)
  update_room_reply_lem e = ground arith

  update_desired_state_reply_lem :
      (e : RoomError E) → 400 ≤ status_of (update_desired_state_reply {B = B} e)
  update_desired_state_reply_lem e = ground arith

module _ {R D E : Type 0} ⦃f : Float64 R⦄ (db : RoomTables R D E) (user_id : Uuid) where
  abbrev pub room_call :
      (String → Option Instant) → RoomCall R → ServiceState D → ℕ × ServiceState D
  room_call parse_time (create req) w =
      let (r, w') = handle_create_room db user_id req w in (status_of r, w')
  room_call parse_time (update id req) w =
      let (r, w') = handle_update_room db user_id id req w in (status_of r, w')
  room_call parse_time (delete id) w =
      let (r, w') = handle_delete_room db user_id id w in (status_of r, w')
  room_call parse_time (update_state id req) w =
      let (r, w') = handle_update_desired_state db user_id parse_time id req w in (status_of r, w')

  pub create_room-events :
      (name : String) (w w' : ServiceState D) (rm : RoomModel R)
      → create_room db user_id name w ≡ ok (rm, w')
      → w'.events ≡ room_created rm.id ∷ w.events
  unfolding create_room
  create_room-events name w w' rm h = ground (arith, h)

  delete_owned_room-events :
      (id : Uuid) (w w' : ServiceState D)
      → delete_owned_room db id user_id w ≡ ok w'
      → w'.events ≡ room_deleted id ∷ w.events
  unfolding delete_owned_room
  delete_owned_room-events id w w' h = elim (Result-cases (get_room db id user_id w.db)) [
    | inr (x, k) ↦ absurd (ground (arith, h, k))
    | inl (rm, k) ↦ ground (arith, h, k)
  ]

  handle_create_room-Answered :
      (req : Option (RoomRequest R)) (w : ServiceState D)
      → Answers w (handle_create_room db user_id req w)
  unfolding handle_create_room
  handle_create_room-Answered none w = unchanged refl (omega arith)
  handle_create_room-Answered (some req) w =
      elim (Result-cases (create_room db user_id req.name w)) [
        | inl ((rm, w'), e) ↦
            rw (handle_create_room, e)
              (published (room_created rm.id) (create_room-events req.name w w' rm e)
                (inl (omega arith)))
        | inr (x, e) ↦ rw (handle_create_room, e) (unchanged refl (name_taken_reply_lem _ x))
      ]

  handle_delete_room-Answered :
      (id : Option Uuid) (w : ServiceState D) → Answers w (handle_delete_room db user_id id w)
  unfolding handle_delete_room
  handle_delete_room-Answered none w = unchanged refl (omega arith)
  handle_delete_room-Answered (some id) w =
      elim (Result-cases (delete_owned_room db id user_id w)) [
        | inl (w', e) ↦
            rw (handle_delete_room, e)
              (published (room_deleted id) (delete_owned_room-events id w w' e) (inl (omega arith)))
        | inr (x, e) ↦ rw (handle_delete_room, e) (unchanged refl (not_found_reply_lem _ x))
      ]

  handle_update_desired_state-Answered :
      (parse_time : String → Option Instant) (id : Option Uuid)
      → (req : Option (UpdateDesiredStateRequest R)) (w : ServiceState D)
      → Answers w (handle_update_desired_state db user_id parse_time id req w)
  unfolding handle_update_desired_state
  handle_update_desired_state-Answered parse_time none req w = unchanged refl (omega arith)
  handle_update_desired_state-Answered parse_time (some id) none w = unchanged refl (omega arith)
  handle_update_desired_state-Answered parse_time (some id) (some req) w =
      elim (Result-cases (resolve_manual_override parse_time req.manual_override)) [
        | inr (x, e) ↦ rw (handle_update_desired_state, e) (unchanged refl (omega arith))
        | inl (until, e) ↦
            elim (Result-cases
              (update_desired_state db id user_id (input_of db user_id req until) w)) [
                | inr (x, k) ↦
                    rw (handle_update_desired_state, e, k)
                      (unchanged refl (update_desired_state_reply_lem _ x))
                | inl ((ds, w'), k) ↦
                    let (_, _, _, _, _, events) =
                      update_desired_state-WithinBounds db id user_id
                        (input_of db user_id req until) w w' ds k in
                    rw (handle_update_desired_state, e, k)
                      (published (desired_state_changed id) events (inl (omega arith)))
              ]
      ]

  handle_update_room-Answered :
      (id : Option Uuid) (req : Option (RoomRequest R)) (w : ServiceState D)
      → Answers w (handle_update_room db user_id id req w)
  unfolding handle_update_room update_room room_capabilities
  handle_update_room-Answered none req w = unchanged refl (omega arith)
  handle_update_room-Answered (some id) none w = unchanged refl (omega arith)
  handle_update_room-Answered (some id) (some req) w =
      elim (Result-cases (get_room db id user_id w.db)) [
        | inr (x, e) ↦
            rw (handle_update_room, update_room, e) (unchanged refl (update_room_reply_lem _ x))
        | inl (rm, e) ↦
            elim (Result-cases
              (save_room db (saved_room db rm req.deadband_temp req.deadband_hum req.name) w.db)) [
                | inr (x, k) ↦
                    rw (handle_update_room, update_room, e, k)
                      (unchanged refl (update_room_reply_lem _ x))
                | inl (d, k) ↦ elim (Result-cases (db.capabilities rm.id d)) [
                  | inl (caps, l) ↦
                      rw (handle_update_room, update_room, e, k, room_capabilities, l)
                        (published (room_config_changed rm.id) refl (inl (omega arith)))
                  | inr (x, l) ↦
                      rw (handle_update_room, update_room, e, k, room_capabilities, l)
                        (published (room_config_changed rm.id) refl (inr refl))
                ]
              ]
      ]

  -- A request that changes a room or its desired state is answered in one of two ways: with a status
  -- below 400, or 500, after exactly one event was published, or with a status of 400 or more and the
  -- database and the events as they were.
  pub room_call-Answered :
      (parse_time : String → Option Instant) (c : RoomCall R) (w : ServiceState D)
      → Answered w (room_call parse_time c w).0 (room_call parse_time c w).1
  room_call-Answered parse_time (create req) w = handle_create_room-Answered req w
  room_call-Answered parse_time (update id req) w = handle_update_room-Answered id req w
  room_call-Answered parse_time (delete id) w = handle_delete_room-Answered id w
  room_call-Answered parse_time (update_state id req) w =
      handle_update_desired_state-Answered parse_time id req w
