-- ===== src/Stream/Lifecycle.antt =====
-- The creation and the deletion of a room, through the stream, the cache and the scheduler.
use climate_control.Prelude.{
  ◌≡◌, refl, ◌∙◌, ap, true, false, none, ◌∷◌, nat_eq, string_eq, eq_refl, is_some, inl, inr,
  if◌then◌else◌, Option-cases, arith,
}
use climate_control.Prelude.Dict.{
  lookup, contains, contains-lookup, contains-erase, contains-insert,
}
use climate_control.Prelude.Result.{ok}
use climate_control.Cache.{Uuid, Store, room, delete_room}
use climate_control.Cache.Laws.{room-delete_room}
use climate_control.Appdb.Reload.{reload_room}
use climate_control.Scheduler.{Loop, Scheduler, add_room, start_room, remove_room}
use climate_control.Scheduler.Running.{running}
use climate_control.Scheduler.Reachable.{Reachable, next, added, removed, Reachable-running}
use climate_control.Stream.{
  Message, Environment, Consumer, extract_string, extract_room_id, on_room_created, on_room_deleted,
  ack_unless_failed, dispatch_event, dispatch,
}

pub contains-remove_room :
    (id : Uuid) (s : Scheduler) → contains id (remove_room id s).active_rooms ≡ false
unfolding remove_room
contains-remove_room id s = elim (Option-cases (lookup id s.active_rooms)) [
  | inl e ↦ rw (remove_room, e) (contains-lookup id s.active_rooms ∙ ap is_some e)
  | inr (c, e) ↦
      rw (remove_room, e) (ground (arith, contains-erase id id s.active_rooms, eq_refl id))
]

contains-add_room : (id : Uuid) (s : Scheduler) → contains id (add_room id s).active_rooms ≡ true
unfolding add_room start_room
contains-add_room id s = ground (arith, contains-insert id id s.next_ctx s.active_rooms, eq_refl id)

module _ {R : Type 0} (env : Environment R) (m : Message) (c : Consumer R) (id : Uuid) where
  -- A room_deleted message whose room_id can be read, dispatched with a scheduler as the program makes
  -- them: the room is in the cache no more, no goroutine of it runs, and the message is acknowledged.
  pub dispatch-room_deleted :
      Reachable c.sched
      → extract_string m.values "event" ≡ ok "room_deleted"
      → extract_room_id env m.values ≡ ok id
      → let c' = dispatch env m c in
        (room c'.store id ≡ none)
        × ((l : Loop) → running l id c'.sched.cancelled c'.sched.goroutines ≡ 0)
        × (c'.acked ≡ m.id ∷ c.acked)
  unfolding dispatch dispatch_event on_room_deleted ack_unless_failed
  dispatch-room_deleted r e k =
      let done : dispatch env m c ≡ record {
        store = delete_room id c.store;
        sched = remove_room id c.sched;
        acked = m.id ∷ c.acked;
      } =
        rw (dispatch, e, dispatch_event, on_room_deleted, k) refl in
      rw done (
        rw (room-delete_room c.store id id, eq_refl id) refl,
        λ l.
            Reachable-running (next r (removed id)) l id
            ∙ ap (λ b. if b then 1 else 0) (contains-remove_room id c.sched),
        refl,
      )

  -- A room_created message whose room_id can be read and whose reload succeeds, dispatched with a
  -- scheduler as the program makes them, also if the room was started before: the store is the
  -- reloaded one, exactly one control loop and one cache refresh of the room run, and the message is
  -- acknowledged.
  pub dispatch-room_created :
      (s : Store R)
      → Reachable c.sched
      → extract_string m.values "event" ≡ ok "room_created"
      → extract_room_id env m.values ≡ ok id
      → reload_room env.queries id c.store ≡ ok s
      → let c' = dispatch env m c in
        (c'.store ≡ s)
        × ((l : Loop) → running l id c'.sched.cancelled c'.sched.goroutines ≡ 1)
        × (c'.acked ≡ m.id ∷ c.acked)
  unfolding dispatch dispatch_event on_room_created ack_unless_failed
  dispatch-room_created s r e k loaded =
      let done : dispatch env m c
          ≡ record { store = s; sched = add_room id c.sched; acked = m.id ∷ c.acked } =
        rw (dispatch, e, dispatch_event, on_room_created, k, loaded) refl in
      rw done (
        refl,
        λ l.
            Reachable-running (next r (added id)) l id
            ∙ ap (λ b. if b then 1 else 0) (contains-add_room id c.sched),
        refl,
      )
