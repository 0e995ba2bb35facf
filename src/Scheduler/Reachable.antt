-- ===== src/Scheduler/Reachable.antt =====
-- The invariant of the goroutines holds in every scheduler that the program can reach.
use climate_control.Prelude.{
  ◌≡◌, refl, some, nat_eq, ◌∙◌, if◌then◌else◌, arith, Option-cases, inl, inr,
}
use climate_control.Prelude.Dict.{
  lookup, contains, lookup-insert, lookup-erase, contains-insert, contains-erase,
}
use climate_control.Prelude.Int.{pos}
use climate_control.Time.{Duration}
use climate_control.Cache.{Uuid}
use climate_control.Scheduler.{
  Loop, control_loop, cache_refresh, Scheduler, new_scheduler, cancel_existing, start_room,
  add_room, remove_room,
}
use climate_control.Scheduler.Running.{
  running, Inv, Fits-new, All-Fits-start, All-Fits-remove, running-old, cancel_existing-below,
  All-lt-suc, running-started, below-not_cancelled,
}

pub start_room-Inv :
    (id : Uuid) (a b : Duration) (s : Scheduler) → Inv s → Inv (start_room id a b s)
unfolding start_room
start_room-Inv id a b s inv =
    let o = lookup id s.active_rooms in
    let below = cancel_existing-below s id o inv refl in
    let n = s.next_ctx in
    record {
      fits = (
        Fits-new id n s.active_rooms s.cancelled o control_loop a inv.fresh_active,
        (
          Fits-new id n s.active_rooms s.cancelled o cache_refresh b inv.fresh_active,
          All-Fits-start id n s.active_rooms s.cancelled o s.goroutines refl inv.fits,
        ),
      );
      fresh_cancelled = All-lt-suc n (cancel_existing o s.cancelled) below;
      fresh_active =
          λ j c e. ground (arith, lookup-insert id j n s.active_rooms, inv.fresh_active j c);
      counts = λ l j.
          running-started l id j n (running l j s.cancelled s.goroutines) a b
            (cancel_existing o s.cancelled) s.goroutines
            (below-not_cancelled n n (cancel_existing o s.cancelled) below (omega arith))
            (running-old s l id j o inv refl)
          ∙ ground (arith, contains-insert id j n s.active_rooms, inv.counts l j);
    }

pub remove_room-Inv : (id : Uuid) (s : Scheduler) → Inv s → Inv (remove_room id s)
unfolding remove_room
remove_room-Inv id s inv = elim (Option-cases (lookup id s.active_rooms)) [
  | inl none_found ↦ rw (none_found, remove_room) inv
  | inr (c, at) ↦
      let n = s.next_ctx in
      rw (at, remove_room)
        (record {
          fits = All-Fits-remove id n s.active_rooms s.cancelled c s.goroutines at inv.fits;
          fresh_cancelled = (inv.fresh_active id c at, inv.fresh_cancelled);
          fresh_active =
              λ j d e. ground (arith, lookup-erase id j s.active_rooms, inv.fresh_active j d);
          counts = λ l j.
              unfold cancel_existing in
              running-old s l id j (some c) inv at
              ∙ ground (arith, contains-erase id j s.active_rooms, inv.counts l j);
        })
]

pub new_scheduler-Inv : Inv new_scheduler
unfolding new_scheduler lookup contains
new_scheduler-Inv = record {
  fits = tt;
  fresh_cancelled = tt;
  fresh_active = λ j c e. cc e;
  counts = λ l j. refl;
}

-- What the program does to the scheduler: rooms are started, at boot with staggers or by an event
-- without, and removed.
pub data Step (s : Scheduler) : Scheduler → Type 0 where
  started : (id : Uuid) (a b : Duration) → Step s (start_room id a b s)
  added : (id : Uuid) → Step s (add_room id s)
  removed : (id : Uuid) → Step s (remove_room id s)

pub data Reachable : Scheduler → Type 0 where
  booted : Reachable new_scheduler
  next : {s t : Scheduler} → Reachable s → Step s t → Reachable t

Step-Inv : {s t : Scheduler} → Step s t → Inv s → Inv t
Step-Inv {s} (started id a b) inv = start_room-Inv id a b s inv
Step-Inv {s} (added id) inv = unfold add_room in start_room-Inv id (pos 0) (pos 0) s inv
Step-Inv {s} (removed id) inv = remove_room-Inv id s inv

pub Reachable-Inv : {s : Scheduler} → Reachable s → Inv s
Reachable-Inv booted = new_scheduler-Inv
Reachable-Inv (next r st) = Step-Inv st (Reachable-Inv r)

-- In every scheduler that starts, additions and removals of rooms lead to, each active room has exactly
-- one control loop and exactly one cache refresh whose context is not cancelled, and every other room
-- has none, also where a room was started twice.
pub Reachable-running :
    {s : Scheduler}
    → Reachable s
    → (l : Loop) (id : Uuid)
    → running l id s.cancelled s.goroutines ≡ (if contains id s.active_rooms then 1 else 0)
Reachable-running r l id = (Reachable-Inv r).counts l id
