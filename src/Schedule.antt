-- ===== src/Schedule.antt =====
-- api-service/internal/schedule/service.go: the service of the schedules and their periods, with
-- models/schedule.go and models/schedule_period.go. The queries of the two repositories run in Postgres
-- and are parameters; one that fails leaves the database alone. The state is the database and the rooms
-- for which a schedule_changed event was published, the last one first.
pub mod Periods
pub mod ShortHours
pub mod Notify
pub mod Activation
pub mod PeriodHandler
use climate_control.Prelude.{
  ℕ, String, Bool, true, false, not, Option, none, some, List, [], ◌∷◌, ltb, if◌then◌else◌,
}
use climate_control.Prelude.Int.{ℤ}
use climate_control.Prelude.Result.{Result, ok, err, ◌>>=◌, wrap_err}
use climate_control.Cache.{Uuid}
use climate_control.Appdb.ParseTime.{codes}

-- The two models, without the timestamps that gorm keeps.
pub record Schedule : Type 0 where
  pub id : Uuid
  pub room_id : Uuid
  pub user_id : Uuid
  pub name : String
  pub is_active : Bool

pub record SchedulePeriod (R : Type 0) : Type 0 where
  pub id : Uuid
  pub schedule_id : Uuid
  pub name : Option String
  pub days_of_week : List ℤ
  pub start_time : String
  pub end_time : String
  pub mode : String
  pub target_temp : Option R
  pub target_hum : Option R

pub record PeriodInput (R : Type 0) : Type 0 where
  pub name : Option String
  pub days_of_week : List ℤ
  pub start_time : String
  pub end_time : String
  pub mode : String
  pub target_temp : Option R
  pub target_hum : Option R

pub data ServiceError (E : Type 0) : Type 0 where
  period_not_found period_overlap invalid_time_range capability_conflict : ServiceError E
  already_active already_inactive : ServiceError E
  repository : E → ServiceError E

-- The queries of the schedules' repository, and `GetByIDAndUserID` of the rooms'. An insert returns the
-- row with the ID that the database gave it.
pub record Repository (R D E : Type 0) : Type 0 where
  pub get_room : Uuid → Uuid → D → Result E Uuid
  pub create : Schedule → D → Result E (Schedule × D)
  pub get_by_id : Uuid → Uuid → D → Result E Schedule
  pub update : Schedule → D → Result E D
  pub delete : Uuid → D → Result E D
  pub activate : Uuid → Uuid → D → Result E D
  pub deactivate : Uuid → Uuid → D → Result E D
  pub create_period : SchedulePeriod R → D → Result E (SchedulePeriod R × D)
  pub get_period_by_id : Uuid → D → Result E (SchedulePeriod R)
  pub update_period : SchedulePeriod R → D → Result E D
  pub delete_period : Uuid → D → Result E D
  pub has_overlap : Uuid → List ℤ → String → String → Option Uuid → D → Result E Bool
  pub periods_have_capability : Uuid → Uuid → D → Result E Bool

pub record World (D : Type 0) : Type 0 where
  pub db : D
  pub events : List Uuid

-- Go's order on strings, which is that of their code points.
unfoldable pub codes_le : List ℕ → List ℕ → Bool
codes_le [] ys = true
codes_le (x ∷ xs) [] = false
codes_le (x ∷ xs) (y ∷ ys) =
    let rest = codes_le xs ys in if ltb x y then true else if ltb y x then false else rest

unfoldable pub string_le : String → String → Bool
string_le s t = codes_le (codes s) (codes t)

module _ {D : Type 0} where
  unfoldable pub notify_schedule_changed : Uuid → World D → World D
  notify_schedule_changed room_id w = record w { events = room_id ∷ w.events }

  unfoldable pub notify_if_active : Schedule → World D → World D
  notify_if_active sched w = if sched.is_active then notify_schedule_changed sched.room_id w else w

  abbrev pub store_db : World D → D → World D
  store_db w d = record w { db = d }

module _ {R D E : Type 0} (repo : Repository R D E) where
  abbrev pub lift : {A : Type 0} → Result E A → Result (ServiceError E) A
  lift r = wrap_err repository r

  -- `Service.Create`
  unfoldable pub create_schedule :
      Uuid → Uuid → String → World D → Result (ServiceError E) (Schedule × World D)
  create_schedule room_id user_id name w = do
    _ ← lift (repo.get_room room_id user_id w.db)
    (sched, d) ← lift (
        repo.create
          (record { id = 0; room_id = room_id; user_id = user_id; name = name; is_active = false })
          w.db)
    ok (sched, store_db w d)

  -- `Service.Update`
  unfoldable pub rename_schedule :
      Uuid → Uuid → String → World D → Result (ServiceError E) (Schedule × World D)
  rename_schedule id user_id name w = do
    sched ← lift (repo.get_by_id id user_id w.db)
    d ← lift (repo.update (record sched { name = name }) w.db)
    ok (record sched { name = name }, store_db w d)

  -- `Service.Delete`
  unfoldable pub delete_schedule : Uuid → Uuid → World D → Result (ServiceError E) (World D)
  delete_schedule id user_id w = do
    _ ← lift (repo.get_by_id id user_id w.db)
    d ← lift (repo.delete id w.db)
    ok (store_db w d)

  unfoldable pub activate : Uuid → Uuid → World D → Result (ServiceError E) (Schedule × World D)
  activate id user_id w = do
    sched ← lift (repo.get_by_id id user_id w.db)
    _ ← if sched.is_active then err already_active else ok sched
    capable ← lift (repo.periods_have_capability id sched.room_id w.db)
    _ ← if not capable then err capability_conflict else ok sched
    d ← lift (repo.activate id sched.room_id w.db)
    ok (record sched { is_active = true }, notify_schedule_changed sched.room_id (store_db w d))

  unfoldable pub deactivate : Uuid → Uuid → World D → Result (ServiceError E) (Schedule × World D)
  deactivate id user_id w = do
    sched ← lift (repo.get_by_id id user_id w.db)
    _ ← if not sched.is_active then err already_inactive else ok sched
    d ← lift (repo.deactivate sched.id sched.room_id w.db)
    ok (record sched { is_active = false }, notify_schedule_changed sched.room_id (store_db w d))

  unfoldable pub build_period :
      Uuid → PeriodInput R → Option Uuid → D → Result (ServiceError E) (SchedulePeriod R)
  build_period schedule_id input exclude_id d = do
    _ ← if string_le input.end_time input.start_time then err invalid_time_range else ok input
    overlap ← lift (
        repo.has_overlap schedule_id input.days_of_week input.start_time input.end_time exclude_id
          d)
    if overlap
        then err period_overlap
        else ok (record {
          id = 0;
          schedule_id = schedule_id;
          name = input.name;
          days_of_week = input.days_of_week;
          start_time = input.start_time;
          end_time = input.end_time;
          mode = input.mode;
          target_temp = input.target_temp;
          target_hum = input.target_hum;
        })

  unfoldable pub create_period :
      Uuid → Uuid → PeriodInput R → World D → Result (ServiceError E) (SchedulePeriod R × World D)
  create_period schedule_id user_id input w = do
    sched ← lift (repo.get_by_id schedule_id user_id w.db)
    built ← build_period sched.id input none w.db
    (period, d) ← lift (repo.create_period built w.db)
    ok (period, notify_if_active sched (store_db w d))

  -- any error of the schedule's query becomes ErrPeriodNotFound
  unfoldable pub get_period_by_id :
      Uuid → Uuid → D → Result (ServiceError E) (SchedulePeriod R × Schedule)
  get_period_by_id period_id user_id d = do
    period ← lift (repo.get_period_by_id period_id d)
    sched ← wrap_err (λ _. period_not_found) (repo.get_by_id period.schedule_id user_id d)
    ok (period, sched)

  unfoldable pub update_period :
      Uuid → Uuid → PeriodInput R → World D → Result (ServiceError E) (SchedulePeriod R × World D)
  update_period period_id user_id input w = do
    (period, sched) ← get_period_by_id period_id user_id w.db
    built ← build_period period.schedule_id input (some period.id) w.db
    d ← lift (repo.update_period (record built { id = period.id }) w.db)
    ok (record built { id = period.id }, notify_if_active sched (store_db w d))

  unfoldable pub delete_period : Uuid → Uuid → World D → Result (ServiceError E) (World D)
  delete_period period_id user_id w = do
    (period, sched) ← get_period_by_id period_id user_id w.db
    d ← lift (repo.delete_period period_id w.db)
    ok (notify_if_active sched (store_db w d))
