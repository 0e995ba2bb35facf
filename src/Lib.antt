-- ===== src/Lib.antt =====
-- The climate control services: a heating and humidity controller for rooms, written in Go.
--
-- The device service (device-service/) keeps a cache of rooms and devices. Telemetry of the sensors is
-- put into a room's cache (ingestion), each room has a control loop that computes commands for its
-- actuators from that cache on every tick (control, scheduler), and the cache is loaded from the
-- application database (appdb) again when the API service (api-service/) publishes an event on a Redis
-- stream (stream). The simulator (simulator-service/) plays the devices of rooms.
--
-- Which file models which part:
--   Cache       device-service/internal/cache/cache.go: the types and the methods of Store
--   Control     device-service/internal/control/control.go: resolveEffectiveState; in Control.Evaluate
--               Evaluate, commandAllOff, evaluateOrOff, freshAverage, setCmd
--   Ingestion   device-service/internal/ingestion/ingestion.go: Process, trimStale
--   Appdb       device-service/internal/appdb/repository.go: the rows; in Appdb.ParseTime
--               parseTimeToMinutes, in Appdb.Assembly the build functions, in Appdb.Reload ReloadRoom
--               and ReloadDevice, in Appdb.Warm WarmCache
--   Scheduler   device-service/internal/scheduler/scheduler.go: Start, AddRoom, RemoveRoom, startRoom;
--               in Scheduler.Tick tick
--   Stream      device-service/internal/stream/consumer.go: dispatch, its handlers, drainPending
--   Schedule    api-service/internal/schedule/service.go: the operations on schedules and periods; in
--               Schedule.PeriodHandler of handler.go what writes periods
--   Api         api-service/internal: in Api.Events events/events.go, in Api.Rooms room/repository.go and
--               room/service.go, with UpdateDesiredState in Api.Rooms.Targets, in Api.RoomHandler
--               room/handler.go, in Api.Conflict and Api.Devices device/repository.go, in
--               Api.Devices.Service device/service.go
--   Simulator   simulator-service/internal/simulator: room_state.go, model.go, and of simulator.go
--               advanceRoom, the command callback and the watchdog; in Simulator.Config
--               internal/config/config.go: its types, in Parts and Resolve the resolution, in Validate
--               validateSimulation, in Load Load
--   System      device-service/cmd/main.go: the start, and the steps of the running service
--   Prelude, Float, Time   what these share: lists, Go's maps, integers and results; float64; package time
--   Examples    concrete runs
-- A module below one of these that is not named here holds proofs about it.
--
-- A function that changes state returns the new state; an error is a value of a result type. A Go map is
-- a list of entries, and a range over it goes in their order. An int64 or int16 wraps around where the
-- source computes with it. float64 is an interface of operations with the laws of its order, and the
-- statements hold for every implementation of it; Examples uses integers of hundredths. A UUID is a
-- number. Each method that locks a mutex is one step, and so is a tick, a message and a reload:
-- interleavings inside of these are not modelled.
--
-- Parameters of the model are the results of the database's queries, the zone data of the host, the
-- encoding and publishing of a command, the write of sensor rows, uuid.Parse, what XREADGROUP returns,
-- the repository of the schedules, the calls of gorm and the binding of requests by gin, the decoded
-- files and the environment of the simulator, and the draws of its noise. An XADD is taken to succeed.
--
-- drainPending loops for as long as it reads entries, so it takes fuel, one unit for each read. All other
-- functions are structural recursions.
--
-- Not modelled: HTTP routing and MQTT transport, SQL, debug output, timers and signals, the handlers of
-- devices and, but for periods, of schedules, the users of the API, authentication, the climate history,
-- the provisioning of the simulator, and the web client.
pub mod Prelude
pub mod Float
pub mod Time
pub mod Cache
pub mod Control
pub mod Ingestion
pub mod Appdb
pub mod Scheduler
pub mod Stream
pub mod Schedule
pub mod Api
pub mod Simulator
pub mod System
pub mod Examples
