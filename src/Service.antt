-- ===== src/Service.antt =====
-- The start of the service: main.cpp, the constructor of Kueued (kueued.cpp) and that of Server
-- (server.cpp). Whether another kueued is running is a parameter, which QtSingleCoreApplication finds
-- out.
use kueued.Prelude.{ℕ, Bool, Option, none, some, if◌then◌else◌}
use kueued.Settings.{Values}
use kueued.Database.Connections.{Registry, construct}

-- A service that listens: its port, the most threads of its pool, and the connections of the process.
record Service (R : Type 0) : Type 0 where
  port : ℕ
  max_thread_count : ℕ
  connections : R

module _ {R : Type 0} (registry : Registry R) (value : Values) where
  -- Server::Server
  server : ℕ → R → Service R
  server port r = record { port = port; max_thread_count = 32; connections = r }

  -- Kueued::Kueued
  kueued_service : R → Service R
  unfolding server
  kueued_service r = server 8080 (construct registry value r)

  -- main: nothing is opened beside a kueued that runs
  start : Bool → R → Option (Service R)
  unfolding kueued_service
  start is_running r = if is_running then none else some (kueued_service r)
