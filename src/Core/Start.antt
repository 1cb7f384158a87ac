-- ===== src/Core/Start.antt =====
-- core/src/lib.rs: how core begins and ends. The servers start once the tables are there, and the first
-- one that ends ends core. Which servers end, and in which order, is an argument.
pub mod Laws
use qubit.Base.{Text, Option, none, some, List, [], ◌∷◌}
use qubit.Core.Cache.{CacheLib}
use qubit.Core.State.{Error, ok, err}
use qubit.Core.Grpc.{System, idle}
use qubit.Core.Dao.{initialize_schema}
use qubit.Core.Dao.Rows.{Client}

pub data Server : Type 0 where
  http : Server
  grpc : Server

-- `run` has not returned, returned `Ok(())` after a server's end, or failed.
pub data Ending : Type 0 where
  serving : Ending
  finished : Server → Ending
  not_started : Error → Ending

-- `select!` of the two handles
unfoldable pub first_end : List Server → Ending
first_end [] = serving
first_end (first ∷ later) = finished first

module _ {Row Key : Type 0} {key : Row → Key} (c : Client key) (lib : CacheLib) where
  -- The database, the state that the servers share once they are started, and how it ends.
  unfoldable pub run : Text → Text → c.Db → List Server → c.Db × Option (System lib) × Ending
  run network_table resource_table db ends =
      let (db', answer) = initialize_schema c network_table resource_table db in
      elim answer [
        | err e ↦ (db', none, not_started e)
        | ok _ ↦ (db', some (idle lib), first_end ends)
      ]
