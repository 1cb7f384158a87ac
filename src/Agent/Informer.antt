-- ===== src/Agent/Informer.antt =====
-- cluster-agent/src/kubernetes/informer.rs and node_informer.rs: a handler behind the stream of a
-- watcher of the kube crate. What the stream yields is an argument.
pub mod Handlers
pub mod Laws
use qubit.Base.{Text, codes, List, [], ◌∷◌, ◌++◌}
use qubit.Agent.Handlers.{Message}

-- `watcher::Event`
pub data WatchEvent (K : Type 0) : Type 0 where
  apply : K → WatchEvent K
  delete : K → WatchEvent K
  -- A list of all objects begins.
  init : WatchEvent K
  init_apply : K → WatchEvent K
  init_done : WatchEvent K

-- `Some(event)` of `watcher.next()`
pub data Item (K : Type 0) : Type 0 where
  event : WatchEvent K → Item K
  error : Text → Item K

-- The state S stands for what the handler shares with others.
pub record EventHandler (S K : Type 0) : Type 0 where
  pub on_apply : S → K → S × List Message
  pub on_delete : S → K → S × List Message
  pub on_init_apply : S → K → S × List Message
  pub on_init_done : S → S × List Message

-- `Result<(), String>`
pub data Outcome : Type 0 where
  ended : Outcome
  failed : Text → Outcome

module _ {S K : Type 0} (handler : EventHandler S K) where
  unfoldable pub handle : S → WatchEvent K → S × List Message
  handle s (apply obj) = handler.on_apply s obj
  handle s (delete obj) = handler.on_delete s obj
  handle s init = (s, [])
  handle s (init_apply obj) = handler.on_init_apply s obj
  handle s init_done = handler.on_init_done s

  unfoldable pub start : Text → S → List (Item K) → S × List Message × Outcome
  start type_name s [] = (s, [], ended)
  start type_name s (error e ∷ items) =
      (s, [], failed (type_name ++ (codes " watcher error: " ++ e)))
  start type_name s (event ev ∷ items) =
      let (s', sent) = handle s ev in
      let (s'', more, outcome) = start type_name s' items in (s'', sent ++ more, outcome)

unfoldable pub start_node :
    {S K : Type 0} → EventHandler S K → S → List (Item K) → S × List Message × Outcome
start_node handler s items = start handler (codes "Node") s items
