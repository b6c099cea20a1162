-- ===== src/Lma/State.antt =====
-- The object of lma.cpp, its events, and what the daemons ask of the kernel.
use odi_mm.Base.{ℕ, Bool, true, false, List, Option, nat_eq, list_eq}
use odi_mm.Types.{ProxyBindingInfo, address_eq}
use odi_mm.Routes.{RouteTable, Request, Answer}
use odi_mm.Tunnels.{Tunnels}
use odi_mm.NodeDb.{NodeDb}
use odi_mm.Bcache.{Bcache, BindStatus, bind_unknown, bind_registered, bind_deregistered}

-- The answers of the system calls behind the tunnels and the routes.
pub record Kernel (A : Type 0) : Type 0 where
  pub open_tunnel : A → A → Bool → Option ℕ
  pub checked_send : Request → Answer

pub record Lma (A : Type 0) : Type 0 where
  pub bcache : Bcache A
  pub node_db : NodeDb A
  pub identifier : List ℕ
  pub tunnels : Tunnels A
  pub routes : RouteTable A
  pub concurrency : ℕ
  -- How many receives are pending on the socket.
  pub receivers : ℕ
  -- The acknowledgements given to pba_sender, the last first.
  pub sent : List (ProxyBindingInfo A)

-- config::min_delay_before_BCE_delete
abbrev pub min_delay_before_bce_delete : ℕ
min_delay_before_bce_delete = 10000

abbrev pub is_registered : BindStatus → Bool
is_registered bind_unknown = false
is_registered bind_registered = true
is_registered bind_deregistered = false

abbrev pub is_deregistered : BindStatus → Bool
is_deregistered bind_unknown = false
is_deregistered bind_registered = false
is_deregistered bind_deregistered = true

abbrev pub is_unknown : BindStatus → Bool
is_unknown bind_unknown = true
is_unknown bind_registered = false
is_unknown bind_deregistered = false

-- What may call the anchor: datagrams, timers and the operator.
pub data Event (A : Type 0) : Type 0 where
  receives : A → ℕ → List ℕ → Event A
  expires removes : Bool → List ℕ → Event A
  starts : List ℕ → Bool → Event A
  stops : Event A
