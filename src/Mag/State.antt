-- ===== src/Mag/State.antt =====
-- The object of mag.cpp with what it reports and asks for, the states of an entry, and the delays.
use odi_mm.Base.{
  ℕ, ◌-◌, ◌*◌, ◌/◌, ◌^◌, Bool, true, false, List, nat_beq, ltb, leb, nat_eq, list_eq, if◌then◌else◌,
}
use odi_mm.Types.{Prefix, ProxyBindingInfo, address_eq, status_ok}
use odi_mm.Routes.{RouteTable}
use odi_mm.Tunnels.{Tunnels}
use odi_mm.NodeDb.{NodeDb}
use odi_mm.Bulist.{
  Bulist, BindStatus, bind_unknown, bind_requested, bind_renewing, bind_ack, bind_detach,
  bind_error,
}

-- mag::error_code, and a status of a binding acknowledgement.
pub data Code : Type 0 where
  ec_none ec_not_authorized ec_unknown_lma ec_invalid_state ec_canceled ec_timeout : Code
  ec_status : ℕ → Code

-- What the gateway asks of the address configuration server. `advertises` has the fields of
-- router_advertisement_info that differ from entry to entry.
pub data Call (A : Type 0) : Type 0 where
  advertises : ℕ → List ℕ → List ℕ → ℕ → List Prefix → A → A → Call A
  withdraws : List ℕ → Call A
  starts clears stops : Call A

pub record Mag (A : Type 0) : Type 0 where
  pub bulist : Bulist A
  pub node_db : NodeDb A
  pub identifier : List ℕ
  pub link_local_ip : A
  pub tunnels : Tunnels A
  pub routes : RouteTable A
  pub concurrency : ℕ
  pub receivers : ℕ
  -- The updates given to pbu_sender, the completions posted, and the calls of the server, the last
  -- first.
  pub sent : List (ProxyBindingInfo A)
  pub reports : List (ℕ × Code)
  pub addrconf : List (Call A)

pub record AttachInfo : Type 0 where
  pub poa_dev_id : ℕ
  pub poa_address : List ℕ
  pub mn_id : List ℕ
  pub mn_address : List ℕ

abbrev pub is_requested : BindStatus → Bool
is_requested bind_unknown = false
is_requested bind_requested = true
is_requested bind_renewing = false
is_requested bind_ack = false
is_requested bind_detach = false
is_requested bind_error = false

abbrev pub is_renewing : BindStatus → Bool
is_renewing bind_unknown = false
is_renewing bind_requested = false
is_renewing bind_renewing = true
is_renewing bind_ack = false
is_renewing bind_detach = false
is_renewing bind_error = false

abbrev pub is_ack : BindStatus → Bool
is_ack bind_unknown = false
is_ack bind_requested = false
is_ack bind_renewing = false
is_ack bind_ack = true
is_ack bind_detach = false
is_ack bind_error = false

abbrev pub is_detach : BindStatus → Bool
is_detach bind_unknown = false
is_detach bind_requested = false
is_detach bind_renewing = false
is_detach bind_ack = false
is_detach bind_detach = true
is_detach bind_error = false

abbrev pub is_error : BindStatus → Bool
is_error bind_unknown = false
is_error bind_requested = false
is_error bind_renewing = false
is_error bind_ack = false
is_error bind_detach = false
is_error bind_error = true

-- `boost::posix_time::seconds(1.5)` takes a whole number of seconds.
abbrev pub attach_delay : ℕ
attach_delay = 1000

abbrev pub request_delay : ℕ
request_delay = 1500

-- `min(32, pow(1.5, retry_count))` seconds, in whole milliseconds.
unfoldable pub retry_delay : ℕ → ℕ
retry_delay n = let grown = 1000 * 3 ^ n / 2 ^ n in if ltb grown 32000 then grown else 32000

-- How long after an acknowledgement the binding is renewed, in seconds.
unfoldable pub renew_delay : ℕ → ℕ
renew_delay lifetime = if leb lifetime 6 then lifetime - 1 else lifetime - 3

-- The error code of an acknowledgement.
abbrev pub code_of : ℕ → Code
code_of status = if nat_beq status status_ok then ec_none else ec_status status
