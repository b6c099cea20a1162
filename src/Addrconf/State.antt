-- ===== src/Addrconf/State.antt =====
-- The object of pmip/addrconf_server.hpp, and the functions of addrconf_server.cpp that change it.
-- Each client has a timer of its own, which is known here by a number. A timer has at most one
-- wait: its handler has run, or its time has not come, or it is `due`, which means that the handler
-- waits in the queue of the io_service to be called, so that `cancel` comes too late for it.
use odi_mm.Base.{
  ℕ, suc, Bool, true, false, not, List, [], ◌∷◌, none, some, Assoc, find, put, erase, ◌==◌, nat_eq,
  list_eq, if◌then◌else◌,
}
use odi_mm.Run.{Run, done, threw, check, ◌>>=◌, ◌>>◌}
use odi_mm.Types.{Prefix}

-- `router_advertisement_info`
pub record Advertisement (A : Type 0) : Type 0 where
  pub hop_limit : ℕ
  pub lifetime : ℕ
  pub device_id : ℕ
  pub link_address : List ℕ
  pub dst_link_address : List ℕ
  pub mtu : ℕ
  pub prefix_list : List Prefix
  pub source : A
  pub destination : A
  pub home_addr : A

pub record Client (A : Type 0) : Type 0 where
  pub link_addr : List ℕ
  pub poa_link_addr : List ℕ
  pub ra_timer : ℕ
  pub home_addr : A
  pub prefixes : List Prefix

pub record Wait (A : Type 0) : Type 0 where
  pub ras : Advertisement A
  pub due : Bool

-- `joined` has the interfaces on which the socket is in the group, `adverts` and `replies` have
-- what was sent, the last first, and `receives` counts the receives that are started.
pub record Server (A : Type 0) : Type 0 where
  pub clients : Assoc (List ℕ) (Client A)
  pub mcast_interfaces : List ℕ
  pub next_timer : ℕ
  pub waits : Assoc ℕ (Wait A)
  pub joined : List ℕ
  pub receives : ℕ
  pub adverts : List (Advertisement A)
  pub replies : List (List ℕ)

-- A `boost::system::error_code`, as the handlers look at it.
pub data ErrorCode : Type 0 where
  success operation_canceled other_error : ErrorCode

unfoldable pub is_success : ErrorCode → Bool
is_success success = true
is_success operation_canceled = false
is_success other_error = false

unfoldable pub is_canceled : ErrorCode → Bool
is_canceled success = false
is_canceled operation_canceled = true
is_canceled other_error = false

abbrev pub mem : ℕ → List ℕ → Bool
mem d [] = false
mem d (x ∷ xs) = if x == d then true else mem d xs

abbrev pub remove_one : ℕ → List ℕ → List ℕ
remove_one d [] = []
remove_one d (x ∷ xs) = if x == d then xs else x ∷ remove_one d xs

-- What the system answers to a request to join or to leave the group on an interface, when the
-- socket is in the group on some interfaces. A refusal is an exception.
pub record Multicast : Type 0 where
  pub joins : List ℕ → ℕ → Bool
  pub leaves : List ℕ → ℕ → Bool

abbrev is_empty : List Prefix → Bool
is_empty [] = true
is_empty (p ∷ ps) = false

module _ {A : Type 0} where
  -- `timer->cancel()`
  unfoldable pub cancel : ℕ → Server A → Server A
  unfolding find erase
  cancel timer s = elim (find timer s.waits) [
    | none ↦ s
    | some wait ↦ if wait.due then s else record s { waits = erase timer s.waits }
  ]

  unfoldable pub router_advertisement : ErrorCode → Advertisement A → ℕ → Server A → Run (Server A)
  unfolding ◌>>=◌ is_success is_canceled put
  router_advertisement ec ras timer s =
      if not (is_success ec)
      then check (is_canceled ec) >> done s
      else done (record s {
        adverts = ras ∷ s.adverts;
        waits = put timer (record { ras = ras; due = false }) s.waits;
      })

  -- The time of a wait comes, and later its handler is called.
  unfoldable pub expire : ℕ → Server A → Server A
  unfolding find put
  expire timer s = elim (find timer s.waits) [
    | none ↦ s
    | some wait ↦ record s { waits = put timer (record wait { due = true }) s.waits }
  ]

  unfoldable pub fire : ℕ → Server A → Run (Server A)
  unfolding find erase router_advertisement
  fire timer s = elim (find timer s.waits) [
    | none ↦ done s
    | some wait ↦
        if wait.due
        then router_advertisement success wait.ras timer (record s { waits = erase timer s.waits })
        else done s
  ]

  abbrev pub client_of : Advertisement A → ℕ → Client A
  client_of ai timer = record {
    link_addr = ai.dst_link_address;
    poa_link_addr = ai.link_address;
    ra_timer = timer;
    home_addr = ai.home_addr;
    prefixes = ai.prefix_list;
  }

  -- The interface joins the group when it is the first time that it is seen.
  unfoldable pub join : Multicast → ℕ → Server A → Run (Server A)
  join m device s =
      if mem device s.mcast_interfaces
      then done s
      else if m.joins s.joined device
      then done
          (record s { mcast_interfaces = device ∷ s.mcast_interfaces; joined = device ∷ s.joined })
      else threw

  unfoldable pub add : Multicast → Advertisement A → Server A → Run (Bool × Server A)
  unfolding find put ◌>>=◌ join router_advertisement
  add m ai s = elim (find ai.dst_link_address s.clients) [
    | some held ↦ done (false, record s { next_timer = suc s.next_timer })
    | none ↦
        let timer = s.next_timer in
        let inserted = record s {
          clients = put ai.dst_link_address (client_of ai timer) s.clients;
          next_timer = suc timer;
        } in
        join m ai.device_id inserted >>= λ s.
        if is_empty ai.prefix_list
        then done (true, s)
        else router_advertisement success ai timer s >>= λ s. done (true, s)
  ]

  unfoldable pub del : List ℕ → Server A → Bool × Server A
  unfolding find erase cancel
  del addr s = elim (find addr s.clients) [
    | none ↦ (false, s)
    | some c ↦ let s = cancel c.ra_timer s in (true, record s { clients = erase addr s.clients })
  ]

  -- The loop of `clear`.
  unfoldable pub cancel_all : Assoc (List ℕ) (Client A) → Server A → Server A
  unfolding cancel
  cancel_all [] s = s
  cancel_all ((addr, c) ∷ cs) s = cancel_all cs (cancel c.ra_timer s)

  unfoldable pub clear : Server A → Server A
  unfolding cancel_all
  clear s = record (cancel_all s.clients s) { clients = [] }

  unfoldable pub start : Server A → Server A
  start s = record s { receives = suc s.receives }

  -- The loop of `stop`. The set of the interfaces stays as it is.
  unfoldable pub leave_all : Multicast → List ℕ → Server A → Run (Server A)
  leave_all m [] s = done s
  leave_all m (d ∷ ds) s =
      let rest = leave_all m ds (record s { joined = remove_one d s.joined }) in
      if m.leaves s.joined d then rest else threw

  -- The handlers of the receives are then called with `operation_canceled`.
  unfoldable pub stop : Multicast → Server A → Run (Server A)
  unfolding leave_all
  stop m s = leave_all m s.mcast_interfaces s
