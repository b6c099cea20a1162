-- ===== src/Routes.antt =====
-- sys/route_table.cpp: the routes of a daemon, by source and by destination prefix, and the netlink
-- requests by which it installs and removes them. What the kernel answers a request is the
-- parameter `checked_send`, the outcome of nl::checked_send.
pub mod Lookup
pub mod Sync
use odi_mm.Base.{
  ℕ, ◌+◌, ◌%◌, ◌^◌, Bool, true, false, List, [], ◌∷◌, Option, none, some, Assoc, find, put, erase,
  if◌then◌else◌,
}
use odi_mm.Run.{Run, done, threw, asserted, check, ◌>>=◌, ◌>>◌}
use odi_mm.Types.{Prefix, prefix_eq, AddressOps}

-- `entry`
pub record Entry (A : Type 0) : Type 0 where
  pub device : ℕ
  pub gateway : A

-- The attribute under which the prefix stands, with its length field.
pub data Side : Type 0 where
  src dst : Side

-- A request on the rtnetlink socket. `install` is `m_new` with the flags request, ack, create and
-- replace, in the main table, static and unicast; `withdraw` is `m_del` with request and ack.
pub data Kind : Type 0 where
  install withdraw : Kind

pub record Request : Type 0 where
  pub kind : Kind
  pub sequence : ℕ
  pub side : Side
  pub prefix : Prefix
  pub gateway : Option (List ℕ)
  pub device : ℕ

-- The error code that the answer to a request comes to.
pub data Answer : Type 0 where
  success file_exists failure : Answer

pub record RouteTable (A : Type 0) : Type 0 where
  pub by_src : Assoc Prefix (Entry A)
  pub by_dst : Assoc Prefix (Entry A)
  pub rtnl_seq : ℕ
  -- What was sent on the socket, the last request first.
  pub requests : List Request

abbrev pub is_error : Answer → Bool
is_error success = false
is_error file_exists = true
is_error failure = true

-- `if (ec == file_exists) ec = error_code();`
abbrev pub is_failure : Answer → Bool
is_failure success = false
is_failure file_exists = false
is_failure failure = true

module _ {A : Type 0} ⦃ops : AddressOps A⦄ where
  unfoldable pub request : RouteTable A → Kind → Side → Prefix → Entry A → Request
  request t kind side prefix e = record {
    kind = kind;
    sequence = (t.rtnl_seq + 1) % 2 ^ 32;
    side = side;
    prefix = prefix;
    gateway = if ops.is_unspecified e.gateway then none else some (ops.to_bytes e.gateway);
    device = e.device;
  }

  -- The private `add_by_src`, `remove_by_src`, `add_by_dst` and `remove_by_dst`: one request.
  unfoldable pub send : RouteTable A → Request → RouteTable A
  send t r = record t { rtnl_seq = r.sequence; requests = r ∷ t.requests }

  abbrev pub entry_of : ℕ → Entry A
  entry_of device = record { device = device; gateway = ops.any }

  module _ (checked_send : Request → Answer) where
    unfoldable pub add_by_src : RouteTable A → Prefix → ℕ → Run (RouteTable A)
    unfolding find put request send
    add_by_src t prefix device = elim (find prefix t.by_src) [
      | some e ↦ done t
      | none ↦
          let e = entry_of device in
          let r = request t install src prefix e in
          if is_failure (checked_send r)
          then threw
          else done (record (send t r) { by_src = put prefix e t.by_src })
    ]

    unfoldable pub remove_by_src : RouteTable A → Prefix → Run (RouteTable A)
    unfolding find erase request send
    remove_by_src t prefix = elim (find prefix t.by_src) [
      | none ↦ done t
      | some e ↦
          let r = request t withdraw src prefix e in
          if is_error (checked_send r)
          then threw
          else done (record (send t r) { by_src = erase prefix t.by_src })
    ]

    unfoldable pub add_by_dst : RouteTable A → Prefix → ℕ → Run (RouteTable A)
    unfolding find put request send
    add_by_dst t prefix device = elim (find prefix t.by_dst) [
      | some e ↦ done t
      | none ↦
          let e = entry_of device in
          let r = request t install dst prefix e in
          if is_failure (checked_send r)
          then threw
          else done (record (send t r) { by_dst = put prefix e t.by_dst })
    ]

    unfoldable pub remove_by_dst : RouteTable A → Prefix → Run (RouteTable A)
    unfolding find erase request send
    remove_by_dst t prefix = elim (find prefix t.by_dst) [
      | none ↦ done t
      | some e ↦
          let r = request t withdraw dst prefix e in
          if is_error (checked_send r)
          then threw
          else done (record (send t r) { by_dst = erase prefix t.by_dst })
    ]

  -- The loops of `clear`: a request for each entry, and the answers are not looked at.
  withdraw_all : Side → Assoc Prefix (Entry A) → RouteTable A → RouteTable A
  unfolding request send
  withdraw_all side [] t = t
  withdraw_all side ((prefix, e) ∷ m) t =
      withdraw_all side m (send t (request t withdraw side prefix e))

  unfoldable pub clear : RouteTable A → RouteTable A
  unfolding withdraw_all
  clear t = withdraw_all dst t.by_dst (withdraw_all src t.by_src t)

  abbrev pub find_by_dst : RouteTable A → Prefix → Option (Entry A)
  find_by_dst t prefix = find prefix t.by_dst

  abbrev pub find_by_src : RouteTable A → Prefix → Option (Entry A)
  find_by_src t prefix = find prefix t.by_src
