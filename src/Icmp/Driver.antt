-- ===== src/Icmp/Driver.antt =====
-- The driver of app/opmip-mag/drivers/icmp.cpp. `scope_id` is boost's, and the map of the devices is
-- what `start` has read from the system.
use odi_mm.Base.{ℕ, ◌-◌, Bool, List, none, some, Assoc, find, nat_eq, if◌then◌else◌}
use odi_mm.Run.{Run, done, ◌>>=◌}
use odi_mm.Types.{AddressOps}
use odi_mm.NodeDb
use odi_mm.Mag.{mobile_node_attach_}
use odi_mm.Mag.State.{Mag}
use odi_mm.Icmp.Parser.{icmp_rs_parse}

-- `receives` counts the receives that are started.
pub record Driver (A : Type 0) : Type 0 where
  pub mag : Mag A
  pub poa_dev_map : Assoc ℕ (List ℕ)
  pub receives : ℕ

module _ {A : Type 0} ⦃ops : AddressOps A⦄ (scope_id : A → ℕ) where
  -- `handler` is the completion handler that the driver binds.
  unfoldable pub handle_rs : ℕ → A → List ℕ → ℕ → Driver A → Run (Driver A)
  unfolding find ◌>>=◌
  handle_rs now ep laddr handler d = elim (NodeDb.find_mobile_node_by_link d.mag.node_db laddr) [
    | none ↦ done d
    | some mn ↦ elim (find (scope_id ep) d.poa_dev_map) [
      | none ↦ done d
      | some poa ↦
          mobile_node_attach_ now d.mag
            (record {
              poa_dev_id = scope_id ep;
              poa_address = poa;
              mn_id = mn.id;
              mn_address = laddr;
            })
            (some handler)
          >>= λ mag'. done (record d { mag = mag' })
    ]
  ]

  -- A message has arrived at a pending receive, or an error has ended it. The next receive is started
  -- before the message is parsed.
  unfoldable pub handle_recv : ℕ → Bool → A → List ℕ → ℕ → Driver A → Run (Driver A)
  unfolding icmp_rs_parse handle_rs ◌>>=◌
  handle_recv now ec ep bytes handler d =
      if ec
      then done (record d { receives = d.receives - 1 })
      else icmp_rs_parse bytes >>= λ laddr. elim laddr [
        | none ↦ done d
        | some mac ↦ handle_rs now ep mac handler d
      ]
