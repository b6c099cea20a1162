-- ===== src/Icmp/Solicited.antt =====
-- What the driver of app/opmip-mag/drivers/icmp.cpp does with a router solicitation.
use odi_mm.Base.{
  ℕ, suc, ◌*◌, ◌<◌, ◌≡◌, refl, ◌∙◌, false, List, ◌∷◌, ◌++◌, All, some, length, find, nat_eq,
}
use odi_mm.Run.{done, undefined, ◌>>=◌}
use odi_mm.Types.{AddressOps}
use odi_mm.NodeDb
use odi_mm.NodeDb.{MobileNode}
use odi_mm.Mag.{mobile_node_attach_}
use odi_mm.Icmp.Parser.{type_value, icmp_rs_parse}
use odi_mm.Icmp.Driver.{Driver, handle_rs, handle_recv}
use odi_mm.Icmp.Scan.{Other, IsOther, encode, icmp_rs_parse-finds, icmp_rs_parse-truncated}

module _ {A : Type 0} ⦃ops : AddressOps A⦄ (scope_id : A → ℕ) (now : ℕ) (handler : ℕ) where
  handle_rs-known :
      (d : Driver A) (ep : A) (mac poa : List ℕ) (mn : MobileNode A)
      → NodeDb.find_mobile_node_by_link d.mag.node_db mac ≡ some mn
      → find (scope_id ep) d.poa_dev_map ≡ some poa
      → handle_rs scope_id now ep mac handler d ≡ (
          mobile_node_attach_ now d.mag
            (record {
              poa_dev_id = scope_id ep;
              poa_address = poa;
              mn_id = mn.id;
              mn_address = mac;
            })
            (some handler)
          >>= λ mag'. done (record d { mag = mag' }))
  unfolding handle_rs
  handle_rs-known d ep mac poa mn known listed = rw (handle_rs, known, listed) refl

  handle_recv-parsed :
      (d : Driver A) (ep : A) (bytes mac : List ℕ)
      → icmp_rs_parse bytes ≡ done (some mac)
      → handle_recv scope_id now false ep bytes handler d ≡ handle_rs scope_id now ep mac handler d
  unfolding handle_recv ◌>>=◌
  handle_recv-parsed d ep bytes mac e = rw (handle_recv, e) refl

  -- A router solicitation with the link address of a mobile node that the database has, received on a
  -- device of the driver, attaches that node to the gateway at the point of attachment of the device.
  pub solicitation-attaches :
      (d : Driver A) (ep : A) (header : List ℕ) (os : List Other) (mac rest poa : List ℕ)
      (mn : MobileNode A)
      → length header ≡ 7
      → All IsOther os
      → length mac ≡ 6
      → NodeDb.find_mobile_node_by_link d.mag.node_db mac ≡ some mn
      → find (scope_id ep) d.poa_dev_map ≡ some poa
      → handle_recv scope_id now false ep
          (type_value ∷ (header ++ encode os (1 ∷ 1 ∷ (mac ++ rest))))
          handler
          d
        ≡ (mobile_node_attach_ now d.mag
              (record {
                poa_dev_id = scope_id ep;
                poa_address = poa;
                mn_id = mn.id;
                mn_address = mac;
              })
              (some handler)
            >>= λ mag'. done (record d { mag = mag' }))
  solicitation-attaches d ep header os mac rest poa mn width v six known listed =
      handle_recv-parsed d ep _ mac (icmp_rs_parse-finds header width os mac rest v six)
      ∙ handle_rs-known d ep mac poa mn known listed

  -- A router solicitation that ends inside an option, with whole options before it none of which is
  -- a source link-layer address, leads the driver into undefined behaviour, whoever sent it.
  pub truncated-crashes :
      (d : Driver A) (ep : A) (header : List ℕ) (os : List Other) (type units : ℕ) (body : List ℕ)
      → length header ≡ 7
      → All IsOther os
      → suc (suc (length body)) < units * 8
      → handle_recv scope_id now false ep
          (type_value ∷ (header ++ encode os (type ∷ units ∷ body)))
          handler
          d
        ≡ undefined
  unfolding handle_recv ◌>>=◌
  truncated-crashes d ep header os type units body width v short =
      rw (handle_recv, icmp_rs_parse-truncated header width os type units body v short) refl
