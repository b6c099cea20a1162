-- ===== src/Registration/Gateway.antt =====
-- What the gateway of pmip/mag.cpp does with the bytes of the acknowledgement that it waits for.
use odi_mm.Base.{
  ℕ, ◌*◌, ◌/◌, ◌≤◌, ◌<◌, ◌≡◌, refl, sym, ◌∙◌, List, ◌++◌, Option, some, length, arith, list_eq,
  nat_eq,
}
use mathlib.Core.Path.{subst}
use odi_mm.Run.{done}
use odi_mm.Types.{ProxyBindingInfo, AddressOps, handoff_unknown, status_ok}
use odi_mm.Wire.Message.{ok}
use odi_mm.Wire.Sender.{pba_sender}
use odi_mm.Wire.Encoded.{IsSendable, carried}
use odi_mm.Wire.RoundTrip.{pba_parse-pba_sender}
use odi_mm.Bulist.{BulistEntry, bind_ack, renews, find_by_id}
use odi_mm.Lma.State.{Kernel}
use odi_mm.Mag
use odi_mm.Mag.{binding_update, add_route_entries, report}
use odi_mm.Mag.State.{Mag, ec_none}
use odi_mm.Mag.Delivery.{
  requested, attached, attached-entry, attached-receivers, ack-completes, receive-parsed,
}

module _ {A : Type 0} ⦃ops : AddressOps A⦄ where
  -- The gateway's entry after the acknowledgement: acknowledged, with the next renewal before the
  -- lifetime `given` is over.
  pub record IsAcknowledged (mag : Mag A) (id : List ℕ) (given : ℕ) : Type 0 where
    pub entry : BulistEntry A
    pub delay : ℕ
    pub found : find_by_id mag.bulist id ≡ some entry
    pub bind_status : entry.bind_status ≡ bind_ack
    pub timer : entry.timer ≡ some (renews delay)
    pub in_time : delay < given

  -- An acknowledgement of success that the anchor sends for the update of an attachment.
  pub gateway-completes :
      (k : Kernel A) (mag mag1 : Mag A) (be : BulistEntry A) (handler : Option ℕ)
      (a : ProxyBindingInfo A) (stale : List ℕ)
      → IsSendable a
      → a.id ≡ be.mn_id
      → a.status ≡ status_ok
      → a.sequence ≡ (binding_update be be.lifetime handoff_unknown).sequence
      → 4 ≤ a.lifetime
      → 0 < mag.receivers
      → add_route_entries k (attached mag be handler) (requested be handler) ≡ done mag1
      → (bytes : List ℕ) × (mag' : Mag A) × (pba_sender a ≡ ok bytes)
        × (Mag.mp_receive k (attached mag be handler) be.lma_address (length bytes) (bytes ++ stale)
            ≡ done mag')
        × IsAcknowledged mag' be.mn_id (4 * (a.lifetime / 4))
        × (mag'.routes ≡ mag1.routes)
        × (mag'.reports ≡ (report handler ec_none mag1).reports)
  gateway-completes k mag mag1 be handler a stale v named success current long listens added =
      let pb : ProxyBindingInfo A = record a {
        address = be.lma_address;
        lifetime = 4 * (a.lifetime / 4);
        prefix_list = carried a.prefix_list;
      } in
      let (bytes, sent, parsed) = pba_parse-pba_sender a v be.lma_address stale in
      let there : find_by_id (attached mag be handler).bulist a.id ≡ some (requested be handler) =
        subst (λ i. find_by_id (attached mag be handler).bulist i ≡ some (requested be handler))
          (sym named) (attached-entry mag be handler) in
      let (mag', be', delay, acked, found, status, timer, in_time, routes, reports) =
        ack-completes k (attached mag be handler) mag1 pb (requested be handler) there (sym named)
          refl success current (omega (arith, long)) refl added in
      (
        bytes,
        mag',
        sent,
        receive-parsed k (attached mag be handler) be.lma_address (length bytes) (bytes ++ stale) pb
              (attached-receivers mag be handler listens) parsed
            ∙ acked,
        record {
          entry = be';
          delay = delay;
          found = subst (λ i. find_by_id mag'.bulist i ≡ some be') named found;
          bind_status = status;
          timer = timer;
          in_time = in_time;
        },
        routes,
        reports,
      )
