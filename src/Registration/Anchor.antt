-- ===== src/Registration/Anchor.antt =====
-- What the anchor of pmip/lma.cpp does with the bytes of a binding update, and the bytes of its answer.
use odi_mm.Base.{ℕ, ◌*◌, ◌/◌, ◌≤◌, ◌<◌, ◌≡◌, refl, ap, ◌∙◌, List, [], ◌∷◌, ◌++◌, length, arith}
use odi_mm.Run.{done}
use odi_mm.Types.{Prefix, ProxyBindingInfo, AddressOps, proxy_binding_info, status_ok}
use odi_mm.Wire.Message.{ok}
use odi_mm.Wire.Sender.{pbu_sender}
use odi_mm.Wire.Encoded.{IsSendable, carried, carried-IsPrefix}
use odi_mm.Wire.RoundTrip.{pbu_parse-pbu_sender}
use odi_mm.Lma
use odi_mm.Lma.{pbu_process, proxy_binding_update}
use odi_mm.Lma.State.{Kernel, Lma}
use odi_mm.Lma.Sound.{AllSound}
use odi_mm.Lma.Delivery.{update-answered, receive-parsed}
use odi_mm.Lma.Accepts.{IsBound, pbu_process-IsBound, pbu_process-kept}

carried-twice : (ps : List Prefix) → carried (carried ps) ≡ carried ps
carried-twice [] = refl
carried-twice (p ∷ ps) = refl

module _ {A : Type 0} ⦃ops : AddressOps A⦄ where
  -- The message as it is read from the bytes that come from `g`.
  unfoldable pub received : ProxyBindingInfo A → A → ProxyBindingInfo A
  unfolding proxy_binding_info
  received p g = record (proxy_binding_info {A = A}) {
    id = p.id;
    address = g;
    lifetime = 4 * (p.lifetime / 4);
    sequence = p.sequence;
    handoff = p.handoff;
    prefix_list = carried p.prefix_list;
    link_type = p.link_type;
  }

  -- What was received can be sent in an acknowledgement.
  pub received-IsSendable :
      (p : ProxyBindingInfo A) (g : A) → IsSendable p → IsSendable (received p g)
  unfolding received
  received-IsSendable p g v = record {
    named = v.named;
    prefixes = carried-IsPrefix p.prefix_list v.prefixes;
    fits = rw (carried-twice p.prefix_list) v.fits;
    sequence = v.sequence;
    lifetime = omega (arith, v.lifetime);
    handoff = v.handoff;
    status = omega arith;
    link_type = v.link_type;
  }

  -- A registration that the anchor processes with success leaves the binding, and is acknowledged
  -- with the message itself.
  pub anchor-registers :
      (k : Kernel A) (lma lma1 : Lma A) (p pb' : ProxyBindingInfo A) (g : A) (stale : List ℕ)
      → IsSendable p
      → 4 ≤ p.lifetime
      → 0 < lma.receivers
      → AllSound lma.node_db lma.bcache
      → pbu_process k lma (received p g) ≡ done (lma1, pb')
      → pb'.status ≡ status_ok
      → (bytes : List ℕ) × (pbu_sender p ≡ ok bytes)
        × (Lma.mp_receive k lma g (length bytes) (bytes ++ stale)
            ≡ done (record lma1 { sent = received p g ∷ lma1.sent }))
        × IsBound (received p g) lma1.bcache
  unfolding received
  anchor-registers k lma lma1 p pb' g stale v long listens sound e success =
      let pb = received p g in
      let positive : 0 < pb.lifetime = omega (arith, long) in
      let kept = pbu_process-kept k lma lma1 pb pb' sound positive e success in
      let (bytes, sent, parsed) = pbu_parse-pbu_sender p v g stale in
      (
        bytes,
        sent,
        receive-parsed k lma g (length bytes) (bytes ++ stale) pb listens parsed
            ∙ update-answered k lma lma1 pb refl (e ∙ ap (λ x. done (lma1, x)) kept),
        pbu_process-IsBound k lma lma1 pb pb' sound positive e success,
      )
