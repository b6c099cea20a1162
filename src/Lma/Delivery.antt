-- ===== src/Lma/Delivery.antt =====
-- The way of a datagram through the anchor of pmip/lma.cpp.
use odi_mm.Base.{ℕ, ◌<◌, ◌≡◌, refl, true, false, List, ◌∷◌, arith, nat_beq}
use odi_mm.Run.{done, ◌>>=◌}
use odi_mm.Types.{ProxyBindingInfo, AddressOps, status_ok}
use odi_mm.Wire.Message.{ok}
use odi_mm.Wire.Receiver.{pbu_parse}
use odi_mm.Lma.State.{Kernel, Lma}
use odi_mm.Lma.{pbu_process, proxy_binding_update, mp_receive}

module _ {A : Type 0} ⦃ops : AddressOps A⦄ where
  -- A message without an error is answered with what its processing made of it.
  pub update-answered :
      (k : Kernel A) (lma lma1 : Lma A) (pb : ProxyBindingInfo A)
      → pb.status ≡ status_ok
      → pbu_process k lma pb ≡ done (lma1, pb)
      → proxy_binding_update k lma pb ≡ done (record lma1 { sent = pb ∷ lma1.sent })
  unfolding proxy_binding_update ◌>>=◌
  update-answered k lma lma1 pb fresh e =
      let fresh' : nat_beq pb.status status_ok ≡ true = ground (arith, fresh) in
      rw (proxy_binding_update, fresh', e) refl

  -- A datagram that parses is handled as the message that it carries.
  pub receive-parsed :
      (k : Kernel A) (lma : Lma A) (endpoint : A) (rbytes : ℕ) (buffer : List ℕ)
      (pb : ProxyBindingInfo A)
      → 0 < lma.receivers
      → pbu_parse endpoint rbytes buffer ≡ ok pb
      → mp_receive k lma endpoint rbytes buffer ≡ proxy_binding_update k lma pb
  unfolding mp_receive
  receive-parsed k lma endpoint rbytes buffer pb listens e =
      let listens' : nat_beq lma.receivers 0 ≡ false = ground (arith, listens) in
      rw (mp_receive, listens', e) refl
