-- ===== src/Icmp/Advert/RoundTrip.antt =====
-- What a host reads from the options of lib/opmip/pmip/icmp_sender.cpp.
use odi_mm.Base.{
  ℕ, suc, ◌+◌, ◌*◌, ◌^◌, ◌<◌, ◌≡◌, refl, sym, ap, ◌∙◌, List, [], ◌∷◌, ◌++◌, none, some, All, length,
  length-append, drop, take_append, drop_append, arith, le→ltb_false,
}
use odi_mm.Types.{Prefix, prefix_v6, IsPrefix}
use odi_mm.Addrconf.State.{Advertisement}
use odi_mm.Icmp.Parser.{option_cast}
use odi_mm.Icmp.Advert.{
  View, view, take_in, ra_options, mtu_option, prefix_options, prefix_of, mtu_of, long_bytes,
}

-- One option in front.
view-option :
    (fuel type units : ℕ) (body rest : List ℕ) (v : View)
    → suc (suc (length body)) ≡ units * 8
    → view fuel rest ≡ some v
    → view (suc fuel) (type ∷ units ∷ (body ++ rest))
      ≡ some (take_in (record { type = type; size = units * 8; body = body ++ rest }) v)
unfolding view option_cast
view-option fuel type units body rest v whole e =
    let inside =
      le→ltb_false (suc (suc (length (body ++ rest)))) (units * 8)
        (omega (arith, length-append body rest)) in
    let behind : drop (units * 8) (type ∷ units ∷ (body ++ rest)) ≡ rest =
      drop_append (units * 8) (type ∷ units ∷ body) rest (sym whole) in
    rw (view, option_cast, inside, behind, e) refl

prefix_of-prefix :
    (p : Prefix) (rest : List ℕ)
    → IsPrefix p
    → prefix_of (
        p.length
        ∷ (0x80 + 0x40)
        ∷ (long_bytes 7200 ++ (long_bytes 1800 ++ (long_bytes 0 ++ (p.bytes ++ rest)))))
      ≡ p
unfolding prefix_of prefix_v6
prefix_of-prefix p rest v =
    rw (take_append 16 p.bytes rest (sym v.width), le→ltb_false 128 p.length v.short) refl

view-prefix_options :
    (ps : List Prefix)
    → All IsPrefix ps
    → view (length ps) (prefix_options ps)
      ≡ some (record { link = none; mtu = none; prefixes = ps })
unfolding prefix_options view
view-prefix_options [] v = refl
view-prefix_options (p ∷ ps) v =
    let body : List ℕ =
      p.length
      ∷ (0x80 + 0x40)
      ∷ (long_bytes 7200 ++ (long_bytes 1800 ++ (long_bytes 0 ++ p.bytes))) in
    view-option (length ps) 3 4 body (prefix_options ps)
      (record { link = none; mtu = none; prefixes = ps }) (omega (arith, v.0.width))
      (view-prefix_options ps v.1)
    ∙ ap (λ q. some (record { link = none; mtu = none; prefixes = q ∷ ps }))
        (prefix_of-prefix p (prefix_options ps) v.0)

-- The options of an advertisement, read one after the other, give the link address, the MTU and the
-- prefixes that it was made from.
pub view-ra_options :
    {A : Type 0} (info : Advertisement A)
    → length info.link_address ≡ 6
    → info.mtu < 2 ^ 32
    → All IsPrefix info.prefix_list
    → view (suc (suc (length info.prefix_list))) (ra_options info)
      ≡ some (record {
        link = some info.link_address;
        mtu = some info.mtu;
        prefixes = info.prefix_list;
      })
unfolding ra_options mtu_option mtu_of
view-ra_options info six small v =
    let ps = info.prefix_list in
    let n = length ps in
    let mtu_body : List ℕ = 0 ∷ 0 ∷ long_bytes info.mtu in
    let after_mtu : view (suc n) (mtu_option info.mtu ++ prefix_options ps)
        ≡ some (record { link = none; mtu = some info.mtu; prefixes = ps }) =
      view-option n 5 1 mtu_body (prefix_options ps)
        (record { link = none; mtu = none; prefixes = ps }) refl (view-prefix_options ps v)
      ∙ ap (λ k. some (record { link = none; mtu = some k; prefixes = ps }))
          (omega (arith, small)) in
    view-option (suc n) 1 1 info.link_address (mtu_option info.mtu ++ prefix_options ps)
      (record { link = none; mtu = some info.mtu; prefixes = ps }) (omega (arith, six)) after_mtu
    ∙ ap (λ k. some (record { link = some k; mtu = some info.mtu; prefixes = ps }))
        (take_append 6 info.link_address (mtu_option info.mtu ++ prefix_options ps) (sym six))
