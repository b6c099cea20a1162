-- ===== src/Mag/Retries.antt =====
-- The retransmissions of the gateway.
use odi_mm.Base.{
  ℕ, zero, suc, ◌<◌, ◌+◌, ◌%◌, ◌≡◌, refl, sym, ap, ◌∙◌, false, ◌∷◌, Option, none, some, arith, put,
  find, erase, find-put, find-erase, ltb, eq_refl, nat_eq, list_eq, List,
}
use mathlib.Core.Path.{subst}
use odi_mm.Types.{ProxyBindingInfo, AddressOps}
use odi_mm.Tunnels.{uint_mod}
use odi_mm.Bulist.{BulistEntry, store, bind_detach, find_by_id, remove, retries, renews}
use odi_mm.Mag.State.{Mag, Code, ec_timeout, retry_delay}
use odi_mm.Mag.{report, proxy_binding_retry, proxy_binding_renew, retry_entry}

module _ {A : Type 0} ⦃ops : AddressOps A⦄ where
  -- A de-registration that is under way, with how often it was sent again.
  record IsLeaving (mag : Mag A) (pb : ProxyBindingInfo A) (n : ℕ) : Type 0 where
    entry : BulistEntry A
    found : find_by_id mag.bulist pb.id ≡ some entry
    named : entry.mn_id ≡ pb.id
    status : entry.bind_status ≡ bind_detach
    count : entry.retry_count ≡ n
    delay : ℕ
    timer : entry.timer ≡ some (retries delay pb)

  abbrev resent : Mag A → BulistEntry A → ProxyBindingInfo A → ℕ → BulistEntry A
  resent mag be pb n = record be {
    retry_count = n + 1;
    timer = some (retries (retry_delay (n + 1)) pb);
  }

  -- The timer of an entry is due: what it waits for runs, if it waits to send a message again.
  unfoldable pub time_out : Mag A → List ℕ → Mag A
  time_out mag id = elim (find_by_id mag.bulist id) [
    | none ↦ mag
    | some be ↦ elim be.timer [
      | none ↦ mag
      | some wait ↦ elim wait [
        | retries delay pb ↦ proxy_binding_retry mag false pb
        | renews delay ↦ proxy_binding_renew mag false id
      ]
    ]
  ]

  time_out-retries :
      (mag : Mag A) (pb : ProxyBindingInfo A) (n : ℕ)
      → IsLeaving mag pb n
      → time_out mag pb.id ≡ proxy_binding_retry mag false pb
  unfolding time_out
  time_out-retries mag pb n v = rw (time_out, v.found, v.timer) refl

  again-IsLeaving :
      (mag : Mag A) (pb : ProxyBindingInfo A) (n : ℕ)
      → n < 3
      → IsLeaving mag pb n
      → IsLeaving (proxy_binding_retry mag false pb) pb (n + 1)
        × ((proxy_binding_retry mag false pb).sent ≡ pb ∷ mag.sent)
        × ((proxy_binding_retry mag false pb).reports ≡ mag.reports)
  unfolding proxy_binding_retry retry_entry
  again-IsLeaving mag pb n short v =
      let be = v.entry in
      let counted : (be.retry_count + 1) % uint_mod ≡ n + 1 = omega (arith, v.count) in
      let few : ltb 3 (n + 1) ≡ false = ground arith in
      let m = record mag { bulist = store (resent mag be pb n) mag.bulist; sent = pb ∷ mag.sent } in
      let step : proxy_binding_retry mag false pb ≡ m =
        rw (v.found, v.status, proxy_binding_retry, counted, few, retry_entry) refl in
      let now : IsLeaving m pb (n + 1) = record {
        entry = resent mag be pb n;
        found =
            subst
              (λ i.
                find i (put be.mn_id (resent mag be pb n) mag.bulist.by_id)
                ≡ some (resent mag be pb n))
              v.named
              (rw
                (find-put be.mn_id be.mn_id (resent mag be pb n) mag.bulist.by_id, eq_refl be.mn_id)
                refl);
        named = v.named;
        status = v.status;
        count = refl;
        delay = retry_delay (n + 1);
        timer = refl;
      } in
      subst (λ x. IsLeaving x pb (n + 1) × (x.sent ≡ pb ∷ mag.sent) × (x.reports ≡ mag.reports))
        (sym step) (now, refl, refl)

  sent-report : (h : Option ℕ) (c : Code) (mag : Mag A) → (report h c mag).sent ≡ mag.sent
  sent-report none c mag = refl
  sent-report (some i) c mag = refl

  over-IsGone :
      (mag : Mag A) (pb : ProxyBindingInfo A)
      → IsLeaving mag pb 3
      → (find_by_id (proxy_binding_retry mag false pb).bulist pb.id ≡ none)
        × ((proxy_binding_retry mag false pb).sent ≡ mag.sent)
  unfolding proxy_binding_retry retry_entry remove
  over-IsGone mag pb v =
      let be = v.entry in
      let counted : (be.retry_count + 1) % uint_mod ≡ 4 = omega (arith, v.count) in
      let mag' = report be.completion ec_timeout mag in
      let m = record mag' { bulist = remove mag'.bulist be } in
      let step : proxy_binding_retry mag false pb ≡ m =
        rw (v.found, v.status, proxy_binding_retry, counted, retry_entry) refl in
      let gone : find pb.id (erase be.mn_id mag'.bulist.by_id) ≡ none =
        subst (λ i. find i (erase be.mn_id mag'.bulist.by_id) ≡ none) v.named
          (rw (find-erase be.mn_id be.mn_id mag'.bulist.by_id, eq_refl be.mn_id) refl) in
      subst (λ x. (find_by_id x.bulist pb.id ≡ none) × (x.sent ≡ mag.sent)) (sym step)
        (gone, sent-report be.completion ec_timeout mag)

  abbrev pub time_out_again : ℕ → Mag A → List ℕ → Mag A
  time_out_again zero mag id = mag
  time_out_again (suc n) mag id = time_out_again n (time_out mag id) id

  time_out-IsLeaving :
      (mag : Mag A) (pb : ProxyBindingInfo A) (n : ℕ)
      → n < 3
      → IsLeaving mag pb n
      → IsLeaving (time_out mag pb.id) pb (n + 1) × ((time_out mag pb.id).sent ≡ pb ∷ mag.sent)
  time_out-IsLeaving mag pb n short v =
      let (now, sent, _) = again-IsLeaving mag pb n short v in
      subst (λ x. IsLeaving x pb (n + 1) × (x.sent ≡ pb ∷ mag.sent))
        (sym (time_out-retries mag pb n v)) (now, sent)

  -- A de-registration that no acknowledgement answers ends: the timer of its entry, which each round
  -- finds set, fires four times, three of which send the update again, and then the entry is gone
  -- from the list.
  pub detach_ends :
      (mag : Mag A) (pb : ProxyBindingInfo A) (be : BulistEntry A) (delay : ℕ)
      → find_by_id mag.bulist pb.id ≡ some be
      → be.mn_id ≡ pb.id
      → be.bind_status ≡ bind_detach
      → be.retry_count ≡ 0
      → be.timer ≡ some (retries delay pb)
      → (find_by_id (time_out_again 4 mag pb.id).bulist pb.id ≡ none)
        × ((time_out_again 4 mag pb.id).sent ≡ pb ∷ pb ∷ pb ∷ mag.sent)
  detach_ends mag pb be delay h named status count timer =
      let v0 : IsLeaving mag pb 0 = record {
        entry = be;
        found = h;
        named = named;
        status = status;
        count = count;
        delay = delay;
        timer = timer;
      } in
      let (v1, s1) = time_out-IsLeaving mag pb 0 (omega arith) v0 in
      let (v2, s2) = time_out-IsLeaving (time_out_again 1 mag pb.id) pb 1 (omega arith) v1 in
      let (v3, s3) = time_out-IsLeaving (time_out_again 2 mag pb.id) pb 2 (omega arith) v2 in
      let last = time_out_again 3 mag pb.id in
      let (gone, s4) =
        subst (λ x. (find_by_id x.bulist pb.id ≡ none) × (x.sent ≡ last.sent))
          (sym (time_out-retries last pb 3 v3)) (over-IsGone last pb v3) in
      (gone, s4 ∙ s3 ∙ ap (◌∷◌ pb) (s2 ∙ ap (◌∷◌ pb) s1))
