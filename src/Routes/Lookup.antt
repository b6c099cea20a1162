-- ===== src/Routes/Lookup.antt =====
-- What the route table's operations leave to be found.
use odi_mm.Base.{
  ℕ, Assoc, ◌≡◌, refl, sym, ◌∙◌, ap, ◌≢◌, ◌⊎◌, false, inl, inr, [], ◌∷◌, Option, none, some, arith,
  find, put, erase, find-put, find-erase, ◌==◌, if◌then◌else◌, Option-cases,
}
use odi_mm.Run.{done, done-injective, unless-done}
use odi_mm.Types.{Prefix, prefix_eq, prefix_beq_iff, AddressOps}
use odi_mm.Routes.{
  RouteTable, Entry, Side, Request, Answer, entry_of, request, send, add_by_dst, remove_by_dst,
  withdraw_all, clear, install, withdraw, src, dst, find_by_dst, is_failure, is_error,
}

abbrev pub or_else {ℓ} : {V : Type ℓ} → Option V → V → V
or_else none d = d
or_else (some v) d = v

-- The table after a route by destination was installed or withdrawn.
module _ {A : Type 0} ⦃ops : AddressOps A⦄ where
  unfoldable pub installed : RouteTable A → Prefix → ℕ → RouteTable A
  unfolding request send
  installed t prefix device = record (send t (request t install dst prefix (entry_of device))) {
    by_dst = put prefix (entry_of device) t.by_dst;
  }

  unfoldable pub withdrawn : RouteTable A → Prefix → Entry A → RouteTable A
  unfolding request send
  withdrawn t prefix e = record (send t (request t withdraw dst prefix e)) {
    by_dst = erase prefix t.by_dst;
  }

module _ {A : Type 0} ⦃ops : AddressOps A⦄ (checked_send : Request → Answer) where
  pub add_by_dst-cases :
      (t t' : RouteTable A) (prefix : Prefix) (device : ℕ)
      → add_by_dst checked_send t prefix device ≡ done t'
      → ((e : Entry A) × (find_by_dst t prefix ≡ some e) × (t' ≡ t))
        ⊎ ((find_by_dst t prefix ≡ none)
            × (is_failure (checked_send (request t install dst prefix (entry_of device))) ≡ false)
            × (t' ≡ installed t prefix device))
  unfolding add_by_dst installed
  add_by_dst-cases t t' prefix device h = elim (Option-cases (find_by_dst t prefix)) [
    | inl n ↦ let (taken, et) = unless-done _ _ t' (rw (n, add_by_dst) at h) in inr (n, taken, et)
    | inr (e, n) ↦ inl (e, n, sym (done-injective t t' (rw (n, add_by_dst) at h)))
  ]

  pub remove_by_dst-cases :
      (t t' : RouteTable A) (prefix : Prefix)
      → remove_by_dst checked_send t prefix ≡ done t'
      → ((find_by_dst t prefix ≡ none) × (t' ≡ t))
        ⊎ ((e : Entry A) × (find_by_dst t prefix ≡ some e)
            × (is_error (checked_send (request t withdraw dst prefix e)) ≡ false)
            × (t' ≡ withdrawn t prefix e))
  unfolding remove_by_dst withdrawn
  remove_by_dst-cases t t' prefix h = elim (Option-cases (find_by_dst t prefix)) [
    | inl n ↦ inl (n, sym (done-injective t t' (rw (n, remove_by_dst) at h)))
    | inr (e, n) ↦
        let (taken, et) = unless-done _ _ t' (rw (n, remove_by_dst) at h) in inr (e, n, taken, et)
  ]

  -- A call of `add_by_dst` that returns leaves a route for the prefix: the one that was there, with
  -- the device that it had, or else one over the given device. All other routes stay.
  pub find-add_by_dst :
      (t t' : RouteTable A) (prefix q : Prefix) (device : ℕ)
      → add_by_dst checked_send t prefix device ≡ done t'
      → find_by_dst t' q ≡ (
          if prefix == q
          then some (or_else (find_by_dst t prefix) (entry_of device))
          else find_by_dst t q)
  unfolding installed
  find-add_by_dst t t' prefix q device h = elim (add_by_dst-cases t t' prefix device h) [
    | inl (e, n, et) ↦ rw et (ground (arith, prefix_beq_iff prefix q))
    | inr (n, taken, et) ↦
        rw et
          (ground (arith, prefix_beq_iff prefix q, find-put prefix q (entry_of device) t.by_dst))
  ]

  -- A call of `remove_by_dst` that returns leaves no route for the prefix, and all others.
  pub find-remove_by_dst :
      (t t' : RouteTable A) (prefix q : Prefix)
      → remove_by_dst checked_send t prefix ≡ done t'
      → find_by_dst t' q ≡ (if prefix == q then none else find_by_dst t q)
  unfolding withdrawn
  find-remove_by_dst t t' prefix q h = elim (remove_by_dst-cases t t' prefix h) [
    | inl (n, et) ↦ rw et (ground (arith, prefix_beq_iff prefix q))
    | inr (e, n, taken, et) ↦
        rw et (ground (arith, prefix_beq_iff prefix q, find-erase prefix q t.by_dst))
  ]

module _ {A : Type 0} ⦃ops : AddressOps A⦄ where
  withdraw_all_maps :
      (side : Side) (m : Assoc Prefix (Entry A)) (t : RouteTable A)
      → ((withdraw_all side m t).by_src ≡ t.by_src) × ((withdraw_all side m t).by_dst ≡ t.by_dst)
  unfolding withdraw_all
  withdraw_all_maps side [] t = (refl, refl)
  withdraw_all_maps side ((p, e) ∷ m) t =
      withdraw_all_maps side m (send t (request t withdraw side p e))

  pub by_dst-clear : (t : RouteTable A) → (clear t).by_dst ≡ t.by_dst
  unfolding clear
  by_dst-clear t =
      (withdraw_all_maps dst t.by_dst (withdraw_all src t.by_src t)).1
      ∙ (withdraw_all_maps src t.by_src t).1

  add_by_dst-known :
      (checked_send : Request → Answer) (t : RouteTable A) (prefix : Prefix) (device : ℕ)
      (e : Entry A)
      → find_by_dst t prefix ≡ some e
      → add_by_dst checked_send t prefix device ≡ done t
  unfolding add_by_dst
  add_by_dst-known checked_send t prefix device e h = rw (h, add_by_dst)

  -- `clear` forgets no route by destination: a prefix that has one finds it as before, so that
  -- `add_by_dst` for it returns at once, with no request to install it again.
  pub clear_keeps :
      (checked_send : Request → Answer) (t : RouteTable A) (prefix : Prefix) (device : ℕ)
      → find_by_dst t prefix ≢ none
      → (find_by_dst (clear t) prefix ≡ find_by_dst t prefix)
        × (add_by_dst checked_send (clear t) prefix device ≡ done (clear t))
  clear_keeps checked_send t prefix device h = elim (Option-cases (find_by_dst t prefix)) [
    | inl n ↦ absurd (h n)
    | inr (e, n) ↦ (
      ap (find prefix) (by_dst-clear t),
      add_by_dst-known checked_send (clear t) prefix device e
          (ap (find prefix) (by_dst-clear t) ∙ n),
    )
  ]
