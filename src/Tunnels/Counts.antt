-- ===== src/Tunnels/Counts.antt =====
-- The reference counts of the tunnels, and the collection of those that nobody uses.
use odi_mm.Base.{
  ℕ, ◌+◌, ◌-◌, ◌%◌, ◌<◌, ◌≡◌, refl, sym, ap, ◌⊎◌, inl, inr, Bool, true, false, ◌&&◌, [], ◌∷◌,
  Option, none, some, arith, length, Assoc, find, put, find-put, find-erase, nat_beq, leb, ◌==◌,
  eq_iff, if◌then◌else◌, Option-cases, Bool-cases,
}
use odi_mm.Run.{done, done-injective}
use odi_mm.Types.{AddressOps, address_eq}
use odi_mm.Tunnels.{
  Entry, Tunnels, get, del, release, drop_user, collect, sweep, reuse, create, uint_mod,
  gc_threshold,
}

-- How many users a tunnel has; a tunnel that is not there has none.
abbrev pub users : Option Entry → ℕ
users none = 0
users (some e) = e.refcount

-- A tunnel that is there and has no user.
abbrev pub is_unused : Option Entry → Bool
is_unused none = false
is_unused (some e) = nat_beq e.refcount 0

abbrev pub device_of : Option Entry → Option ℕ
device_of none = none
device_of (some e) = some e.device

abbrev pub is_listed : Option (Unit {0}) → Bool
is_listed none = false
is_listed (some u) = true

module _ {A : Type 0} ⦃ops : AddressOps A⦄ where
  abbrev pub count : Tunnels A → A → ℕ
  count t k = users (find k t.tunnels)

  -- `gc` lists the tunnels without users, and only those.
  pub record IsCollectable (t : Tunnels A) : Type 0 where
    pub listed : (k : A) → is_listed (find k t.gc) ≡ is_unused (find k t.tunnels)

  find-collect :
      (remote k : A) (m : Assoc A Entry)
      → find k (collect remote m) ≡ (if remote == k && is_unused (find k m) then none else find k m)
  unfolding collect
  find-collect remote k m = ground (arith, find-erase remote k m, eq_iff remote k)

  find-sweep :
      (gc : Assoc A (Unit {0})) (k : A) (m : Assoc A Entry)
      → find k (sweep gc m)
        ≡ (if is_listed (find k gc) && is_unused (find k m) then none else find k m)
  unfolding sweep find
  find-sweep [] k m = refl
  find-sweep ((j, u) ∷ gc) k m =
      rw (find-sweep gc k (collect j m)) (ground (arith, find-collect j k m))

  users-sweep :
      (gc : Assoc A (Unit {0})) (k : A) (m : Assoc A Entry)
      → users (find k (sweep gc m)) ≡ users (find k m)
  users-sweep gc k m = ground (arith, find-sweep gc k m)

  count-drop_user :
      (t : Tunnels A) (remote k : A) (e : Entry)
      → find remote t.tunnels ≡ some e
      → count (drop_user t remote e) k ≡ (if remote == k then count t k - 1 else count t k)
  unfolding drop_user
  count-drop_user t remote k e h =
      ground (
        arith,
        eq_iff remote k,
        find-put remote k (record e { refcount = e.refcount - 1 }) t.tunnels,
      )

  count-release :
      (t : Tunnels A) (remote k : A)
      → count (release t remote) k ≡ (if remote == k then count t k - 1 else count t k)
  unfolding release
  count-release t remote k = elim (Option-cases (find remote t.tunnels)) [
    | inl h ↦ rw (h, release) (ground (arith, eq_iff remote k))
    | inr (e, h) ↦ rw (h, release) (count-drop_user t remote k e h)
  ]

  drop_user-IsCollectable :
      (t : Tunnels A) (remote : A) (e : Entry)
      → find remote t.tunnels ≡ some e
      → IsCollectable t
      → IsCollectable (drop_user t remote e)
  unfolding drop_user
  drop_user-IsCollectable t remote e h v = record {
    listed = λ k. ground (
      arith,
      eq_iff remote k,
      v.listed k,
      find-put remote k (record e { refcount = e.refcount - 1 }) t.tunnels,
      find-put remote k tt t.gc,
    );
  }

  release-IsCollectable :
      (t : Tunnels A) (remote : A) → IsCollectable t → IsCollectable (release t remote)
  unfolding release
  release-IsCollectable t remote v = elim (Option-cases (find remote t.tunnels)) [
    | inl h ↦ rw (h, release) v
    | inr (e, h) ↦ rw (h, release) (drop_user-IsCollectable t remote e h v)
  ]

  swept-IsCollectable :
      (t : Tunnels A)
      → IsCollectable t
      → IsCollectable (record t { tunnels = sweep t.gc t.tunnels; gc = [] })
  unfolding find
  swept-IsCollectable t v = record {
    listed = λ k. ground (arith, v.listed k, find-sweep t.gc k t.tunnels);
  }

  -- `del` takes one user from the tunnel to `remote`, if it has any, and none from the others.
  pub count-del :
      (t : Tunnels A) (remote k : A)
      → count (del t remote) k ≡ (if remote == k then count t k - 1 else count t k)
  unfolding del
  count-del t remote k = ground (
    arith,
    count-release t remote k,
    users-sweep (release t remote).gc k (release t remote).tunnels,
  )

  -- After `del` the tunnels without users are still those that `gc` lists, and these stay below
  -- the threshold, whatever was there before.
  pub del-IsCollectable :
      (t : Tunnels A) (remote : A)
      → IsCollectable t
      → IsCollectable (del t remote) × (length (del t remote).gc < gc_threshold)
  unfolding del
  del-IsCollectable t remote v =
      elim (Bool-cases (leb gc_threshold (length (release t remote).gc))) [
        | inl full ↦
            rw (full, del)
              (
                swept-IsCollectable (release t remote) (release-IsCollectable t remote v),
                omega arith,
              )
        | inr room ↦ rw (room, del) (release-IsCollectable t remote v, ground arith)
      ]

  count-reuse :
      (t : Tunnels A) (remote k : A) (e : Entry)
      → find remote t.tunnels ≡ some e
      → count t remote + 1 < uint_mod
      → count (reuse t remote e).0 k ≡ (if remote == k then count t k + 1 else count t k)
  unfolding reuse
  count-reuse t remote k e h lt = ground (
    arith,
    eq_iff remote k,
    find-put remote k (record e { refcount = (e.refcount + 1) % uint_mod }) t.tunnels,
  )

  reuse-IsCollectable :
      (t : Tunnels A) (remote : A) (e : Entry)
      → find remote t.tunnels ≡ some e
      → count t remote + 1 < uint_mod
      → IsCollectable t
      → IsCollectable (reuse t remote e).0
  unfolding reuse
  reuse-IsCollectable t remote e h lt v = record {
    listed = λ k. ground (
      arith,
      eq_iff remote k,
      v.listed k,
      find-put remote k (record e { refcount = (e.refcount + 1) % uint_mod }) t.tunnels,
      find-erase remote k t.gc,
    );
  }

  -- A tunnel that `create` adds.
  abbrev added : Tunnels A → A → ℕ → Tunnels A
  added t remote device = record t {
    tunnels = put remote (record { device = device; refcount = 1 }) t.tunnels;
  }

  create-done :
      (t t' : Tunnels A) (remote : A) (o : Option ℕ) (device : ℕ)
      → create t remote o ≡ done (t', device)
      → t' ≡ added t remote device
  unfolding create
  create-done t t' remote none device e = cc
  create-done t t' remote (some d) device e = cc

  -- A call of `get` that returns has added a tunnel, or counted one that was there.
  get-cases :
      (open_tunnel : A → A → Bool → Option ℕ) (t t' : Tunnels A) (remote : A) (device : ℕ)
      → get open_tunnel t remote ≡ done (t', device)
      → ((find remote t.tunnels ≡ none) × (t' ≡ added t remote device))
        ⊎ ((x : Entry) × (find remote t.tunnels ≡ some x)
            × (t' ≡ (reuse t remote x).0)
            × (device ≡ x.device))
  unfolding get
  get-cases open_tunnel t t' remote device e = elim (Option-cases (find remote t.tunnels)) [
    | inl n ↦ inl (n, create-done t t' remote _ device (rw (n, get) at e))
    | inr (x, n) ↦
        let h = sym (done-injective (reuse t remote x) (t', device) (rw (n, get) at e)) in
        inr (x, n, ap (λ r. r.0) h, ap (λ r. r.1) h)
  ]

  added_lem :
      (t : Tunnels A) (remote k : A) (device : ℕ)
      → find remote t.tunnels ≡ none
      → IsCollectable t
      → (count (added t remote device) k ≡ (if remote == k then count t k + 1 else count t k))
        × (device_of (find remote (added t remote device).tunnels) ≡ some device)
        × IsCollectable (added t remote device)
  added_lem t remote k device n v =
      let e : Entry = record { device = device; refcount = 1 } in
      (
        ground (arith, eq_iff remote k, find-put remote k e t.tunnels),
        ground (arith, eq_iff remote remote, find-put remote remote e t.tunnels),
        record {
          listed = λ j. ground (arith, eq_iff remote j, v.listed j, find-put remote j e t.tunnels);
        },
      )

  device_of-reuse :
      (t : Tunnels A) (remote : A) (x : Entry)
      → device_of (find remote (reuse t remote x).0.tunnels) ≡ some x.device
  unfolding reuse
  device_of-reuse t remote x = ground (
    arith,
    eq_iff remote remote,
    find-put remote remote (record x { refcount = (x.refcount + 1) % uint_mod }) t.tunnels,
  )

  -- Each call of `get` that returns adds one user to the tunnel to `remote`, and none to the others,
  -- gives the device under which that tunnel is kept, and leaves `gc` listing the tunnels without
  -- users, as long as the 32-bit count does not wrap.
  pub count-get :
      (open_tunnel : A → A → Bool → Option ℕ) (t t' : Tunnels A) (remote k : A) (device : ℕ)
      → IsCollectable t
      → count t remote + 1 < uint_mod
      → get open_tunnel t remote ≡ done (t', device)
      → (count t' k ≡ (if remote == k then count t k + 1 else count t k))
        × (device_of (find remote t'.tunnels) ≡ some device)
        × IsCollectable t'
  count-get open_tunnel t t' remote k device v h e =
      elim (get-cases open_tunnel t t' remote device e) [
        | inl (n, et) ↦ rw et (added_lem t remote k device n v)
        | inr (x, n, et, ed) ↦
            rw (et, ed)
              (
                count-reuse t remote k x n h,
                device_of-reuse t remote x,
                reuse-IsCollectable t remote x n h v,
              )
      ]
