-- ===== src/Routes/Sync.antt =====
-- The routes that the kernel has after the requests of a route table and its answers to them, against
-- what the table holds.
use odi_mm.Base.{
  ℕ, ◌≡◌, inl, inr, Bool, true, false, not, ◌&&◌, List, [], ◌∷◌, Option, none, some, arith,
  find-put, find-erase, ◌==◌, if◌then◌else◌,
}
use odi_mm.Run.{done}
use odi_mm.Types.{Prefix, prefix_eq, prefix_beq_iff, AddressOps}
use odi_mm.Routes.{
  RouteTable, Entry, Side, Request, Answer, Kind, entry_of, add_by_dst, remove_by_dst, install,
  withdraw, src, dst, find_by_dst, is_failure, is_error, request, send,
}
use odi_mm.Routes.Lookup.{installed, withdrawn, add_by_dst-cases, remove_by_dst-cases}

abbrev is_dst : Side → Bool
is_dst src = false
is_dst dst = true

abbrev outcome : Kind → ℕ → Option ℕ
outcome install device = some device
outcome withdraw device = none

-- A request took effect unless the kernel answered it with an error. For a request to install a
-- route, the answer that the route exists is none.
abbrev takes_effect : Kind → Answer → Bool
takes_effect install answer = not (is_failure answer)
takes_effect withdraw answer = not (is_error answer)

-- The device of a destination prefix in the kernel, by the last request about it that took effect;
-- the last request comes first.
unfoldable pub in_kernel : (Request → Answer) → Prefix → List Request → Option ℕ
in_kernel checked_send p [] = none
in_kernel checked_send p (r ∷ rs) =
    if takes_effect r.kind (checked_send r) && (is_dst r.side && r.prefix == p)
    then outcome r.kind r.device
    else in_kernel checked_send p rs

abbrev pub device_of : {A : Type 0} → Option (Entry A) → Option ℕ
device_of none = none
device_of (some e) = some e.device

module _ {A : Type 0} ⦃ops : AddressOps A⦄ (checked_send : Request → Answer) where
  -- The kernel has the routes by destination that the table holds, each over its device, and no
  -- others: what it has is what it was asked for and did not refuse.
  pub record IsSynced (t : RouteTable A) : Type 0 where
    pub agrees : (p : Prefix) → in_kernel checked_send p t.requests ≡ device_of (find_by_dst t p)

  installed-IsSynced :
      (t : RouteTable A) (prefix : Prefix) (device : ℕ)
      → IsSynced t
      → is_failure (checked_send (request t install dst prefix (entry_of device))) ≡ false
      → IsSynced (installed t prefix device)
  unfolding installed in_kernel request send
  installed-IsSynced t prefix device v taken = record {
    agrees = λ q. ground (
      arith,
      v.agrees q,
      taken,
      prefix_beq_iff prefix q,
      find-put prefix q (entry_of device) t.by_dst,
    );
  }

  withdrawn-IsSynced :
      (t : RouteTable A) (prefix : Prefix) (e : Entry A)
      → IsSynced t
      → is_error (checked_send (request t withdraw dst prefix e)) ≡ false
      → IsSynced (withdrawn t prefix e)
  unfolding withdrawn in_kernel request send
  withdrawn-IsSynced t prefix e v taken = record {
    agrees = λ q.
        ground (arith, v.agrees q, taken, prefix_beq_iff prefix q, find-erase prefix q t.by_dst);
  }

  pub add_by_dst-IsSynced :
      (t t' : RouteTable A) (prefix : Prefix) (device : ℕ)
      → IsSynced t
      → add_by_dst checked_send t prefix device ≡ done t'
      → IsSynced t'
  add_by_dst-IsSynced t t' prefix device v h =
      elim (add_by_dst-cases checked_send t t' prefix device h) [
        | inl (e, n, et) ↦ rw et v
        | inr (n, taken, et) ↦ rw et (installed-IsSynced t prefix device v taken)
      ]

  -- A call of `remove_by_dst` that returns keeps the routes of the kernel and those of the table the
  -- same, where a request that the kernel answers with an error has no effect there.
  pub remove_by_dst-IsSynced :
      (t t' : RouteTable A) (prefix : Prefix)
      → IsSynced t
      → remove_by_dst checked_send t prefix ≡ done t'
      → IsSynced t'
  remove_by_dst-IsSynced t t' prefix v h = elim (remove_by_dst-cases checked_send t t' prefix h) [
    | inl (n, et) ↦ rw et v
    | inr (e, n, taken, et) ↦ rw et (withdrawn-IsSynced t prefix e v taken)
  ]
