-- ===== src/Tunnels.antt =====
-- pmip/tunnels.cpp: the tunnels to the peers, counted by their users. A tunnel that nobody uses is
-- kept until 128 of them wait in `gc`. What the system calls of sys::ip6_tunnel answer is the
-- parameter `open_tunnel`: the device of a new tunnel between two addresses, or an exception.
pub mod Counts
use odi_mm.Base.{
  ℕ, ◌+◌, ◌-◌, ◌%◌, ◌^◌, Bool, true, not, ◌&&◌, List, [], ◌∷◌, Option, none, some, length, Assoc,
  find, put, erase, leb, nat_beq, Eq, if◌then◌else◌,
}
use odi_mm.Run.{Run, done, threw}
use odi_mm.Types.{AddressOps, address_eq}

-- `entry`
pub record Entry : Type 0 where
  pub device : ℕ
  pub refcount : ℕ

pub record Tunnels (A : Type 0) : Type 0 where
  pub local : A
  pub global_address : Bool
  pub tunnels : Assoc A Entry
  pub gc : Assoc A (Unit {0})

abbrev pub gc_threshold : ℕ
gc_threshold = 128

abbrev pub uint_mod : ℕ
uint_mod = 2 ^ 32

module _ {A : Type 0} ⦃ops : AddressOps A⦄ where
  unfoldable pub open_ : Tunnels A → A → Bool → Tunnels A
  open_ t address global_address = record {
    local = address;
    global_address = global_address;
    tunnels = [];
    gc = elim t.tunnels [ [] ↦ t.gc | tunnel ∷ others ↦ [] ];
  }

  unfoldable pub close : Tunnels A → Tunnels A
  close t = record t { local = ops.any; tunnels = []; gc = [] }

  -- `get` on a tunnel that is there.
  reuse : Tunnels A → A → Entry → Tunnels A × ℕ
  reuse t remote e =
      let count = (e.refcount + 1) % uint_mod in
      (
        record t {
          tunnels = put remote (record e { refcount = count }) t.tunnels;
          gc = if nat_beq count 1 then erase remote t.gc else t.gc;
        },
        e.device,
      )

  create : Tunnels A → A → Option ℕ → Run (Tunnels A × ℕ)
  create t remote none = threw
  create t remote (some device) = done (
    record t { tunnels = put remote (record { device = device; refcount = 1 }) t.tunnels },
    device,
  )

  unfoldable pub get : (A → A → Bool → Option ℕ) → Tunnels A → A → Run (Tunnels A × ℕ)
  unfolding find put erase reuse create
  get open_tunnel t remote = elim (find remote t.tunnels) [
    | some e ↦ done (reuse t remote e)
    | none ↦ create t remote (open_tunnel t.local remote t.global_address)
  ]

  -- The first half of `del`: one user less.
  drop_user : Tunnels A → A → Entry → Tunnels A
  drop_user t remote e = if nat_beq e.refcount 0 then t else record t {
    tunnels = put remote (record e { refcount = e.refcount - 1 }) t.tunnels;
    gc = if nat_beq (e.refcount - 1) 0 then put remote tt t.gc else t.gc;
  }

  release : Tunnels A → A → Tunnels A
  unfolding drop_user
  release t remote = elim (find remote t.tunnels) [ none ↦ t | some e ↦ drop_user t remote e ]

  -- One round of its loop over `gc`.
  collect : A → Assoc A Entry → Assoc A Entry
  collect remote m = elim (find remote m) [
    | none ↦ m
    | some e ↦ if nat_beq e.refcount 0 then erase remote m else m
  ]

  sweep : Assoc A (Unit {0}) → Assoc A Entry → Assoc A Entry
  unfolding collect
  sweep [] m = m
  sweep ((remote, _) ∷ gc) m = sweep gc (collect remote m)

  unfoldable pub del : Tunnels A → A → Tunnels A
  unfolding find put erase release sweep
  del t remote =
      let t' = release t remote in
      if leb gc_threshold (length t'.gc)
      then record t' { tunnels = sweep t'.gc t'.tunnels; gc = [] }
      else t'
