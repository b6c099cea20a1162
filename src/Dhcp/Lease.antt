-- ===== src/Dhcp/Lease.antt =====
-- An identity association with an address, which net/ip/dhcp_v6.cpp writes in two calls: the second
-- one makes the option of the first one longer.
use odi_mm.Base.{
  ℕ, ◌≤◌, ◌<◌, ◌≡◌, refl, ◌∙◌, List, ◌++◌, append_assoc, arith, length, drop, length-append,
  length-drop, ltb, ltb→lt, ltb_false→le, Bool-cases, inl, inr,
}
use odi_mm.Dhcp.Buffer.{Buffer, Gen, wrote, full, ◌>>=◌, store, be16, be32, put_be_uint32}
use odi_mm.Dhcp.Generators.{
  ia_na, ia_addr, gen_option_begin, gen_option_end, gen_option_ia, gen_option_addr,
}
use odi_mm.Dhcp.Emits.{
  buffer_at, emitted-wrote, emitted-full, Emits, Emits-intro, store-Emits, drop_both,
}
use odi_mm.Dhcp.Options.{
  option_bytes, put_be_uint32-Emits, begin-Emits, bind_assoc, bind_cong, end_patches,
  three_steps-Emits,
}

abbrev pub ia_bytes : ℕ → ℕ → ℕ → List ℕ
ia_bytes id t1 t2 = (be32 id ++ be32 t1) ++ be32 t2

abbrev pub addr_bytes : List ℕ → ℕ → ℕ → List ℕ
addr_bytes addr pref_lifetime val_lifetime = (addr ++ be32 pref_lifetime) ++ be32 val_lifetime

abbrev gen_ia : ℕ → ℕ → ℕ → Buffer → Gen Buffer
gen_ia id t1 t2 buff = gen_option_begin buff ia_na >>= λ st. put_be_uint32 st id >>= λ b.
    put_be_uint32 b t1 >>= λ b. put_be_uint32 b t2 >>= λ b. gen_option_end b st.first

gen_ia-Emits : (id t1 t2 : ℕ) → Emits (gen_ia id t1 t2) (option_bytes ia_na (ia_bytes id t1 t2))
gen_ia-Emits id t1 t2 =
    three_steps-Emits ia_na _ _ _ _ (put_be_uint32-Emits id) (put_be_uint32-Emits t1) _ _
      (put_be_uint32-Emits t2) (omega arith)

module _ {ℓ} {B : Type ℓ} (m : Gen Buffer) (f g : Buffer → Gen Buffer) where
  bind_assoc_two :
      (w : Buffer → Gen B) → (m >>= λ a. f a >>= λ b. g b >>= w) ≡ ((m >>= λ a. f a >>= g) >>= w)
  bind_assoc_two w = bind_cong m _ _ (λ a. bind_assoc (f a) g w) ∙ bind_assoc m (λ a. f a >>= g) w

bind_assoc_three {ℓ} :
    {B : Type ℓ} (m : Gen Buffer) (f g e : Buffer → Gen Buffer) (w : Buffer → Gen B)
    → (m >>= λ a. f a >>= λ b. g b >>= λ c. e c >>= w) ≡ ((m >>= λ a. f a >>= λ b. g b >>= e) >>= w)
bind_assoc_three m f g e w =
    bind_cong m _ _ (λ a. bind_assoc_two (f a) g e w) ∙ bind_assoc m (λ a. f a >>= λ b. g b >>= e) w

-- `gen_option_ia` is this with the place that the option's contents start at.
ia-place :
    (id t1 t2 : ℕ) (out free : List ℕ)
    → 4 ≤ length free
    → gen_option_ia (buffer_at out free) id t1 t2 ≡ (
        gen_ia id t1 t2 (buffer_at out free) >>= λ b.
        wrote (b, length (out ++ (be16 ia_na ++ be16 0))))
unfolding gen_option_ia ◌>>=◌
ia-place id t1 t2 out free room =
    let place = length (out ++ (be16 ia_na ++ be16 0)) in
    rw ((begin-Emits ia_na).at out free, emitted-wrote (be16 ia_na ++ be16 0) out free room, ◌>>=◌)
      (bind_assoc_three (put_be_uint32 (buffer_at (out ++ (be16 ia_na ++ be16 0)) (drop 4 free)) id)
        (λ b. put_be_uint32 b t1) (λ b. put_be_uint32 b t2) (λ b. gen_option_end b place)
        (λ b. wrote (b, place)))

ia_full :
    (id t1 t2 : ℕ) (out free : List ℕ)
    → length free < 4
    → gen_option_ia (buffer_at out free) id t1 t2 ≡ full
unfolding gen_option_ia ◌>>=◌
ia_full id t1 t2 out free short =
    rw ((begin-Emits ia_na).at out free, emitted-full (be16 ia_na ++ be16 0) out free short, ◌>>=◌)
      refl

module _ (addr : List ℕ) (pref_lifetime val_lifetime : ℕ) where
  abbrev gen_addr : Buffer → Gen Buffer
  gen_addr buff = gen_option_begin buff ia_addr >>= λ st. store st addr >>= λ b.
      put_be_uint32 b pref_lifetime >>= λ b.
      put_be_uint32 b val_lifetime >>= λ b. gen_option_end b st.first

  gen_addr-Emits :
      length addr ≡ 16
      → Emits gen_addr (option_bytes ia_addr (addr_bytes addr pref_lifetime val_lifetime))
  gen_addr-Emits width =
      three_steps-Emits ia_addr _ _ _ _ (store-Emits addr) (put_be_uint32-Emits pref_lifetime) _ _
        (put_be_uint32-Emits val_lifetime)
        (omega (
          arith,
          width,
          length-append (addr ++ be32 pref_lifetime) (be32 val_lifetime),
          length-append addr (be32 pref_lifetime),
        ))

  addr-split :
      (buff : Buffer) (state : ℕ)
      → gen_option_addr buff addr pref_lifetime val_lifetime state
        ≡ (gen_addr buff >>= λ b. gen_option_end b state)
  unfolding gen_option_addr
  addr-split buff state =
      bind_cong (gen_option_begin buff ia_addr) _ _ (λ st.
        bind_assoc_three (store st addr) (λ b. put_be_uint32 b pref_lifetime)
          (λ b. put_be_uint32 b val_lifetime) (λ b. gen_option_end b st.first)
          (λ b. gen_option_end b state))
      ∙ bind_assoc (gen_option_begin buff ia_addr) _ (λ b. gen_option_end b state)

-- The two calls, as the server makes them.
module _ (id t1 t2 : ℕ) (addr : List ℕ) (pref_lifetime val_lifetime : ℕ) where
  abbrev pub gen_lease : Buffer → Gen Buffer
  gen_lease buff = gen_option_ia buff id t1 t2 >>= λ (b, state).
      gen_option_addr b addr pref_lifetime val_lifetime state

  abbrev inner : List ℕ
  inner = option_bytes ia_addr (addr_bytes addr pref_lifetime val_lifetime)

  abbrev pub lease_bytes : List ℕ
  lease_bytes = option_bytes ia_na (ia_bytes id t1 t2 ++ inner)

  length-inner : length addr ≡ 16 → length inner ≡ 28
  length-inner width = omega (
    arith,
    width,
    length-append (addr ++ be32 pref_lifetime) (be32 val_lifetime),
    length-append addr (be32 pref_lifetime),
  )

  lease_whole :
      length addr ≡ 16
      → (out free : List ℕ) → length lease_bytes ≤ length free
      → gen_lease (buffer_at out free)
        ≡ wrote (buffer_at (out ++ lease_bytes) (drop (length lease_bytes) free))
  unfolding ◌>>=◌
  lease_whole width out free h =
      let outer = option_bytes ia_na (ia_bytes id t1 t2) in
      let size = length-inner width in
      let room : 4 ≤ length free = omega (arith, h, size) in
      let first : length outer ≤ length free = omega (arith, h, size) in
      let second : length inner ≤ length (drop (length outer) free) =
        omega (arith, h, size, length-drop (length outer) free) in
      let head = be16 ia_na ++ (be16 (length (ia_bytes id t1 t2))) in
      let place : (out ++ outer) ++ inner ≡ (out ++ head) ++ (ia_bytes id t1 t2 ++ inner) =
        rw (append_assoc out outer inner, append_assoc out head (ia_bytes id t1 t2 ++ inner))
          refl in
      let at : length (out ++ (be16 ia_na ++ be16 0)) ≡ length (out ++ head) =
        omega (arith, length-append out (be16 ia_na ++ be16 0), length-append out head) in
      let small : length (ia_bytes id t1 t2 ++ inner) < 65536 = omega (arith, size) in
      rw
        (
          ia-place id t1 t2 out free room,
          (gen_ia-Emits id t1 t2).at out free,
          emitted-wrote outer out free first,
          ◌>>=◌,
          addr-split addr pref_lifetime val_lifetime
              (buffer_at (out ++ outer) (drop (length outer) free))
              (length (out ++ (be16 ia_na ++ be16 0))),
          (gen_addr-Emits addr pref_lifetime val_lifetime width).at (out ++ outer)
              (drop (length outer) free),
          emitted-wrote inner (out ++ outer) (drop (length outer) free) second,
          ◌>>=◌,
          place,
          at,
          end_patches 0 3 0 12 out (ia_bytes id t1 t2 ++ inner)
              (drop (length inner) (drop (length outer) free)) small,
          drop_both outer inner free,
        )
        refl

  lease_full :
      length addr ≡ 16
      → (out free : List ℕ) → length free < length lease_bytes
      → gen_lease (buffer_at out free) ≡ full
  unfolding ◌>>=◌
  lease_full width out free h =
      let outer = option_bytes ia_na (ia_bytes id t1 t2) in
      let size = length-inner width in
      elim (Bool-cases (ltb (length free) 4)) [
        | inl less ↦ rw (ia_full id t1 t2 out free (ltb→lt _ _ less), ◌>>=◌) refl
        | inr some_room ↦
            let room : 4 ≤ length free = ltb_false→le _ _ some_room in
            elim (Bool-cases (ltb (length free) (length outer))) [
              | inl less ↦
                  let short : length free < length outer = ltb→lt _ _ less in
                  rw
                    (
                      ia-place id t1 t2 out free room,
                      (gen_ia-Emits id t1 t2).at out free,
                      emitted-full outer out free short,
                      ◌>>=◌,
                    )
                    refl
              | inr enough ↦
                  let first : length outer ≤ length free = ltb_false→le _ _ enough in
                  let behind = drop (length outer) free in
                  let short : length behind < length inner =
                    omega (arith, h, size, first, length-drop (length outer) free) in
                  rw
                    (
                      ia-place id t1 t2 out free room,
                      (gen_ia-Emits id t1 t2).at out free,
                      emitted-wrote outer out free first,
                      ◌>>=◌,
                      addr-split addr pref_lifetime val_lifetime (buffer_at (out ++ outer) behind)
                          (length (out ++ (be16 ia_na ++ be16 0))),
                      (gen_addr-Emits addr pref_lifetime val_lifetime width).at (out ++ outer)
                          behind,
                      emitted-full inner (out ++ outer) behind short,
                      ◌>>=◌,
                    )
                    refl
            ]
      ]

  -- The two calls that write an identity association with an address of sixteen bytes write one
  -- option that holds the other one, with both lengths right, when there is space for it, and return
  -- false when there is not. No assert fails.
  pub lease-Emits : length addr ≡ 16 → Emits gen_lease lease_bytes
  lease-Emits width = Emits-intro gen_lease lease_bytes (lease_whole width) (lease_full width)
