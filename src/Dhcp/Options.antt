-- ===== src/Dhcp/Options.antt =====
-- What the option generators of net/ip/dhcp_v6.cpp write, with the length that they patch in behind
-- the option's contents.
use odi_mm.Base.{
  ℕ, ◌-◌, ◌/◌, ◌%◌, ◌≤◌, ◌<◌, ◌≡◌, refl, ◌∙◌, List, [], ◌∷◌, ◌++◌, append_assoc, arith, length,
  drop, length-append, length-drop, ltb, ltb→lt, ltb_false→le, le→ltb_false, Bool-cases, inl, inr,
}
use odi_mm.Dhcp.Buffer.{
  Buffer, Gen, wrote, full, failed, ◌>>=◌, be8, be16, be24, be32, put_be_uint8, put_be_uint16,
  put_be_uint24, put_be_uint32,
}
use odi_mm.Dhcp.Generators.{gen_header, gen_option_begin, gen_option_end}
use odi_mm.Dhcp.Emits.{
  buffer_at, emitted-wrote, emitted-full, Emits, Emits-intro, store-Emits, store-whole, drop_both,
  then-Emits,
}

-- An option as it is sent.
abbrev pub option_bytes : ℕ → List ℕ → List ℕ
option_bytes opt payload = be16 opt ++ (be16 (length payload) ++ payload)

pub put_be_uint8-Emits : (v : ℕ) → Emits (λ b. put_be_uint8 b v) (be8 v)
unfolding put_be_uint8
put_be_uint8-Emits v = store-Emits (be8 v)

pub put_be_uint16-Emits : (v : ℕ) → Emits (λ b. put_be_uint16 b v) (be16 v)
unfolding put_be_uint16
put_be_uint16-Emits v = store-Emits (be16 v)

pub put_be_uint24-Emits : (v : ℕ) → Emits (λ b. put_be_uint24 b v) (be24 v)
unfolding put_be_uint24
put_be_uint24-Emits v = store-Emits (be24 v)

pub put_be_uint32-Emits : (v : ℕ) → Emits (λ b. put_be_uint32 b v) (be32 v)
unfolding put_be_uint32
put_be_uint32-Emits v = store-Emits (be32 v)

pub gen_header-Emits : (op tid : ℕ) → Emits (λ b. gen_header b op tid) (be8 op ++ be24 tid)
unfolding gen_header
gen_header-Emits op tid = then-Emits _ _ _ _ (put_be_uint8-Emits op) (put_be_uint24-Emits tid)

pub begin-Emits : (opt : ℕ) → Emits (λ b. gen_option_begin b opt) (be16 opt ++ be16 0)
unfolding gen_option_begin
begin-Emits opt = then-Emits _ _ _ _ (put_be_uint16-Emits opt) (put_be_uint16-Emits 0)

pub bind_assoc {ℓ κ μ} :
    {A : Type ℓ} {B : Type κ} {C : Type μ} (m : Gen A) (f : A → Gen B) (k : B → Gen C)
    → (m >>= λ a. f a >>= k) ≡ (m >>= f >>= k)
unfolding ◌>>=◌
bind_assoc (wrote a) f k = refl
bind_assoc full f k = refl
bind_assoc failed f k = refl

-- The length goes into the two bytes before the contents.
pub end_patches :
    (t u l m : ℕ) (out payload free : List ℕ)
    → length payload < 65536
    → gen_option_end
        (buffer_at ((out ++ t ∷ u ∷ l ∷ m ∷ []) ++ payload) free)
        (length (out ++ t ∷ u ∷ l ∷ m ∷ []))
      ≡ wrote (buffer_at (out ++ (t ∷ u ∷ (be16 (length payload) ++ payload))) free)
unfolding gen_option_end put_be_uint16 ◌>>=◌
end_patches t u l m out payload free h =
    let head = out ++ t ∷ u ∷ l ∷ m ∷ [] in
    let n = length payload in
    let len : length (head ++ payload) - length head ≡ n =
      omega (arith, length-append head payload) in
    let place : length head - 2 ≡ length (out ++ t ∷ u ∷ []) =
      omega (arith, length-append out (t ∷ u ∷ l ∷ m ∷ []), length-append out (t ∷ u ∷ [])) in
    let memory : (head ++ payload) ++ free ≡ (out ++ t ∷ u ∷ []) ++ (l ∷ m ∷ (payload ++ free)) =
      rw
        (
          append_assoc head payload free,
          append_assoc out (t ∷ u ∷ l ∷ m ∷ []) (payload ++ free),
          append_assoc out (t ∷ u ∷ []) (l ∷ m ∷ (payload ++ free)),
        )
        refl in
    let last : length (head ++ payload) ≡ length (out ++ (t ∷ u ∷ (be16 n ++ payload))) = omega (
      arith,
      length-append head payload,
      length-append out (t ∷ u ∷ l ∷ m ∷ []),
      length-append out (t ∷ u ∷ (be16 n ++ payload)),
    ) in
    let laid : ((out ++ t ∷ u ∷ []) ++ be16 n) ++ (payload ++ free)
        ≡ (out ++ (t ∷ u ∷ (be16 n ++ payload))) ++ free =
      rw
        (
          append_assoc (out ++ t ∷ u ∷ []) (be16 n) (payload ++ free),
          append_assoc out (t ∷ u ∷ []) (be16 n ++ (payload ++ free)),
          append_assoc out (t ∷ u ∷ (be16 n ++ payload)) free,
        )
        refl in
    let small : n ≤ 65535 = omega (arith, h) in
    let room : 2 ≤ length (l ∷ m ∷ (payload ++ free)) = omega arith in
    rw
      (
        gen_option_end,
        len,
        le→ltb_false 65535 n small,
        place,
        memory,
        put_be_uint16,
        store-whole (be16 n) (out ++ t ∷ u ∷ []) (l ∷ m ∷ (payload ++ free)) room,
        ◌>>=◌,
        last,
        laid,
      )
      refl

-- An option whose contents a step writes.
module _ (opt : ℕ) (body : Buffer → Gen Buffer) (payload : List ℕ) (e : Emits body payload) where
  abbrev pub gen_option : Buffer → Gen Buffer
  gen_option buff =
      gen_option_begin buff opt >>= λ state. body state >>= λ b. gen_option_end b state.first

  pub option_whole :
      length payload < 65536
      → (out free : List ℕ) → length (option_bytes opt payload) ≤ length free
      → gen_option (buffer_at out free)
        ≡ wrote (
            buffer_at
              (out ++ option_bytes opt payload)
              (drop (length (option_bytes opt payload)) free))
  unfolding ◌>>=◌
  option_whole small out free h =
      let begun = out ++ (be16 opt ++ be16 0) in
      let room : 4 ≤ length free = omega (arith, h) in
      let left : length payload ≤ length (drop 4 free) = omega (arith, h, length-drop 4 free) in
      rw
        (
          (begin-Emits opt).at out free,
          emitted-wrote (be16 opt ++ be16 0) out free room,
          ◌>>=◌,
          e.at begun (drop 4 free),
          emitted-wrote payload begun (drop 4 free) left,
          ◌>>=◌,
          end_patches (opt / 256 % 256) (opt % 256) 0 0 out payload
              (drop (length payload) (drop 4 free)) small,
          drop_both (be16 opt ++ be16 0) payload free,
        )
        refl

  pub option_full :
      (out free : List ℕ)
      → length free < length (option_bytes opt payload)
      → gen_option (buffer_at out free) ≡ full
  unfolding ◌>>=◌
  option_full out free h =
      let begun = out ++ (be16 opt ++ be16 0) in
      let size = length-drop 4 free in
      elim (Bool-cases (ltb (length free) 4)) [
        | inl less ↦
            let short : length free < 4 = ltb→lt _ _ less in
            rw
              (
                (begin-Emits opt).at out free,
                emitted-full (be16 opt ++ be16 0) out free short,
                ◌>>=◌,
              )
              refl
        | inr enough ↦
            let room : 4 ≤ length free = ltb_false→le _ _ enough in
            let short : length (drop 4 free) < length payload = omega (arith, h, size, room) in
            rw
              (
                (begin-Emits opt).at out free,
                emitted-wrote (be16 opt ++ be16 0) out free room,
                ◌>>=◌,
                e.at begun (drop 4 free),
                emitted-full payload begun (drop 4 free) short,
                ◌>>=◌,
              )
              refl
      ]

  pub option-Emits : length payload < 65536 → Emits gen_option (option_bytes opt payload)
  option-Emits small =
      Emits-intro gen_option (option_bytes opt payload) (option_whole small) option_full

pub Emits-cong :
    (g k : Buffer → Gen Buffer) (bytes : List ℕ)
    → ((b : Buffer) → g b ≡ k b)
    → Emits k bytes
    → Emits g bytes
Emits-cong g k bytes same e = record { at = λ out free. same (buffer_at out free) ∙ e.at out free }

pub bind_cong {ℓ κ} :
    {A : Type ℓ} {B : Type κ} (m : Gen A) (f g : A → Gen B)
    → ((a : A) → f a ≡ g a)
    → (m >>= f) ≡ (m >>= g)
unfolding ◌>>=◌
bind_cong (wrote a) f g e = e a
bind_cong full f g e = refl
bind_cong failed f g e = refl

-- An option whose contents two or three steps write.
module _ (opt : ℕ) (f g : Buffer → Gen Buffer) (xs ys : List ℕ) (ef : Emits f xs)
    (eg : Emits g ys) where
  pub two_steps-Emits :
      length (xs ++ ys) < 65536
      → Emits
          (λ buff. gen_option_begin buff opt >>= λ state.
            f state >>= λ b. g b >>= λ b. gen_option_end b state.first)
          (option_bytes opt (xs ++ ys))
  two_steps-Emits small =
      Emits-cong _ _ _
        (λ buff.
          bind_cong (gen_option_begin buff opt) _ _
            (λ state. bind_assoc (f state) g (λ b. gen_option_end b state.first)))
        (option-Emits opt (λ b. f b >>= g) (xs ++ ys) (then-Emits f g xs ys ef eg) small)

  pub three_steps-Emits :
      (k : Buffer → Gen Buffer) (zs : List ℕ)
      → Emits k zs
      → length ((xs ++ ys) ++ zs) < 65536
      → Emits
          (λ buff. gen_option_begin buff opt >>= λ state.
            f state >>= λ b. g b >>= λ b. k b >>= λ b. gen_option_end b state.first)
          (option_bytes opt ((xs ++ ys) ++ zs))
  three_steps-Emits k zs ek small =
      Emits-cong _ _ _
        (λ buff. bind_cong (gen_option_begin buff opt) _ _ (λ state.
          bind_assoc (f state) g (λ b. k b >>= λ b. gen_option_end b state.first)
          ∙ bind_assoc (f state >>= g) k (λ b. gen_option_end b state.first)))
        (option-Emits opt (λ b. (f b >>= g) >>= k) ((xs ++ ys) ++ zs)
          (then-Emits (λ b. f b >>= g) k (xs ++ ys) zs (then-Emits f g xs ys ef eg) ek) small)
