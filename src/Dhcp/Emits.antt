-- ===== src/Dhcp/Emits.antt =====
-- What the generators of net/ip/dhcp_v6.cpp write: each either writes a fixed sequence of bytes, or
-- finds too little space for it.
use odi_mm.Base.{
  ℕ, zero, suc, ◌≤◌, ◌<◌, ◌≡◌, refl, sym, ap, ◌∙◌, List, [], ◌∷◌, ◌++◌, append_assoc, arith, length,
  drop, length-append, length-drop, ltb, ltb→lt, ltb_false→le, lt→ltb, le→ltb_false, Bool-cases,
  if◌then◌else◌, inl, inr,
}
use odi_mm.Dhcp.Buffer.{Buffer, Gen, wrote, full, ◌>>=◌, buffer_size, overwrite, store}

-- A buffer with `out` written, and `free` as the bytes in the space that is left.
abbrev pub buffer_at : List ℕ → List ℕ → Buffer
buffer_at out free = record { memory = out ++ free; first = length out }

overwrite-behind :
    (xs bytes free : List ℕ)
    → length bytes ≤ length free
    → overwrite (length xs) bytes (xs ++ free) ≡ (xs ++ bytes) ++ drop (length bytes) free
unfolding overwrite
overwrite-behind [] [] [] h = refl
overwrite-behind [] [] (f ∷ free) h = refl
overwrite-behind [] (b ∷ bytes) [] h = absurd (omega arith)
overwrite-behind [] (b ∷ bytes) (f ∷ free) h =
    ap (◌∷◌ b) (overwrite-behind [] bytes free (omega arith))
overwrite-behind (x ∷ xs) bytes free h = ap (◌∷◌ x) (overwrite-behind xs bytes free h)

buffer_size-buffer_at : (out free : List ℕ) → buffer_size (buffer_at out free) ≡ length free
unfolding buffer_size
buffer_size-buffer_at out free = omega (arith, length-append out free)

-- What is written to a buffer, and how it ends when the space is too small.
unfoldable pub emitted : List ℕ → List ℕ → List ℕ → Gen Buffer
emitted bytes out free =
    if ltb (length free) (length bytes)
    then full
    else wrote (buffer_at (out ++ bytes) (drop (length bytes) free))

pub emitted-wrote :
    (bytes out free : List ℕ)
    → length bytes ≤ length free
    → emitted bytes out free ≡ wrote (buffer_at (out ++ bytes) (drop (length bytes) free))
unfolding emitted
emitted-wrote bytes out free h = rw (le→ltb_false (length free) (length bytes) h) refl

pub emitted-full :
    (bytes out free : List ℕ) → length free < length bytes → emitted bytes out free ≡ full
unfolding emitted
emitted-full bytes out free h = rw (lt→ltb (length free) (length bytes) h) refl

pub record Emits (gen : Buffer → Gen Buffer) (bytes : List ℕ) : Type 0 where
  pub at : (out free : List ℕ) → gen (buffer_at out free) ≡ emitted bytes out free

pub store-whole :
    (bytes out free : List ℕ)
    → length bytes ≤ length free
    → store (buffer_at out free) bytes ≡ wrote (buffer_at (out ++ bytes) (drop (length bytes) free))
unfolding store
store-whole bytes out free h =
    rw
      (
        buffer_size-buffer_at out free,
        le→ltb_false (length free) (length bytes) h,
        overwrite-behind out bytes free h,
        length-append out bytes,
      )
      refl

store-full :
    (bytes out free : List ℕ) → length free < length bytes → store (buffer_at out free) bytes ≡ full
unfolding store
store-full bytes out free h =
    rw (buffer_size-buffer_at out free, lt→ltb (length free) (length bytes) h) refl

-- A step that writes when there is space and fails when there is not is a step that emits.
pub Emits-intro :
    (gen : Buffer → Gen Buffer) (bytes : List ℕ)
    → ((out free : List ℕ)
        → length bytes ≤ length free
        → gen (buffer_at out free) ≡ wrote (buffer_at (out ++ bytes) (drop (length bytes) free)))
    → ((out free : List ℕ) → length free < length bytes → gen (buffer_at out free) ≡ full)
    → Emits gen bytes
Emits-intro gen bytes whole short = record {
  at = λ out free. elim (Bool-cases (ltb (length free) (length bytes))) [
    | inl less ↦ let h = ltb→lt _ _ less in short out free h ∙ sym (emitted-full bytes out free h)
    | inr enough ↦
        let h = ltb_false→le _ _ enough in whole out free h ∙ sym (emitted-wrote bytes out free h)
  ];
}

pub store-Emits : (bytes : List ℕ) → Emits (λ b. store b bytes) bytes
store-Emits bytes = Emits-intro (λ b. store b bytes) bytes (store-whole bytes) (store-full bytes)

drop-nil : (n : ℕ) → drop {A = ℕ} n [] ≡ []
drop-nil zero = refl
drop-nil (suc n) = refl

pub drop_both :
    (xs ys free : List ℕ) → drop (length ys) (drop (length xs) free) ≡ drop (length (xs ++ ys)) free
drop_both [] ys free = refl
drop_both (x ∷ xs) ys [] = drop-nil (length ys)
drop_both (x ∷ xs) ys (f ∷ free) = drop_both xs ys free

-- One step after another.
module _ (g k : Buffer → Gen Buffer) (xs ys : List ℕ) (eg : Emits g xs) (ek : Emits k ys) where
  then_whole :
      (out free : List ℕ)
      → length (xs ++ ys) ≤ length free
      → (g (buffer_at out free) >>= k)
        ≡ wrote (buffer_at (out ++ (xs ++ ys)) (drop (length (xs ++ ys)) free))
  unfolding ◌>>=◌
  then_whole out free h =
      let both = length-append xs ys in
      let left = length-drop (length xs) free in
      rw
        (
          eg.at out free,
          emitted-wrote xs out free (omega (arith, both, h)),
          ek.at (out ++ xs) (drop (length xs) free),
          emitted-wrote ys (out ++ xs) (drop (length xs) free) (omega (arith, both, left, h)),
          drop_both xs ys free,
          append_assoc out xs ys,
        )
        refl

  then_full :
      (out free : List ℕ) → length free < length (xs ++ ys) → (g (buffer_at out free) >>= k) ≡ full
  unfolding ◌>>=◌
  then_full out free h =
      let both = length-append xs ys in
      let left = length-drop (length xs) free in
      elim (Bool-cases (ltb (length free) (length xs))) [
        | inl less ↦ rw (eg.at out free, emitted-full xs out free (ltb→lt _ _ less)) refl
        | inr enough ↦
            let room = ltb_false→le _ _ enough in
            rw
              (
                eg.at out free,
                emitted-wrote xs out free room,
                ek.at (out ++ xs) (drop (length xs) free),
                emitted-full ys (out ++ xs) (drop (length xs) free)
                    (omega (arith, both, left, h, room)),
              )
              refl
      ]

  pub then-Emits : Emits (λ b. g b >>= k) (xs ++ ys)
  then-Emits = Emits-intro (λ b. g b >>= k) (xs ++ ys) then_whole then_full
