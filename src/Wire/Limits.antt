-- ===== src/Wire/Limits.antt =====
-- Where the loop of mp_receiver.cpp ends, and the messages that the code does not stand.
use odi_mm.Base.{
  ℕ, zero, suc, ◌+◌, ◌*◌, ◌-◌, ◌≤◌, ◌<◌, ◌≡◌, ◌≢◌, refl, inl, inr, true, false, List, [], ◌∷◌, some,
  arith, length, drop, if◌then◌else◌, Bool, All, Option-cases,
}
use odi_mm.Types.{Prefix, IsPrefix, ProxyBindingInfo, AddressOps}
use odi_mm.Wire.Message.{Outcome, ok, refused, fault, exhausted, out_of_bounds, length_error, ◌>>=◌}
use odi_mm.Wire.Sender.{pbu_content, pba_content, checked, pbu_sender, pba_sender}
use odi_mm.Wire.Flags.{get_flag}
use odi_mm.Wire.Receiver.{
  TypedOption, option_cast, option_size, Scan, read_option, parse_options, parse_from, pbu_parse,
  pba_parse,
}
use odi_mm.Wire.Encoded.{carried, length-append_options}

-- An accepted option moves the parser on by at least one of the bytes that are left.
cast_progress :
    (bytes : List ℕ) (n : ℕ) (opt : TypedOption)
    → option_cast bytes n ≡ some opt
    → (1 ≤ option_size opt) × (1 ≤ n)
unfolding option_cast option_size
cast_progress [] n opt e = ground arith
cast_progress (t ∷ []) n opt e = ground arith
cast_progress (t ∷ l ∷ body) n opt e = ground arith

read_option-ne-exhausted :
    {A : Type 0} (s : Scan A) (opt : TypedOption) → read_option s opt ≢ exhausted
unfolding read_option
read_option-ne-exhausted s opt e = ground arith

>>=-ne-exhausted :
    {A B : Type 0} (m : Outcome A) (f : A → Outcome B)
    → m ≢ exhausted
    → ((a : A) → f a ≢ exhausted)
    → (m >>= f) ≢ exhausted
>>=-ne-exhausted (ok a) f hm hf = hf a
>>=-ne-exhausted refused f hm hf = λ e. cc
>>=-ne-exhausted (fault x) f hm hf = λ e. cc
>>=-ne-exhausted exhausted f hm hf = absurd (hm refl)

refused-ne-exhausted : {A : Type 0} → ◌≢◌ {A = Outcome A} refused exhausted
refused-ne-exhausted e = cc

ok-ne-exhausted : {A : Type 0} (a : A) → ok a ≢ exhausted
ok-ne-exhausted a e = cc

if-ne-exhausted :
    {A : Type 0} (b : Bool) (x y : Outcome A)
    → x ≢ exhausted
    → y ≢ exhausted
    → (if b then x else y) ≢ exhausted
if-ne-exhausted true x y hx hy = hx
if-ne-exhausted false x y hx hy = hy

length-carried-le : (ps : List Prefix) → length ps ≤ length (carried ps)
length-carried-le [] = omega arith
length-carried-le (p ∷ ps) = omega arith

checked-overrun :
    (id content : List ℕ)
    → length id < 254
    → 1460 < length content
    → checked id content ≡ fault out_of_bounds
unfolding checked
checked-overrun id content h k = ground arith

-- More fuel than bytes is enough for the loop.
parse_options-ne-exhausted :
    {A : Type 0} (fuel n : ℕ) (bytes : List ℕ) (s : Scan A)
    → n < fuel
    → parse_options fuel bytes n s ≢ exhausted
unfolding parse_options
parse_options-ne-exhausted zero n bytes s h = elim h [ ]
parse_options-ne-exhausted (suc fuel) n bytes s h = elim (Option-cases (option_cast bytes n)) [
  | inl e ↦ rw (e, parse_options) (λ x. cc)
  | inr (opt, e) ↦
      rw (e, parse_options)
        (>>=-ne-exhausted (read_option s opt) _ (read_option-ne-exhausted s opt) (λ s'.
          parse_options-ne-exhausted fuel (n - option_size opt) (drop (option_size opt) bytes) s'
            (omega (arith, cast_progress bytes n opt e))))
]

module _ {A : Type 0} ⦃ops : AddressOps A⦄ where
  parse_from-ne-exhausted :
      (info : ProxyBindingInfo A) (rbytes : ℕ) (buffer : List ℕ)
      → parse_from info rbytes buffer ≢ exhausted
  unfolding parse_from
  parse_from-ne-exhausted info rbytes buffer =
      >>=-ne-exhausted _ _
        (parse_options-ne-exhausted (suc (rbytes - 12)) (rbytes - 12) _ _ (omega arith))
        (λ s. ok-ne-exhausted s.info)

  -- The option loop ends on every buffer: parsing an update or an acknowledgement never runs out
  -- of the fuel that the model gives it, one round more than there are bytes.
  pub parse-ne-exhausted :
      (endpoint : A) (rbytes : ℕ) (buffer : List ℕ)
      → (pbu_parse endpoint rbytes buffer ≢ exhausted)
        × (pba_parse endpoint rbytes buffer ≢ exhausted)
  unfolding pbu_parse pba_parse
  parse-ne-exhausted endpoint rbytes buffer = (
    search (if-ne-exhausted, refused-ne-exhausted, parse_from-ne-exhausted),
    search (if-ne-exhausted, refused-ne-exhausted, parse_from-ne-exhausted),
  )

module _ {A : Type 0} (p : ProxyBindingInfo A) where
  -- Neither sender bounds what it writes: an update or acknowledgement with 72 prefixes or more,
  -- and an identifier that passes the assert, is written past the end of the 1460 byte buffer.
  pub sender_overrun :
      length p.id < 254
      → All IsPrefix p.prefix_list
      → 72 ≤ length p.prefix_list
      → (pbu_sender p ≡ fault out_of_bounds) × (pba_sender p ≡ fault out_of_bounds)
  unfolding pbu_sender pba_sender
  sender_overrun named v many =
      let size = length-append_options p v in
      let listed = length-carried-le p.prefix_list in
      (
        checked-overrun p.id (pbu_content p) named (omega (arith, size, listed)),
        checked-overrun p.id (pba_content p) named (omega (arith, size, listed)),
      )

module _ {A : Type 0} ⦃ops : AddressOps A⦄ where
  -- Any update of 16 bytes or more, with the proxy flag set, whose first option is an identifier
  -- with length field 0 in front of a byte 1, makes the receiver ask for a string of
  -- `size_t(0 - 1)` characters: the parser throws, whatever the rest of the message holds.
  pub pbu_parse_throws :
      (endpoint : A) (next hlen f c d x s t q l m rbytes : ℕ) (rest : List ℕ)
      → 16 ≤ rbytes
      → (hlen + 1) * 8 ≤ rbytes
      → 1 ≤ hlen
      → get_flag 0x02 f ≡ true
      → pbu_parse endpoint rbytes
          (next ∷ hlen ∷ 5 ∷ c ∷ d ∷ x ∷ s ∷ t ∷ f ∷ q ∷ l ∷ m ∷ 8 ∷ 0 ∷ 1 ∷ rest)
        ≡ fault length_error
  unfolding pbu_parse
  pbu_parse_throws endpoint next hlen f c d x s t q l m rbytes rest h k j e = ground arith
