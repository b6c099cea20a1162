-- ===== src/Icmp/Scan.antt =====
-- What `icmp_rs_parse` of net/ip/icmp_parser.cpp finds in a message.
use odi_mm.Base.{
  ℕ, zero, suc, ◌+◌, ◌*◌, ◌≤◌, ◌<◌, ◌≡◌, ◌≢◌, refl, sym, ap, ◌∙◌, inl, inr, true, false, List, [],
  ◌∷◌, ◌++◌, All, some, Option-cases, Bool-cases, length, drop, length-append, length-drop,
  drop_append, take_append, lt→ltb, le→ltb_false, leb, nat_beq, nat_eq, arith,
}
use odi_mm.Run.{done, undefined}
use odi_mm.Icmp.Parser.{
  type_value, cast_solicitation, Opt, option_cast, is_source_link_layer, to_mac, found,
  scan_options, icmp_rs_parse,
}

-- An option that was cast is within the bytes.
option_cast-size :
    (bytes : List ℕ) (opt : Opt) → option_cast bytes ≡ some opt → opt.size ≤ length bytes
unfolding option_cast
option_cast-size [] opt e = absurd (cc e)
option_cast-size (t ∷ []) opt e = absurd (cc e)
option_cast-size (t ∷ l ∷ body) opt e = ground arith

-- As many rounds as there are bytes are enough: further ones change nothing.
pub scan_options-fuel :
    (f g : ℕ) (bytes : List ℕ)
    → length bytes ≤ f
    → length bytes ≤ g
    → scan_options f bytes ≡ scan_options g bytes
unfolding scan_options
scan_options-fuel f g [] hf hg = refl
scan_options-fuel zero g (b ∷ bytes) hf hg = absurd (omega (arith, hf))
scan_options-fuel (suc f) zero (b ∷ bytes) hf hg = absurd (omega (arith, hg))
scan_options-fuel (suc f) (suc g) (b ∷ bytes) hf hg =
    elim (Option-cases (option_cast (b ∷ bytes))) [
      | inl e ↦ rw (scan_options, e) refl
      | inr (opt, e) ↦ elim (Bool-cases (nat_beq opt.size 0)) [
        | inl over ↦ rw (scan_options, e, over) refl
        | inr more ↦
            let shorter = length-drop opt.size (b ∷ bytes) in
            let moves : 0 < opt.size = ground (arith, more) in
            rw
              (
                scan_options,
                e,
                scan_options-fuel f g (drop opt.size (b ∷ bytes))
                    (omega (arith, shorter, hf, moves)) (omega (arith, shorter, hg, moves)),
              )
              refl
      ]
    ]

-- An option of another type, of `units` times eight bytes.
pub record Other : Type 0 where
  pub type : ℕ
  pub units : ℕ
  pub body : List ℕ

pub record IsOther (o : Other) : Type 0 where
  pub positive : 0 < o.units
  pub whole : suc (suc (length o.body)) ≡ o.units * 8
  pub other : o.type ≢ 1

abbrev pub encode : List Other → List ℕ → List ℕ
encode [] rest = rest
encode (o ∷ os) rest = o.type ∷ o.units ∷ (o.body ++ encode os rest)

scan-other :
    (fuel : ℕ) (o : Other) (rest : List ℕ)
    → IsOther o
    → scan_options (suc fuel) (o.type ∷ o.units ∷ (o.body ++ rest)) ≡ scan_options fuel rest
unfolding scan_options option_cast is_source_link_layer
scan-other fuel o rest v =
    let size : o.units * 8 ≡ suc (suc (length o.body)) = sym v.whole in
    let fits : o.units * 8 ≤ suc (suc (length (o.body ++ rest))) =
      omega (arith, v.whole, length-append o.body rest) in
    let plain : nat_beq o.type 1 ≡ false = ground (arith, v.other) in
    let moves : nat_beq (o.units * 8) 0 ≡ false = ground (arith, v.positive) in
    let behind : drop (o.units * 8) (o.type ∷ o.units ∷ (o.body ++ rest)) ≡ rest =
      rw size (drop_append (length o.body) o.body rest refl) in
    rw
      (
        scan_options,
        option_cast,
        le→ltb_false (suc (suc (length (o.body ++ rest)))) (o.units * 8) fits,
        plain,
        moves,
        behind,
      )
      refl

scan-others :
    (fuel : ℕ) (os : List Other) (rest : List ℕ)
    → All IsOther os
    → scan_options (length os + fuel) (encode os rest) ≡ scan_options fuel rest
scan-others fuel [] rest v = ap (λ n. scan_options n rest) (omega arith)
scan-others fuel (o ∷ os) rest v =
    let next : length (o ∷ os) + fuel ≡ suc (length os + fuel) = omega arith in
    rw next (scan-other (length os + fuel) o (encode os rest) v.0 ∙ scan-others fuel os rest v.1)

length-encode :
    (os : List Other) (rest : List ℕ) → length os + length rest ≤ length (encode os rest)
length-encode [] rest = omega arith
length-encode (o ∷ os) rest =
    omega (arith, length-encode os rest, length-append o.body (encode os rest))

scan_source :
    (mac rest : List ℕ)
    → length mac ≡ 6
    → scan_options (length (1 ∷ 1 ∷ (mac ++ rest))) (1 ∷ 1 ∷ (mac ++ rest)) ≡ done (some mac)
unfolding scan_options option_cast is_source_link_layer to_mac found
scan_source mac rest six =
    let fits : 8 ≤ suc (suc (length (mac ++ rest))) = omega (arith, six, length-append mac rest) in
    rw
      (
        scan_options,
        option_cast,
        le→ltb_false (suc (suc (length (mac ++ rest)))) 8 fits,
        take_append 6 mac rest (sym six),
      )
      refl

scan_truncated :
    (type units : ℕ) (body : List ℕ)
    → suc (suc (length body)) < units * 8
    → scan_options (length (type ∷ units ∷ body)) (type ∷ units ∷ body) ≡ undefined
unfolding scan_options option_cast
scan_truncated type units body short =
    rw (scan_options, option_cast, lt→ltb (suc (suc (length body))) (units * 8) short) refl

-- The header of a solicitation: its type, and seven bytes that the parser does not look at.
module _ (header : List ℕ) (width : length header ≡ 7) where
  parse-scanned :
      (os : List Other) (rest : List ℕ)
      → All IsOther os
      → icmp_rs_parse (type_value ∷ (header ++ encode os rest)) ≡ scan_options (length rest) rest
  unfolding icmp_rs_parse cast_solicitation
  parse-scanned os rest v =
      let bytes = type_value ∷ (header ++ encode os rest) in
      let options = encode os rest in
      let size : length bytes ≡ 8 + length options =
        omega (arith, width, length-append header options) in
      let long : leb 8 (length bytes) ≡ true = ground (arith, size) in
      let behind : drop 8 bytes ≡ options = drop_append 7 header options (sym width) in
      let more = length-encode os rest in
      rw (icmp_rs_parse, long, behind)
        (scan_options-fuel (length bytes) (length os + length options) options (omega (arith, size))
            (omega arith)
          ∙ scan-others (length options) os rest v
          ∙ scan_options-fuel (length options) (length rest) rest (omega (arith, more))
              (omega arith))

  -- The source link address of a router solicitation is found behind options of other types, and
  -- whatever follows it.
  pub icmp_rs_parse-finds :
      (os : List Other) (mac rest : List ℕ)
      → All IsOther os
      → length mac ≡ 6
      → icmp_rs_parse (type_value ∷ (header ++ encode os (1 ∷ 1 ∷ (mac ++ rest)))) ≡ done (some mac)
  icmp_rs_parse-finds os mac rest v six =
      parse-scanned os (1 ∷ 1 ∷ (mac ++ rest)) v ∙ scan_source mac rest six

  -- A router solicitation that ends inside an option, behind whole options of other types, makes the
  -- parser read through a null pointer.
  pub icmp_rs_parse-truncated :
      (os : List Other) (type units : ℕ) (body : List ℕ)
      → All IsOther os
      → suc (suc (length body)) < units * 8
      → icmp_rs_parse (type_value ∷ (header ++ encode os (type ∷ units ∷ body))) ≡ undefined
  icmp_rs_parse-truncated os type units body v short =
      parse-scanned os (type ∷ units ∷ body) v ∙ scan_truncated type units body short
