-- ===== src/Icmp/Parser.antt =====
-- `icmp_rs_parse` of net/ip/icmp_parser.cpp, with the casts of ip/icmp.hpp, ip/options.hpp and
-- ip/icmp_options.hpp that it calls. The parser stays within the `length` bytes of the message, so
-- the buffer is the list of these bytes.
use odi_mm.Base.{
  ℕ, zero, suc, ◌*◌, Bool, false, not, ◌&&◌, List, [], ◌∷◌, Option, none, some, length, take, drop,
  ltb, leb, nat_beq, if◌then◌else◌,
}
use odi_mm.Run.{Run, done, asserted, undefined}

-- sizeof(icmp::router_solicitation) and its type.
abbrev pub solicitation_size : ℕ
solicitation_size = 8

abbrev pub type_value : ℕ
type_value = 133

-- `icmp::header::cast<icmp::router_solicitation>`
unfoldable pub cast_solicitation : List ℕ → Bool
cast_solicitation [] = false
cast_solicitation (type ∷ bytes) =
    leb solicitation_size (suc (length bytes)) && nat_beq type type_value

-- An option where the loop stands: `size`, the bytes that it says it has, and its body.
pub record Opt : Type 0 where
  pub type : ℕ
  pub size : ℕ
  pub body : List ℕ

-- `option::cast`; `none` is `nullptr`.
unfoldable pub option_cast : List ℕ → Option Opt
option_cast [] = none
option_cast (t ∷ []) = none
option_cast (t ∷ l ∷ body) =
    if ltb (suc (suc (length body))) (l * 8)
    then none
    else some (record { type = t; size = l * 8; body = body })

-- `opt_source_link_layer::cast`
unfoldable pub is_source_link_layer : Opt → Bool
is_source_link_layer opt = nat_beq opt.type 1 && leb 8 opt.size

-- `to_mac`, with its assert.
unfoldable pub to_mac : Opt → Run (List ℕ)
to_mac opt = if nat_beq opt.size 8 then done (take 6 opt.body) else asserted

unfoldable pub found : Run (List ℕ) → Run (Option (List ℕ))
found (done mac) = done (some mac)
found Run.threw = Run.threw
found asserted = asserted
found undefined = undefined

-- The loop, on fuel. `option::size` of a null pointer is undefined.
unfoldable pub scan_options : ℕ → List ℕ → Run (Option (List ℕ))
unfolding option_cast is_source_link_layer to_mac found
scan_options fuel [] = done none
scan_options zero (b ∷ bytes) = undefined
scan_options (suc fuel) (b ∷ bytes) = elim (option_cast (b ∷ bytes)) [
  | none ↦ undefined
  | some opt ↦
      let rest = scan_options fuel (drop opt.size (b ∷ bytes)) in
      if nat_beq opt.size 0
      then done none
      else if is_source_link_layer opt
      then found (to_mac opt)
      else rest
]

-- The source link address, when the message is a solicitation that has one.
unfoldable pub icmp_rs_parse : List ℕ → Run (Option (List ℕ))
unfolding cast_solicitation scan_options
icmp_rs_parse bytes =
    if not (cast_solicitation bytes)
    then done none
    else scan_options (length bytes) (drop solicitation_size bytes)
