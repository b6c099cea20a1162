-- ===== src/Examples.antt =====
-- Tests, and the theorems about the parts at concrete inputs.
mod Stores
mod Clients
mod Joint
mod Multicast
mod Trees
mod Packets
mod Hellos
use odi_mm.Base.{
  ℕ, zero, suc, ◌≤◌, ◌<◌, ◌+◌, ◌*◌, ◌-◌, ◌%◌, ◌≡◌, ◌≢◌, ◌↔◌, refl, ◌++◌, Bool, true, false, List,
  [], ◌∷◌, Option, none, some, All, replicate, length, arith, nat_beq, Eq, ◌==◌, nat_eq, list_eq,
  if◌then◌else◌, find, put, erase,
}
use odi_mm.Run.{Run, done}
use odi_mm.Types.{
  Prefix, prefix_eq, IsPrefix, ProxyBindingInfo, AddressOps, proxy_binding_info, address_eq,
}
use odi_mm.Samples.{
  number_addresses, home, other_home, update, first_router, second_router, node, database,
  no_tunnels, one_tunnel, no_routes, one_route, agrees,
}
use odi_mm.Wire.Message.{Outcome, ok, fault, out_of_bounds, length_error, exhausted}
use odi_mm.Wire.Flags.{get_flag, set_flag, get_flag-set_flag}
use odi_mm.Wire.Sender.{pbu_sender, pba_sender}
use odi_mm.Wire.Receiver.{pbu_parse, pba_parse}
use odi_mm.Wire.Encoded.{IsSendable, carried}
use odi_mm.Wire.RoundTrip.{pbu_parse-pbu_sender, pba_parse-pba_sender}
use odi_mm.Wire.Limits.{parse-ne-exhausted, sender_overrun, pbu_parse_throws}
use odi_mm.Sequence.{
  validate_sequence_number, validate_sequence_number_iff, validate_sequence_number_asymm,
}

home-IsPrefix : IsPrefix home
home-IsPrefix = record { width = refl; short = omega arith }

update-IsSendable : IsSendable update
update-IsSendable = record {
  named = omega arith;
  prefixes = tt;
  fits = omega arith;
  sequence = omega arith;
  lifetime = omega arith;
  handoff = omega arith;
  status = omega arith;
  link_type = omega arith;
}

pbu_parse-pbu_sender_example :
    (bytes : List ℕ) × (pbu_sender update ≡ ok bytes)
    × (pbu_parse 1 (length bytes) (bytes ++ (7 ∷ []))
        ≡ ok (record (proxy_binding_info {A = ℕ}) {
          id = 97 ∷ [];
          address = 1;
          lifetime = 60;
          sequence = 6;
          handoff = 4;
          prefix_list = carried [];
          link_type = 4;
        }))
pbu_parse-pbu_sender_example = pbu_parse-pbu_sender update update-IsSendable 1 (7 ∷ [])

pba_parse-pba_sender_example :
    (bytes : List ℕ) × (pba_sender update ≡ ok bytes)
    × (pba_parse 3 (length bytes) (bytes ++ (7 ∷ []))
        ≡ ok (record update { address = 3; lifetime = 60; prefix_list = carried [] }))
pba_parse-pba_sender_example = pba_parse-pba_sender update update-IsSendable 3 (7 ∷ [])

parse-ne-exhausted_example :
    (pbu_parse {A = ℕ} 1 3 (1 ∷ 2 ∷ 3 ∷ []) ≢ exhausted)
    × (pba_parse {A = ℕ} 1 3 (1 ∷ 2 ∷ 3 ∷ []) ≢ exhausted)
parse-ne-exhausted_example = parse-ne-exhausted 1 3 (1 ∷ 2 ∷ 3 ∷ [])

abbrev many : ProxyBindingInfo ℕ
many = record update { prefix_list = replicate 72 home }

All-replicate : (n : ℕ) → All IsPrefix (replicate n home)
All-replicate zero = tt
All-replicate (suc n) = (home-IsPrefix, All-replicate n)

sender_overrun_example :
    (pbu_sender many ≡ fault out_of_bounds) × (pba_sender many ≡ fault out_of_bounds)
sender_overrun_example = sender_overrun many (omega arith) (All-replicate 72) (omega arith)

pbu_parse_throws_example :
    pbu_parse {A = ℕ} 1 16 (0 ∷ 1 ∷ 5 ∷ 0 ∷ 0 ∷ 0 ∷ 0 ∷ 1 ∷ 2 ∷ 0 ∷ 0 ∷ 15 ∷ 8 ∷ 0 ∷ 1 ∷ 0 ∷ [])
    ≡ fault length_error
unfolding get_flag
pbu_parse_throws_example =
    pbu_parse_throws 1 0 1 2 0 0 0 0 1 0 0 15 16 (0 ∷ []) (omega arith) (omega arith) (omega arith)
      refl

get_flag-set_flag_example : get_flag 2 (set_flag 2 true 0x80) ≡ true
get_flag-set_flag_example =
    get_flag-set_flag 0x80 1 1 true (omega arith) (omega arith) (omega arith)

validate_sequence_number_iff_example :
    (validate_sequence_number 65535 0 ≡ true)
    ↔ ((0 < (0 + 65536 - 65535) % 65536) × ((0 + 65536 - 65535) % 65536 < 32768))
validate_sequence_number_iff_example =
    validate_sequence_number_iff 65535 0 (omega arith) (omega arith)
