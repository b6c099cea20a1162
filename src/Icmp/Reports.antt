-- ===== src/Icmp/Reports.antt =====
-- `icmp_mld_report_parser::parse` of net/ip/icmp_parser.cpp, with `mld_report` of ip/icmp.hpp. The
-- host is little-endian, and a read behind the bytes of the message is undefined.
use odi_mm.Base.{
  ℕ, zero, suc, ◌+◌, ◌*◌, ◌/◌, ◌≤◌, ◌<◌, ◌≡◌, ◌≢◌, refl, Bool, true, false, List, [], ◌∷◌, ◌++◌,
  length, length-drop, take, drop, arith, ltb, nat_beq, if◌then◌else◌,
}
use odi_mm.Run.{Run, done, undefined}

-- A group with its sources.
pub record McastAddress : Type 0 where
  pub group : List ℕ
  pub sources : List (List ℕ)

-- `icmp_mld_report_parser`
pub record Reports : Type 0 where
  pub includes : List McastAddress
  pub excludes : List McastAddress
  pub change_to_includes : List McastAddress
  pub change_to_excludes : List McastAddress
  pub allow_new_sources : List McastAddress
  pub block_old_sources : List McastAddress

-- The switch.
unfoldable pub push : ℕ → McastAddress → Reports → Reports
push type m r =
    if nat_beq type 1
    then record r { includes = r.includes ++ m ∷ [] }
    else if nat_beq type 2
    then record r { excludes = r.excludes ++ m ∷ [] }
    else if nat_beq type 3
    then record r { change_to_includes = r.change_to_includes ++ m ∷ [] }
    else if nat_beq type 4
    then record r { change_to_excludes = r.change_to_excludes ++ m ∷ [] }
    else if nat_beq type 5
    then record r { allow_new_sources = r.allow_new_sources ++ m ∷ [] }
    else if nat_beq type 6
    then record r { block_old_sources = r.block_old_sources ++ m ∷ [] }
    else r

-- `mcast_address::next`, as the distance from the record.
unfoldable pub next_offset : ℕ → ℕ → ℕ
next_offset aux count = (20 + aux + 16 * count + 3) / 4 * 4

unfoldable pub read_sources : ℕ → List ℕ → List (List ℕ)
read_sources zero bytes = []
read_sources (suc n) bytes = take 16 bytes ∷ read_sources n (drop 16 bytes)

-- The loop, with the bytes from `mca` on.
unfoldable pub report_records : ℕ → List ℕ → Reports → Run (Bool × Reports)
unfolding push next_offset read_sources
report_records zero bytes r = done (true, r)
report_records (suc count) (type ∷ aux ∷ s0 ∷ s1 ∷ body) r =
    let n = s0 + 256 * s1 in
    let offset = next_offset aux n in
    let m : McastAddress = record {
      group = take 16 body;
      sources = read_sources n (drop 16 body);
    } in
    let rest = report_records count (drop offset (type ∷ aux ∷ s0 ∷ s1 ∷ body)) (push type m r) in
    if ltb (length (type ∷ aux ∷ s0 ∷ s1 ∷ body)) offset then done (false, r) else rest
report_records (suc count) [] r = undefined
report_records (suc count) (a ∷ []) r = undefined
report_records (suc count) (a ∷ b ∷ []) r = undefined
report_records (suc count) (a ∷ b ∷ c ∷ []) r = undefined

unfoldable pub report_parse : List ℕ → Reports → Run (Bool × Reports)
unfolding report_records
report_parse (type ∷ code ∷ k0 ∷ k1 ∷ r0 ∷ r1 ∷ c0 ∷ c1 ∷ bytes) r =
    if nat_beq type 143 then report_records (c0 + 256 * c1) bytes r else done (false, r)
report_parse bytes r = done (false, r)

-- A loop that goes on past the test for the end.
unless-accepted :
    (b : Bool) (x : Run (Bool × Reports)) (r r' : Reports)
    → (if b then done (false, r) else x) ≡ done (true, r')
    → (b ≡ false) × (x ≡ done (true, r'))
unless-accepted true x r r' h = cc
unless-accepted false x r r' h = (refl, h)

-- An accepted report has 20 bytes for each record that it is taken to count.
pub report_records-long :
    (count : ℕ) (bytes : List ℕ) (r r' : Reports)
    → report_records count bytes r ≡ done (true, r')
    → 20 * count ≤ length bytes
unfolding report_records next_offset
report_records-long zero bytes r r' h = ground arith
report_records-long (suc count) (type ∷ aux ∷ s0 ∷ s1 ∷ body) r r' h =
    let offset = next_offset aux (s0 + 256 * s1) in
    let bytes = type ∷ aux ∷ s0 ∷ s1 ∷ body in
    let m : McastAddress = record {
      group = take 16 body;
      sources = read_sources (s0 + 256 * s1) (drop 16 body);
    } in
    let (inside, rest) = unless-accepted (ltb (length bytes) offset) _ r r' h in
    let behind = report_records-long count (drop offset bytes) (push type m r) r' rest in
    ground (arith, length-drop offset bytes, behind, inside)
report_records-long (suc count) [] r r' h = cc
report_records-long (suc count) (a ∷ []) r r' h = cc
report_records-long (suc count) (a ∷ b ∷ []) r r' h = cc
report_records-long (suc count) (a ∷ b ∷ c ∷ []) r r' h = cc

-- A report whose count stands in network order and is at least one is not accepted below 5120
-- bytes for each record.
pub report_parse-ne-accepted :
    (code k0 k1 r0 r1 count : ℕ) (bytes : List ℕ) (r r' : Reports)
    → 0 < count
    → length bytes < 5120 * count
    → report_parse (143 ∷ code ∷ k0 ∷ k1 ∷ r0 ∷ r1 ∷ 0 ∷ count ∷ bytes) r ≢ done (true, r')
unfolding report_parse
report_parse-ne-accepted code k0 k1 r0 r1 count bytes r r' some_records short h =
    omega (arith, some_records, short, report_records-long (0 + 256 * count) bytes r r' h)
