-- ===== src/Icmp/Queries.antt =====
-- `icmp_mld_query_generator` of net/ip/icmp_generator.cpp, with `mld_query` of ip/icmp.hpp. The
-- constructor of `mld_query` leaves its own fields as they stand in the buffer.
use odi_mm.Base.{
  ℕ, zero, suc, ◌+◌, ◌*◌, ◌/◌, ◌%◌, ◌^◌, ◌≤◌, ◌≡◌, refl, List, [], ◌∷◌, ◌++◌, length, length-append,
  length-drop, take, drop, replicate, arith, ltb, nat_beq, if◌then◌else◌,
}
use odi_mm.Types.{AddressOps}

-- `icmp_mld_query`
pub record Query (A : Type 0) : Type 0 where
  pub group : A
  pub sources : List A
  pub type : ℕ

-- sizeof(icmp::mld_query)
abbrev pub query_size : ℕ
query_size = 28

-- The header, then `max_resp_code` and `reserved`, the group, `flags` and `qqic`.
unfoldable pub write_query : List ℕ → List ℕ → List ℕ → List ℕ
write_query group count sources =
    130 ∷ 0 ∷ 0 ∷ 0 ∷ 0 ∷ 0 ∷ 0 ∷ 0 ∷ (group ++ 0 ∷ 125 ∷ (count ++ sources))

length-write_query :
    (group count sources : List ℕ)
    → length (write_query group count sources) ≡ 10 + length group + length count + length sources
unfolding write_query
length-write_query group count sources =
    omega (arith, length-append group (0 ∷ 125 ∷ (count ++ sources)), length-append count sources)

length-take : {A : Type 0} (n : ℕ) (xs : List A) → n ≤ length xs → length (take n xs) ≡ n
length-take zero xs h = refl
length-take (suc n) [] h = omega arith
length-take (suc n) (x ∷ xs) h = omega (arith, length-take n xs)

module _ {A : Type 0} ⦃ops : AddressOps A⦄ where
  -- The loop that writes the sources.
  unfoldable pub write_sources : List A → List ℕ
  write_sources [] = []
  write_sources (s ∷ sources) = ops.to_bytes s ++ write_sources sources

  -- The first `len` bytes of the buffer after the call, none when it returns 0.
  unfoldable pub mld_query_generator : Query A → List ℕ → List ℕ
  unfolding write_sources write_query
  mld_query_generator q buffer =
      let n = length q.sources in
      if ltb (length buffer) query_size
      then []
      else if nat_beq q.type 0
      then write_query (replicate 16 0) (0 ∷ 0 ∷ []) []
      else if nat_beq q.type 1
      then write_query (ops.to_bytes q.group) (0 ∷ 0 ∷ []) []
      else if nat_beq q.type 2
      then if ltb (length buffer) (query_size + 16 * n)
        then []
        else write_query (ops.to_bytes q.group) (n / 256 % 256 ∷ n % 256 ∷ [])
            (write_sources q.sources)
      else write_query (take 16 (drop 8 buffer)) (take 2 (drop 26 buffer)) []

  module _ (width : (a : A) → length (ops.to_bytes a) ≡ 16) where
    length-write_sources : (sources : List A) → length (write_sources sources) ≡ 16 * length sources
    unfolding write_sources
    length-write_sources [] = refl
    length-write_sources (s ∷ sources) = omega (
      arith,
      width s,
      length-append (ops.to_bytes s) (write_sources sources),
      length-write_sources sources,
    )

module _ {A : Type 0} ⦃ops : AddressOps A⦄ (width : (a : A) → length (ops.to_bytes a) ≡ 16) where
  -- A query stays in its buffer.
  pub length-mld_query_generator :
      (q : Query A) (buffer : List ℕ) → length (mld_query_generator q buffer) ≤ length buffer
  unfolding mld_query_generator
  length-mld_query_generator q buffer =
      let n = length q.sources in
      let group = ops.to_bytes q.group in
      let kept_group = take 16 (drop 8 buffer) in
      let kept_count = take 2 (drop 26 buffer) in
      let sources = write_sources q.sources in
      let general = length-write_query (replicate 16 0) (0 ∷ 0 ∷ []) [] in
      let specific = length-write_query group (0 ∷ 0 ∷ []) [] in
      let sourced = length-write_query group (n / 256 % 256 ∷ n % 256 ∷ []) sources in
      let kept = length-write_query kept_group kept_count [] in
      let wide = width q.group in
      let many = length-write_sources width q.sources in
      let whole_group : 28 ≤ length buffer → length kept_group ≡ 16 =
        λ h. length-take 16 (drop 8 buffer) (omega (arith, length-drop 8 buffer, h)) in
      let whole_count : 28 ≤ length buffer → length kept_count ≡ 2 =
        λ h. length-take 2 (drop 26 buffer) (omega (arith, length-drop 26 buffer, h)) in
      ground (arith, general, specific, sourced, kept, wide, many, whole_group, whole_count)

-- `mld_query::max_response_code`
unfoldable pub max_response_code : ℕ → ℕ
max_response_code code =
    if ltb code 32768 then code else (4096 + code % 4096) / 2 ^ (code / 4096 % 8 + 3)

-- `mld_query::qqi`
unfoldable pub qqi : ℕ → ℕ
qqi qqic = if ltb qqic 128 then qqic else (16 + qqic % 16) / 2 ^ (qqic / 16 % 8 + 3)

-- `mld_query::qrv`, on the flags.
unfoldable pub qrv : ℕ → ℕ → ℕ
qrv val flags = if ltb val 7 then flags / 8 * 8 + 7 else flags / 8 * 8
