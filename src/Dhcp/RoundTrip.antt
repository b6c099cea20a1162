-- ===== src/Dhcp/RoundTrip.antt =====
-- What the parsers of net/ip/dhcp_v6.cpp read back from what its generators write.
use odi_mm.Base.{
  ℕ, ◌+◌, ◌-◌, ◌*◌, ◌/◌, ◌%◌, ◌^◌, ◌≤◌, ◌<◌, ◌≡◌, refl, sym, ap, List, [], ◌∷◌, ◌++◌, append-nil,
  append_assoc, drop, arith, some, length, take, take-length_append, drop-length_append,
  length-append, le→ltb_false, ltb, if◌then◌else◌,
}
use odi_mm.Dhcp.Emits.{buffer_at, store-whole}
use odi_mm.Dhcp.Buffer.{
  Buffer, Gen, Read, wrote, store, put_be_uint8, put_be_uint16, put_be_uint24, put_be_uint32,
  put_be_uint64, be8, be16, be24, be32, get_be_uint8, get_be_uint16, get_be_uint24, get_be_uint32,
  get_be_uint64,
}
use odi_mm.Dhcp.Parsers.{
  ◌>>=◌, parse_header, parse_option, skip_hardware, skip_time, parse_option_duid, parse_option_ia,
}
use odi_mm.Dhcp.Options.{option_bytes}
use odi_mm.Dhcp.Lease.{ia_bytes}

-- The bytes of an integer, put together again.
whole8 : (v : ℕ) → v < 256 → v % 256 ≡ v
whole8 v h = omega (arith, h)

whole16 : (v : ℕ) → v < 65536 → v / 256 % 256 * 256 + v % 256 ≡ v
whole16 v h = omega (arith, h)

whole24 : (v : ℕ) → (v / 65536 % 256 * 256 + v / 256 % 256) * 256 + v % 256 ≡ v % 16777216
whole24 v = omega arith

whole32 :
    (v : ℕ)
    → v < 4294967296
    → ((v / 16777216 % 256 * 256 + v / 65536 % 256) * 256 + v / 256 % 256) * 256 + v % 256 ≡ v
whole32 v h = omega (arith, h)

low32 :
    (v : ℕ)
    → ((v / 16777216 % 256 * 256 + v / 65536 % 256) * 256 + v / 256 % 256) * 256 + v % 256
      ≡ v % 4294967296
low32 v = omega arith

pub parse_header-gen :
    (op tid : ℕ) (rest : List ℕ)
    → op < 256
    → parse_header ((be8 op ++ be24 tid) ++ rest)
      ≡ some (record { op = op; tid = tid % 16777216 }, rest)
unfolding parse_header ◌>>=◌ get_be_uint8 get_be_uint24
parse_header-gen op tid rest h = rw (whole8 op h, whole24 tid) refl

pub parse_option-option_bytes :
    (opt : ℕ) (payload rest : List ℕ)
    → opt < 65536
    → length payload < 65536
    → parse_option (option_bytes opt payload ++ rest)
      ≡ some (record { opt = opt; payload = payload }, rest)
unfolding parse_option ◌>>=◌ get_be_uint16
parse_option-option_bytes opt payload rest h k =
    let room : length payload ≤ length (payload ++ rest) =
      omega (arith, length-append payload rest) in
    rw
      (
        whole16 opt h,
        whole16 (length payload) k,
        le→ltb_false (length (payload ++ rest)) (length payload) room,
        take-length_append payload rest,
        drop-length_append payload rest,
      )
      refl

pub parse_option-alone :
    (opt : ℕ) (payload : List ℕ)
    → opt < 65536
    → length payload < 65536
    → parse_option (option_bytes opt payload) ≡ some (record { opt = opt; payload = payload }, [])
parse_option-alone opt payload h k =
    rw (← append-nil (option_bytes opt payload)) (parse_option-option_bytes opt payload [] h k)

take_whole : (n : ℕ) (xs : List ℕ) → n ≡ length xs → take n xs ≡ xs
take_whole n [] h = rw h refl
take_whole n (x ∷ xs) h = rw h (ap (◌∷◌ x) (take_whole (length xs) xs refl))

-- The identifier that the server sends: type 3, ethernet, and a link address.
pub parse_option_duid-link :
    (addr : List ℕ) → length addr ≡ 6 → parse_option_duid ((be16 3 ++ be16 1) ++ addr) ≡ some addr
unfolding parse_option_duid skip_hardware skip_time ◌>>=◌ get_be_uint16
parse_option_duid-link addr h = rw (h, take_whole 6 addr (sym h)) refl

pub parse_option_ia-ia_bytes :
    (id t1 t2 : ℕ) (rest : List ℕ)
    → id < 4294967296
    → t1 < 4294967296
    → t2 < 4294967296
    → parse_option_ia (ia_bytes id t1 t2 ++ rest)
      ≡ some (record { id = id; t1 = t1; t2 = t2 }, rest)
unfolding parse_option_ia ◌>>=◌ get_be_uint32
parse_option_ia-ia_bytes id t1 t2 rest h k l = rw (whole32 id h, whole32 t1 k, whole32 t2 l) refl

pub get_be_uint32-be32 :
    (v : ℕ) (rest : List ℕ) → v < 4294967296 → get_be_uint32 (be32 v ++ rest) ≡ some (v, rest)
unfolding get_be_uint32
get_be_uint32-be32 v rest h = rw (whole32 v h) refl

-- A call that writes to a buffer is a success, and what it wrote is read back from where the buffer
-- stood, as `back`, with what is behind the buffer's new place left to read. What is before is kept.
abbrev pub ReadsBack : Buffer → Gen Buffer → (List ℕ → Read ℕ) → ℕ → Type 0
ReadsBack buff gen get back =
    (b : Buffer) × (gen ≡ wrote b)
    × (get (drop buff.first b.memory) ≡ some (back, drop b.first b.memory))
    × (take buff.first b.memory ≡ take buff.first buff.memory)

store-ReadsBack :
    (bytes out free : List ℕ) (get : List ℕ → Read ℕ) (back : ℕ)
    → length bytes ≤ length free
    → ((rest : List ℕ) → get (bytes ++ rest) ≡ some (back, rest))
    → ReadsBack (buffer_at out free) (store (buffer_at out free) bytes) get back
store-ReadsBack bytes out free get back h reads =
    let rest = drop (length bytes) free in
    (
      buffer_at (out ++ bytes) rest,
      store-whole bytes out free h,
      rw
          (
            drop-length_append (out ++ bytes) rest,
            append_assoc out bytes rest,
            drop-length_append out (bytes ++ rest),
          )
          (reads rest),
      rw
          (
            append_assoc out bytes rest,
            take-length_append out (bytes ++ rest),
            take-length_append out free,
          )
          refl,
    )

-- An integer of 8, 16, 24 or 32 bits that is written to a buffer with 8 bytes free, whatever they and
-- the bytes before hold, is read back modulo the width, the next read goes on behind it, and the bytes
-- before stay. One of 64 bits is read back with all of its upper half set where bit 31 of it is.
pub get_be_int-put_be_int :
    (v : ℕ) (out free : List ℕ)
    → 8 ≤ length free
    → ReadsBack (buffer_at out free) (put_be_uint8 (buffer_at out free) v) get_be_uint8 (v % 2 ^ 8)
      × ReadsBack
          (buffer_at out free)
          (put_be_uint16 (buffer_at out free) v)
          get_be_uint16
          (v % 2 ^ 16)
      × ReadsBack
          (buffer_at out free)
          (put_be_uint24 (buffer_at out free) v)
          get_be_uint24
          (v % 2 ^ 24)
      × ReadsBack
          (buffer_at out free)
          (put_be_uint32 (buffer_at out free) v)
          get_be_uint32
          (v % 2 ^ 32)
      × ReadsBack
          (buffer_at out free)
          (put_be_uint64 (buffer_at out free) v)
          get_be_uint64
          (if ltb (v % 2 ^ 32) (2 ^ 31) then v % 2 ^ 64 else (2 ^ 32 - 1) * 2 ^ 32 + v % 2 ^ 32)
unfolding get_be_uint8 get_be_uint16 get_be_uint24 get_be_uint32 get_be_uint64 put_be_uint8
    put_be_uint16 put_be_uint24 put_be_uint32 put_be_uint64
get_be_int-put_be_int v out free h = (
  store-ReadsBack (be8 v) out free get_be_uint8 (v % 2 ^ 8) (omega (arith, h)) (λ rest. refl),
  store-ReadsBack (be16 v) out free get_be_uint16 (v % 2 ^ 16) (omega (arith, h))
      (λ rest. ap (λ n. some (n, rest)) (omega arith)),
  store-ReadsBack (be24 v) out free get_be_uint24 (v % 2 ^ 24) (omega (arith, h))
      (λ rest. ap (λ n. some (n, rest)) (omega arith)),
  store-ReadsBack (be32 v) out free get_be_uint32 (v % 2 ^ 32) (omega (arith, h))
      (λ rest. ap (λ n. some (n, rest)) (low32 v)),
  store-ReadsBack (be32 (v / 2 ^ 32) ++ be32 v) out free get_be_uint64 _ (omega (arith, h)) (λ rest.
      let both : v / 4294967296 % 4294967296 * 4294967296 + v % 4294967296 ≡ v % 2 ^ 64 =
        omega arith in
      rw (low32 v, low32 (v / 4294967296), both) refl),
)
