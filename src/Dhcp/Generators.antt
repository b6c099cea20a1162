-- ===== src/Dhcp/Generators.antt =====
-- The generators of net/ip/dhcp_v6.cpp. Opcodes, option types and status codes
-- stay numbers, under the names of the source's enumerators.
use odi_mm.Base.{ℕ, ◌-◌, List, ltb, if◌then◌else◌}
use odi_mm.Dhcp.Buffer.{
  Buffer, Gen, wrote, failed, ◌>>=◌, store, put_be_uint8, put_be_uint16, put_be_uint24,
  put_be_uint32,
}

-- enum opcode
abbrev pub solicitation : ℕ
solicitation = 1

abbrev pub advertise : ℕ
advertise = 2

abbrev pub request : ℕ
request = 3

abbrev pub confirm : ℕ
confirm = 4

abbrev pub renew : ℕ
renew = 5

abbrev pub reply : ℕ
reply = 7

abbrev pub info_request : ℕ
info_request = 11

-- enum option
abbrev pub client_id : ℕ
client_id = 1

abbrev pub server_id : ℕ
server_id = 2

abbrev pub ia_na : ℕ
ia_na = 3

abbrev pub ia_addr : ℕ
ia_addr = 5

abbrev pub status_code : ℕ
status_code = 13

-- enum status
abbrev pub status_no_binding : ℕ
status_no_binding = 3

unfoldable pub gen_header : Buffer → ℕ → ℕ → Gen Buffer
unfolding ◌>>=◌ put_be_uint8 put_be_uint24
gen_header buff op tid = do b ← put_be_uint8 buff op; put_be_uint24 b tid

-- The `state` that this hands back is the buffer that it hands back.
unfoldable pub gen_option_begin : Buffer → ℕ → Gen Buffer
unfolding ◌>>=◌ put_be_uint16
gen_option_begin buff opt = do b ← put_be_uint16 buff opt; put_be_uint16 b 0

-- `state` is the place behind the option's length, in the same array.
unfoldable pub gen_option_end : Buffer → ℕ → Gen Buffer
unfolding ◌>>=◌ put_be_uint16
gen_option_end buff state =
    let len = buff.first - state in
    if ltb 0xffff len then failed else do
      patched ← put_be_uint16 (record buff { first = state - 2 }) len
      wrote (record patched { first = buff.first })

unfoldable pub gen_option_server_id : Buffer → List ℕ → Gen Buffer
unfolding ◌>>=◌ gen_option_begin gen_option_end put_be_uint16 store
gen_option_server_id buff link_addr = do
  state ← gen_option_begin buff server_id
  b ← put_be_uint16 state 3
  b ← put_be_uint16 b 1
  b ← store b link_addr
  gen_option_end b state.first

unfoldable pub gen_option_client_id : Buffer → List ℕ → Gen Buffer
unfolding ◌>>=◌ gen_option_begin gen_option_end store
gen_option_client_id buff cid = do
  state ← gen_option_begin buff client_id
  b ← store state cid
  gen_option_end b state.first

-- With the `state` that it stores.
unfoldable pub gen_option_ia : Buffer → ℕ → ℕ → ℕ → Gen (Buffer × ℕ)
unfolding ◌>>=◌ gen_option_begin gen_option_end put_be_uint32
gen_option_ia buff id t1 t2 = do
  st ← gen_option_begin buff ia_na
  b ← put_be_uint32 st id
  b ← put_be_uint32 b t1
  b ← put_be_uint32 b t2
  b ← gen_option_end b st.first
  wrote (b, st.first)

unfoldable pub gen_option_addr : Buffer → List ℕ → ℕ → ℕ → ℕ → Gen Buffer
unfolding ◌>>=◌ gen_option_begin gen_option_end put_be_uint32 store
gen_option_addr buff addr pref_lifetime val_lifetime state = do
  st ← gen_option_begin buff ia_addr
  b ← store st addr
  b ← put_be_uint32 b pref_lifetime
  b ← put_be_uint32 b val_lifetime
  b ← gen_option_end b st.first
  gen_option_end b state

unfoldable pub gen_option_status : Buffer → ℕ → List ℕ → Gen Buffer
unfolding ◌>>=◌ gen_option_begin gen_option_end put_be_uint16 store
gen_option_status buff st msg = do
  state ← gen_option_begin buff status_code
  b ← put_be_uint16 state st
  b ← store b msg
  gen_option_end b state.first

unfoldable pub gen_message : Buffer → ℕ → ℕ → List ℕ → List ℕ → Gen Buffer
unfolding ◌>>=◌ gen_header gen_option_server_id gen_option_client_id
gen_message buff op tid link_addr client_id = do
  b ← gen_header buff op tid
  b ← gen_option_server_id b link_addr
  gen_option_client_id b client_id
