-- ===== src/Dhcp/Parsers.antt =====
-- The parsers of net/ip/dhcp_v6.cpp.
use odi_mm.Base.{
  ℕ, ◌+◌, ◌*◌, ◌||◌, List, Option, none, some, length, take, drop, ltb, nat_beq, not, length-drop,
  arith, ◌<◌, ◌≡◌, [], ◌∷◌, if◌then◌else◌,
}
use odi_mm.Dhcp.Buffer.{Read, get_be_uint8, get_be_uint16, get_be_uint24, get_be_uint32}

infixl 5 ◌>>=◌
unfoldable pub ◌>>=◌ {ℓ κ} : {A : Type ℓ} {B : Type κ} → Option A → (A → Option B) → Option B
none >>= f = none
some a >>= f = f a

pub record Header : Type 0 where
  pub op : ℕ
  pub tid : ℕ

unfoldable pub parse_header : List ℕ → Read Header
unfolding ◌>>=◌ get_be_uint8 get_be_uint24
parse_header buff = do
  (op, behind) ← get_be_uint8 buff
  (tid, rest) ← get_be_uint24 behind
  some (record { op = op; tid = tid }, rest)

pub record Choice : Type 0 where
  pub opt : ℕ
  pub payload : List ℕ

unfoldable pub parse_option : List ℕ → Read Choice
unfolding ◌>>=◌ get_be_uint16
parse_option buff = do
  (tp, behind) ← get_be_uint16 buff
  (len, rest) ← get_be_uint16 behind
  let parsed : Choice = record { opt = tp; payload = take len rest } in
      if ltb (length rest) len then none else some (parsed, drop len rest)

-- What is left behind an option is shorter.
pub parse_option-shorter :
    (bytes rest : List ℕ) (c : Choice)
    → parse_option bytes ≡ some (c, rest)
    → length rest < length bytes
unfolding parse_option ◌>>=◌ get_be_uint16
parse_option-shorter [] rest c e = absurd (cc e)
parse_option-shorter (x ∷ []) rest c e = absurd (cc e)
parse_option-shorter (x ∷ y ∷ []) rest c e = absurd (cc e)
parse_option-shorter (x ∷ y ∷ z ∷ []) rest c e = absurd (cc e)
parse_option-shorter (x ∷ y ∷ z ∷ w ∷ bs) rest c e = ground (arith, length-drop (z * 256 + w) bs)

-- The hardware type, which types 1 and 3 have and which is to be ethernet.
unfoldable pub skip_hardware : ℕ → List ℕ → Option (List ℕ)
unfolding ◌>>=◌ get_be_uint16
skip_hardware tp buff =
    if nat_beq tp 1 || nat_beq tp 3
    then (get_be_uint16 buff >>= λ (hw, rest). if not (nat_beq hw 1) then none else some rest)
    else some buff

-- The time or the enterprise number, which types 1 and 2 have.
unfoldable pub skip_time : ℕ → List ℕ → Option (List ℕ)
skip_time tp buff =
    if nat_beq tp 1 || nat_beq tp 2
    then if ltb (length buff) 4 then none else some (drop 4 buff)
    else some buff

unfoldable pub parse_option_duid : List ℕ → Option (List ℕ)
unfolding ◌>>=◌ get_be_uint16 skip_hardware skip_time
parse_option_duid buff = do
  (tp, rest) ← get_be_uint16 buff
  rest ← if ltb tp 1 || ltb 3 tp then none else skip_hardware tp rest
  rest ← skip_time tp rest
  if not (nat_beq (length rest) 6) then none else some (take 6 rest)

pub record IaNa : Type 0 where
  pub id : ℕ
  pub t1 : ℕ
  pub t2 : ℕ

unfoldable pub parse_option_ia : List ℕ → Read IaNa
unfolding ◌>>=◌ get_be_uint32
parse_option_ia buff = do
  (id, behind) ← get_be_uint32 buff
  (t1, behind) ← get_be_uint32 behind
  (t2, rest) ← get_be_uint32 behind
  some (record { id = id; t1 = t1; t2 = t2 }, rest)
