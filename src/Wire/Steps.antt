-- ===== src/Wire/Steps.antt =====
-- One round of the option loop, for each option that the senders write and for the padding.
use odi_mm.Base.{
  ℕ, zero, suc, ◌+◌, ◌*◌, ◌%◌, ◌-◌, All, append-nil, ◌≤◌, ◌<◌, ◌≡◌, ◌≢◌, refl, ap, ◌∙◌, false, true,
  List, [], ◌∷◌, ◌++◌, none, some, arith, length, drop-length_append, take_append, replicate,
  append_assoc,
}
use mathlib.Core.Path.{ap₂}
use odi_mm.Types.{Prefix, IsPrefix}
use odi_mm.Wire.Message.{ok}
use odi_mm.Wire.Sender.{nai_option, netprefix_option, netprefix_options, handoff_option, att_option}
use odi_mm.Wire.Receiver.{option_cast, option_size, Scan, read_option, parse_options}

-- `option::cast` accepts an option that is whole, and the loop steps over it.
cast-whole :
    (t l n : ℕ) (body : List ℕ)
    → option_cast (t ∷ l ∷ body) (l + 2 + n) ≡ some (record { type = t; len = l; body = body })
unfolding option_cast
cast-whole t l n body = ground arith

size-typed :
    (t l : ℕ) (body : List ℕ)
    → t ≢ 0
    → option_size (record { type = t; len = l; body = body }) ≡ suc (suc l)
unfolding option_size
size-typed t l body h = ground arith

pub parse-option :
    {A : Type 0} (f t n : ℕ) (payload rest : List ℕ) (s s' : Scan A)
    → t ≢ 0
    → read_option s (record { type = t; len = length payload; body = payload ++ rest }) ≡ ok s'
    → parse_options (suc f) (t ∷ length payload ∷ (payload ++ rest)) (length payload + 2 + n) s
      ≡ parse_options f rest n s'
unfolding parse_options
parse-option f t n payload rest s s' typed e =
    rw
      (
        cast-whole t (length payload) n (payload ++ rest),
        parse_options,
        e,
        size-typed t (length payload) (payload ++ rest) typed,
        drop-length_append payload rest,
      )
      (ap (λ m. parse_options f rest m s') (omega arith))

-- What the loop has read so far, as the fields that the options fill.
module _ {A : Type 0} (s : Scan A) where
  abbrev pub with_id : List ℕ → Scan A
  with_id id = record s { info = record s.info { id = id }; nai = true }

  abbrev pub with_prefixes : List Prefix → Scan A
  with_prefixes ps = record s { info = record s.info { prefix_list = s.info.prefix_list ++ ps } }

  abbrev pub with_handoff : ℕ → Scan A
  with_handoff h = record s { info = record s.info { handoff = h }; hof = true }

  abbrev pub with_link_type : ℕ → Scan A
  with_link_type t = record s { info = record s.info { link_type = t }; att = true }

  read_option-nai :
      (id rest : List ℕ)
      → s.nai ≡ false
      → read_option s (record { type = 8; len = suc (length id); body = 1 ∷ (id ++ rest) })
        ≡ ok (with_id id)
  unfolding read_option
  read_option-nai id rest fresh = ground (arith, take_append (suc (length id) - 1) id rest)

  read_option-netprefix :
      (p : Prefix) (rest : List ℕ)
      → IsPrefix p
      → read_option s (record { type = 22; len = 18; body = 0 ∷ p.length ∷ (p.bytes ++ rest) })
        ≡ ok (with_prefixes (p ∷ []))
  unfolding read_option
  read_option-netprefix p rest v = ground (arith, take_append 16 p.bytes rest)

  read_option-handoff :
      (h : ℕ) (rest : List ℕ)
      → s.hof ≡ false
      → read_option s (record { type = 23; len = 2; body = 0 ∷ h ∷ rest }) ≡ ok (with_handoff h)
  unfolding read_option
  read_option-handoff h rest fresh = ground arith

  read_option-att :
      (t : ℕ) (rest : List ℕ)
      → s.att ≡ false
      → read_option s (record { type = 24; len = 2; body = 0 ∷ t ∷ rest }) ≡ ok (with_link_type t)
  unfolding read_option
  read_option-att t rest fresh = ground arith

module _ {A : Type 0} (f n : ℕ) (rest : List ℕ) (s : Scan A) where
  pub parse-nai :
      (id : List ℕ)
      → s.nai ≡ false
      → length id < 254
      → parse_options (suc f) (nai_option id ++ rest) (length id + 3 + n) s
        ≡ parse_options f rest n (with_id s id)
  parse-nai id fresh fits =
      let e : (1 + length id) % 256 ≡ suc (length id) = omega arith in
      let c : length id + 3 + n ≡ suc (length id) + 2 + n = omega arith in
      rw (e, c)
        (parse-option f 8 n (1 ∷ id) rest s (with_id s id) (omega arith)
          (read_option-nai s id rest fresh))

  pub parse-netprefix :
      (p : Prefix)
      → IsPrefix p
      → parse_options (suc f) (netprefix_option p.length p.bytes ++ rest) (20 + n) s
        ≡ parse_options f rest n (with_prefixes s (p ∷ []))
  parse-netprefix p v =
      let e : length (0 ∷ p.length ∷ p.bytes) ≡ 18 = omega (arith, v.width) in
      rw e at (
        parse-option f 22 n (0 ∷ p.length ∷ p.bytes) rest s (with_prefixes s (p ∷ [])) (omega arith)
          (rw e (read_option-netprefix s p rest v)))

  pub parse-handoff :
      (h : ℕ)
      → s.hof ≡ false
      → parse_options (suc f) (handoff_option h ++ rest) (4 + n) s
        ≡ parse_options f rest n (with_handoff s h)
  parse-handoff h fresh =
      parse-option f 23 n (0 ∷ h ∷ []) rest s (with_handoff s h) (omega arith)
        (read_option-handoff s h rest fresh)

  pub parse-att :
      (t : ℕ)
      → s.att ≡ false
      → parse_options (suc f) (att_option t ++ rest) (4 + n) s
        ≡ parse_options f rest n (with_link_type s t)
  parse-att t fresh =
      parse-option f 24 n (0 ∷ t ∷ []) rest s (with_link_type s t) (omega arith)
        (read_option-att s t rest fresh)

cast-short : (bytes : List ℕ) (n : ℕ) → n < 2 → option_cast bytes n ≡ none
unfolding option_cast
cast-short [] n h = refl
cast-short (t ∷ []) n h = refl
cast-short (t ∷ l ∷ body) n h = ground arith

parse-end :
    {A : Type 0} (f n : ℕ) (bytes : List ℕ) (s : Scan A)
    → n < 2
    → parse_options (suc f) bytes n s ≡ ok s
unfolding parse_options
parse-end f n bytes s h = rw (cast-short bytes n h, parse_options)

cast-zeros :
    (k : ℕ) (body : List ℕ)
    → option_cast (0 ∷ 0 ∷ body) (suc (suc k)) ≡ some (record { type = 0; len = 0; body = body })
unfolding option_cast
cast-zeros k body = ground arith

parse-zero :
    {A : Type 0} (f k : ℕ) (body : List ℕ) (s : Scan A)
    → parse_options (suc f) (0 ∷ 0 ∷ body) (suc (suc k)) s ≡ parse_options f (0 ∷ body) (suc k) s
unfolding parse_options
parse-zero f k body s =
    rw (cast-zeros k body, parse_options) (ap (λ m. parse_options f (0 ∷ body) m s) (omega arith))

-- The zeros behind the last option, whatever the buffer holds behind them.
pub parse-padding :
    {A : Type 0} (f k : ℕ) (stale : List ℕ) (s : Scan A)
    → k ≤ f
    → parse_options (suc f) (replicate k 0 ++ stale) k s ≡ ok s
parse-padding f zero stale s h = parse-end f 0 stale s (omega arith)
parse-padding f (suc zero) stale s h = parse-end f 1 (0 ∷ stale) s (omega arith)
parse-padding zero (suc (suc k)) stale s h = absurd (omega arith)
parse-padding (suc f) (suc (suc k)) stale s h =
    parse-zero (suc f) k (replicate k 0 ++ stale) s ∙ parse-padding f (suc k) stale s (omega arith)

pub parse-prefixes :
    {A : Type 0} (f n : ℕ) (ps : List Prefix) (rest : List ℕ) (s : Scan A)
    → All IsPrefix ps
    → parse_options (length ps + f) (netprefix_options ps ++ rest) (20 * length ps + n) s
      ≡ parse_options f rest n (with_prefixes s ps)
unfolding netprefix_options
parse-prefixes f n [] rest s v =
    rw append-nil (ap₂ (λ g m. parse_options g rest m s) (omega arith) (omega arith))
parse-prefixes f n (p ∷ ps) rest s v =
    let fuel : suc (length ps) + f ≡ suc (length ps + f) = omega arith in
    let size : 20 * suc (length ps) + n ≡ 20 + (20 * length ps + n) = omega arith in
    rw (fuel, size, append_assoc p.bytes (netprefix_options ps) rest)
      (parse-netprefix (length ps + f) (20 * length ps + n) (netprefix_options ps ++ rest) s p v.0
        ∙ parse-prefixes f n ps rest (with_prefixes s (p ∷ [])) v.1
        ∙ ap (λ l. parse_options f rest n (record s { info = record s.info { prefix_list = l } }))
            (append_assoc s.info.prefix_list (p ∷ []) ps))
