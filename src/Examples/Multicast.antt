-- ===== src/Examples/Multicast.antt =====
-- Tests of the multicast listener messages and of the order and text of prefixes.
use odi_mm.Base.{◌≡◌, refl, List, [], ◌∷◌, ℕ, true, false, replicate, some, list_beq}
use odi_mm.Run.{done, undefined}
use odi_mm.Types.{Prefix}
use odi_mm.Types.Order.{prefix_lt, prefix_ne}
use odi_mm.Types.Text.{split_last}
use odi_mm.Icmp.Reports.{Reports, report_parse}
use odi_mm.Icmp.Queries.{max_response_code}

abbrev no_reports : Reports
no_reports = record {
  includes = [];
  excludes = [];
  change_to_includes = [];
  change_to_excludes = [];
  allow_new_sources = [];
  block_old_sources = [];
}

abbrev join : List ℕ
join = 4 ∷ 0 ∷ 0 ∷ 0 ∷ replicate 16 9

-- A count in the order of the host.
report_accepted :
    report_parse (143 ∷ 0 ∷ 0 ∷ 0 ∷ 0 ∷ 0 ∷ 1 ∷ 0 ∷ join) no_reports
    ≡ done (
      true,
      record no_reports {
        change_to_excludes = record { group = replicate 16 9; sources = [] } ∷ [];
      },
    )
unfolding report_parse
report_accepted = refl

-- The same report as the network has it.
report_overrun : report_parse (143 ∷ 0 ∷ 0 ∷ 0 ∷ 0 ∷ 0 ∷ 0 ∷ 1 ∷ join) no_reports ≡ undefined
unfolding report_parse
report_overrun = refl

shortest_exponent : max_response_code 0x8000 ≡ 512
unfolding max_response_code
shortest_exponent = refl

abbrev nowhere : Prefix
nowhere = record { bytes = replicate 16 0; length = 0 }

abbrev half : Prefix
half = record { bytes = replicate 16 0; length = 1 }

nowhere_first : prefix_lt nowhere half ≡ true
unfolding prefix_lt
nowhere_first = refl

neither_ne : prefix_ne nowhere half ≡ false
unfolding prefix_ne list_beq
neither_ne = refl

last_slash : split_last (47 ∷ 58 ∷ 47 ∷ 54 ∷ []) ≡ some (47 ∷ 58 ∷ [], 54 ∷ [])
unfolding split_last
last_slash = refl
