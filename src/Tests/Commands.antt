-- ===== src/Tests/Commands.antt =====
-- Concrete command lines.
use ice40_ultraplus_examples.Base.{
  ℕ, ◌≡◌, refl, Bool, true, false, List, [], ◌∷◌, ◌*◌, ◌+◌, ◌-◌, pos, negsuc, if◌then◌else◌, ◌&&◌,
  ltb, leb,
}
use ice40_ultraplus_examples.Options.{
  run_defaults, set_flag, set_idle, set_value, set_option, parse_options, parse_args,
  loader_parse_args,
}
use ice40_ultraplus_examples.Options.Bounds.{Verdict, parse_args-Verdict}

-- A decimal `strtoul`.
abbrev decimal_from : ℕ → List ℕ → ℕ × Bool
decimal_from n [] = (n, true)
decimal_from n (c ∷ cs) =
    let rest = decimal_from (n * 10 + (c - 0x30)) cs in
    if leb 0x30 c && ltb c 0x3a then rest else (n, false)

abbrev decimal : List ℕ → ℕ × Bool
decimal = decimal_from 0

-- -b -t 50
abbrev burst_50 : List (ℕ × List ℕ)
burst_50 = (0x62, []) ∷ (0x74, 0x35 ∷ 0x30 ∷ []) ∷ []

burst_50_read :
    parse_args decimal burst_50 false
    ≡ (pos 0, record run_defaults { use_burst = true; idle_timeout_ms = 50 })
unfolding parse_args parse_options set_option set_flag set_value set_idle
burst_50_read = refl

-- -t 0 is refused, and so is -e by the loader.
refused :
    ((parse_args decimal ((0x74, 0x30 ∷ []) ∷ []) false).0 ≡ negsuc 0)
    × ((loader_parse_args decimal ((0x65, 0x35 ∷ []) ∷ []) false).0 ≡ negsuc 0)
unfolding parse_args loader_parse_args parse_options set_option set_flag set_value set_idle
refused = (refl, refl)

parse_args-Verdict_example :
    Verdict false (parse_args decimal burst_50 false)
    × Verdict false (loader_parse_args decimal burst_50 false)
parse_args-Verdict_example = parse_args-Verdict decimal burst_50 false
