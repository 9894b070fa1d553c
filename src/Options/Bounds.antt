-- ===== src/Options/Bounds.antt =====
-- What the command lines of both programs can set.
use ice40_ultraplus_examples.Base.{
  ℕ, ◌≤◌, ◌<◌, ◌≡◌, refl, ◌⊎◌, inl, inr, Bool, true, false, Option, none, some, List, [], ◌∷◌,
  arith, not, ◌||◌, ◌&&◌, ltb, ◌==◌, branch, ℤ, pos, negsuc,
}
use ice40_ultraplus_examples.Options.{
  RunOptions, Parsed, go_on, leave, max_timeout_ms, is_empty, run_defaults, loader_defaults,
  set_flag, set_idle, set_eof_drain, set_value, set_option, parse_options, parse_args,
  loader_parse_args,
}

-- The timeouts are within their bounds.
pub record InRange (o : RunOptions) : Type 0 where
  pub some_idle : 0 < o.idle_timeout_ms
  pub idle : o.idle_timeout_ms ≤ max_timeout_ms
  pub drain : o.eof_drain_ms ≤ max_timeout_ms

-- The result of a round: options in range, and 1 or -1 if the loop is left.
ParsedWell : Parsed → Type 0
ParsedWell (go_on o) = InRange o
ParsedWell (leave rc o) = InRange o × ((rc ≡ pos 1) ⊎ (rc ≡ negsuc 0))

FlagWell : Option RunOptions → Type 0
FlagWell none = Unit {0}
FlagWell (some o) = InRange o

set_flag-Well : (ch : ℕ) (o : RunOptions) → InRange o → FlagWell (set_flag ch o)
unfolding set_flag FlagWell
set_flag-Well ch o r =
    let keep : (burst probe safe echo line : Bool)
        → InRange (record o {
          use_burst = burst;
          probe_reload = probe;
          reload_safe = safe;
          local_echo = echo;
          echo_newline = line;
        }) =
      λ a b c d e. record { some_idle = r.some_idle; idle = r.idle; drain = r.drain } in
    branch FlagWell (ch == 0x62)
      (λ e. keep true o.probe_reload o.reload_safe o.local_echo o.echo_newline)
      (λ e.
        branch FlagWell (ch == 0x70)
          (λ e. keep o.use_burst true o.reload_safe o.local_echo o.echo_newline)
          (λ e.
            branch FlagWell (ch == 0x72)
              (λ e. keep o.use_burst o.probe_reload true o.local_echo o.echo_newline)
              (λ e.
                branch FlagWell (ch == 1000)
                  (λ e. keep o.use_burst o.probe_reload o.reload_safe true o.echo_newline)
                  (λ e.
                    branch FlagWell (ch == 1001)
                      (λ e. keep o.use_burst o.probe_reload o.reload_safe false o.echo_newline)
                      (λ e.
                        branch FlagWell (ch == 1002)
                          (λ e. keep o.use_burst o.probe_reload o.reload_safe o.local_echo true)
                          (λ e.
                            branch FlagWell (ch == 1003)
                              (λ e.
                                keep o.use_burst o.probe_reload o.reload_safe o.local_echo false)
                              (λ e. tt)))))))

idle_accepted :
    (empty whole : Bool) (value : ℕ)
    → empty || (not whole || (value == 0 || ltb max_timeout_ms value)) ≡ false
    → (0 < value) × (value ≤ max_timeout_ms)
idle_accepted empty whole value e = ground arith

drain_accepted :
    (empty whole : Bool) (value : ℕ)
    → empty || (not whole || ltb max_timeout_ms value) ≡ false
    → value ≤ max_timeout_ms
drain_accepted empty whole value e = ground arith

-- What `parse_args` gives: options in range, and 0 with nothing left, 1 or -1.
unfoldable pub Verdict : (left : Bool) → ℤ × RunOptions → Type 0
Verdict left out =
    InRange out.1 × (((out.0 ≡ pos 0) × (left ≡ false)) ⊎ ((out.0 ≡ pos 1) ⊎ (out.0 ≡ negsuc 0)))

module _ (strtoul : List ℕ → ℕ × Bool) where
  set_idle-Well :
      (optarg : List ℕ) (o : RunOptions) → InRange o → ParsedWell (set_idle strtoul optarg o)
  unfolding set_idle ParsedWell
  set_idle-Well optarg o r =
      let (value, whole) = strtoul optarg in
      branch ParsedWell (is_empty optarg || (not whole || (value == 0 || ltb max_timeout_ms value)))
        {x = leave (negsuc 0) o} (λ refused. (r, inr refl))
        λ accepted.
          let (low, high) = idle_accepted (is_empty optarg) whole value accepted in
          record { some_idle = low; idle = high; drain = r.drain }

  set_eof_drain-Well :
      (optarg : List ℕ) (o : RunOptions) → InRange o → ParsedWell (set_eof_drain strtoul optarg o)
  unfolding set_eof_drain ParsedWell
  set_eof_drain-Well optarg o r =
      let (value, whole) = strtoul optarg in
      branch ParsedWell (is_empty optarg || (not whole || ltb max_timeout_ms value))
        {x = leave (negsuc 0) o} (λ refused. (r, inr refl))
        λ accepted. record {
          some_idle = r.some_idle;
          idle = r.idle;
          drain = drain_accepted (is_empty optarg) whole value accepted;
        }

  set_value-Well :
      (drains : Bool) (ch : ℕ) (optarg : List ℕ) (o : RunOptions)
      → InRange o
      → ParsedWell (set_value strtoul drains ch optarg o)
  unfolding set_value ParsedWell
  set_value-Well drains ch optarg o r =
      branch ParsedWell (ch == 0x66)
        (λ e. record { some_idle = r.some_idle; idle = r.idle; drain = r.drain })
        (λ e.
          branch ParsedWell (ch == 0x69)
            (λ e. record { some_idle = r.some_idle; idle = r.idle; drain = r.drain })
            (λ e.
              branch ParsedWell (ch == 0x74) (λ e. set_idle-Well optarg o r)
                (λ e.
                  branch ParsedWell (drains && ch == 0x65) (λ e. set_eof_drain-Well optarg o r)
                    (λ e.
                      branch ParsedWell (ch == 0x68) (λ e. (r, inl refl)) (λ e. (r, inr refl))))))

  set_option-Well :
      (drains : Bool) (given : ℕ × List ℕ) (o : RunOptions)
      → InRange o
      → ParsedWell (set_option strtoul drains given o)
  unfolding set_option ParsedWell FlagWell
  set_option-Well drains given o r = flagged (set_flag given.0 o) (set_flag-Well given.0 o r)
    where
      flagged :
          (f : Option RunOptions)
          → FlagWell f
          → ParsedWell
              (elim f [ some o' ↦ go_on o' | none ↦ set_value strtoul drains given.0 given.1 o ])
      flagged none w = set_value-Well drains given.0 given.1 o r
      flagged (some o') w = w

  parse_options-Verdict :
      (drains : Bool) (given : List (ℕ × List ℕ)) (left : Bool) (o : RunOptions)
      → InRange o
      → Verdict left (parse_options strtoul drains given left o)
  unfolding parse_options Verdict ParsedWell
  parse_options-Verdict drains [] true o r = (r, inr (inr refl))
  parse_options-Verdict drains [] false o r = (r, inl (refl, refl))
  parse_options-Verdict drains (x ∷ more) left o r =
      next (parse_options-Verdict drains more left) (set_option strtoul drains x o)
        (set_option-Well drains x o r)
    where
      next :
          ((o' : RunOptions)
            → InRange o'
            → Verdict left (parse_options strtoul drains more left o'))
          → (p : Parsed) → ParsedWell p
          → Verdict left (elim p [
            | go_on o' ↦ parse_options strtoul drains more left o'
            | leave rc o' ↦ (rc, o')
          ])
      next again (go_on o') w = again o' w
      next again (leave rc o') (w, code) = (w, inr code)

  -- Whatever the command line, `parse_args` of either program returns 0, 1 or -1, and 0 only if no
  -- argument is left. The idle time is then 1 to 600000 milliseconds and the drain time at most
  -- 600000, also where it returns 1 or -1.
  pub parse_args-Verdict :
      (given : List (ℕ × List ℕ)) (left : Bool)
      → Verdict left (parse_args strtoul given left)
        × Verdict left (loader_parse_args strtoul given left)
  unfolding parse_args loader_parse_args
  parse_args-Verdict given left = (
    parse_options-Verdict true given left run_defaults
        (record { some_idle = omega arith; idle = omega arith; drain = omega arith }),
    parse_options-Verdict false given left loader_defaults
        (record { some_idle = omega arith; idle = omega arith; drain = omega arith }),
  )
