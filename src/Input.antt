-- ===== src/Input.antt =====
-- The input side of comet2_spi_run.c and comet2_spi_loader.c: the characters for the COMET II come
-- from the text of the option -i, or from stdin through a line editor. `fgetc` is the list of the
-- characters still to come, with EOF behind them; the program's own output goes to `echoed`.
pub mod Bounds
pub mod Editing
pub mod Lines
pub mod Keys
pub mod Delivery
pub mod Eof
use ice40_ultraplus_examples.Base.{
  ℕ, zero, suc, ◌+◌, ◌-◌, Bool, true, false, Option, none, some, List, [], ◌∷◌, ◌++◌, not, ◌&&◌,
  ◌||◌, ltb, leb, ◌==◌, if◌then◌else◌, get_or, set, length, ℤ, pos, negsuc,
}

-- INPUT_LINE_MAX
abbrev pub input_line_max : ℕ
input_line_max = 1024

-- `struct input_source`, with the program's other state that the input functions touch: the
-- globals `g_raw_mode` and `g_exit_requested`, stdin and stdout.
pub record Source : Type 0 where
  pub text : Option (List ℕ)
  pub at : ℕ
  pub eof : Bool
  pub eof_sent : Bool
  pub local_echo : Bool
  pub echo_newline : Bool
  pub line : List ℕ
  pub line_len : ℕ
  pub line_pos : ℕ
  pub raw_mode : Bool
  pub exit_requested : Bool
  pub stdin : List ℕ
  pub echoed : List ℕ

abbrev pub newline : ℕ
newline = 0x0a

abbrev pub carriage_return : ℕ
carriage_return = 0x0d

abbrev pub ctrl_c : ℕ
ctrl_c = 0x03

abbrev pub ctrl_d : ℕ
ctrl_d = 0x04

abbrev pub backspace : ℕ
backspace = 0x08

abbrev pub delete : ℕ
delete = 0x7f

-- `putchar(c)`
abbrev pub put : Source → ℕ → Source
put s c = record s { echoed = s.echoed ++ c ∷ [] }

-- `src->line[0] = 0x04; src->line_len = 1;`
abbrev pub only_eot : Source → Source
only_eot s = record s { line = set s.line 0 ctrl_d; line_len = 1 }

-- `fgetc` returned EOF.
unfoldable pub at_eof : Source → Source
at_eof s =
    let t = record s { eof = true } in
    only_eot (if s.raw_mode && (s.local_echo && s.echo_newline) then put t newline else t)

-- A backspace in raw mode: the last character goes, and "\b \b" is written.
unfoldable pub erase : Source → Source
erase s = if s.line_len == 0 then s else record s {
  line_len = s.line_len - 1;
  echoed = s.echoed ++ backspace ∷ 0x20 ∷ backspace ∷ [];
}

-- An ordinary character is echoed, and stored if there is room.
unfoldable pub accept : Source → ℕ → Source
accept s c =
    let t =
      if s.raw_mode && (s.local_echo && (not (c == newline) || s.echo_newline))
      then put s c
      else s in
    if ltb s.line_len (input_line_max - 1)
    then record t { line = set s.line s.line_len c; line_len = s.line_len + 1 }
    else t

-- What the loop does with a character: it goes on, or it is done with a result code.
pub data Step : Type 0 where
  next : Source → Step
  stop : Source → ℤ → Step

-- The end of the loop body: a newline ends the line.
unfoldable pub take_char : Source → ℕ → Step
take_char s c = if c == newline then stop (accept s c) (pos 0) else next (accept s c)

-- The loop body from the backspace test on.
unfoldable pub edit_char : Source → ℕ → Step
unfolding take_char
edit_char s c =
    if s.raw_mode && (c == backspace || c == delete)
    then next (erase s)
    else if c == ctrl_d
    then if s.line_len == 0 then stop (only_eot s) (pos 0) else take_char s newline
    else take_char s c

-- `if (c == '\r') c = '\n';`
abbrev pub unify_newline : ℕ → ℕ
unify_newline c = if c == carriage_return then newline else c

-- comet2_spi_run.c also stops at Ctrl-C.
unfoldable pub read_char : (stops_at_ctrl_c : Bool) → Source → ℕ → Step
unfolding edit_char
read_char stops_at_ctrl_c s c =
    if stops_at_ctrl_c && (unify_newline c == ctrl_c)
    then stop (record s { exit_requested = true }) (negsuc 0)
    else edit_char s (unify_newline c)

-- The `for (;;)` loop, over the characters that `fgetc` gives.
unfoldable pub read_line : (stops_at_ctrl_c : Bool) → Source → List ℕ → Source × ℤ
unfolding read_char at_eof
read_line stops s [] = (record (at_eof s) { stdin = [] }, pos 0)
read_line stops s (c ∷ cs) = elim (read_char stops s c) [
  | next t ↦ read_line stops t cs
  | stop t rc ↦ (record t { stdin = cs }, rc)
]

unfoldable pub refill_interactive_line : (stops_at_ctrl_c : Bool) → Source → Source × ℤ
refill_interactive_line stops s =
    let t = record s { line_len = 0; line_pos = 0 } in
    if s.eof
    then if s.eof_sent then (t, negsuc 0) else (only_eot t, pos 0)
    else read_line stops t s.stdin

-- `src->line[src->line_pos++]`, with the note that the synthetic 0x04 went out.
unfoldable pub next_of_line : Source → Source × ℤ
next_of_line s =
    let ch = get_or s.line s.line_pos 0 in
    let t = record s { line_pos = s.line_pos + 1 } in
    (if ch == ctrl_d then record t { eof_sent = true } else t, pos ch)

-- The text of -i, then newlines. The NUL that ends the text stands behind its characters.
unfoldable pub next_of_text : List ℕ → Source → Source × ℤ
next_of_text text s =
    if ltb s.at (length text)
    then (record s { at = s.at + 1 }, pos (get_or text s.at 0))
    else (s, pos newline)

unfoldable pub next_of_stdin : (stops_at_ctrl_c : Bool) → Source → Source × ℤ
next_of_stdin stops s =
    let (t, rc) = refill_interactive_line stops s in
    if leb s.line_len s.line_pos
    then elim rc [ negsuc n ↦ (t, negsuc 0) | pos n ↦ next_of_line t ]
    else next_of_line s

-- `input_source_next_blocking` of comet2_spi_run.c: the next character, or -1.
unfoldable pub input_source_next_blocking : Source → Source × ℤ
unfolding next_of_text next_of_stdin
input_source_next_blocking s = elim s.text [
  | some text ↦ next_of_text text s
  | none ↦ next_of_stdin true s
]

-- `input_source_next` of comet2_spi_loader.c.
unfoldable pub input_source_next : Source → Source × ℤ
unfolding next_of_text next_of_stdin
input_source_next s = elim s.text [ some text ↦ next_of_text text s | none ↦ next_of_stdin false s ]
