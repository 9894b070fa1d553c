-- ===== src/Tests/Typing.antt =====
-- The line editor at concrete keys.
use ice40_ultraplus_examples.Base.{
  ℕ, ◌≡◌, refl, Bool, true, false, none, List, [], ◌∷◌, ◌++◌, arith, replicate, length-replicate,
  map, pos, negsuc,
}
use ice40_ultraplus_examples.Input.{
  Source, newline, ctrl_d, backspace, read_line, input_source_next, input_source_next_blocking,
}
use ice40_ultraplus_examples.Input.Editing.{LineIs, edit}
use ice40_ultraplus_examples.Input.Lines.{Agrees, read_line-Agrees}
use ice40_ultraplus_examples.Input.Keys.{Plain, read_line-backspace}
use ice40_ultraplus_examples.Input.Bounds.{FromLine, input-FromLine}
use ice40_ultraplus_examples.Input.Delivery.{IsAsking, reads, reads-typed}
use ice40_ultraplus_examples.Input.Eof.{reads-unterminated}

-- "42" and a newline on stdin, or without the newline.
abbrev source : (raw : Bool) → List ℕ → Source
source raw keys = record {
  text = none;
  at = 0;
  eof = false;
  eof_sent = false;
  local_echo = true;
  echo_newline = true;
  line = replicate 1024 0;
  line_len = 0;
  line_pos = 0;
  raw_mode = raw;
  exit_requested = false;
  stdin = keys;
  echoed = [];
}

abbrev keys : List ℕ
keys = b'4' ∷ b'2' ∷ []

Plain-4 : (raw : Bool) → Plain raw true b'4'
Plain-4 true = record {
  no_return = refl;
  no_newline = refl;
  no_eot = refl;
  no_interrupt = refl;
  no_delete = refl;
}
Plain-4 false = record {
  no_return = refl;
  no_newline = refl;
  no_eot = refl;
  no_interrupt = refl;
  no_delete = refl;
}

Plain-2 : Plain false true b'2'
Plain-2 = record {
  no_return = refl;
  no_newline = refl;
  no_eot = refl;
  no_interrupt = refl;
  no_delete = refl;
}

empty_line : (raw : Bool) (ks : List ℕ) → LineIs (source raw ks) []
empty_line raw ks = record {
  size = length-replicate {A = ℕ} 1024 0;
  len = refl;
  small = omega arith;
  contents = refl;
}

read_line-Agrees_example :
    Agrees
      (source true [])
      (read_line true (source true []) (keys ++ newline ∷ []))
      (edit true true [] (keys ++ newline ∷ []))
read_line-Agrees_example =
    read_line-Agrees true true (source true []) [] (keys ++ newline ∷ []) refl (empty_line true [])

read_line-backspace_example :
    Agrees
      (source true [])
      (read_line true (source true []) (b'4' ∷ backspace ∷ newline ∷ []))
      (edit true true [] (newline ∷ []))
read_line-backspace_example =
    read_line-backspace true (source true []) [] (newline ∷ []) b'4' refl (empty_line true [])
      (Plain-4 true) (omega arith)

input-FromLine_example :
    FromLine (input_source_next_blocking (source false keys))
    × FromLine (input_source_next (source false keys))
input-FromLine_example =
    input-FromLine (source false keys)
      (record { size = length-replicate {A = ℕ} 1024 0; small = omega arith; within = omega arith })
      refl

asking : (ks : List ℕ) → IsAsking (source false ks)
asking ks = record { size = length-replicate {A = ℕ} 1024 0; used = omega arith; open_input = refl }

reads-typed_example :
    ((reads true 3 (source false (keys ++ newline ∷ 9 ∷ []))).0 ≡ map pos (keys ++ newline ∷ []))
    × ((reads true 3 (source false (keys ++ newline ∷ 9 ∷ []))).1.stdin ≡ 9 ∷ [])
reads-typed_example =
    reads-typed true (source false (keys ++ newline ∷ 9 ∷ [])) keys (9 ∷ []) (asking _) refl
      (Plain-4 false, (Plain-2, tt)) (omega arith)

reads-unterminated_example :
    (reads true 3 (source false keys)).0 ≡ pos ctrl_d ∷ replicate 2 (negsuc 0)
reads-unterminated_example =
    reads-unterminated true (source false keys) 2 (asking _) (Plain-4 false, (Plain-2, tt))
