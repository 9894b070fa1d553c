-- ===== src/Input/Lines.antt =====
-- `read_line` fills the buffer as the description on lists says.
use ice40_ultraplus_examples.Base.{
  ℕ, ◌≡◌, refl, ap, ==→eq, ◌∙◌, Bool, true, false, List, [], ◌∷◌, ◌&&◌, ◌||◌, arith, ◌==◌, length,
  Bool-cases, inl, inr, ℤ, pos, negsuc,
}
use ice40_ultraplus_examples.Input.{
  Source, input_line_max, newline, ctrl_c, ctrl_d, backspace, delete, only_eot, at_eof, erase,
  accept, next, stop, unify_newline, read_char, read_line,
}
use ice40_ultraplus_examples.Input.Editing.{
  Edited, store, drop_last, ended, eot, edit, LineIs, only_eot-LineIs, erase-LineIs, accept-LineIs,
}

-- The fields that the editor leaves alone while a line is open.
pub record Kept (s t : Source) : Type 0 where
  pub raw_mode : t.raw_mode ≡ s.raw_mode
  pub eof : t.eof ≡ s.eof
  pub eof_sent : t.eof_sent ≡ s.eof_sent
  pub line_pos : t.line_pos ≡ s.line_pos

erase-Kept : (s : Source) → Kept s (erase s)
unfolding erase
erase-Kept s = ground arith

accept-Kept : (s : Source) (c : ℕ) → Kept s (accept s c)
unfolding accept
accept-Kept s c = ground arith

-- The state and the code after a line agree with the description `e`.
pub record Agrees (s : Source) (out : Source × ℤ) (e : Edited) : Type 0 where
  pub line : LineIs out.0 e.line
  pub rest : out.0.stdin ≡ e.rest
  pub code : out.1 ≡ e.code
  pub eof : out.0.eof ≡ (e.met_eof || s.eof)
  pub eof_sent : out.0.eof_sent ≡ s.eof_sent
  pub line_pos : out.0.line_pos ≡ s.line_pos

Agrees-of_Kept :
    {s t : Source} {out : Source × ℤ} {e : Edited} → Kept s t → Agrees t out e → Agrees s out e
Agrees-of_Kept k a = record {
  line = a.line;
  rest = a.rest;
  code = a.code;
  eof = a.eof ∙ rw k.eof;
  eof_sent = a.eof_sent ∙ k.eof_sent;
  line_pos = a.line_pos ∙ k.line_pos;
}

-- A newline ends the line.
Agrees-ended :
    (s : Source) (acc cs : List ℕ)
    → LineIs s acc
    → Agrees s (record (accept s newline) { stdin = cs }, pos 0) (ended acc cs)
unfolding ended
Agrees-ended s acc cs v =
    let k = accept-Kept s newline in
    record {
      line = accept-LineIs s newline acc v;
      rest = refl;
      code = refl;
      eof = k.eof;
      eof_sent = k.eof_sent;
      line_pos = k.line_pos;
    }

-- EOF, after any keys.
Agrees-eof :
    (s : Source) (acc : List ℕ)
    → LineIs s acc
    → Agrees s (record (at_eof s) { stdin = [] }, pos 0) (eot [] true)
unfolding at_eof eot
Agrees-eof s acc v = elim (Bool-cases (s.raw_mode && (s.local_echo && s.echo_newline))) [
  | inl e ↦ rw e (record {
    line = only_eot-LineIs s v.size;
    rest = refl;
    code = refl;
    eof = refl;
    eof_sent = refl;
    line_pos = refl;
  })
  | inr e ↦ rw e (record {
    line = only_eot-LineIs s v.size;
    rest = refl;
    code = refl;
    eof = refl;
    eof_sent = refl;
    line_pos = refl;
  })
]

-- Ctrl-D on an empty line.
Agrees-eot :
    (s : Source) (cs : List ℕ)
    → length s.line ≡ input_line_max
    → Agrees s (record (only_eot s) { stdin = cs }, pos 0) (eot cs false)
unfolding eot
Agrees-eot s cs size = record {
  line = only_eot-LineIs s size;
  rest = refl;
  code = refl;
  eof = refl;
  eof_sent = refl;
  line_pos = refl;
}

read_line-next :
    (stops : Bool) (s t : Source) (c : ℕ) (cs : List ℕ)
    → read_char stops s c ≡ next t
    → read_line stops s (c ∷ cs) ≡ read_line stops t cs
unfolding read_line
read_line-next stops s t c cs e = rw (e, read_line)

read_line-stop :
    (stops : Bool) (s t : Source) (rc : ℤ) (c : ℕ) (cs : List ℕ)
    → read_char stops s c ≡ stop t rc
    → read_line stops s (c ∷ cs) ≡ (record t { stdin = cs }, rc)
unfolding read_line
read_line-stop stops s t rc c cs e = rw (e, read_line)

-- From a buffer that holds the line `acc`, the loop leaves what `edit` says: the line, the keys not
-- read, the result code, and whether EOF was met.
pub read_line-Agrees :
    (stops raw : Bool) (s : Source) (acc keys : List ℕ)
    → s.raw_mode ≡ raw
    → LineIs s acc
    → Agrees s (read_line stops s keys) (edit raw stops acc keys)
unfolding edit read_char
read_line-Agrees stops raw s acc [] r v = unfold read_line in Agrees-eof s acc v
read_line-Agrees stops raw s acc (c ∷ cs) r v =
    let k = unify_newline c in
    elim (Bool-cases (stops && (k == ctrl_c))) [
      | inl cc_key ↦
          rw
            (
              read_line-stop stops s (record s { exit_requested = true }) (negsuc 0) c cs
                  (rw cc_key),
              cc_key,
            )
            (record {
              line = v;
              rest = refl;
              code = refl;
              eof = refl;
              eof_sent = refl;
              line_pos = refl;
            })
      | inr no_c ↦ elim (Bool-cases (raw && (k == backspace || k == delete))) [
        | inl del ↦
            rw (read_line-next stops s (erase s) c cs (rw (no_c, r, del)), no_c, del)
              (Agrees-of_Kept (erase-Kept s) (
                read_line-Agrees stops raw (erase s) (drop_last acc) cs
                  ((erase-Kept s).raw_mode ∙ r) (erase-LineIs s acc v)))
        | inr no_del ↦ elim (Bool-cases (k == ctrl_d)) [
          | inl d ↦ elim (Bool-cases (length acc == 0)) [
            | inl z ↦
                rw
                  (
                    read_line-stop stops s (only_eot s) (pos 0) c cs
                        (rw (no_c, r, no_del, d, v.len, z)),
                    no_c,
                    no_del,
                    d,
                    z,
                  )
                  (Agrees-eot s cs v.size)
            | inr nz ↦
                rw
                  (
                    read_line-stop stops s (accept s newline) (pos 0) c cs
                        (rw (no_c, r, no_del, d, v.len, nz)),
                    no_c,
                    no_del,
                    d,
                    nz,
                  )
                  (Agrees-ended s acc cs v)
          ]
          | inr no_d ↦ elim (Bool-cases (k == newline)) [
            | inl nl ↦
                let no_del' : (s.raw_mode && (k == backspace || k == delete)) ≡ false =
                  rw r no_del in
                let ends : read_char stops s c ≡ stop (accept s newline) (pos 0) =
                  rw (no_c, no_del', no_d, nl)
                    (ap (λ x. stop (accept s x) (pos 0)) (==→eq k newline nl)) in
                rw
                  (
                    read_line-stop stops s (accept s newline) (pos 0) c cs ends,
                    no_c,
                    no_del,
                    no_d,
                    nl,
                  )
                  (Agrees-ended s acc cs v)
            | inr no_nl ↦
                rw
                  (
                    read_line-next stops s (accept s k) c cs (rw (no_c, r, no_del, no_d, no_nl)),
                    no_c,
                    no_del,
                    no_d,
                    no_nl,
                  )
                  (Agrees-of_Kept (accept-Kept s k) (
                    read_line-Agrees stops raw (accept s k) (store acc k) cs
                      ((accept-Kept s k).raw_mode ∙ r) (accept-LineIs s k acc v)))
          ]
        ]
      ]
    ]
