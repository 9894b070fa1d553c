-- ===== src/Run/Lines.antt =====
-- What the line editor of comet2_spi_run.c leaves alone.
use ice40_ultraplus_examples.Base.{
  ℕ, ◌≤◌, ◌≡◌, refl, ◌∙◌, ◌⊎◌, inl, inr, Bool, true, false, List, [], ◌∷◌, arith, ◌&&◌, ◌==◌,
  length, branch, ℤ,
}
use ice40_ultraplus_examples.Input.{
  Source, newline, ctrl_c, at_eof, erase, accept, Step, next, stop, unify_newline, take_char,
  edit_char, read_char, read_line,
}

-- What editing a line leaves alone; the end of the input is not taken back.
pub record Same (s t : Source) : Type 0 where
  pub text : t.text ≡ s.text
  pub raw_mode : t.raw_mode ≡ s.raw_mode
  pub at : t.at ≡ s.at
  pub eof : (t.eof ≡ s.eof) ⊎ (t.eof ≡ true)
  pub quiet : s.raw_mode ≡ false → t.echoed ≡ s.echoed

pub Same-of_fields :
    (s t : Source)
    → t.text ≡ s.text
    → t.raw_mode ≡ s.raw_mode
    → t.at ≡ s.at
    → t.eof ≡ s.eof
    → t.echoed ≡ s.echoed
    → Same s t
Same-of_fields s t text raw_mode at eof echoed = record {
  text = text;
  raw_mode = raw_mode;
  at = at;
  eof = inl eof;
  quiet = λ r. echoed;
}

pub Same-trans : {s t u : Source} → Same s t → Same t u → Same s u
Same-trans p q = record {
  text = q.text ∙ p.text;
  raw_mode = q.raw_mode ∙ p.raw_mode;
  at = q.at ∙ p.at;
  eof = elim q.eof [
    | inl e ↦ elim p.eof [ inl e' ↦ inl (e ∙ e') | inr e' ↦ inr (e ∙ e') ]
    | inr e ↦ inr e
  ];
  quiet = λ r. q.quiet (p.raw_mode ∙ r) ∙ p.quiet r;
}

erase-Same : (s : Source) → s.raw_mode ≡ true → Same s (erase s)
unfolding erase
erase-Same s r = ground arith

accept-Same : (s : Source) (c : ℕ) → Same s (accept s c)
unfolding accept
accept-Same s c = ground arith

-- The source behind a step.
abbrev after : Step → Source
after (next t) = t
after (stop t rc) = t

take_char-Same : (s : Source) (c : ℕ) → Same s (after (take_char s c))
unfolding take_char
take_char-Same s c =
    branch (λ k. Same s (after k)) (c == newline) (λ e. accept-Same s c) (λ e. accept-Same s c)

edit_char-Same : (s : Source) (c : ℕ) → Same s (after (edit_char s c))
unfolding edit_char
edit_char-Same s c = ground (arith, erase-Same s, take_char-Same s c, take_char-Same s newline)

read_char-Same : (stops : Bool) (s : Source) (c : ℕ) → Same s (after (read_char stops s c))
unfolding read_char
read_char-Same stops s c =
    branch (λ k. Same s (after k)) (stops && (unify_newline c == ctrl_c))
      (λ e. (Same-of_fields _ _ refl refl refl refl refl)) (λ e. edit_char-Same s (unify_newline c))

at_eof-Same : (s : Source) → Same s (at_eof s)
unfolding at_eof
at_eof-Same s = ground arith

-- A line takes only keys away.
pub record ReadFrom (s : Source) (keys : List ℕ) (out : Source × ℤ) : Type 0 where
  pub same : Same s out.0
  pub fewer : length out.0.stdin ≤ length keys

pub read_line-ReadFrom :
    (stops : Bool) (s : Source) (keys : List ℕ) → ReadFrom s keys (read_line stops s keys)
unfolding read_line
read_line-ReadFrom stops s [] = record {
  same = Same-trans (at_eof-Same s) ((Same-of_fields _ _ refl refl refl refl refl));
  fewer = omega arith;
}
read_line-ReadFrom stops s (c ∷ cs) =
    step (read_char stops s c) (read_char-Same stops s c) (λ t. read_line-ReadFrom stops t cs)
  where
    step :
        (k : Step)
        → Same s (after k)
        → ((t : Source) → ReadFrom t cs (read_line stops t cs))
        → ReadFrom s
            (c ∷ cs)
            (elim k [ next t ↦ read_line stops t cs | stop t rc ↦ (record t { stdin = cs }, rc) ])
    step (next t) same again = record {
      same = Same-trans same (again t).same;
      fewer = omega (arith, (again t).fewer);
    }
    step (stop t rc) same again = record {
      same = Same-trans same ((Same-of_fields _ _ refl refl refl refl refl));
      fewer = omega arith;
    }
