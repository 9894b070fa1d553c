-- ===== src/Input/Keys.antt =====
-- What the line editor makes of some sequences of keys.
use ice40_ultraplus_examples.Base.{
  ℕ, ◌-◌, ◌<◌, ◌≡◌, refl, ap, ◌∙◌, Bool, true, false, List, [], ◌∷◌, ◌++◌, ◌&&◌, ◌||◌, arith, ◌==◌,
  length, take, take-snoc, take-append, append_assoc, append-nil, pos, lt→ltb, length-append,
}
use ice40_ultraplus_examples.Input.{
  Source, read_line, input_line_max, newline, carriage_return, ctrl_c, ctrl_d, backspace, delete,
}
use ice40_ultraplus_examples.Input.Editing.{store, drop_last, ended, eot, edit, LineIs}
use ice40_ultraplus_examples.Input.Lines.{Agrees, read_line-Agrees}

-- A key that the editor only stores.
pub record Plain (raw stops : Bool) (c : ℕ) : Type 0 where
  pub no_return : (c == carriage_return) ≡ false
  pub no_newline : (c == newline) ≡ false
  pub no_eot : (c == ctrl_d) ≡ false
  pub no_interrupt : (stops && (c == ctrl_c)) ≡ false
  pub no_delete : (raw && (c == backspace || c == delete)) ≡ false

abbrev pub AllPlain : (raw stops : Bool) → List ℕ → Type 0
AllPlain raw stops [] = Unit {0}
AllPlain raw stops (c ∷ cs) = Plain raw stops c × AllPlain raw stops cs

-- The part of a line that the buffer keeps.
abbrev pub clip : List ℕ → List ℕ
clip = take (input_line_max - 1)

module _ (raw stops : Bool) where
  edit-Plain :
      (acc cs : List ℕ) (c : ℕ)
      → Plain raw stops c
      → edit raw stops acc (c ∷ cs) ≡ edit raw stops (store acc c) cs
  unfolding edit
  edit-Plain acc cs c p = rw (p.no_return, p.no_interrupt, p.no_delete, p.no_eot, p.no_newline)

  edit-newline : (acc cs : List ℕ) → edit raw stops acc (newline ∷ cs) ≡ ended acc cs
  unfolding edit
  edit-newline acc cs = ground arith

  -- Plain keys and a newline give that line, cut at 1023 characters.
  pub edit-typed :
      (full keys rest : List ℕ)
      → AllPlain raw stops keys
      → edit raw stops (clip full) (keys ++ newline ∷ rest) ≡ record {
        line = clip (full ++ keys ++ newline ∷ []);
        rest = rest;
        code = pos 0;
        met_eof = false;
      }
  unfolding ended store
  edit-typed full [] rest p =
      edit-newline (clip full) rest
      ∙ ap (λ l. record { line = l; rest = rest; code = pos 0; met_eof = false })
          (take-snoc (input_line_max - 1) full newline ∙ rw append-nil)
  edit-typed full (c ∷ keys) rest (p, ps) =
      edit-Plain (clip full) (keys ++ newline ∷ rest) c p
      ∙ ap (λ l. edit raw stops l (keys ++ newline ∷ rest)) (take-snoc (input_line_max - 1) full c)
      ∙ edit-typed (full ++ c ∷ []) keys rest ps
      ∙ ap
          (λ l. record {
            line = clip (l ++ newline ∷ []);
            rest = rest;
            code = pos 0;
            met_eof = false;
          })
          (append_assoc full (c ∷ []) keys)

  -- Plain keys and then EOF give the end-of-transmission byte alone.
  pub edit-unterminated :
      (acc keys : List ℕ) → AllPlain raw stops keys → edit raw stops acc keys ≡ eot [] true
  unfolding eot
  edit-unterminated acc [] p = unfold edit in refl
  edit-unterminated acc (c ∷ keys) (p, ps) =
      edit-Plain acc keys c p ∙ edit-unterminated (store acc c) keys ps

edit-erase :
    (stops : Bool) (acc cs : List ℕ)
    → edit true stops acc (backspace ∷ cs) ≡ edit true stops (drop_last acc) cs
unfolding edit
edit-erase true acc cs = refl
edit-erase false acc cs = refl

drop_last-store :
    (acc : List ℕ) (c : ℕ) → length acc < input_line_max - 1 → drop_last (store acc c) ≡ acc
unfolding drop_last store
drop_last-store acc c room = rw (lt→ltb (length acc) _ room) (
    ap (λ n. take n (acc ++ c ∷ [])) (omega (arith, length-append acc (c ∷ [])))
    ∙ take-append acc (c ∷ []))

-- In raw mode a backspace takes back the key before it, if that was stored.
pub edit-backspace :
    (stops : Bool) (acc cs : List ℕ) (c : ℕ)
    → Plain true stops c
    → length acc < input_line_max - 1
    → edit true stops acc (c ∷ backspace ∷ cs) ≡ edit true stops acc cs
edit-backspace stops acc cs c p room =
    edit-Plain true stops acc (backspace ∷ cs) c p
    ∙ edit-erase stops (store acc c) cs
    ∙ ap (λ l. edit true stops l cs) (drop_last-store acc c room)

-- In raw mode, with room in the line: a plain key and a backspace behind it leave the line, the
-- keys not read, the result code and the EOF mark that the keys after them give.
pub read_line-backspace :
    (stops : Bool) (s : Source) (acc cs : List ℕ) (c : ℕ)
    → s.raw_mode ≡ true
    → LineIs s acc
    → Plain true stops c
    → length acc < input_line_max - 1
    → Agrees s (read_line stops s (c ∷ backspace ∷ cs)) (edit true stops acc cs)
read_line-backspace stops s acc cs c raw v p room =
    rw (← edit-backspace stops acc cs c p room)
      (read_line-Agrees stops true s acc (c ∷ backspace ∷ cs) raw v)
