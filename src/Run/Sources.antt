-- ===== src/Run/Sources.antt =====
-- The input functions of comet2_spi_run.c never get more to read, and are silent outside raw mode.
use ice40_ultraplus_examples.Base.{
  ℕ, ◌+◌, ◌-◌, ◌≤◌, ◌≡◌, refl, sym, subst, ◌∙◌, ◌⊎◌, inl, inr, Bool, true, false, Option, none,
  some, List, [], ◌∷◌, arith, not, ltb, leb, ◌==◌, if◌then◌else◌, length, get_or, branch, ℤ, pos,
  negsuc,
}
use ice40_ultraplus_examples.Input.{
  put, Source, ctrl_d, only_eot, read_line, refill_interactive_line, next_of_line, next_of_text,
  next_of_stdin, input_source_next_blocking,
}
use ice40_ultraplus_examples.Run.{poll_text, meet_end, take_key}
use ice40_ultraplus_examples.Run.Lines.{Same, Same-of_fields, Same-trans, read_line-ReadFrom}

-- How many characters polling can still get, the end of the input counted as one.
unfoldable pub text_inputs : Option (List ℕ) → Source → ℕ
text_inputs (some text) s = (length text - s.at) + (if s.eof then 0 else 1)
text_inputs none s = if s.eof then 0 else length s.stdin + 1

unfoldable pub inputs : Source → ℕ
unfolding text_inputs
inputs s = text_inputs s.text s

text_inputs-put :
    (s : Source) (c : ℕ) (text : Option (List ℕ)) → text_inputs text (put s c) ≡ text_inputs text s
unfolding text_inputs
text_inputs-put s c none = refl
text_inputs-put s c (some text) = refl

pub inputs-put : (s : Source) (c : ℕ) → inputs (put s c) ≡ inputs s
unfolding inputs
inputs-put s c = text_inputs-put s c s.text

-- The constant fields, and what polling can still get.
pub record Spent (s t : Source) : Type 0 where
  pub text : t.text ≡ s.text
  pub raw_mode : t.raw_mode ≡ s.raw_mode
  pub fewer : inputs t ≤ inputs s
  pub quiet : s.raw_mode ≡ false → t.echoed ≡ s.echoed

fewer_of :
    (s t : Source)
    → t.at ≡ s.at
    → (t.eof ≡ s.eof) ⊎ (t.eof ≡ true)
    → length t.stdin ≤ length s.stdin
    → (text : Option (List ℕ)) → text_inputs text t ≤ text_inputs text s
unfolding text_inputs
fewer_of s t at eof keys none = ground arith
fewer_of s t at eof keys (some text) = ground arith

Spent-of_Same : (s t : Source) → Same s t → length t.stdin ≤ length s.stdin → Spent s t
unfolding inputs
Spent-of_Same s t same keys = record {
  text = same.text;
  raw_mode = same.raw_mode;
  fewer =
      subst (λ k. text_inputs k t ≤ text_inputs s.text s) (sym same.text)
        (fewer_of s t same.at same.eof keys s.text);
  quiet = same.quiet;
}

pub Spent-refl : (s : Source) → Spent s s
Spent-refl s = record { text = refl; raw_mode = refl; fewer = omega arith; quiet = λ r. refl }

Spent-trans : {s t u : Source} → Spent s t → Spent t u → Spent s u
Spent-trans p q = record {
  text = q.text ∙ p.text;
  raw_mode = q.raw_mode ∙ p.raw_mode;
  fewer = omega (arith, p.fewer, q.fewer);
  quiet = λ r. q.quiet (p.raw_mode ∙ r) ∙ p.quiet r;
}

refill-Spent : (stops : Bool) (s : Source) → Spent s (refill_interactive_line stops s).0
unfolding refill_interactive_line
refill-Spent stops s =
    let begun = record s { line_len = 0; line_pos = 0 } in
    let same : Same s begun = (Same-of_fields _ _ refl refl refl refl refl) in
    branch (λ (out : Source × ℤ). Spent s out.0) s.eof
      (λ e.
        branch (λ (out : Source × ℤ). Spent s out.0) s.eof_sent
          (λ sent. Spent-of_Same s begun same (omega arith))
          (λ unsent.
            Spent-of_Same s (only_eot begun) ((Same-of_fields _ _ refl refl refl refl refl))
              (omega arith)))
      (λ e.
        let r = read_line-ReadFrom stops begun s.stdin in
        Spent-of_Same s (read_line stops begun s.stdin).0 (Same-trans same r.same) r.fewer)

next_of_line-Spent : (s : Source) → Spent s (next_of_line s).0
unfolding next_of_line
next_of_line-Spent s =
    branch (λ t. Spent s t) (get_or s.line s.line_pos 0 == ctrl_d)
      (λ e. Spent-of_Same s _ ((Same-of_fields _ _ refl refl refl refl refl)) (omega arith))
      (λ e. Spent-of_Same s _ ((Same-of_fields _ _ refl refl refl refl refl)) (omega arith))

next_of_stdin-Spent : (stops : Bool) (s : Source) → Spent s (next_of_stdin stops s).0
unfolding next_of_stdin
next_of_stdin-Spent stops s =
    branch (λ (out : Source × ℤ). Spent s out.0) (leb s.line_len s.line_pos)
      (λ used. refilled (refill_interactive_line stops s) (refill-Spent stops s))
      (λ unread. next_of_line-Spent s)
  where
    refilled :
        (out : Source × ℤ)
        → Spent s out.0
        → Spent s
            (let r : Source × ℤ = elim out.1 [
              | negsuc n ↦ (out.0, negsuc 0)
              | pos n ↦ next_of_line out.0
            ] in
              r).0
    refilled (t, pos n) p = Spent-trans p (next_of_line-Spent t)
    refilled (t, negsuc n) p = p

next_of_text-Spent :
    (text : List ℕ) (s : Source) → s.text ≡ some text → Spent s (next_of_text text s).0
unfolding next_of_text inputs text_inputs
next_of_text-Spent text s e = ground arith

-- A character on request.
pub input_source_next_blocking-Spent : (s : Source) → Spent s (input_source_next_blocking s).0
unfolding input_source_next_blocking
input_source_next_blocking-Spent s = by_text s.text refl
  where
    by_text :
        (text : Option (List ℕ))
        → s.text ≡ text
        → Spent s
            (let r : Source × ℤ = elim text [
              | some text ↦ next_of_text text s
              | none ↦ next_of_stdin true s
            ] in
              r).0
    by_text none e = next_of_stdin-Spent true s
    by_text (some text) e = next_of_text-Spent text s e

-- A poll that finds a character, or Ctrl-C.
pub record Found (s t : Source) : Type 0 where
  pub text : t.text ≡ s.text
  pub raw_mode : t.raw_mode ≡ s.raw_mode
  pub fewer : inputs t + 1 ≤ inputs s
  pub quiet : s.raw_mode ≡ false → t.echoed ≡ s.echoed

pub take_key-Found :
    (s : Source)
    → s.text ≡ none
    → s.eof ≡ false
    → (keys : List ℕ) → s.stdin ≡ keys
    → Found s (take_key s keys).0
unfolding take_key meet_end inputs text_inputs
take_key-Found s e f [] k = ground arith
take_key-Found s e f (c ∷ cs) k = ground arith

-- A poll of the text finds a character, or its end has been told.
pub poll_text-Found :
    (text : List ℕ) (s : Source)
    → s.text ≡ some text
    → Found s (poll_text text s).0 ⊎ (poll_text text s ≡ (s, negsuc 0))
unfolding poll_text inputs text_inputs
poll_text-Found text s e =
    branch (λ out. Found s out.0 ⊎ (out ≡ (s, negsuc 0))) (ltb s.at (length text))
      (λ more. inl (ground arith))
      (λ all.
        branch (λ out. Found s out.0 ⊎ (out ≡ (s, negsuc 0))) (not s.eof)
          (λ untold. inl (ground arith)) (λ told. inr refl))
