-- ===== src/Input/Editing.antt =====
-- The line editor against a description on lists: what a line holds after some keys.
use ice40_ultraplus_examples.Base.{
  ℕ, ◌+◌, ◌-◌, ◌≤◌, ◌≡◌, refl, sym, subst, ap, ◌∙◌, Bool, true, false, List, [], ◌∷◌, ◌++◌, ◌&&◌,
  ◌||◌, arith, ltb, ◌==◌, if◌then◌else◌, set, length, take, take-set, take-take, length-set,
  length-append, length-take, Bool-cases, ltb→lt, inl, inr, ℤ, pos, negsuc,
}
use native.Mathlib.Numerals.{add-one}
use ice40_ultraplus_examples.Input.{
  Source, input_line_max, newline, ctrl_c, ctrl_d, backspace, delete, only_eot, erase, accept,
  unify_newline,
}

-- A line, the keys that are left, the result code, and whether EOF was met.
pub record Edited : Type 0 where
  pub line : List ℕ
  pub rest : List ℕ
  pub code : ℤ
  pub met_eof : Bool

-- A line takes at most 1023 characters; those behind are dropped.
unfoldable pub store : List ℕ → ℕ → List ℕ
store acc c = if ltb (length acc) (input_line_max - 1) then acc ++ c ∷ [] else acc

unfoldable pub drop_last : List ℕ → List ℕ
drop_last acc = take (length acc - 1) acc

-- A line that ends in a newline.
unfoldable pub ended : List ℕ → List ℕ → Edited
ended acc rest = record { line = store acc newline; rest = rest; code = pos 0; met_eof = false }

-- A line that holds the end-of-transmission byte alone.
unfoldable pub eot : List ℕ → Bool → Edited
eot rest e = record { line = ctrl_d ∷ []; rest = rest; code = pos 0; met_eof = e }

-- The line `acc` after more keys. EOF gives the end-of-transmission byte, whatever was typed before;
-- Ctrl-D does so on an empty line, and ends any other.
unfoldable pub edit : (raw stops : Bool) → List ℕ → List ℕ → Edited
unfolding store drop_last ended eot
edit raw stops acc [] = eot [] true
edit raw stops acc (c ∷ cs) =
    let k = unify_newline c in
    let erased = edit raw stops (drop_last acc) cs in
    let stored = edit raw stops (store acc k) cs in
    if stops && (k == ctrl_c)
    then record { line = acc; rest = cs; code = negsuc 0; met_eof = false }
    else if raw && (k == backspace || k == delete)
    then erased
    else if k == ctrl_d
    then if length acc == 0 then eot cs false else ended acc cs
    else if k == newline
    then ended acc cs
    else stored

-- The first `n` bytes of the buffer are the line `acc`.
pub record Holds (buffer : List ℕ) (n : ℕ) (acc : List ℕ) : Type 0 where
  pub size : length buffer ≡ input_line_max
  pub len : n ≡ length acc
  pub small : length acc ≤ input_line_max - 1
  pub contents : take n buffer ≡ acc

abbrev pub LineIs : Source → List ℕ → Type 0
LineIs s acc = Holds s.line s.line_len acc

pub only_eot-LineIs :
    (s : Source) → length s.line ≡ input_line_max → LineIs (only_eot s) (ctrl_d ∷ [])
only_eot-LineIs s h = record {
  size = length-set s.line 0 ctrl_d ∙ h;
  len = refl;
  small = omega arith;
  contents = take-set s.line 0 ctrl_d (omega arith);
}

drop_last-Holds :
    (buffer : List ℕ) (n : ℕ) (acc : List ℕ)
    → Holds buffer n acc
    → Holds buffer (n - 1) (drop_last acc)
unfolding drop_last
drop_last-Holds buffer n acc v =
    let shorter = length-take (length acc - 1) acc in
    record {
      size = v.size;
      len = omega (arith, v.len);
      small = omega (arith, v.small);
      contents =
          ap (λ k. take k buffer) (omega (arith, v.len))
          ∙ sym (take-take (length acc - 1) n buffer (omega (arith, v.len)))
          ∙ ap (take (length acc - 1)) v.contents;
    }

pub erase-LineIs : (s : Source) (acc : List ℕ) → LineIs s acc → LineIs (erase s) (drop_last acc)
unfolding erase
erase-LineIs s acc v = elim (Bool-cases (s.line_len == 0)) [
  | inl z ↦ rw z (
      subst (λ n. Holds s.line n (drop_last acc)) (ground arith)
        (drop_last-Holds s.line s.line_len acc v))
  | inr nz ↦ rw nz (drop_last-Holds s.line s.line_len acc v)
]

-- What `accept` does to the buffer.
accept-buffer :
    (s : Source) (c : ℕ)
    → (((accept s c).line
        ≡ (if ltb s.line_len (input_line_max - 1) then set s.line s.line_len c else s.line)))
      × ((accept s c).line_len
          ≡ (if ltb s.line_len (input_line_max - 1) then s.line_len + 1 else s.line_len))
unfolding accept
accept-buffer s c = ground arith

store-Holds :
    (buffer : List ℕ) (n c : ℕ) (acc : List ℕ)
    → Holds buffer n acc
    → Holds
        (if ltb n (input_line_max - 1) then set buffer n c else buffer)
        (if ltb n (input_line_max - 1) then n + 1 else n)
        (store acc c)
unfolding store
store-Holds buffer n c acc v = rw (← v.len) (elim (Bool-cases (ltb n (input_line_max - 1))) [
  | inl room ↦ rw room (record {
    size = length-set buffer n c ∙ v.size;
    len = omega (arith, v.len, length-append acc (c ∷ []));
    small = omega (arith, v.len, length-append acc (c ∷ []), ltb→lt n _ room);
    contents = rw add-one (
        take-set buffer n c (omega (arith, v.size, ltb→lt n _ room))
        ∙ ap (λ k. k ++ c ∷ []) v.contents);
  })
  | inr full ↦ rw full v
])

pub accept-LineIs :
    (s : Source) (c : ℕ) (acc : List ℕ) → LineIs s acc → LineIs (accept s c) (store acc c)
accept-LineIs s c acc v =
    let (line, len) = accept-buffer s c in rw (line, len) (store-Holds s.line s.line_len c acc v)
