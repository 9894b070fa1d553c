-- ===== src/Firmware/Image.antt =====
-- `read_firmware_file`: which images it hands out, and that it leaves no stream open and no block
-- behind, on every path.
use ice40_ultraplus_examples.Base.{
  ℕ, suc, ◌+◌, ◌%◌, ◌≤◌, ◌≡◌, refl, ◌∙◌, ap, Option, none, some, List, arith, length, ℤ, pos,
  negsuc, equals, not, ltb, ◌==◌, if◌then◌else◌, ==→eq,
}
use ice40_ultraplus_examples.Cmd.Returns
use ice40_ultraplus_examples.Cmd.Returns.{Returns, returns}
use ice40_ultraplus_examples.Bus.{Heap}
use ice40_ultraplus_examples.Firmware.{
  Files, max_firmware_bytes, close_and_fail, read_contents, check_size, read_firmware_file,
}

-- What the sending functions rely on.
pub record IsImage (firmware : List ℕ) : Type 0 where
  pub small : length firmware ≤ max_firmware_bytes
  pub even : length firmware % 2 ≡ 0

-- A result is NULL or an image.
abbrev pub Image : Option (List ℕ) → Type 0
Image none = Unit {0}
Image (some firmware) = IsImage firmware

-- How the C library keeps count of the open streams and of the blocks given out.
pub record Accounts {S : Type 0} (heap : Heap S) (files : Files S) : Type 0 where
  pub open_streams : S → ℕ
  pub blocks : S → ℕ
  pub streams-fopen :
      (path : List ℕ) (s : S)
      → open_streams (files.fopen path s).1
        ≡ (if (files.fopen path s).0 then suc (open_streams s) else open_streams s)
  pub streams-fclose : (s : S) (n : ℕ) → open_streams s ≡ suc n → open_streams (files.fclose s) ≡ n
  pub streams-seek_end : (s : S) → open_streams (files.seek_end s).1 ≡ open_streams s
  pub streams-ftell : (s : S) → open_streams (files.ftell s).1 ≡ open_streams s
  pub streams-seek_start : (s : S) → open_streams (files.seek_start s).1 ≡ open_streams s
  pub streams-fread : (n : ℕ) (s : S) → open_streams (files.fread n s).1 ≡ open_streams s
  pub streams-malloc : (n : ℕ) (s : S) → open_streams (heap.malloc n s).1 ≡ open_streams s
  pub streams-free : (s : S) → open_streams (heap.free s) ≡ open_streams s
  pub blocks-malloc :
      (n : ℕ) (s : S)
      → blocks (heap.malloc n s).1 ≡ (if (heap.malloc n s).0 then suc (blocks s) else blocks s)
  pub blocks-free : (s : S) (n : ℕ) → blocks s ≡ suc n → blocks (heap.free s) ≡ n
  pub blocks-fopen : (path : List ℕ) (s : S) → blocks (files.fopen path s).1 ≡ blocks s
  pub blocks-fclose : (s : S) → blocks (files.fclose s) ≡ blocks s
  pub blocks-seek_end : (s : S) → blocks (files.seek_end s).1 ≡ blocks s
  pub blocks-ftell : (s : S) → blocks (files.ftell s).1 ≡ blocks s
  pub blocks-seek_start : (s : S) → blocks (files.seek_start s).1 ≡ blocks s
  pub blocks-fread : (n : ℕ) (s : S) → blocks (files.fread n s).1 ≡ blocks s

-- The blocks that a result holds.
abbrev pub held : Option (List ℕ) → ℕ
held none = 0
held (some firmware) = 1

module _ {S : Type 0} {heap : Heap S} {files : Files S} (a : Accounts heap files) where
  -- From a state with `streams` open streams besides the function's own, and `blocks` blocks.
  Clean : (streams blocks : ℕ) → Option (List ℕ) → S → Type 0
  Clean streams blocks out t =
      Image out × (a.open_streams t ≡ streams) × (a.blocks t ≡ blocks + held out)

  close_and_fail-Clean :
      (n m : ℕ) (s : S)
      → a.open_streams s ≡ suc n
      → a.blocks s ≡ m
      → Returns (Clean n m) (close_and_fail heap files s)
  unfolding Clean
  close_and_fail-Clean n m s o b =
      returns (tt, a.streams-fclose s n o, omega (arith, a.blocks-fclose s))

  read_contents-Clean :
      (size n m : ℕ) (s : S)
      → size ≤ max_firmware_bytes
      → size % 2 ≡ 0
      → a.open_streams s ≡ suc n
      → a.blocks s ≡ m
      → Returns (Clean n m) (read_contents heap files size s)
  unfolding read_contents Clean
  read_contents-Clean size n m s small even o b =
      let t = (heap.malloc size s).1 in
      let u = (files.fread size t).1 in
      let v = files.fclose u in
      let o' : a.open_streams t ≡ suc n = omega (arith, a.streams-malloc size s) in
      let closed : a.open_streams v ≡ n = a.streams-fclose u n (a.streams-fread size t ∙ o') in
      Returns.branch (heap.malloc size s).0
        (λ given.
          let b' : a.blocks v ≡ suc m =
            a.blocks-fclose u
            ∙ a.blocks-fread size t
            ∙ a.blocks-malloc size s
            ∙ rw given (ap suc b) in
          Returns.branch (length (files.fread size t).0 == size)
            (λ whole.
              let e = ==→eq _ _ whole in
              returns (record { small = omega arith; even = rw e even }, closed, omega arith))
            (λ short. returns (tt, a.streams-free v ∙ closed, omega (arith, a.blocks-free v m b'))))
        (λ refused. close_and_fail-Clean n m t o' (a.blocks-malloc size s ∙ rw refused b))

  check_size-Clean :
      (size : ℤ) (n m : ℕ) (s : S)
      → a.open_streams s ≡ suc n
      → a.blocks s ≡ m
      → Returns (Clean n m) (check_size heap files size s)
  unfolding check_size
  check_size-Clean (negsuc k) n m s o b = close_and_fail-Clean n m s o b
  check_size-Clean (pos size) n m s o b =
      let t = (files.seek_start s).1 in
      let o' = a.streams-seek_start s ∙ o in
      let b' = a.blocks-seek_start s ∙ b in
      Returns.branch (not (equals (files.seek_start s).0 0)) (λ e. close_and_fail-Clean n m t o' b')
        λ e.
          Returns.branch (ltb max_firmware_bytes size) (λ e'. close_and_fail-Clean n m t o' b')
            λ fits.
              Returns.branch (size % 2 == 0)
                (λ even. read_contents-Clean size n m t (ground arith) (==→eq _ _ even) o' b')
                λ odd. close_and_fail-Clean n m t o' b'

  -- `read_firmware_file` returns. Its result is NULL or an image of an even number of bytes, at most
  -- MAX_FIRMWARE_BYTES. It leaves as many streams open as before, and as many blocks, but for the
  -- one that a result holds.
  pub read_firmware_file-Clean :
      (path : List ℕ) (s : S)
      → Returns
          (λ out t.
            Image out
            × (a.open_streams t ≡ a.open_streams s)
            × (a.blocks t ≡ a.blocks s + held out))
          (read_firmware_file heap files path s)
  unfolding read_firmware_file Clean
  read_firmware_file-Clean path s =
      let t = (files.fopen path s).1 in
      let u = (files.seek_end t).1 in
      let v = (files.ftell u).1 in
      let n = a.open_streams s in
      let m = a.blocks s in
      let bt = a.blocks-fopen path s in
      let bu = a.blocks-seek_end t ∙ bt in
      Returns.branch (files.fopen path s).0
        (λ opened.
          let ot = a.streams-fopen path s ∙ rw opened refl in
          let ou = a.streams-seek_end t ∙ ot in
          Returns.branch (equals (files.seek_end t).0 0)
            (λ e.
              check_size-Clean (files.ftell u).0 n m v (a.streams-ftell u ∙ ou)
                (a.blocks-ftell u ∙ bu))
            λ e. close_and_fail-Clean n m u ou bu)
        λ missing. returns (tt, a.streams-fopen path s ∙ rw missing refl, omega (arith, bt))
