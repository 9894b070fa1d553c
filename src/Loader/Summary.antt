-- ===== src/Loader/Summary.antt =====
-- `print_capture_summary` of comet2/host_server/comet2_spi_loader.c, as the items that it prints.
use ice40_ultraplus_examples.Base.{
  ℕ, zero, suc, ◌+◌, ◌-◌, ◌≤◌, ◌<◌, ◌≡◌, refl, sym, ap, ◌∙◌, false, List, [], ◌∷◌, ◌++◌, map, arith,
  length, take, drop, get_or, ◌==◌, if◌then◌else◌, length-take, get_or-take,
}
use ice40_ultraplus_examples.Input.{newline}
use ice40_ultraplus_examples.Loader.{rx_buffer_size, RxCapture}
use ice40_ultraplus_examples.Loader.Capture.{Captured}
use ice40_ultraplus_examples.Run.{shown}

-- One call of `printf` or `putchar`.
pub data Item : Type 0 where
  received : ℕ → Item
  dropped_after : (dropped size : ℕ) → Item
  out_text : Item
  char : ℕ → Item
  out_hex : Item
  hex : ℕ → Item

-- A loop over the bytes from `i` on, `left` of them.
unfoldable pub for_bytes : (ℕ → Item) → (left i : ℕ) → List ℕ → List Item
for_bytes print zero i bytes = []
for_bytes print (suc left) i bytes = print (get_or bytes i 0) ∷ for_bytes print left (suc i) bytes

unfoldable pub print_bytes : RxCapture → List Item
unfolding for_bytes
print_bytes capture =
    out_text ∷ for_bytes (λ ch. char (shown ch)) capture.used 0 capture.data_bytes
    ++ (if get_or capture.data_bytes (capture.used - 1) 0 == newline then [] else char newline ∷ [])
    ++ out_hex ∷ for_bytes hex capture.used 0 capture.data_bytes
    ++ char newline ∷ []

unfoldable pub print_capture_summary : RxCapture → List Item
unfolding print_bytes
print_capture_summary capture =
    received capture.used
      ∷ (if capture.dropped == 0 then [] else dropped_after capture.dropped rx_buffer_size ∷ [])
    ++ char newline ∷ (if capture.used == 0 then [] else print_bytes capture)

-- The text and the hexadecimal digits of some bytes, on lines of their own.
abbrev pub both : List ℕ → List Item
both [] = []
both (b ∷ bs) =
    out_text ∷ map (λ ch. char (shown ch)) (b ∷ bs)
    ++ (if get_or (b ∷ bs) (length bs) 0 == newline then [] else char newline ∷ [])
    ++ out_hex ∷ map hex (b ∷ bs)
    ++ char newline ∷ []

-- What should be printed of `kept` bytes, with `lost` more.
unfoldable pub report_of : (kept : List ℕ) (lost : ℕ) → List Item
report_of kept lost =
    received (length kept) ∷ (if lost == 0 then [] else dropped_after lost 256 ∷ [])
    ++ char newline ∷ both kept

take-drop :
    (bytes : List ℕ) (n i : ℕ)
    → i < length bytes
    → get_or bytes i 0 ∷ take n (drop (suc i) bytes) ≡ take (suc n) (drop i bytes)
take-drop [] n i h = absurd (omega arith)
take-drop (b ∷ bytes) n zero h = refl
take-drop (b ∷ bytes) n (suc i) h = take-drop bytes n i (omega arith)

for_bytes-map :
    (print : ℕ → Item) (left i : ℕ) (bytes : List ℕ)
    → i + left ≤ length bytes
    → for_bytes print left i bytes ≡ map print (take left (drop i bytes))
unfolding for_bytes
for_bytes-map print zero i bytes h = refl
for_bytes-map print (suc left) i bytes h =
    ap (λ k. print (get_or bytes i 0) ∷ k) (for_bytes-map print left (suc i) bytes (omega arith))
    ∙ ap (map print) (take-drop bytes left i (omega arith))

-- The whole buffer that is in use.
all_bytes :
    (print : ℕ → Item) (used : ℕ) (bytes : List ℕ)
    → used ≤ length bytes
    → for_bytes print used 0 bytes ≡ map print (take used bytes)
all_bytes print used bytes h = for_bytes-map print used 0 bytes (omega arith)

print_bytes-both :
    (capture : RxCapture) (kept : List ℕ)
    → take capture.used capture.data_bytes ≡ kept
    → length kept ≡ capture.used
    → capture.used ≤ length capture.data_bytes
    → (if capture.used == 0 then [] else print_bytes capture) ≡ both kept
unfolding print_bytes
print_bytes-both capture [] held len fits = rw (← len) refl
print_bytes-both capture (b ∷ bs) held len fits =
    let some_used : capture.used == 0 ≡ false = ground arith in
    let last : get_or capture.data_bytes (capture.used - 1) 0 ≡ get_or (b ∷ bs) (length bs) 0 =
      sym (get_or-take capture.used capture.data_bytes (capture.used - 1) 0 (omega (arith, len)))
      ∙ ap (λ k. get_or k (capture.used - 1) 0) held
      ∙ ap (λ i. get_or (b ∷ bs) i 0) (omega (arith, len)) in
    rw
      (
        some_used,
        all_bytes (λ ch. char (shown ch)) capture.used capture.data_bytes fits,
        all_bytes hex capture.used capture.data_bytes fits,
        held,
        last,
      )
      refl

lost_count :
    (used dropped size : ℕ)
    → used ≤ 256
    → used + dropped ≡ size
    → (0 < dropped → used ≡ 256)
    → dropped ≡ size - 256
lost_count used zero size le total full = omega arith
lost_count used (suc n) size le total full = omega (arith, full (omega arith))

-- Of a capture that holds the first 256 bytes of a list and counts the rest: the summary tells how
-- many there are of both, and shows all that it holds, in order, as text and in hexadecimal.
pub print_capture_summary-report :
    (capture : RxCapture) (bytes : List ℕ)
    → Captured capture bytes
    → print_capture_summary capture ≡ report_of (take 256 bytes) (length bytes - 256)
unfolding print_capture_summary report_of
print_capture_summary-report capture bytes c =
    let len : length (take 256 bytes) ≡ capture.used =
      rw (← c.held) (omega (arith, length-take capture.used capture.data_bytes, c.size, c.used)) in
    let lost = lost_count capture.used capture.dropped (length bytes) c.used c.total c.full in
    let body =
      print_bytes-both capture (take 256 bytes) c.held len (omega (arith, c.used, c.size)) in
    rw (len, ← lost, body) refl
