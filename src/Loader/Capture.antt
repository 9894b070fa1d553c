-- ===== src/Loader/Capture.antt =====
-- The capture buffer of comet2_spi_loader.c against the list of all bytes that were pushed.
use ice40_ultraplus_examples.Base.{
  ℕ, ◌+◌, ◌≤◌, ◌<◌, ◌≡◌, List, [], ◌∷◌, ◌++◌, length, take, set, arith, ltb, if◌then◌else◌,
  Bool-cases, inl, inr, subst, length-take, length-append, length-set, take-set, take-snoc, ltb→lt,
  suc, ◌∙◌, Bool, true, false, ap,
}
use ice40_ultraplus_examples.Loader.{rx_buffer_size, RxCapture, rx_capture_push}

-- The buffer holds the first 256 of the bytes `bytes`, and the rest is counted.
pub record Captured (capture : RxCapture) (bytes : List ℕ) : Type 0 where
  pub size : length capture.data_bytes ≡ rx_buffer_size
  pub used : capture.used ≤ rx_buffer_size
  pub held : take capture.used capture.data_bytes ≡ take rx_buffer_size bytes
  pub total : capture.used + capture.dropped ≡ length bytes
  pub full : 0 < capture.dropped → capture.used ≡ rx_buffer_size

-- A bound that is met and not missed.
not_lt-eq : (a b : ℕ) → ltb a b ≡ false → a ≤ b → a ≡ b
not_lt-eq a b e h = ground arith

suc-plus : (n : ℕ) → suc n ≡ n + 1
suc-plus n = omega arith

module _ (capture : RxCapture) (bytes : List ℕ) (ch : ℕ) (c : Captured capture bytes) where
  length-held : length (take rx_buffer_size bytes) ≡ capture.used
  length-held =
      rw (← c.held) (omega (arith, length-take capture.used capture.data_bytes, c.size, c.used))

  -- What the buffer has to hold behind one more byte.
  held-snoc :
      (b : Bool)
      → ltb capture.used rx_buffer_size ≡ b
      → (if b then take rx_buffer_size bytes ++ ch ∷ [] else take rx_buffer_size bytes)
        ≡ take rx_buffer_size (bytes ++ ch ∷ [])
  held-snoc b e = rw (← e) (
      subst
        (λ n.
          (if ltb n rx_buffer_size
            then take rx_buffer_size bytes ++ ch ∷ []
            else take rx_buffer_size bytes)
          ≡ take rx_buffer_size (bytes ++ ch ∷ []))
        length-held (take-snoc rx_buffer_size bytes ch))

  -- One more byte in the buffer is one more byte of the list.
  pub rx_capture_push-Captured : Captured (rx_capture_push capture ch) (bytes ++ ch ∷ [])
  unfolding rx_capture_push
  rx_capture_push-Captured =
      let one_more : length (bytes ++ ch ∷ []) ≡ length bytes + 1 = length-append bytes (ch ∷ []) in
      elim (Bool-cases (ltb capture.used rx_buffer_size)) [
        | inl room ↦
            let less = ltb→lt capture.used rx_buffer_size room in
            rw room (record {
              size = length-set capture.data_bytes capture.used ch ∙ c.size;
              used = omega (arith, less);
              held =
                  subst
                    (λ n.
                      take n (set capture.data_bytes capture.used ch)
                      ≡ take capture.used capture.data_bytes ++ ch ∷ [])
                    (suc-plus capture.used)
                    (take-set capture.data_bytes capture.used ch (omega (arith, less, c.size)))
                  ∙ ap (λ k. k ++ ch ∷ []) c.held
                  ∙ held-snoc true room;
              total = omega (arith, c.total, one_more);
              full = λ some_dropped. absurd (omega (arith, less, c.full some_dropped));
            })
        | inr none_left ↦ rw none_left (record {
          size = c.size;
          used = c.used;
          held = c.held ∙ held-snoc false none_left;
          total = omega (arith, c.total, one_more);
          full = λ some_dropped. not_lt-eq capture.used rx_buffer_size none_left c.used;
        })
      ]
