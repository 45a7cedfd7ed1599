-- ===== src/IoAdapter/Messages.antt =====
-- The message of a refused relation in the engine's buffer (src/pyrewire/io_adapter.py, `_validate`).
use pyre_wire.Prelude.{
  ℕ, zero, suc, ◌+◌, ◌≤◌, ◌<◌, ◌≡◌, ◌≢◌, refl, ap, ◌∙◌, true, List, [], ◌∷◌, length, get_or, nat_eq,
  arith,
}
use pyre_wire.IoAdapter.{put_bytes, take_bytes, message_size, write_message}

-- Bytes are put where they are to go, and nowhere else.
put_bytes_below :
    (bs : List ℕ) (k : ℕ) (memory : ℕ → ℕ) (i : ℕ) → i < k → put_bytes bs k memory i ≡ memory i
unfolding put_bytes
put_bytes_below [] k memory i h = refl
put_bytes_below (b ∷ bs) k memory i h =
    ground (arith, h, put_bytes_below bs (k + 1) memory i (omega (arith, h)))

put_bytes_above :
    (bs : List ℕ) (k : ℕ) (memory : ℕ → ℕ) (i : ℕ)
    → k + length bs ≤ i
    → put_bytes bs k memory i ≡ memory i
unfolding put_bytes
put_bytes_above [] k memory i h = refl
put_bytes_above (b ∷ bs) k memory i h =
    ground (arith, h, put_bytes_above bs (k + 1) memory i (omega (arith, h)))

put_bytes_inside :
    (bs : List ℕ) (k : ℕ) (memory : ℕ → ℕ) (i j : ℕ)
    → i ≡ k + j
    → j < length bs
    → put_bytes bs k memory i ≡ get_or bs j 0
unfolding put_bytes
put_bytes_inside [] k memory i j e h = absurd (omega (arith, h))
put_bytes_inside (b ∷ bs) k memory i zero e h = ground (arith, e)
put_bytes_inside (b ∷ bs) k memory i (suc j) e h =
    ground (arith, e, put_bytes_inside bs (k + 1) memory i j (omega (arith, e)) (omega (arith, h)))

length-take_bytes : (n : ℕ) (bs : List ℕ) → n ≤ length bs → length (take_bytes n bs) ≡ n
length-take_bytes zero bs h = refl
length-take_bytes (suc n) [] h = absurd (omega (arith, h))
length-take_bytes (suc n) (b ∷ bs) h = ap suc (length-take_bytes n bs (omega (arith, h)))

get_or-take_bytes :
    (n : ℕ) (bs : List ℕ) (i : ℕ) → i < n → get_or (take_bytes n bs) i 0 ≡ get_or bs i 0
get_or-take_bytes zero bs i h = absurd (omega (arith, h))
get_or-take_bytes (suc n) [] i h = refl
get_or-take_bytes (suc n) (b ∷ bs) zero h = refl
get_or-take_bytes (suc n) (b ∷ bs) (suc i) h = get_or-take_bytes n bs i (omega (arith, h))

-- What is in the buffer once a message is written: its first bytes, then a NUL, and past it what was
-- there before.
written_message :
    (message : List ℕ) (n : ℕ) (memory : ℕ → ℕ) (i : ℕ)
    → n ≤ length message
    → let memory' = put_bytes (0 ∷ []) n (put_bytes (take_bytes n message) 0 memory) in
      (i < n → memory' i ≡ get_or message i 0) × (memory' n ≡ 0) × (n < i → memory' i ≡ memory i)
written_message message n memory i fits =
    let written = put_bytes (take_bytes n message) 0 memory in
    let size = length-take_bytes n message fits in
    (
      λ h.
          put_bytes_below (0 ∷ []) n written i h
          ∙ put_bytes_inside (take_bytes n message) 0 memory i i (omega arith)
              (omega (arith, h, size))
          ∙ get_or-take_bytes n message i h,
      put_bytes_inside (0 ∷ []) n written n 0 (omega arith) (omega arith),
      λ h.
          put_bytes_above (0 ∷ []) n written i (omega (arith, h))
          ∙ put_bytes_above (take_bytes n message) 0 memory i (omega (arith, h, size)),
    )

-- A message in a buffer of that size, of which one byte at least is kept: the buffer has the first
-- bytes of the message, as many as fit with the NUL that follows them, and nothing is written past the
-- NUL, so nothing outside the buffer.
pub write_message-fits :
    (message : List ℕ) (size : ℕ) (memory : ℕ → ℕ) (i : ℕ)
    → message_size message size ≢ 0
    → let n = message_size message size in
      let memory' = write_message message true size memory in
      (n < size)
      × (i < n → memory' i ≡ get_or message i 0)
      × (memory' n ≡ 0)
      × (n < i → memory' i ≡ memory i)
unfolding write_message
write_message-fits message size memory i some_bytes =
    let n = message_size message size in
    let (first, last, past) = written_message message n memory i (omega arith) in
    let is_written : write_message message true size memory
        ≡ put_bytes (0 ∷ []) n (put_bytes (take_bytes n message) 0 memory) =
      ground (arith, some_bytes) in
    (
      omega (arith, some_bytes),
      λ h. ap (λ f. f i) is_written ∙ first h,
      ap (λ f. f n) is_written ∙ last,
      λ h. ap (λ f. f i) is_written ∙ past h,
    )
