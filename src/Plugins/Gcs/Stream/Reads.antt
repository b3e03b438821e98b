-- ===== src/Plugins/Gcs/Stream/Reads.antt =====
-- cpp/gcs/client/client.cc, `write_stream_to_buffer`: its loop over the reads of a stream.
use runai_model_streamer.Prelude.{
  ℕ, zero, suc, ◌+◌, ◌-◌, ◌^◌, ◌≤◌, ◌<◌, ◌≡◌, inl, inr, refl, ◌∙◌, ap, Bool, true, false, List, [],
  ◌∷◌, ◌++◌, ◌==◌, if◌then◌else◌, not, ◌||◌, add_size, add_size-lt, length, drop, take, arith,
  Bool-cases, ltb,
}
use runai_model_streamer.Common.ResponseCode.{ResponseCode, success, file_access_error}

-- The loop, on fuel. `read` of a stream stores what the stream has, up to `bytesize`, at the start of
-- the buffer, and succeeds if that is all of `bytesize`. It gives the bytes received, and the buffer.
unfoldable pub read_stream : ℕ → List ℕ → ℕ → ℕ → List ℕ → ℕ × List ℕ
read_stream zero stream bytesize received buffer = (received, buffer)
read_stream (suc fuel) stream bytesize received buffer =
    let got = take bytesize stream in
    let buffer' = got ++ drop (length got) buffer in
    let rest =
      read_stream fuel (drop bytesize stream) bytesize (add_size received bytesize) buffer' in
    if length got == bytesize then rest else (received, buffer')

-- The two tests after the loop.
abbrev pub verdict : Bool → ℕ → ℕ × List ℕ → ResponseCode × List ℕ
verdict bad bytesize out =
    (if not (out.0 == bytesize) || bad then file_access_error else success, out.1)

-- Each successful read takes a byte at least; a stream that is `bad` fails.
unfoldable pub write_stream_to_buffer : List ℕ → Bool → ℕ → List ℕ → ResponseCode × List ℕ
write_stream_to_buffer stream bad bytesize buffer =
    verdict bad bytesize (read_stream (suc (length stream)) stream bytesize 0 buffer)

pub length-take {ℓ} :
    {A : Type ℓ} (n : ℕ) (xs : List A)
    → length (take n xs) ≡ (if ltb (length xs) n then length xs else n)
length-take zero xs = ground arith
length-take (suc n) [] = ground arith
length-take (suc n) (x ∷ xs) = ground (arith, length-take n xs)

pub length-drop {ℓ} : {A : Type ℓ} (n : ℕ) (xs : List A) → length (drop n xs) ≡ length xs - n
length-drop zero xs = omega arith
length-drop (suc n) [] = omega arith
length-drop (suc n) (x ∷ xs) = omega (arith, length-drop n xs)

pub take_all {ℓ} : {A : Type ℓ} (n : ℕ) (xs : List A) → length xs ≤ n → take n xs ≡ xs
take_all zero [] h = refl
take_all zero (x ∷ xs) h = absurd (omega arith)
take_all (suc n) [] h = refl
take_all (suc n) (x ∷ xs) h = ap (◌∷◌ x) (take_all n xs (omega arith))

pub drop_all {ℓ} : {A : Type ℓ} (n : ℕ) (xs : List A) → length xs ≤ n → drop n xs ≡ []
drop_all zero [] h = refl
drop_all zero (x ∷ xs) h = absurd (omega arith)
drop_all (suc n) [] h = refl
drop_all (suc n) (x ∷ xs) h = drop_all n xs (omega arith)

module _ (stream : List ℕ) (bytesize received : ℕ) (buffer : List ℕ) where
  -- A read that the stream has the bytes for.
  pub read_stream-more :
      (fuel : ℕ)
      → bytesize ≤ length stream
      → read_stream (suc fuel) stream bytesize received buffer
        ≡ read_stream fuel
            (drop bytesize stream)
            bytesize
            (add_size received bytesize)
            (take bytesize stream ++ drop bytesize buffer)
  unfolding read_stream
  read_stream-more fuel h =
      let all : length (take bytesize stream) ≡ bytesize =
        length-take bytesize stream ∙ ground arith in
      rw (all, (let same : (bytesize == bytesize) ≡ true = ground arith in same)) refl

  -- A read that ends the loop.
  pub read_stream-short :
      (fuel : ℕ)
      → length stream < bytesize
      → read_stream (suc fuel) stream bytesize received buffer
        ≡ (received, stream ++ drop (length stream) buffer)
  unfolding read_stream
  read_stream-short fuel h =
      let short : (length stream == bytesize) ≡ false = ground arith in
      rw (take_all bytesize stream (omega arith), short) refl

pub read_stream-le_zero :
    (stream : List ℕ) (bytesize received : ℕ) (buffer : List ℕ)
    → received ≤ (read_stream zero stream bytesize received buffer).0
unfolding read_stream
read_stream-le_zero stream bytesize received buffer = omega arith

-- No byte that was counted is forgotten.
pub read_stream-le :
    (fuel : ℕ) (stream : List ℕ) (bytesize received : ℕ) (buffer : List ℕ)
    → 0 < bytesize
    → received + length stream < 2 ^ 64
    → received ≤ (read_stream fuel stream bytesize received buffer).0
read_stream-le zero stream bytesize received buffer p h =
    read_stream-le_zero stream bytesize received buffer
read_stream-le (suc fuel) stream bytesize received buffer p h =
    elim (Bool-cases (ltb (length stream) bytesize)) [
      | inl short ↦
          rw (read_stream-short stream bytesize received buffer fuel (ground arith)) (omega arith)
      | inr more ↦
          let enough : bytesize ≤ length stream = ground arith in
          let sum = add_size-lt received bytesize (omega arith) in
          let left = length-drop bytesize stream in
          rw (read_stream-more stream bytesize received buffer fuel enough, sum)
            (omega (
              arith,
              read_stream-le fuel (drop bytesize stream) bytesize (received + bytesize)
                  (take bytesize stream ++ drop bytesize buffer) p (omega arith),
            ))
    ]
