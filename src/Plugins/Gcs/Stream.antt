-- ===== src/Plugins/Gcs/Stream.antt =====
-- cpp/gcs/client/client.cc, `write_stream_to_buffer`: a stream of the vendor is read into a buffer.
pub mod Reads
use runai_model_streamer.Prelude.{
  ℕ, zero, suc, ◌+◌, ◌-◌, ◌*◌, ◌^◌, ◌≤◌, ◌<◌, ◌≡◌, inl, inr, refl, ◌∙◌, ap, Bool, true, false, List,
  [], ◌∷◌, ◌++◌, append-nil, ◌==◌, if◌then◌else◌, not, ◌||◌, add_size, add_size-lt, length, drop,
  take, arith, Bool-cases, ltb,
}
use runai_model_streamer.Common.ResponseCode.{ResponseCode, success, file_access_error}
use runai_model_streamer.Plugins.Gcs.Stream.Reads.{
  read_stream, verdict, write_stream_to_buffer, length-take, length-drop, take_all, drop_all,
  read_stream-more, read_stream-short, read_stream-le_zero, read_stream-le,
}

-- How a stream is written to a buffer of `bytesize` bytes: the code, and the buffer after it.
pub data IsWritten (stream : List ℕ) (bad : Bool) (bytesize : ℕ) (out : ResponseCode × List ℕ)
    : Type 0 where
  -- The stream is too short.
  short : length stream < bytesize → out.0 ≡ file_access_error → IsWritten stream bad bytesize out
  -- The stream has what was asked for.
  whole :
      length stream ≡ bytesize
      → out ≡ (if bad then file_access_error else success, stream)
      → IsWritten stream bad bytesize out
  -- The stream has more: what is left of it overwrites the start of the buffer.
  overwritten :
      bytesize < length stream
      → length stream < 2 * bytesize
      → out ≡ (
        if bad then file_access_error else success,
        drop bytesize stream ++ drop (length stream - bytesize) (take bytesize stream),
      )
      → IsWritten stream bad bytesize out
  -- The stream has twice as much, or more.
  long :
      2 * bytesize ≤ length stream → out.0 ≡ file_access_error → IsWritten stream bad bytesize out

module _ (stream : List ℕ) (bad : Bool) (bytesize : ℕ) (buffer : List ℕ) (positive : 0 < bytesize)
    (fits : length stream < 2 ^ 64) (room : length buffer ≡ bytesize) where
  -- After the first read the buffer has the start of the stream.
  read_stream-first :
      (fuel : ℕ)
      → bytesize ≤ length stream
      → read_stream (suc fuel) stream bytesize 0 buffer
        ≡ read_stream fuel (drop bytesize stream) bytesize bytesize (take bytesize stream)
  read_stream-first fuel h =
      rw
        (
          read_stream-more stream bytesize 0 buffer fuel h,
          add_size-lt 0 bytesize (omega arith),
          drop_all bytesize buffer (omega arith),
          append-nil,
        )
        (ap (λ n. read_stream fuel (drop bytesize stream) bytesize n (take bytesize stream))
          (omega arith))

  read_stream-second :
      (fuel : ℕ)
      → 0 < fuel
      → bytesize ≤ length stream
      → length stream < 2 * bytesize
      → read_stream (suc fuel) stream bytesize 0 buffer
        ≡ (bytesize, drop bytesize stream ++ drop (length stream - bytesize) (take bytesize stream))
  read_stream-second zero z h l = absurd (omega arith)
  read_stream-second (suc fuel) z h l =
      let left = length-drop bytesize stream in
      rw
        (
          read_stream-first (suc fuel) h,
          read_stream-short (drop bytesize stream) bytesize bytesize (take bytesize stream) fuel
              (omega arith),
          left,
        )
        refl

  read_stream-third :
      (fuel : ℕ)
      → 0 < fuel
      → 2 * bytesize ≤ length stream
      → bytesize < (read_stream (suc fuel) stream bytesize 0 buffer).0
  read_stream-third zero z h = absurd (omega arith)
  read_stream-third (suc fuel) z h =
      let left = length-drop bytesize stream in
      let left' = length-drop bytesize (drop bytesize stream) in
      rw
        (
          read_stream-first (suc fuel) (omega arith),
          read_stream-more (drop bytesize stream) bytesize bytesize (take bytesize stream) fuel
              (omega arith),
          add_size-lt bytesize bytesize (omega arith),
        )
        (omega (
          arith,
          read_stream-le fuel (drop bytesize (drop bytesize stream)) bytesize (bytesize + bytesize)
              (take bytesize (drop bytesize stream) ++ drop bytesize (take bytesize stream))
              positive (omega arith),
        ))

  IsWritten-short :
      length stream < bytesize
      → (write_stream_to_buffer stream bad bytesize buffer).0 ≡ file_access_error
  unfolding write_stream_to_buffer
  IsWritten-short h =
      let none_read : (0 == bytesize) ≡ false = ground arith in
      rw (read_stream-short stream bytesize 0 buffer (length stream) h, none_read) refl

  IsWritten-long :
      2 * bytesize ≤ length stream
      → (write_stream_to_buffer stream bad bytesize buffer).0 ≡ file_access_error
  unfolding write_stream_to_buffer
  IsWritten-long h =
      let over = read_stream-third (length stream) (omega arith) h in
      let received = (read_stream (suc (length stream)) stream bytesize 0 buffer).0 in
      let other : (received == bytesize) ≡ false = ground arith in rw other refl

  -- A stream that has all the bytes, and less than twice as many.
  write_stream-enough :
      bytesize ≤ length stream
      → length stream < 2 * bytesize
      → write_stream_to_buffer stream bad bytesize buffer ≡ (
        if bad then file_access_error else success,
        drop bytesize stream ++ drop (length stream - bytesize) (take bytesize stream),
      )
  unfolding write_stream_to_buffer
  write_stream-enough h l =
      let same : (bytesize == bytesize) ≡ true = ground arith in
      rw (read_stream-second (length stream) (omega arith) h l, same) refl

  write_stream-whole :
      length stream ≡ bytesize
      → write_stream_to_buffer stream bad bytesize buffer
        ≡ (if bad then file_access_error else success, stream)
  write_stream-whole e =
      write_stream-enough (omega arith) (omega arith)
      ∙ rw
          (
            drop_all bytesize stream (omega arith),
            take_all bytesize stream (omega arith),
            (let zero_left : length stream - bytesize ≡ 0 = omega arith in zero_left),
          )
          refl

  -- For a part with some bytes, in a buffer of its size: a stream that has just these gives
  -- Success and is in the buffer, unless it is bad; one that is shorter, or twice as long or
  -- longer, gives FileAccessError; but one that has more than asked for, and less than twice as
  -- much, gives Success unless it is bad, with its tail written over the start of the buffer.
  pub write_stream_to_buffer-IsWritten :
      IsWritten stream bad bytesize (write_stream_to_buffer stream bad bytesize buffer)
  write_stream_to_buffer-IsWritten = elim (Bool-cases (ltb (length stream) bytesize)) [
    | inl less ↦ short (ground arith) (IsWritten-short (ground arith))
    | inr more ↦ elim (Bool-cases (length stream == bytesize)) [
      | inl e ↦ whole (ground arith) (write_stream-whole (ground arith))
      | inr other ↦ elim (Bool-cases (ltb (length stream) (2 * bytesize))) [
        | inl two ↦
            overwritten (ground arith) (ground arith)
              (write_stream-enough (ground arith) (ground arith))
        | inr many ↦ long (ground arith) (IsWritten-long (ground arith))
      ]
    ]
  ]
