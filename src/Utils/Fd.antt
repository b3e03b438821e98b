-- ===== src/Utils/Fd.antt =====
-- cpp/utils/fd/fd.cc: a file descriptor. The system is an argument: a state, and what its calls give and
-- leave; an errno other than EINTR, and a write that takes no byte, is a failed PASSERT.
pub mod Reads
use runai_model_streamer.Prelude.{
  ℕ, zero, suc, ◌-◌, Bool, true, false, Option, none, some, List, [], ◌∷◌, ◌++◌, ltb, leb, ◌==◌,
  if◌then◌else◌, min, length, drop, take, ℤ, pos, negsuc,
}
use runai_model_streamer.Common.Result.{Result, ok, err, assertion, ◌>>=◌, ◌>>◌, assert}

pub data Mode : Type 0 where
  exactly eof up_to : Mode

-- What read(2) gives: -1 with or without EINTR, or the bytes that it has stored.
pub data OsRead : Type 0 where
  failed interrupted : OsRead
  got : List ℕ → OsRead

-- What write(2) gives: the number of bytes that it has taken.
pub data OsWrite : Type 0 where
  failed interrupted : OsWrite
  wrote : ℕ → OsWrite

abbrev pub chunk_size : ℕ
chunk_size = 16_384

abbrev pub finished : Mode → ℕ → List ℕ → Result (List ℕ)
finished exactly size bytes = if length bytes == size then ok bytes else err assertion
finished eof size bytes = ok bytes
finished up_to size bytes = ok bytes

-- The end of the file.
abbrev pub at_eof : Mode → ℕ → List ℕ → Result (List ℕ)
at_eof exactly size bytes = err assertion
at_eof eof size bytes = finished eof size bytes
at_eof up_to size bytes = err assertion

-- What a round of the loop of `read` ends with: the loop is left, or goes on with what has been read.
pub data Round : Type 0 where
  left : Result (List ℕ) → Round
  again : List ℕ → Round

unfoldable pub round_of : Mode → ℕ → List ℕ → OsRead → Round
round_of mode size bytes failed = left (err assertion)
round_of mode size bytes interrupted = again bytes
round_of mode size bytes (got []) = left (at_eof mode size bytes)
round_of up_to size bytes (got (b ∷ bs)) = left (ok (bytes ++ b ∷ bs))
round_of exactly size bytes (got (b ∷ bs)) = again (bytes ++ b ∷ bs)
round_of eof size bytes (got (b ∷ bs)) = again (bytes ++ b ∷ bs)

abbrev pub proceed :
    {S : Type 0}
    → S
    → (List ℕ → Option (Result (List ℕ)) × S)
    → Round
    → Option (Result (List ℕ)) × S
proceed s next (left r) = (some r, s)
proceed s next (again bytes) = next bytes

module _ {S : Type 0} (os_read : ℕ → S → OsRead × S) where
  -- The loop of `read`, on fuel; the list is what has been read. `none` is a loop that has not ended.
  unfoldable pub read_on :
      (fuel : ℕ) → (size : ℕ) → Mode → (chunk : ℕ) → List ℕ → S → Option (Result (List ℕ)) × S
  read_on zero size mode chunk bytes s = (none, s)
  read_on (suc fuel) size mode chunk bytes s = elim (ltb (length bytes) size) [
    | false ↦ (some (finished mode size bytes), s)
    | true ↦
        let out = os_read (min chunk (size - length bytes)) s in
        proceed out.1 (λ bytes'. read_on fuel size mode chunk bytes' out.1)
          (round_of mode size bytes out.0)
  ]

  unfoldable pub read :
      (fuel : ℕ) → (size : ℕ) → Mode → (chunk : ℕ) → S → Option (Result (List ℕ)) × S
  unfolding read_on
  read fuel size mode chunk s = read_on fuel size mode chunk [] s

module _ {S : Type 0} (os_write : List ℕ → S → OsWrite × S) where
  -- The loop of `write`, on fuel, over the bytes that are left.
  unfoldable pub write : (fuel : ℕ) → (chunk : ℕ) → List ℕ → S → Option (Result (Unit {0})) × S
  write zero chunk bytes s = (none, s)
  write (suc fuel) chunk [] s = (some (ok tt), s)
  write (suc fuel) chunk (b ∷ bs) s =
      let out = os_write (take (min chunk (length (b ∷ bs))) (b ∷ bs)) s in
      elim (out.0) [
        | failed ↦ (some (err assertion), out.1)
        | interrupted ↦ write fuel chunk (b ∷ bs) out.1
        | wrote n ↦ elim n [
          | zero ↦ (some (err assertion), out.1)
          | suc k ↦ write fuel chunk (drop (suc k) (b ∷ bs)) out.1
        ]
      ]

-- The descriptor that an object owns; `none` is -1.
pub record Fd : Type 0 where
  pub fd : Option ℕ

-- The move constructor: the new object, and the old one.
unfoldable pub move : Fd → Fd × Fd
move other = (other, record { fd = none })

-- The move assignment: both objects, and the descriptor that is closed, if there is one.
unfoldable pub assign : Fd → Fd → (Fd × Fd) × Option ℕ
assign this other = ((record { fd = other.fd }, record { fd = none }), this.fd)

-- The destructor: the descriptor that is closed.
unfoldable pub destroy : Fd → Option ℕ
destroy this = this.fd

-- `seek`, with the size of the file and whether lseek(2) succeeds. The bits of the offset are read as
-- a `size_t`.
unfoldable pub seek : (size : ℕ) → (lseek : ℕ → Bool) → (offset : ℕ) → Result (Unit {0})
seek size lseek offset = do assert (leb offset size); assert (lseek offset)
