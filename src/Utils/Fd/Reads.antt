-- ===== src/Utils/Fd/Reads.antt =====
-- cpp/utils/fd/fd.cc, `read`: the loop over read(2), for a file whose reads behave as read(2) does.
use runai_model_streamer.Prelude.{
  ℕ, zero, suc, ◌+◌, ◌-◌, ◌≤◌, ◌<◌, ◌≡◌, ◌≢◌, refl, sym, ap, subst, ◌∙◌, ◌⊎◌, inl, inr, Bool, true,
  false, Option, some, List, [], ◌∷◌, ◌++◌, append_assoc, append-nil, ltb, ◌==◌, min, length,
  length-append, arith, Bool-cases,
}
use runai_model_streamer.Common.Result.{Result, ok, err, assertion}
use runai_model_streamer.Utils.Fd.{
  Mode, exactly, eof, up_to, OsRead, failed, interrupted, got, finished, at_eof, proceed, round_of,
  read_on, read,
}

-- One read of some bytes: it may fail; a signal may interrupt it; or it gives the next bytes, and none
-- only at the end of the file.
pub data ReadsOnce (reliable : Bool) (count : ℕ) (rest : List ℕ) (signals : ℕ)
    : OsRead → List ℕ → ℕ → Type 0 where
  fails :
      {rest' : List ℕ} {n : ℕ}
      → reliable ≡ false
      → ReadsOnce reliable count rest signals failed rest' n
  signalled :
      {rest' : List ℕ} {n : ℕ}
      → rest' ≡ rest
      → n < signals
      → ReadsOnce reliable count rest signals interrupted rest' n
  gives :
      {bs rest' : List ℕ} {n : ℕ}
      → bs ++ rest' ≡ rest
      → length bs ≤ count
      → (bs ≡ [] → rest ≡ [])
      → n ≤ signals
      → ReadsOnce reliable count rest signals (got bs) rest' n

-- A file as its reads show it: the bytes that are left, a bound on the signals that are to come, and
-- whether a read can fail.
pub record ReadsFile {S : Type 0} (os_read : ℕ → S → OsRead × S) : Type 0 where
  pub rest : S → List ℕ
  pub signals : S → ℕ
  pub reliable : Bool
  pub law :
      (count : ℕ) (s : S)
      → 0 < count
      → ReadsOnce reliable count
          (rest s)
          (signals s)
          (os_read count s).0
          (rest (os_read count s).1)
          (signals (os_read count s).1)

-- What `read` ends with: an error only if a read has failed, or if the file ends too early for the
-- mode; else the next bytes of the file, and no more than were asked for.
pub data HasRead (reliable : Bool) (size : ℕ) (mode : Mode) (before : List ℕ)
    : Option (Result (List ℕ)) → List ℕ → Type 0 where
  stops :
      {after : List ℕ}
      → (reliable ≡ false) ⊎ ((mode ≢ eof) × (length before < size))
      → HasRead reliable size mode before (some (err assertion)) after
  whole :
      {bytes after : List ℕ}
      → bytes ++ after ≡ before
      → length bytes ≡ size
      → HasRead reliable size mode before (some (ok bytes)) after
  at_end :
      {bytes : List ℕ}
      → mode ≡ eof
      → bytes ≡ before
      → length bytes ≤ size
      → HasRead reliable size mode before (some (ok bytes)) []
  part :
      {bytes after : List ℕ}
      → mode ≡ up_to
      → bytes ++ after ≡ before
      → 0 < length bytes
      → length bytes ≤ size
      → HasRead reliable size mode before (some (ok bytes)) after

finished-HasRead :
    (reliable : Bool) (size : ℕ) (mode : Mode) (bytes before after : List ℕ)
    → bytes ++ after ≡ before
    → length bytes ≡ size
    → HasRead reliable size mode before (some (finished mode size bytes)) after
finished-HasRead reliable size exactly bytes before after e h =
    let same : (length bytes == size) ≡ true = ground arith in rw same (whole e h)
finished-HasRead reliable size eof bytes before after e h = whole e h
finished-HasRead reliable size up_to bytes before after e h = whole e h

read_more :
    (bytes before bs rest rest' : List ℕ)
    → bytes ++ rest ≡ before
    → bs ++ rest' ≡ rest
    → (bytes ++ bs) ++ rest' ≡ before
read_more bytes before bs rest rest' e f = append_assoc bytes bs rest' ∙ ap (◌++◌ bytes) f ∙ e

module _ (reliable : Bool) (size : ℕ) (bytes before : List ℕ) where
  at_eof_by :
      (mode : Mode)
      → bytes ≡ before
      → length before < size
      → length bytes < size
      → HasRead reliable size mode before (some (at_eof mode size bytes)) []
  at_eof_by exactly same short l = stops (inr ((λ e. cc), short))
  at_eof_by up_to same short l = stops (inr ((λ e. cc), short))
  at_eof_by eof same short l = at_end refl same (omega arith)

  at_eof-HasRead :
      (mode : Mode) (rest rest' : List ℕ)
      → rest ≡ []
      → [] ++ rest' ≡ rest
      → bytes ++ rest ≡ before
      → length bytes < size
      → HasRead reliable size mode before (some (at_eof mode size bytes)) rest'
  at_eof-HasRead mode rest rest' h f e l =
      let same : bytes ≡ before = sym (append-nil bytes) ∙ ap (◌++◌ bytes) (sym h) ∙ e in
      let short : length before < size = omega (arith, ap (λ (t : List ℕ). length t) same) in
      subst (HasRead reliable size mode before (some (at_eof mode size bytes))) (sym (f ∙ h))
        (at_eof_by mode same short l)

  module _ {S : Type 0} (rest_of : S → List ℕ) (s' : S) where
    -- A round, with what the rounds after it are known to do.
    round-HasRead :
        (mode : Mode) (count n n' : ℕ) (rest : List ℕ) (out : OsRead)
        (next : List ℕ → Option (Result (List ℕ)) × S)
        → ReadsOnce reliable count rest n out (rest_of s') n'
        → bytes ++ rest ≡ before
        → length bytes + count ≤ size
        → 0 < count
        → ((bytes' : List ℕ)
            → bytes' ++ rest_of s' ≡ before
            → length bytes' ≤ size
            → (size - length bytes') + n' < (size - length bytes) + n
            → HasRead reliable size mode before (next bytes').0 (rest_of (next bytes').1))
        → HasRead reliable size mode before
            (proceed s' next (round_of mode size bytes out)).0
            (rest_of (proceed s' next (round_of mode size bytes out)).1)
    unfolding round_of
    round-HasRead mode count n n' rest _ next (fails h) e c p ih = stops (inl h)
    round-HasRead mode count n n' rest _ next (signalled f h) e c p ih =
        ih bytes (rw f e) (omega arith) (omega arith)
    round-HasRead mode count n n' rest _ next (gives {bs = []} f l z m) e c p ih =
        at_eof-HasRead mode rest (rest_of s') (z refl) f e (omega arith)
    round-HasRead up_to count n n' rest _ next (gives {bs = b ∷ bs} f l z m) e c p ih =
        let size' = length-append bytes (b ∷ bs) in
        part refl (read_more bytes before (b ∷ bs) rest (rest_of s') e f) (omega arith)
          (omega arith)
    round-HasRead exactly count n n' rest _ next (gives {bs = b ∷ bs} f l z m) e c p ih =
        let size' = length-append bytes (b ∷ bs) in
        ih (bytes ++ b ∷ bs) (read_more bytes before (b ∷ bs) rest (rest_of s') e f) (omega arith)
          (omega arith)
    round-HasRead eof count n n' rest _ next (gives {bs = b ∷ bs} f l z m) e c p ih =
        let size' = length-append bytes (b ∷ bs) in
        ih (bytes ++ b ∷ bs) (read_more bytes before (b ∷ bs) rest (rest_of s') e f) (omega arith)
          (omega arith)

module _ {S : Type 0} (os_read : ℕ → S → OsRead × S) (file : ReadsFile os_read) where
  open file use {rest, signals, reliable, law}

  read_on-HasRead :
      (fuel size : ℕ) (mode : Mode) (chunk : ℕ) (bytes : List ℕ) (s : S) (before : List ℕ)
      → bytes ++ rest s ≡ before
      → length bytes ≤ size
      → 0 < chunk
      → (size - length bytes) + signals s < fuel
      → let (out, s') = read_on os_read fuel size mode chunk bytes s in
        HasRead reliable size mode before out (rest s')
  unfolding read_on
  read_on-HasRead zero size mode chunk bytes s before e l p h = absurd (omega arith)
  read_on-HasRead (suc fuel) size mode chunk bytes s before e l p h =
      elim (Bool-cases (ltb (length bytes) size)) [
        | inr done ↦
            rw (done, read_on)
              (finished-HasRead reliable size mode bytes before (rest s) e (ground arith))
        | inl more ↦
            let room : length bytes < size = ground arith in
            let count = min chunk (size - length bytes) in
            rw (more, read_on)
              (round-HasRead reliable size bytes before rest (os_read count s).1 mode count
                (signals s) (signals (os_read count s).1) (rest s) (os_read count s).0
                (λ bytes'. read_on os_read fuel size mode chunk bytes' (os_read count s).1)
                (law count s (omega arith)) e (omega arith) (omega arith)
                (λ bytes' e' l' m.
                  read_on-HasRead fuel size mode chunk bytes' (os_read count s).1 before e' l' p
                    (omega arith)))
      ]

  -- On a file whose reads give the next bytes of it, and none only at its end, with chunks that are
  -- not empty and fuel for the bytes and for the signals that are to come: `read` ends, with an error
  -- only if a read has failed or if the file is too short for the mode, and else with the next
  -- bytes of the file: as many as were asked for, or with `eof` all that are left, or with `up_to`
  -- some, and never more than were asked for.
  pub read-HasRead :
      (fuel size : ℕ) (mode : Mode) (chunk : ℕ) (s : S)
      → 0 < chunk
      → size + signals s < fuel
      → let (out, s') = read os_read fuel size mode chunk s in
        HasRead reliable size mode (rest s) out (rest s')
  unfolding read
  read-HasRead fuel size mode chunk s p h =
      read_on-HasRead fuel size mode chunk [] s (rest s) refl (omega arith) p (omega arith)
