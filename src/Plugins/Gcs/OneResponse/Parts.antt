-- ===== src/Plugins/Gcs/OneResponse/Parts.antt =====
-- cpp/gcs/client/client.cc, `async_read`: the parts of a range, and the callbacks of their reads.
use runai_model_streamer.Prelude.{
  ℕ, zero, suc, ◌+◌, ◌-◌, ◌*◌, ◌/◌, ◌^◌, ◌≤◌, ◌<◌, ◌≡◌, refl, ap, Bool, true, false, none, some,
  List, [], ◌∷◌, ◌==◌, if◌then◌else◌, max, dec_unsigned, length, arith, Bool-cases, inl, inr, ◌⊎◌,
  add_size-lt, sub_size-le,
}
use runai_model_streamer.Common.ResponseCode.{ResponseCode, success, is_success}
use runai_model_streamer.Common.SharedQueue.{SharedQueue, finish_on_drain}
use runai_model_streamer.Common.SharedQueue
use runai_model_streamer.Common.BackendApi.{Response, response_is_response}
use runai_model_streamer.Plugins.Gcs.{
  Part, split_range, part_count, Pending, complete_part, push_some, complete_parts,
}

-- The parts follow one another from a place in the object and in the buffer, and have `total` bytes.
abbrev pub Tiles : (offset buffer total : ℕ) → List Part → Type 0
Tiles offset buffer total [] = total ≡ 0
Tiles offset buffer total (p ∷ ps) =
    (p.offset ≡ offset)
    × (p.buffer ≡ buffer)
    × (p.bytesize ≤ total)
    × Tiles (offset + p.bytesize) (buffer + p.bytesize) (total - p.bytesize) ps

-- The code of the first read that has failed, or Success.
abbrev pub first_failure : List ResponseCode → ResponseCode
first_failure [] = success
first_failure (c ∷ cs) = if is_success c then first_failure cs else c

pub is_success→eq : (c : ResponseCode) → is_success c ≡ true → c ≡ success
is_success→eq success h = refl
is_success→eq _ h = cc

-- A callback that succeeds and is not the last one.
pub complete_part-more :
    (id k : ℕ) (s : Bool) (c : ResponseCode)
    → is_success c ≡ true
    → 1 < k
    → k < 2 ^ 32
    → complete_part id c (record { counter = k; is_success = s })
      ≡ (record { counter = k - 1; is_success = s }, none)
unfolding complete_part dec_unsigned
complete_part-more id k s c e h b = ground arith

pub complete_part-last :
    (id : ℕ) (s : Bool) (c : ResponseCode)
    → is_success c ≡ true
    → complete_part id c (record { counter = 1; is_success = s })
      ≡ (record { counter = 0; is_success = s }, some (record { handle = id; ret = success }))
unfolding complete_part dec_unsigned
complete_part-last id s c e = rw (e, is_success→eq c e) refl

pub complete_part-error :
    (id k : ℕ) (s : Bool) (c : ResponseCode)
    → is_success c ≡ false
    → complete_part id c (record { counter = k; is_success = s }) ≡ (
      record { counter = k; is_success = false },
      if s then some (record { handle = id; ret = c }) else none,
    )
unfolding complete_part
complete_part-error id k s c e = rw e refl

pub complete_parts-cons :
    (id : ℕ) (c : ResponseCode) (cs : List ResponseCode) (p : Pending) (q : SharedQueue Response)
    → complete_parts id (c ∷ cs) p q
      ≡ complete_parts id cs (complete_part id c p).0 (push_some q (complete_part id c p).1)
unfolding complete_parts
complete_parts-cons id c cs p q = refl

-- Once a part has failed, the callbacks push nothing.
pub complete_parts-failed :
    (id k : ℕ) (cs : List ResponseCode) (q : SharedQueue Response)
    → length cs < k
    → k < 2 ^ 32
    → (complete_parts id cs (record { counter = k; is_success = false }) q).1 ≡ q
unfolding complete_parts
complete_parts-failed id k [] q h b = refl
complete_parts-failed id k (c ∷ cs) q h b = elim (Bool-cases (is_success c)) [
  | inl e ↦
      rw (complete_parts-cons, complete_part-more id k false c e (omega arith) b)
        (complete_parts-failed id (k - 1) cs q (omega arith) (omega arith))
  | inr e ↦
      rw (complete_parts-cons, complete_part-error id k false c e)
        (complete_parts-failed id k cs q (omega arith) b)
]

-- While none has failed, the counter is the number of callbacks to come.
pub complete_parts-push :
    (id : ℕ) (c : ResponseCode) (cs : List ResponseCode) (q : SharedQueue Response)
    → suc (length cs) < 2 ^ 32
    → (complete_parts id (c ∷ cs) (record { counter = suc (length cs); is_success = true }) q).1
      ≡ SharedQueue.push q (record { handle = id; ret = first_failure (c ∷ cs) })
unfolding complete_parts
complete_parts-push id c [] q b = elim (Bool-cases (is_success c)) [
  | inl e ↦ rw (complete_part-last id true c e, e) refl
  | inr e ↦ rw (complete_part-error id 1 true c e, e) refl
]
complete_parts-push id c (d ∷ cs) q b = elim (Bool-cases (is_success c)) [
  | inl e ↦
      rw
        (
          complete_parts-cons,
          complete_part-more id (suc (suc (length cs))) true c e (omega arith) b,
          e,
          let less : suc (suc (length cs)) - 1 ≡ suc (length cs) = omega arith in less,
        )
        (complete_parts-push id d cs q (omega arith))
  | inr e ↦
      rw (complete_parts-cons, complete_part-error id (suc (suc (length cs))) true c e, e)
        (complete_parts-failed id (suc (suc (length cs))) (d ∷ cs) _ (omega arith) b)
]

pub length-split_range :
    (left i chunk offset total buffer : ℕ)
    → length (split_range left i (λ _. false) chunk offset total buffer) ≡ left
unfolding split_range
length-split_range zero i chunk offset total buffer = refl
length-split_range (suc left) i chunk offset total buffer =
    ap suc (length-split_range left (suc i) chunk _ _ _)

pub split_range-Tiles :
    (left i chunk offset total buffer : ℕ)
    → left * chunk ≤ total
    → offset + total < 2 ^ 64
    → buffer + total < 2 ^ 64
    → Tiles offset buffer total (split_range (suc left) i (λ _. false) chunk offset total buffer)
unfolding split_range
split_range-Tiles zero i chunk offset total buffer h b d = (refl, refl, omega arith, omega arith)
split_range-Tiles (suc left) i chunk offset total buffer h b d =
    let step : chunk + left * chunk ≤ total = grind arith in
    let more : (suc left == 0) ≡ false = ground arith in
    rw
      (
        more,
        add_size-lt offset chunk (omega arith),
        add_size-lt buffer chunk (omega arith),
        sub_size-le total chunk (omega arith) (omega arith),
      )
      (
        refl,
        refl,
        omega arith,
        split_range-Tiles left (suc i) chunk (offset + chunk) (total - chunk) (buffer + chunk)
            (omega arith) (omega arith) (omega arith),
      )

pub part_count-suc :
    (chunk bytesize : ℕ)
    → 0 < chunk
    → (left : ℕ) × (part_count chunk bytesize ≡ suc left)
      × ((left ≡ 0) ⊎ (suc left ≡ bytesize / chunk))
unfolding part_count
part_count-suc chunk bytesize h = (max 1 (bytesize / chunk) - 1, ground arith, ground arith)

pub part_count-fits :
    (chunk bytesize left : ℕ) → (left ≡ 0) ⊎ (suc left ≡ bytesize / chunk) → left * chunk ≤ bytesize
part_count-fits chunk bytesize left (inl e) = rw e (omega arith)
part_count-fits chunk bytesize left (inr e) = grind arith
