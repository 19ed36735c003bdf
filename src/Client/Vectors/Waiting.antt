-- ===== src/Client/Vectors/Waiting.antt =====
-- Requests in a vector, from their submission to the end of the wait for them.
use gobjfs.Base.{
  ℕ, zero, suc, ◌+◌, ◌≡◌, refl, ap, ℤ, pos, neg, Bool, true, false, List, [], ◌∷◌, Option, none,
  some, ltb, length, ◌==◌, ◌||◌, is_negative, if◌then◌else◌, arith, done, fault, Fault, >>=-eq-done,
  get_elem?, subst, Bool-cases, ◌⊎◌, inl, inr,
}
use gobjfs.Client.Vectors.{
  noop_op, open_op, close_op, Giocb, Sending, sent, no_memory, thrown, Entry, Slot, unset, freed,
  live, Vector, new_entry, submit_aio_request, merge_codes, submit_all, aio_readv, complete_slot,
  complete_entry, verdict, aio_suspendv, read_op, submit_checked, submit_op, RequestOp,
}

-- The requests that wait for their answer, and those that were not sent.
abbrev pub pending : List Slot → ℕ
pending [] = 0
pending (live e ∷ rest) = (if e.completed then 0 else 1) + pending rest
pending (_ ∷ rest) = pending rest

abbrev pub unsent : List Slot → ℕ
unsent [] = 0
unsent (live e ∷ rest) = unsent rest
unsent (_ ∷ rest) = suc (unsent rest)

abbrev pub starts_live : List Slot → Bool
starts_live (live e ∷ rest) = true
starts_live _ = false

-- The first failure of requests that were all sent.
abbrev pub summary : List Slot → ℤ × ℤ
summary [] = (pos 0, pos 0)
summary (live e ∷ rest) = if e.failed then (neg 1, e.errno) else summary rest
summary (_ ∷ rest) = summary rest

-- The request is in the vector and waits for its answer.
abbrev pub Waits : ℕ → List Slot → Type 0
Waits i slots = (e : Entry) × (get_elem? slots i ≡ some (live e)) × (e.completed ≡ false)

-- Requests of the vector are answered, in any order, each once.
pub data Answered (v : Vector) : Vector → Type 0 where
  none_yet : Answered v v
  one_more :
      {w w' : Vector} (i : ℕ) (retval errval : ℤ)
      → Answered v w
      → Waits i w.slots
      → complete_entry i retval errval w ≡ done w'
      → Answered v w'

abbrev Counts : List Slot → List Slot → Type 0
Counts slots slots' = (pending slots ≡ suc (pending slots')) × (unsent slots ≡ unsent slots')

cons-Counts : (s : Slot) (xs ys : List Slot) → Counts xs ys → Counts (s ∷ xs) (s ∷ ys)
cons-Counts (live e) xs ys h = (omega (arith, h.0), h.1)
cons-Counts unset xs ys h = (h.0, ap suc h.1)
cons-Counts freed xs ys h = (h.0, ap suc h.1)

complete_slot-Counts :
    (i : ℕ) (retval errval : ℤ) (slots : List Slot) {slots' : List Slot}
    → Waits i slots
    → complete_slot i retval errval slots ≡ done slots'
    → Counts slots slots'
unfolding complete_slot
complete_slot-Counts i retval errval [] (e, at, waits) h = cc
complete_slot-Counts zero retval errval (live x ∷ rest) (e, at, waits) h = ground arith
complete_slot-Counts zero retval errval (unset ∷ rest) (e, at, waits) h = cc
complete_slot-Counts zero retval errval (freed ∷ rest) (e, at, waits) h = cc
complete_slot-Counts (suc i) retval errval (s ∷ rest) {slots'} (e, at, waits) h =
    let (others, below, joined) = >>=-eq-done (complete_slot i retval errval rest) _ h in
    let ih = complete_slot-Counts i retval errval rest (e, at, waits) below in
    let same : (s ∷ others) ≡ slots' = ground arith in
    subst (λ xs. Counts (s ∷ rest) xs) same (cons-Counts s rest others ih)

-- What was submitted: its code, and what it adds to the two counts.
Submitted : ℤ × ℕ × Slot → Type 0
Submitted (code, errno, slot) =
    ((is_negative code ≡ false) × (slot ≡ live new_entry))
    ⊎ ((is_negative code ≡ true) × ((slot ≡ unset) ⊎ (slot ≡ freed)))

submit_op-Submitted :
    (op : RequestOp) (allocated : Bool) (sending : Sending)
    → Submitted (submit_op op allocated sending)
unfolding Submitted
submit_op-Submitted read_op true sent = inl (refl, refl)
submit_op-Submitted read_op true no_memory = inr (refl, inr refl)
submit_op-Submitted read_op true thrown = inr (refl, inr refl)
submit_op-Submitted read_op false sending = inr (refl, inl refl)
submit_op-Submitted noop_op allocated sending = inr (refl, inl refl)
submit_op-Submitted open_op allocated sending = inr (refl, inl refl)
submit_op-Submitted close_op allocated sending = inr (refl, inl refl)

submit_checked-Submitted :
    (giocbp : Option Giocb) (op : RequestOp) (allocated : Bool) (sending : Sending)
    → Submitted (submit_checked giocbp op allocated sending)
unfolding Submitted
submit_checked-Submitted none op allocated sending = inr (refl, inl refl)
submit_checked-Submitted (some g) op allocated sending =
    elim (Bool-cases (g.nbytes == 0 || is_negative g.offset)) [
      | inl bad ↦ rw bad (inr (refl, inl refl))
      | inr fine ↦ rw fine (submit_op-Submitted op allocated sending)
    ]

-- Every request waits or was not sent, and the code is -1 where one was not sent.
abbrev Merged : ℕ → ℤ → ℤ × List Slot → Type 0
Merged n err (err', slots) =
    (pending slots + unsent slots ≡ n)
    × (is_negative err' ≡ (is_negative err || ltb 0 (unsent slots)))

Merged-cons :
    (n : ℕ) (err code err' : ℤ) (errno : ℕ) (s : Slot) (slots : List Slot)
    → Submitted (code, errno, s)
    → Merged n (merge_codes err code) (err', slots)
    → Merged (suc n) err (err', s ∷ slots)
unfolding Submitted new_entry
Merged-cons n err code err' errno s slots (inl (fine, e)) m = ground arith
Merged-cons n err code err' errno s slots (inr (bad, inl e)) m = ground arith
Merged-cons n err code err' errno s slots (inr (bad, inr e)) m = ground arith

submit_all-Merged :
    (has_ctx : Bool) (giocbs : List (Option Giocb × Bool × Sending)) (err : ℤ) {r : ℤ × List Slot}
    → submit_all has_ctx giocbs err ≡ done r
    → Merged (length giocbs) err r
unfolding submit_all submit_aio_request
submit_all-Merged has_ctx [] err h = ground arith
submit_all-Merged false ((giocbp, allocated, sending) ∷ rest) err h = cc
submit_all-Merged true ((giocbp, allocated, sending) ∷ rest) err {r} h =
    let one = submit_checked giocbp read_op allocated sending in
    let (others, below, joined) = >>=-eq-done (submit_all true rest (merge_codes err one.0)) _ h in
    let same : (others.0, one.2 ∷ others.1) ≡ r = ground arith in
    subst (Merged (suc (length rest)) err) same (
      Merged-cons (length rest) err one.0 others.0 one.1 one.2 others.1
        (submit_checked-Submitted giocbp read_op allocated sending)
        (submit_all-Merged true rest (merge_codes err one.0) below))

-- The notifier counts the requests that wait and those that were never sent.
abbrev Notified : ℕ → Vector → Type 0
Notified lost v = (v.count ≡ pending v.slots + unsent v.slots) × (unsent v.slots ≡ lost)

complete_entry-Notified :
    (i lost : ℕ) (retval errval : ℤ) (v : Vector) {w : Vector}
    → Waits i v.slots
    → complete_entry i retval errval v ≡ done w
    → Notified lost v
    → Notified lost w
unfolding complete_entry
complete_entry-Notified i lost retval errval v {w} waits h n =
    let (slots, below, joined) = >>=-eq-done (complete_slot i retval errval v.slots) _ h in
    let counts = complete_slot-Counts i retval errval v.slots waits below in ground arith

Answered-Notified : (lost : ℕ) {v w : Vector} → Notified lost v → Answered v w → Notified lost w
Answered-Notified lost n none_yet = n
Answered-Notified lost n (one_more {w} i retval errval r waits h) =
    complete_entry-Notified i lost retval errval w waits h (Answered-Notified lost n r)

verdict-summary :
    (slots : List Slot) → unsent slots ≡ 0 → verdict (pos 0) (pos 0) slots ≡ done (summary slots)
unfolding verdict
verdict-summary [] h = refl
verdict-summary (live e ∷ rest) h = ground (arith, verdict-summary rest h)
verdict-summary (unset ∷ rest) h = absurd (omega arith)
verdict-summary (freed ∷ rest) h = absurd (omega arith)

suspended :
    (lost count : ℕ) (slots : List Slot)
    → Notified lost (record { count = count; slots = slots })
    → starts_live slots ≡ true
    → aio_suspendv (record { count = count; slots = slots }) ≡ (
        if ltb 0 lost || ltb 0 (pending slots)
        then fault Fault.would_block
        else done (summary slots))
unfolding aio_suspendv
suspended lost count [] n first = cc
suspended lost count (live e ∷ rest) n first = ground (arith, verdict-summary (live e ∷ rest))
suspended lost count (unset ∷ rest) n first = cc
suspended lost count (freed ∷ rest) n first = cc

readv-Notified :
    (names : ℕ) (has_ctx : Bool) (giocbs : List (Option Giocb × Bool × Sending)) (err : ℤ)
    (v : Vector)
    → aio_readv names has_ctx giocbs ≡ done (err, some v)
    → Notified (unsent v.slots) v × (is_negative err ≡ ltb 0 (unsent v.slots))
unfolding aio_readv
readv-Notified names has_ctx giocbs err v h = elim (Bool-cases (names == length giocbs)) [
  | inr differ ↦ ground arith
  | inl same ↦
      let (r, below, joined) =
        >>=-eq-done (submit_all has_ctx giocbs (pos 0)) _ (rw (same, aio_readv) at h) in
      let merged = submit_all-Merged has_ctx giocbs (pos 0) below in ground arith
]

-- Requests are submitted in a vector and those that were sent are answered, each once and in any
-- order. A wait for them without a timeout, if the first was sent, returns exactly if all were sent and all
-- are answered, with 0 if none failed and else with -1 and the errno of the first that failed. If one of
-- them could not be sent, for which `aio_readv` returned -1, the wait never ends.
pub aio_suspendv-aio_readv :
    (names : ℕ) (has_ctx : Bool) (giocbs : List (Option Giocb × Bool × Sending)) (err : ℤ)
    (v w : Vector)
    → aio_readv names has_ctx giocbs ≡ done (err, some v)
    → Answered v w
    → starts_live w.slots ≡ true
    → aio_suspendv w ≡ (
        if is_negative err || ltb 0 (pending w.slots)
        then fault Fault.would_block
        else done (summary w.slots))
aio_suspendv-aio_readv names has_ctx giocbs err v w h answered first =
    let (n, code) = readv-Notified names has_ctx giocbs err v h in
    let n' = Answered-Notified (unsent v.slots) n answered in
    rw code (suspended (unsent v.slots) w.count w.slots n' first)
