-- ===== src/Usage/Recorder/Totals.antt =====
-- What a step of the recorder of internal/usage/recorder.go does to the sum of its counts and its
-- queues.
use keera_gateway.Base.{
  ℕ, suc, ◌+◌, Bool, true, false, none, some, [], ◌∷◌, ◌++◌, ltb, leb, length, length-append, ◌≡◌,
  refl, ap, sym, ◌∙◌, Bool-cases, inl, inr, arith, nat_eq, ◌==◌, if◌then◌else◌,
}
use keera_gateway.Base.Int.{ℤ, pos}
use keera_gateway.Base.Int64.{add64, sub64, add64_assoc, add64_comm, add64_sum, add64_moved}
use keera_gateway.Usage.Recorder.{
  Options, Event, Recorder, System, Step, Reaches, WriteResult, written_all, failed, lost,
  new_recorder, send, drop, after_write, flush, add, record_sent, record_failing, record_waits,
  wait_sent, wait_over, poll_none, take_billed, take_other, tick, cancel, drained, started,
  then_step,
}

-- The counts of a recorder, with other events pending.
abbrev pub sum : Recorder → ℕ → ℤ
sum r n = add64 (add64 r.written r.dropped) (pos n)

-- What is written or dropped, queued, in the batch, or pending elsewhere.
abbrev pub total : Recorder → ℕ → ℤ
total r rest = sum r (length r.ch + length r.billed + length r.batch + rest)

-- What is written or dropped, in a queue, in the batch or waiting for room.
abbrev pub all_of : System → ℤ
all_of s = total s.recorder (length s.waiting)

pub sum_same : (r : Recorder) (m n : ℕ) → m ≡ n → sum r m ≡ sum r n
sum_same r m n e = ap (λ (k : ℕ). sum r k) e

swap : (a n d : ℤ) → add64 (add64 a n) d ≡ add64 (add64 a d) n
swap a n d =
    add64_assoc a n d ∙ (ap (λ (c : ℤ). add64 a c) (add64_comm n d) ∙ sym (add64_assoc a d n))

both : (w d k m : ℤ) → add64 (add64 w m) (add64 d k) ≡ add64 (add64 (add64 w d) k) m
both w d k m = swap w m (add64 d k) ∙ ap (λ (c : ℤ). add64 c m) (sym (add64_assoc w d k))

sum-after_write :
    (r : Recorder) (n rest : ℕ) (result : WriteResult)
    → sum (after_write r n result) rest ≡ sum r (n + rest)
unfolding after_write
sum-after_write r n rest written_all =
    let w = r.written in
    let d = r.dropped in
    ap (λ (c : ℤ). add64 c (pos rest)) (swap w (pos n) d) ∙ add64_sum (add64 w d) n rest
sum-after_write r n rest failed =
    let w = r.written in
    let d = r.dropped in
    ap (λ (c : ℤ). add64 c (pos rest)) (sym (add64_assoc w d (pos n)))
    ∙ add64_sum (add64 w d) n rest
sum-after_write r n rest (lost k) =
    let w = r.written in
    let d = r.dropped in
    ap (λ (c : ℤ). add64 c (pos rest)) (both w d k (sub64 (pos n) k) ∙ add64_moved (add64 w d) k n)
    ∙ add64_sum (add64 w d) n rest

sum-flush :
    (r : Recorder) (rest : ℕ) (result : WriteResult)
    → sum (flush r result) rest ≡ sum r (length r.batch + rest)
unfolding flush
sum-flush r rest result = elim (Bool-cases (length r.batch == 0)) [
  | inl empty ↦
      let e : length r.batch ≡ 0 = ground arith in
      rw (empty, e) (sum_same r rest (0 + rest) (omega arith))
  | inr full ↦ rw full (sum-after_write r (length r.batch) rest result)
]

-- A flush empties the batch and leaves the queues.
pub record IsFlushed (r r' : Recorder) : Type 0 where
  pub ch : r'.ch ≡ r.ch
  pub billed : r'.billed ≡ r.billed
  pub batch : length r'.batch ≡ 0

after_write-IsFlushed :
    (r : Recorder) (n : ℕ) (result : WriteResult) → IsFlushed r (after_write r n result)
unfolding after_write
after_write-IsFlushed r n written_all = record { ch = refl; billed = refl; batch = refl }
after_write-IsFlushed r n failed = record { ch = refl; billed = refl; batch = refl }
after_write-IsFlushed r n (lost k) = record { ch = refl; billed = refl; batch = refl }

pub flush-IsFlushed : (r : Recorder) (result : WriteResult) → IsFlushed r (flush r result)
unfolding flush
flush-IsFlushed r result = elim (Bool-cases (length r.batch == 0)) [
  | inl empty ↦
      let e : length r.batch ≡ 0 = ground arith in
      rw empty (record { ch = refl; billed = refl; batch = e })
  | inr full ↦ rw full (after_write-IsFlushed r (length r.batch) result)
]

total-flush :
    (r : Recorder) (rest : ℕ) (result : WriteResult) → total (flush r result) rest ≡ total r rest
total-flush r rest result =
    let f = flush-IsFlushed r result in
    let r' = flush r result in
    let n : length r'.ch + length r'.billed + length r'.batch + rest
        ≡ length r.ch + length r.billed + rest =
      rw (f.ch, f.billed, f.batch) (omega arith) in
    sum_same r' _ _ n
    ∙ (sum-flush r (length r.ch + length r.billed + rest) result ∙ sum_same r _ _ (omega arith))

total-add :
    (r : Recorder) (rest : ℕ) (e : Event) (result : WriteResult)
    → total (add r e result) rest ≡ total r (suc rest)
unfolding add
total-add r rest e result =
    let r' : Recorder = record r { batch = r.batch ++ e ∷ [] } in
    let more : total r' rest ≡ total r (suc rest) =
      sum_same r _ _ (omega (arith, length-append r.batch (e ∷ []))) in
    elim (Bool-cases (leb r.batch_size (length (r.batch ++ e ∷ [])))) [
      | inl full ↦ rw full (total-flush r' rest result ∙ more)
      | inr room ↦ rw room more
    ]

total-drop : (r : Recorder) (rest : ℕ) → total (drop r) rest ≡ total r (suc rest)
unfolding drop
total-drop r rest =
    let n = length r.ch + length r.billed + length r.batch + rest in
    ap (λ (c : ℤ). add64 c (pos n)) (sym (add64_assoc r.written r.dropped (pos 1)))
    ∙ (add64_sum (add64 r.written r.dropped) 1 n ∙ sum_same r _ _ (omega arith))

pub taken : (b : Bool) (a a' : Recorder) → (if b then some a else none) ≡ some a' → a ≡ a'
taken true a a' h = cc
taken false a a' h = cc

one_more : (r : Recorder) (n : ℕ) → total r (suc n) ≡ add64 (total r n) (pos 1)
one_more r n =
    sum_same r _ _ (omega arith)
    ∙ sym (
        add64_sum (add64 r.written r.dropped) (length r.ch + length r.billed + length r.batch + n)
          1)

none_more : (r : Recorder) (n : ℕ) → total r n ≡ add64 (total r n) (pos 0)
none_more r n =
    sum_same r _ _ (omega arith)
    ∙ sym (
        add64_sum (add64 r.written r.dropped) (length r.ch + length r.billed + length r.batch + n)
          0)

total-send :
    (r r' : Recorder) (rest : ℕ) (e : Event)
    → send r e ≡ some r'
    → total r' rest ≡ total r (suc rest)
unfolding send
total-send r r' rest e h = elim (Bool-cases (ltb 0 (length e.bills))) [
  | inl bills ↦
      let r1 : Recorder = record r { billed = r.billed ++ e ∷ [] } in
      let same : r1 ≡ r' = taken (ltb (length r.billed) r.buffer) r1 r' (rw bills at h) in
      ap (λ (x : Recorder). total x rest) (sym same)
      ∙ sum_same r _ _ (omega (arith, length-append r.billed (e ∷ [])))
  | inr none_of ↦
      let r1 : Recorder = record r { ch = r.ch ++ e ∷ [] } in
      let same : r1 ≡ r' = taken (ltb (length r.ch) r.buffer) r1 r' (rw none_of at h) in
      ap (λ (x : Recorder). total x rest) (sym same)
      ∙ sum_same r _ _ (omega (arith, length-append r.ch (e ∷ [])))
]

total-step : {s s' : System} {k : ℕ} → Step s s' k → all_of s' ≡ add64 (all_of s) (pos k)
total-step (record_sent {r} {r'} {ws} e h) =
    total-send r r' (length ws) e h ∙ one_more r (length ws)
total-step (record_failing {r} {ws} e h f) = total-drop r (length ws) ∙ one_more r (length ws)
total-step (record_waits {r} {ws} e h f) = one_more r (length ws)
total-step (wait_sent {r} {r'} vs ws e h) =
    total-send r r' (length (vs ++ ws)) e h
    ∙ (sum_same r _ _ (omega (arith, length-append vs ws, length-append vs (e ∷ ws)))
        ∙ none_more r (length (vs ++ e ∷ ws)))
total-step (wait_over {r} vs ws e) =
    total-drop r (length (vs ++ ws))
    ∙ (sum_same r _ _ (omega (arith, length-append vs ws, length-append vs (e ∷ ws)))
        ∙ none_more r (length (vs ++ e ∷ ws)))
total-step (poll_none {r} {ws} h) = none_more r (length ws)
total-step (take_billed {r} {ws} {es} e result h t) =
    total-add (record r { billed = es }) (length ws) e result
    ∙ (sum_same r _ _ (rw h (omega arith)) ∙ none_more r (length ws))
total-step (take_other {r} {ws} {es} e result h t) =
    total-add (record r { ch = es }) (length ws) e result
    ∙ (sum_same r _ _ (rw h (omega arith)) ∙ none_more r (length ws))
total-step (tick {r} {ws} result) = total-flush r (length ws) result ∙ none_more r (length ws)
total-step (cancel {r} {ws}) = none_more r (length ws)
total-step (drained {r} {ws} result h h') =
    total-flush r (length ws) result ∙ none_more r (length ws)

pub all_of-Reaches :
    (opts : Options) (s : System) (n : ℕ) → Reaches opts s n → all_of s ≡ add64 (pos 0) (pos n)
unfolding new_recorder
all_of-Reaches opts s n started = add64_sum (pos 0) 0 0
all_of-Reaches opts s n (then_step {s = s0} {n = n0} {k} before one) =
    total-step one
    ∙ (ap (λ (c : ℤ). add64 c (pos k)) (all_of-Reaches opts s0 n0 before) ∙ add64_sum (pos 0) n0 k)
