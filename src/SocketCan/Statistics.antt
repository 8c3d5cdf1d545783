-- ===== src/SocketCan/Statistics.antt =====
-- What the statistics of src/SocketCanController.cpp count.
use old_car_can_driver.Prelude.{
  ℕ, ◌+◌, ◌<◌, ◌≤◌, ◌≡◌, refl, sym, ap, ◌∙◌, inl, inr, Bool, true, false, none, some, List, [], ◌∷◌,
  String, arith, ◌==◌, nat_eq, Option-cases, Bool-cases, not, ◌||◌, if_cases, length, All,
}
use old_car_can_driver.Prelude.Map.{erase}
use old_car_can_driver.Can.{SendResult, ok, backpressure, link_down, error}
use old_car_can_driver.SocketCan.{
  SocketCanController, Stats, Opening, Written, bytes, failed, Turn, select_failed, nothing,
  frame_read, read_failed, short_read, Errno, would_block, no_buffers, net_down, no_device,
  no_such_device, interrupted, other, new_controller, initialize, open_socket, bind_socket,
  shutdown, send, sent, add_receive_handler, remove_receive_handler, receive_loop_turn,
  receive_turn, count_read_error, no_stats,
}
use old_car_can_driver.SocketCan.Lifetime.{
  Event, initializes, shuts_down, sends, adds, removes, turns, step, run, Up, step-Up, goes_on_with,
  after_turn, initialize-Life,
}

-- The counter of an answer; both kinds of error are answered alike.
abbrev pub counter : SendResult → Stats → ℕ
counter ok s = s.tx_ok
counter backpressure s = s.tx_backpressure
counter link_down s = s.tx_link_unavailable
counter error s = s.tx_error + s.tx_partial

abbrev one_if : SendResult → SendResult → ℕ
one_if ok ok = 1
one_if backpressure backpressure = 1
one_if link_down link_down = 1
one_if error error = 1
one_if _ _ = 0

sent-counter :
    (now : ℕ) (w : Written) (r : SendResult) (s : Stats)
    → counter r s + 1 < 18446744073709551616
    → counter r (sent now w s).1 ≡ counter r s + one_if r (sent now w s).0
unfolding sent
sent-counter now (failed e) ok s h = ground arith
sent-counter now (failed e) backpressure s h = ground arith
sent-counter now (failed e) link_down s h = ground arith
sent-counter now (failed e) error s h = ground arith
sent-counter now (bytes n) ok s h = ground arith
sent-counter now (bytes n) backpressure s h = ground arith
sent-counter now (bytes n) link_down s h = ground arith
sent-counter now (bytes n) error s h = ground arith

one_if_le : (r q : SendResult) → one_if r q ≤ 1
one_if_le ok q = ground arith
one_if_le backpressure q = ground arith
one_if_le link_down q = ground arith
one_if_le error q = ground arith

-- What leaves the counters of sending as they are.
counter-same :
    (r : SendResult) (s u : Stats)
    → (s.tx_ok ≡ u.tx_ok)
      × (s.tx_backpressure ≡ u.tx_backpressure)
      × (s.tx_link_unavailable ≡ u.tx_link_unavailable)
      × (s.tx_error ≡ u.tx_error)
      × (s.tx_partial ≡ u.tx_partial)
    → counter r s ≡ counter r u + 0
counter-same ok s u h = omega (arith, h.0)
counter-same backpressure s u h = omega (arith, h.1)
counter-same link_down s u h = omega (arith, h.2)
counter-same error s u h = omega (arith, h.3, h.4)

counter-none : (r : SendResult) → counter r no_stats ≡ 0
counter-none ok = refl
counter-none backpressure = refl
counter-none link_down = refl
counter-none error = refl

module _ {H : Type 0} where
  -- How many calls of send among the events answer r.
  unfoldable pub tallied : SendResult → Event H → SocketCanController H → ℕ
  tallied r (sends now f w) t = one_if r (send now f w t).0
  tallied r _ t = 0

  unfoldable pub tally : SendResult → List (Event H) → SocketCanController H → ℕ
  tally r [] t = 0
  tally r (e ∷ es) t = tallied r e t + tally r es (step e t)

  tallied_le : (r : SendResult) (e : Event H) (t : SocketCanController H) → tallied r e t ≤ 1
  unfolding tallied
  tallied_le r (initializes device loopback k) t = omega arith
  tallied_le r shuts_down t = omega arith
  tallied_le r (sends now f w) t = one_if_le r (send now f w t).0
  tallied_le r (adds h) t = omega arith
  tallied_le r (removes id) t = omega arith
  tallied_le r (turns now turn) t = omega arith

  count_read_error-counter :
      (e : Errno) (r : SendResult) (t : SocketCanController H)
      → counter r (count_read_error e t).stats ≡ counter r t.stats + 0
  unfolding count_read_error
  count_read_error-counter would_block r t = counter-same r _ _ (refl, refl, refl, refl, refl)
  count_read_error-counter interrupted r t = counter-same r _ _ (refl, refl, refl, refl, refl)
  count_read_error-counter no_buffers r t = counter-same r _ _ (refl, refl, refl, refl, refl)
  count_read_error-counter net_down r t = counter-same r _ _ (refl, refl, refl, refl, refl)
  count_read_error-counter no_device r t = counter-same r _ _ (refl, refl, refl, refl, refl)
  count_read_error-counter no_such_device r t = counter-same r _ _ (refl, refl, refl, refl, refl)
  count_read_error-counter other r t = counter-same r _ _ (refl, refl, refl, refl, refl)

  receive_turn-counter :
      (now : ℕ) (turn : Turn) (r : SendResult) (t : SocketCanController H)
      → counter r (receive_turn now turn t).1.stats ≡ counter r t.stats + 0
  unfolding receive_turn
  receive_turn-counter now select_failed r t = counter-same r _ _ (refl, refl, refl, refl, refl)
  receive_turn-counter now nothing r t = counter-same r _ _ (refl, refl, refl, refl, refl)
  receive_turn-counter now (frame_read c) r t = counter-same r _ _ (refl, refl, refl, refl, refl)
  receive_turn-counter now (read_failed e) r t = count_read_error-counter e r t
  receive_turn-counter now short_read r t = counter-same r _ _ (refl, refl, refl, refl, refl)

  step-counter :
      (e : Event H) (r : SendResult) (t : SocketCanController H)
      → goes_on_with e ≡ true
      → Up t
      → counter r t.stats + 1 < 18446744073709551616
      → counter r (step e t).stats ≡ counter r t.stats + tallied r e t
  unfolding step tallied send add_receive_handler remove_receive_handler receive_loop_turn
  step-counter (initializes device loopback k) r t c u h = ground (arith, c)
  step-counter shuts_down r t c u h = ground (arith, c)
  step-counter (sends now f w) r t c u h = rw (u.ready, u.bound) (sent-counter now w r t.stats h)
  step-counter (adds none) r t c u h = counter-same r _ _ (refl, refl, refl, refl, refl)
  step-counter (adds (some x)) r t c u h = counter-same r _ _ (refl, refl, refl, refl, refl)
  step-counter (removes id) r t c u h =
      if_cases (λ v. counter r v.stats ≡ counter r t.stats + 0) (id == 0) t
        (record t { handlers = erase id t.handlers })
        (λ _. counter-same r _ _ (refl, refl, refl, refl, refl))
        (λ _. counter-same r _ _ (refl, refl, refl, refl, refl))
  step-counter (turns now turn) r t c u h =
      if_cases (λ o. counter r (after_turn t o).stats ≡ counter r t.stats + 0)
        (t.stop_requested || (elim t.socket_fd [ none ↦ true | some _ ↦ false ])) none
        (some (receive_turn now turn t)) (λ _. counter-same r _ _ (refl, refl, refl, refl, refl))
        (λ _. receive_turn-counter now turn r t)

  run-counter :
      (es : List (Event H)) (r : SendResult) (t : SocketCanController H)
      → All (λ e. goes_on_with e ≡ true) es
      → Up t
      → counter r t.stats + length es < 18446744073709551616
      → counter r (run es t).stats ≡ counter r t.stats + tally r es t
  unfolding run tally
  run-counter [] r t c u h = omega arith
  run-counter (e ∷ es) r t c u h =
      let one = step-counter e r t c.0 u (omega arith) in
      let few : tallied r e t ≤ 1 = tallied_le r e t in
      omega (
        arith,
        one,
        few,
        run-counter es r (step e t) c.1 (step-Up e t c.0 u) (omega (arith, one, few)),
      )

  open_socket-stats :
      (device : String) (loopback : Bool) (fd : ℕ) (k : Opening) (t : SocketCanController H)
      → (open_socket device loopback fd k t).1.stats ≡ t.stats
  unfolding open_socket bind_socket
  open_socket-stats device loopback fd k t = elim (Bool-cases k.non_blocking) [
    | inr e ↦ rw e refl
    | inl e ↦ rw e (
        if_cases (λ (r : Bool × SocketCanController H). r.1.stats ≡ t.stats)
          (k.ifindex == 0 || not k.bound) _ _ (λ _. refl) (λ _. refl))
  ]

  initialize-stats :
      (device : String) (loopback : Bool) (k : Opening) (t : SocketCanController H)
      → (initialize device loopback k t).1.stats ≡ no_stats
  unfolding initialize shutdown
  initialize-stats device loopback k t = elim (Option-cases k.socket) [
    | inl e ↦ rw e refl
    | inr (fd, e) ↦ rw e (open_socket-stats device loopback fd k _)
  ]

  -- When initialize answers that it succeeded, after any calls, then after fewer than 2^64
  -- further calls but initialize and shutdown, the counter of an answer is the number of calls
  -- of send that answered so, where the two counters of errors are summed.
  pub counts_answers :
      (past es : List (Event H)) (device : String) (loopback : Bool) (k : Opening) (r : SendResult)
      → (initialize device loopback k (run past new_controller)).0 ≡ true
      → All (λ e. goes_on_with e ≡ true) es
      → length es < 18446744073709551616
      → let t = (initialize device loopback k (run past new_controller)).1 in
        counter r (run es t).stats ≡ tally r es t
  counts_answers past es device loopback k r opened c few =
      let start = run past new_controller in
      let t = (initialize device loopback k start).1 in
      let (before, life, answer) = initialize-Life past device loopback k in
      let zero_at : counter r t.stats ≡ 0 =
        ap (counter r) (initialize-stats device loopback k start) ∙ counter-none r in
      elim life [
        | inl u ↦ omega (arith, zero_at, run-counter es r t c u (omega (arith, zero_at, few)))
        | inr d ↦ ground (arith, sym opened ∙ answer ∙ d.idle)
      ]
