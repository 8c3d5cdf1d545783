-- ===== src/SocketCan/Lifetime.antt =====
-- The life of the socket and its receive thread over any calls of src/SocketCanController.cpp.
use old_car_can_driver.Prelude.{
  ℕ, ◌+◌, ◌-◌, ◌≡◌, refl, sym, ap, ◌∙◌, ◌⊎◌, inl, inr, Bool, true, false, not, ◌||◌, Option, none,
  some, List, [], ◌∷◌, String, arith, ◌==◌, nat_eq, Bool-cases, Option-cases, if_cases,
}
use old_car_can_driver.Prelude.Map.{erase}
use old_car_can_driver.Can.{Frame, SendResult}
use old_car_can_driver.SocketCan.{
  SocketCanController, CanFrame, Opening, Written, Turn, Errno, select_failed, nothing, frame_read,
  read_failed, short_read, would_block, no_buffers, net_down, no_device, no_such_device,
  interrupted, other, new_controller, shutdown, initialize, open_socket, bind_socket, send, closed,
  should_enable_local_loopback, should_receive_own_messages, add_receive_handler,
  remove_receive_handler, receive_loop_turn, receive_turn, count_read_error,
}

-- A call of the controller, or a turn of its receive thread, which does nothing when the loop ends.
pub data Event (H : Type 0) : Type 0 where
  initializes : String → Bool → Opening → Event H
  shuts_down : Event H
  sends : ℕ → Frame → Written → Event H
  adds : Option H → Event H
  removes : ℕ → Event H
  turns : ℕ → Turn → Event H

module _ {H : Type 0} where
  abbrev pub after_turn :
      SocketCanController H
      → Option (List (H × Frame) × SocketCanController H)
      → SocketCanController H
  after_turn t none = t
  after_turn t (some r) = r.1

  unfoldable pub step : Event H → SocketCanController H → SocketCanController H
  step (initializes device loopback k) t = (initialize device loopback k t).1
  step shuts_down t = shutdown t
  step (sends now f w) t = (send now f w t).2
  step (adds h) t = (add_receive_handler h t).1
  step (removes id) t = remove_receive_handler id t
  step (turns now turn) t = after_turn t (receive_loop_turn now turn t)

  unfoldable pub run : List (Event H) → SocketCanController H → SocketCanController H
  run [] t = t
  run (e ∷ es) t = run es (step e t)

  -- Ready: the socket is open and the only one held, and the receive thread is there and has not
  -- been asked to stop.
  pub record Up (t : SocketCanController H) : Type 0 where
    pub ready : t.initialized ≡ true
    pub fd : ℕ
    pub bound : t.socket_fd ≡ some fd
    pub held : t.open_sockets ≡ 1
    pub receives : t.receiving ≡ true
    pub goes_on : t.stop_requested ≡ false

  -- Not ready: no socket is held, and there is no receive thread.
  pub record Down (t : SocketCanController H) : Type 0 where
    pub idle : t.initialized ≡ false
    pub unbound : t.socket_fd ≡ none
    pub released : t.open_sockets ≡ 0
    pub rests : t.receiving ≡ false

  abbrev pub Life : SocketCanController H → Type 0
  Life t = Up t ⊎ Down t

  shutdown-Down : (t : SocketCanController H) → Life t → Down (shutdown t)
  unfolding shutdown
  shutdown-Down t (inl u) =
      rw (u.bound)
        record { idle = refl; unbound = refl; released = ap (λ n. n - 1) u.held; rests = refl }
  shutdown-Down t (inr d) =
      rw (d.unbound) record { idle = refl; unbound = refl; released = d.released; rests = refl }

  -- After initialize the controller is ready exactly if it answered so.
  abbrev Opened : Bool × SocketCanController H → Type 0
  Opened r = Life r.1 × (r.0 ≡ r.1.initialized)

  given_up :
      (t : SocketCanController H) (ask : Bool × Bool)
      → Down t
      → Opened (false, record t { options = ask; open_sockets = t.open_sockets + 1 - 1 })
  given_up t ask d = (
    inr (record {
      idle = d.idle;
      unbound = d.unbound;
      released = omega (arith, d.released);
      rests = d.rests;
    }),
    sym d.idle,
  )

  open_socket-Opened :
      (device : String) (loopback : Bool) (fd : ℕ) (k : Opening) (t : SocketCanController H)
      → Down t
      → Opened (open_socket device loopback fd k (record t { open_sockets = t.open_sockets + 1 }))
  unfolding open_socket bind_socket should_enable_local_loopback should_receive_own_messages
  open_socket-Opened device loopback fd k t d = elim (Bool-cases k.non_blocking) [
    | inr e ↦ rw e (given_up t t.options d)
    | inl e ↦ rw e (
        if_cases Opened (k.ifindex == 0 || not k.bound) _ _ (λ _. given_up t (true, loopback) d)
          (λ _. (
            inl (record {
              ready = refl;
              fd = fd;
              bound = refl;
              held = ap (λ n. n + 1) d.released;
              receives = refl;
              goes_on = refl;
            }),
            refl,
          )))
  ]

  initialize-Opened :
      (device : String) (loopback : Bool) (k : Opening) (t : SocketCanController H)
      → Life t
      → Opened (initialize device loopback k t)
  unfolding initialize
  initialize-Opened device loopback k t l =
      let d = shutdown-Down t l in
      elim (Option-cases k.socket) [
        | inl e ↦ rw e (inr d, sym d.idle)
        | inr (fd, e) ↦ rw e (open_socket-Opened device loopback fd k (shutdown t) d)
      ]

  -- What leaves the socket as it is leaves the controller's life as it is.
  Life-same :
      (t u : SocketCanController H)
      → (t.initialized ≡ u.initialized)
        × (t.socket_fd ≡ u.socket_fd)
        × (t.open_sockets ≡ u.open_sockets)
        × (t.receiving ≡ u.receiving)
        × (t.stop_requested ≡ u.stop_requested)
      → Life t
      → Life u
  Life-same t u (i, s, o, r, p) (inl l) = inl (record {
    ready = sym i ∙ l.ready;
    fd = l.fd;
    bound = sym s ∙ l.bound;
    held = sym o ∙ l.held;
    receives = sym r ∙ l.receives;
    goes_on = sym p ∙ l.goes_on;
  })
  Life-same t u (i, s, o, r, p) (inr l) = inr (record {
    idle = sym i ∙ l.idle;
    unbound = sym s ∙ l.unbound;
    released = sym o ∙ l.released;
    rests = sym r ∙ l.rests;
  })

  count_read_error-Life :
      (e : Errno) (t : SocketCanController H) → Life t → Life (count_read_error e t)
  unfolding count_read_error
  count_read_error-Life would_block t l = l
  count_read_error-Life interrupted t l = l
  count_read_error-Life no_buffers t l = Life-same t _ (refl, refl, refl, refl, refl) l
  count_read_error-Life net_down t l = Life-same t _ (refl, refl, refl, refl, refl) l
  count_read_error-Life no_device t l = Life-same t _ (refl, refl, refl, refl, refl) l
  count_read_error-Life no_such_device t l = Life-same t _ (refl, refl, refl, refl, refl) l
  count_read_error-Life other t l = Life-same t _ (refl, refl, refl, refl, refl) l

  receive_turn-Life :
      (now : ℕ) (turn : Turn) (t : SocketCanController H)
      → Life t
      → Life (receive_turn now turn t).1
  unfolding receive_turn
  receive_turn-Life now select_failed t l = l
  receive_turn-Life now nothing t l = l
  receive_turn-Life now (frame_read c) t l = Life-same t _ (refl, refl, refl, refl, refl) l
  receive_turn-Life now (read_failed e) t l = count_read_error-Life e t l
  receive_turn-Life now short_read t l = Life-same t _ (refl, refl, refl, refl, refl) l

  pub step-Life : (e : Event H) (t : SocketCanController H) → Life t → Life (step e t)
  unfolding step send add_receive_handler remove_receive_handler receive_loop_turn
  step-Life (initializes device loopback k) t l = (initialize-Opened device loopback k t l).0
  step-Life shuts_down t l = inr (shutdown-Down t l)
  step-Life (sends now f w) t l =
      if_cases (λ (r : SendResult × Option CanFrame × SocketCanController H). Life r.2) (closed t) _
        _ (λ _. l) (λ _. Life-same t _ (refl, refl, refl, refl, refl) l)
  step-Life (adds none) t l = l
  step-Life (adds (some h)) t l = Life-same t _ (refl, refl, refl, refl, refl) l
  step-Life (removes id) t l =
      if_cases Life (id == 0) _ _ (λ _. l) (λ _. Life-same t _ (refl, refl, refl, refl, refl) l)
  step-Life (turns now turn) t l =
      if_cases (λ o. Life (after_turn t o))
        (t.stop_requested || (elim t.socket_fd [ none ↦ true | some _ ↦ false ])) none
        (some (receive_turn now turn t)) (λ _. l) (λ _. receive_turn-Life now turn t l)

  -- Neither initialize nor shutdown.
  abbrev pub goes_on_with : Event H → Bool
  goes_on_with (initializes _ _ _) = false
  goes_on_with shuts_down = false
  goes_on_with _ = true

  count_read_error-initialized :
      (e : Errno) (t : SocketCanController H) → (count_read_error e t).initialized ≡ t.initialized
  unfolding count_read_error
  count_read_error-initialized would_block t = refl
  count_read_error-initialized interrupted t = refl
  count_read_error-initialized no_buffers t = refl
  count_read_error-initialized net_down t = refl
  count_read_error-initialized no_device t = refl
  count_read_error-initialized no_such_device t = refl
  count_read_error-initialized other t = refl

  receive_turn-initialized :
      (now : ℕ) (turn : Turn) (t : SocketCanController H)
      → (receive_turn now turn t).1.initialized ≡ t.initialized
  unfolding receive_turn
  receive_turn-initialized now select_failed t = refl
  receive_turn-initialized now nothing t = refl
  receive_turn-initialized now (frame_read c) t = refl
  receive_turn-initialized now (read_failed e) t = count_read_error-initialized e t
  receive_turn-initialized now short_read t = refl

  step-initialized :
      (e : Event H) (t : SocketCanController H)
      → goes_on_with e ≡ true
      → (step e t).initialized ≡ t.initialized
  unfolding step send add_receive_handler remove_receive_handler receive_loop_turn
  step-initialized (initializes device loopback k) t c = ground (arith, c)
  step-initialized shuts_down t c = ground (arith, c)
  step-initialized (sends now f w) t c =
      if_cases
        (λ (r : SendResult × Option CanFrame × SocketCanController H).
          r.2.initialized ≡ t.initialized)
        (closed t) _ _ (λ _. refl) (λ _. refl)
  step-initialized (adds none) t c = refl
  step-initialized (adds (some h)) t c = refl
  step-initialized (removes id) t c =
      if_cases (λ u. u.initialized ≡ t.initialized) (id == 0) t
        (record t { handlers = erase id t.handlers }) (λ _. refl) (λ _. refl)
  step-initialized (turns now turn) t c =
      if_cases (λ o. (after_turn t o).initialized ≡ t.initialized)
        (t.stop_requested || (elim t.socket_fd [ none ↦ true | some _ ↦ false ])) none
        (some (receive_turn now turn t)) (λ _. refl) (λ _. receive_turn-initialized now turn t)

  pub step-Up :
      (e : Event H) (t : SocketCanController H) → goes_on_with e ≡ true → Up t → Up (step e t)
  step-Up e t c u =
      let same = step-initialized e t c in
      elim (step-Life e t (inl u)) [
        | inl v ↦ v
        | inr d ↦ ground (arith, sym same ∙ d.idle, u.ready)
      ]

  pub run-Life : (es : List (Event H)) (t : SocketCanController H) → Life t → Life (run es t)
  unfolding run
  run-Life [] t l = l
  run-Life (e ∷ es) t l = run-Life es (step e t) (step-Life e t l)

  new_controller-Down : let t : SocketCanController H = new_controller in Down t
  new_controller-Down = record { idle = refl; unbound = refl; released = refl; rests = refl }

  pub reachable-Life : (es : List (Event H)) → Life (run es new_controller)
  reachable-Life es = run-Life es new_controller (inr new_controller-Down)

  -- After any calls of a new controller, and so after one more initialize, it is ready with
  -- exactly one socket held, which is the one it uses, and with its receive thread, not asked to
  -- stop; or it is not ready, holds no socket and has no thread. initialize answers whether it
  -- is ready then.
  pub initialize-Life :
      (es : List (Event H)) (device : String) (loopback : Bool) (k : Opening)
      → let r = initialize device loopback k (run es new_controller) in
        Life (run es new_controller) × Life r.1 × (r.0 ≡ r.1.initialized)
  initialize-Life es device loopback k =
      let l = reachable-Life es in
      let (after, answer) = initialize-Opened device loopback k (run es new_controller) l in
      (l, after, answer)
