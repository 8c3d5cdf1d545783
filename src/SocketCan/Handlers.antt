-- ===== src/SocketCan/Handlers.antt =====
-- Which handlers a received frame reaches: the handlers of src/SocketCanController.cpp.
use mathlib.Core.List.{Mem, mem-cons_self, mem-cons_of_mem}
use old_car_can_driver.Prelude.{
  ℕ, ◌+◌, ◌≤◌, ◌<◌, ◌≡◌, refl, sym, ap, ◌∙◌, inl, inr, Bool, true, false, not, ◌||◌, Option, none,
  some, List, [], ◌∷◌, map, arith, ◌==◌, nat_eq, if_cases, Bool-cases, String, Option-cases, length,
  All,
}
use old_car_can_driver.Prelude.Map.{find, insert, erase, find-insert, find-insert_self, find-erase}
use old_car_can_driver.Can.{Frame, SendResult}
use old_car_can_driver.SocketCan.{
  SocketCanController, CanFrame, Turn, select_failed, nothing, frame_read, read_failed, short_read,
  Opening, Errno, would_block, no_buffers, net_down, no_device, no_such_device, interrupted, other,
  new_controller, initialize, open_socket, bind_socket, shutdown, send, sent, closed, emplace,
  add_receive_handler, remove_receive_handler, dispatch_receive, receive_loop_turn, receive_turn,
  count_read_error, from_linux_can_frame,
}
use old_car_can_driver.SocketCan.Lifetime.{
  Event, initializes, shuts_down, sends, adds, removes, turns, step, run, Up, goes_on_with,
  after_turn, step-Up, reachable-Life,
}

module _ {H : Type 0} where
  -- Keeps the socket and does not remove the handler.
  abbrev pub keeps : ℕ → Event H → Bool
  keeps id (initializes _ _ _) = false
  keeps id shuts_down = false
  keeps id (removes j) = not (j == id)
  keeps id _ = true

  count_read_error-handlers :
      (e : Errno) (t : SocketCanController H) → (count_read_error e t).handlers ≡ t.handlers
  unfolding count_read_error
  count_read_error-handlers would_block t = refl
  count_read_error-handlers interrupted t = refl
  count_read_error-handlers no_buffers t = refl
  count_read_error-handlers net_down t = refl
  count_read_error-handlers no_device t = refl
  count_read_error-handlers no_such_device t = refl
  count_read_error-handlers other t = refl

  turn-handlers :
      (now : ℕ) (turn : Turn) (t : SocketCanController H)
      → (step (turns now turn) t).handlers ≡ t.handlers
  unfolding step receive_loop_turn receive_turn
  turn-handlers now turn t =
      if_cases (λ o. (after_turn t o).handlers ≡ t.handlers)
        (t.stop_requested || (elim t.socket_fd [ none ↦ true | some _ ↦ false ])) none
        (some (receive_turn now turn t)) (λ _. refl) (λ _. by_turn turn)
    where
      by_turn : (turn : Turn) → (receive_turn now turn t).1.handlers ≡ t.handlers
      by_turn select_failed = refl
      by_turn nothing = refl
      by_turn (frame_read c) = refl
      by_turn (read_failed e) = count_read_error-handlers e t
      by_turn short_read = refl

  -- What emplace does to an id that has a handler: nothing.
  emplaced :
      (j id : ℕ) (x h : H) (m : List (ℕ × H))
      → find id m ≡ some h
      → find id (emplace j x m) ≡ some h
  unfolding emplace
  emplaced j id x h m e = elim (Option-cases (find j m)) [
    | inr (y, there) ↦ rw (emplace, there) e
    | inl absent ↦
        rw (emplace, absent) (ground (arith, find-insert j id x m, absent, e, nat_eq.beq_iff j id))
  ]

  step-find :
      (e : Event H) (id : ℕ) (h : H) (t : SocketCanController H)
      → keeps id e ≡ true
      → find id t.handlers ≡ some h
      → find id (step e t).handlers ≡ some h
  unfolding step send add_receive_handler remove_receive_handler
  step-find (initializes device loopback k) id h t c f = ground (arith, c)
  step-find shuts_down id h t c f = ground (arith, c)
  step-find (sends now frame w) id h t c f =
      if_cases
        (λ (r : SendResult × Option CanFrame × SocketCanController H).
          find id r.2.handlers ≡ some h)
        (closed t) _ _ (λ _. f) (λ _. f)
  step-find (adds none) id h t c f = f
  step-find (adds (some x)) id h t c f = emplaced t.next_handler_id id x h t.handlers f
  step-find (removes j) id h t c f =
      if_cases (λ u. find id u.handlers ≡ some h) (j == 0) t
        (record t { handlers = erase j t.handlers }) (λ _. f)
        (λ _. ground (arith, find-erase j id t.handlers, c, f))
  step-find (turns now turn) id h t c f = ap (find id) (turn-handlers now turn t) ∙ f

  keeps-goes_on : (id : ℕ) (e : Event H) → keeps id e ≡ true → goes_on_with e ≡ true
  keeps-goes_on id (initializes device loopback k) c = c
  keeps-goes_on id shuts_down c = c
  keeps-goes_on id (sends now frame w) c = refl
  keeps-goes_on id (adds x) c = refl
  keeps-goes_on id (removes j) c = refl
  keeps-goes_on id (turns now turn) c = refl

  run-keeps :
      (es : List (Event H)) (id : ℕ) (h : H) (t : SocketCanController H)
      → All (λ e. keeps id e ≡ true) es
      → Up t
      → find id t.handlers ≡ some h
      → Up (run es t) × (find id (run es t).handlers ≡ some h)
  unfolding run
  run-keeps [] id h t c u f = (u, f)
  run-keeps (e ∷ es) id h t c u f =
      run-keeps es id h (step e t) c.1 (step-Up e t (keeps-goes_on id e c.0) u)
        (step-find e id h t c.0 f)

  -- No id from the next one on has a handler, and n more ids fit.
  abbrev Free : ℕ → SocketCanController H → Type 0
  Free n t =
      (t.next_handler_id + n < 18446744073709551616)
      × (0 < t.next_handler_id)
      × ((j : ℕ) → t.next_handler_id ≤ j → find j t.handlers ≡ none)

  find-Mem :
      (id : ℕ) (h : H) (f : Frame) (m : List (ℕ × H))
      → find id m ≡ some h
      → Mem {A = H × Frame} (h, f) (map (λ e. (e.1, f)) m)
  unfolding find
  find-Mem id h f [] e = ground (arith, e)
  find-Mem id h f ((j, x) ∷ m) e = elim (Bool-cases (j == id)) [
    | inl s ↦ let same : x ≡ h = ground (arith, s, e) in rw same (mem-cons_self {a = (h, f)})
    | inr s ↦
        let later : find id m ≡ some h = ground (arith, s, e) in
        mem-cons_of_mem (x, f) (find-Mem id h f m later)
  ]

  Free-same :
      (n : ℕ) (t u : SocketCanController H)
      → t.handlers ≡ u.handlers
      → t.next_handler_id ≡ u.next_handler_id
      → Free (n + 1) t
      → Free n u
  Free-same n t u hs next (few, some_id, free) = (
    omega (arith, next, few),
    omega (arith, next, some_id),
    λ j le. ap (find j) (sym hs) ∙ free j (omega (arith, next, le)),
  )

  Free-emptied :
      (n : ℕ) (t u : SocketCanController H)
      → u.handlers ≡ []
      → u.next_handler_id ≡ 1
      → Free (n + 1) t
      → Free n u
  unfolding find
  Free-emptied n t u hs next (few, some_id, free) =
      (omega (arith, next, few, some_id), omega (arith, next), λ j le. ap (find j) hs)

  initialize-emptied :
      (device : String) (loopback : Bool) (k : Opening) (t : SocketCanController H)
      → ((initialize device loopback k t).1.handlers ≡ [])
        × ((initialize device loopback k t).1.next_handler_id ≡ 1)
  unfolding initialize open_socket bind_socket shutdown
  initialize-emptied device loopback k t = elim (Option-cases k.socket) [
    | inl e ↦ rw e (refl, refl)
    | inr (fd, e) ↦ rw e (elim (Bool-cases k.non_blocking) [
      | inr n ↦ rw n (refl, refl)
      | inl n ↦ rw n (
          if_cases
            (λ (r : Bool × SocketCanController H). (r.1.handlers ≡ []) × (r.1.next_handler_id ≡ 1))
            (k.ifindex == 0 || not k.bound) _ _ (λ _. (refl, refl)) (λ _. (refl, refl)))
    ])
  ]

  turn-next :
      (now : ℕ) (turn : Turn) (t : SocketCanController H)
      → (step (turns now turn) t).next_handler_id ≡ t.next_handler_id
  unfolding step receive_loop_turn receive_turn count_read_error
  turn-next now turn t =
      if_cases (λ o. (after_turn t o).next_handler_id ≡ t.next_handler_id)
        (t.stop_requested || (elim t.socket_fd [ none ↦ true | some _ ↦ false ])) none
        (some (receive_turn now turn t)) (λ _. refl) (λ _. by_turn turn)
    where
      by_errno : (e : Errno) → (count_read_error e t).next_handler_id ≡ t.next_handler_id
      by_errno would_block = refl
      by_errno interrupted = refl
      by_errno no_buffers = refl
      by_errno net_down = refl
      by_errno no_device = refl
      by_errno no_such_device = refl
      by_errno other = refl

      by_turn : (turn : Turn) → (receive_turn now turn t).1.next_handler_id ≡ t.next_handler_id
      by_turn select_failed = refl
      by_turn nothing = refl
      by_turn (frame_read c) = refl
      by_turn (read_failed e) = by_errno e
      by_turn short_read = refl

  emplace_new :
      (id : ℕ) (h : H) (m : List (ℕ × H)) → find id m ≡ none → emplace id h m ≡ insert id h m
  unfolding emplace
  emplace_new id h m e = rw (emplace, e) refl

  Free-added :
      (n : ℕ) (x : H) (t : SocketCanController H)
      → Free (n + 1) t
      → Free n (add_receive_handler (some x) t).1
  unfolding add_receive_handler
  Free-added n x t (few, some_id, free) =
      let i = t.next_handler_id in
      let new = emplace_new i x t.handlers (free i (omega arith)) in
      (
        omega (arith, few),
        omega (arith, few),
        λ j le.
            let after : i + 1 ≤ j = omega (arith, few, le) in
            ap (find j) new
            ∙ ground (
              arith,
              find-insert i j x t.handlers,
              after,
              free j (omega (arith, after)),
              nat_eq.beq_iff i j,
            ),
      )

  step-Free : (n : ℕ) (e : Event H) (t : SocketCanController H) → Free (n + 1) t → Free n (step e t)
  unfolding step shutdown send add_receive_handler remove_receive_handler
  step-Free n (initializes device loopback k) t f =
      let (hs, next) = initialize-emptied device loopback k t in
      Free-emptied n t (initialize device loopback k t).1 hs next f
  step-Free n shuts_down t f = Free-emptied n t (shutdown t) refl refl f
  step-Free n (sends now frame w) t f =
      if_cases (λ (r : SendResult × Option CanFrame × SocketCanController H). Free n r.2) (closed t)
        _ _ (λ _. Free-same n t t refl refl f)
        (λ _. Free-same n t (record t { stats = (sent now w t.stats).1 }) refl refl f)
  step-Free n (adds none) t f = Free-same n t t refl refl f
  step-Free n (adds (some x)) t f = Free-added n x t f
  step-Free n (removes i) t (few, some_id, free) =
      if_cases (Free n) (i == 0) t (record t { handlers = erase i t.handlers })
        (λ _. Free-same n t t refl refl (few, some_id, free))
        (λ _. (
          omega (arith, few),
          some_id,
          λ j le. ground (arith, find-erase i j t.handlers, free j le),
        ))
  step-Free n (turns now turn) t f =
      Free-same n t (step (turns now turn) t) (sym (turn-handlers now turn t))
        (sym (turn-next now turn t)) f

  run-Free :
      (es : List (Event H)) (n : ℕ) (t : SocketCanController H)
      → Free (length es + n) t
      → Free n (run es t)
  unfolding run
  run-Free [] n t f = ground (arith, f)
  run-Free (e ∷ es) n t f =
      let more : Free (length es + n + 1) t = (omega (arith, f.0), f.1, f.2) in
      run-Free es n (step e t) (step-Free (length es + n) e t more)

  Free-new :
      (n : ℕ)
      → 1 + n < 18446744073709551616
      → let t : SocketCanController H = new_controller in Free n t
  unfolding find
  Free-new n few = (few, omega arith, λ j le. refl)

  -- When a controller is ready after fewer than 2^64 - 2 calls, a handler that is added then is
  -- called with every frame that the receive thread reads after any further calls but
  -- initialize, shutdown and the removal of that handler; the receive thread has not ended by
  -- then.
  pub handler_is_called :
      (past es : List (Event H)) (h : H) (now : ℕ) (c : CanFrame)
      → (run past new_controller).initialized ≡ true
      → 1 + length past < 18446744073709551616
      → All (λ e. keeps (add_receive_handler (some h) (run past new_controller)).0 e ≡ true) es
      → let f = from_linux_can_frame c in
        let u = run es (add_receive_handler (some h) (run past new_controller)).1 in
        (receive_loop_turn now (frame_read c) u
          ≡ some (dispatch_receive f u, step (turns now (frame_read c)) u))
        × Mem {A = H × Frame} (h, f) (dispatch_receive f u)
  unfolding add_receive_handler receive_loop_turn receive_turn dispatch_receive step
  handler_is_called past es h now c ready few kept =
      let start = run past new_controller in
      let id = start.next_handler_id in
      let t = step (adds (some h)) start in
      let free = run-Free past 0 new_controller (Free-new (length past + 0) (omega (arith, few))) in
      let added : find id t.handlers ≡ some h =
        ap (find id) (emplace_new id h start.handlers (free.2 id (omega arith)))
        ∙ find-insert_self id h start.handlers in
      elim (reachable-Life past) [
        | inr d ↦ ground (arith, sym ready ∙ d.idle)
        | inl u ↦
            let (v, found) =
              run-keeps es id h t kept (step-Up (adds (some h)) start refl u) added in
            (turn_of v, find-Mem id h (from_linux_can_frame c) (run es t).handlers found)
      ]
    where
      turn_of :
          {u : SocketCanController H}
          → Up u
          → receive_loop_turn now (frame_read c) u
            ≡ some (dispatch_receive (from_linux_can_frame c) u, step (turns now (frame_read c)) u)
      turn_of {u} v = ground (arith, v.goes_on, v.bound)
