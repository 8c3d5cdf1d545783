-- ===== src/SocketCan.antt =====
-- The transport over a CAN socket of Linux: src/SocketCanController.cpp. What the system calls return
-- and the steady clock are arguments, `H` is the type of a receive handler, and log lines are left
-- out. The receive thread is a sequence of turns of its loop.
pub mod Frames
pub mod Lifetime
pub mod Statistics
pub mod Handlers
mod Examples
use old_car_can_driver.Prelude.{
  ℕ, zero, suc, ◌+◌, ◌-◌, ◌/◌, ◌%◌, min, String, Bool, true, false, not, ◌||◌, Option, none, some,
  List, [], ◌∷◌, map, ◌==◌, if◌then◌else◌, nat_eq,
}
use old_car_can_driver.Prelude.Map.{find, insert, erase}
use old_car_can_driver.Can.{Frame, SendResult, ok, backpressure, link_down, error}

-- The kernel's `struct can_frame`.
pub record CanFrame : Type 0 where
  pub can_id : ℕ
  pub can_dlc : ℕ
  pub payload : List ℕ

-- `id | 1 << n` for the weight `w` = 2 ^ n, and whether `id & 1 << n` is not 0.
abbrev pub has_flag : ℕ → ℕ → Bool
has_flag w id = id / w % 2 == 1

abbrev pub with_flag : ℕ → ℕ → ℕ
with_flag w id = if has_flag w id then id else id + w

abbrev pub can_eff_flag : ℕ
can_eff_flag = 0x80000000

abbrev pub can_rtr_flag : ℕ
can_rtr_flag = 0x40000000

-- `data[i]` for each i below `n` in an array of zeros with `places` elements.
unfoldable pub copy_bytes : ℕ → ℕ → List ℕ → List ℕ
copy_bytes zero n bs = []
copy_bytes (suc places) zero bs = 0 ∷ copy_bytes places zero bs
copy_bytes (suc places) (suc n) [] = 0 ∷ copy_bytes places n []
copy_bytes (suc places) (suc n) (b ∷ bs) = b ∷ copy_bytes places n bs

unfoldable pub to_linux_can_frame : Frame → CanFrame
unfolding copy_bytes
to_linux_can_frame f =
    let id = if f.is_extended then with_flag can_eff_flag f.id else f.id in
    record {
      can_id = if f.is_remote_request then with_flag can_rtr_flag id else id;
      can_dlc = min f.dlc 8;
      payload = copy_bytes 8 (min f.dlc 8) f.data_bytes;
    }

-- `& CAN_EFF_MASK` keeps the low 29 bits.
unfoldable pub from_linux_can_frame : CanFrame → Frame
unfolding copy_bytes
from_linux_can_frame c = record {
  id = c.can_id % 0x20000000;
  is_extended = has_flag can_eff_flag c.can_id;
  is_remote_request = has_flag can_rtr_flag c.can_id;
  dlc = min c.can_dlc 8;
  data_bytes = copy_bytes 8 (min c.can_dlc 8) c.payload;
}

-- The errno of a failed call: EAGAIN or EWOULDBLOCK, ENOBUFS, ENETDOWN, ENODEV, ENXIO, EINTR, any
-- other.
pub data Errno : Type 0 where
  would_block no_buffers net_down no_device no_such_device interrupted other : Errno

abbrev pub is_backpressure_send_error : Errno → Bool
is_backpressure_send_error would_block = true
is_backpressure_send_error no_buffers = true
is_backpressure_send_error _ = false

abbrev pub is_link_unavailable_send_error : Errno → Bool
is_link_unavailable_send_error net_down = true
is_link_unavailable_send_error no_device = true
is_link_unavailable_send_error no_such_device = true
is_link_unavailable_send_error _ = false

pub record Stats : Type 0 where
  pub tx_ok : ℕ
  pub tx_backpressure : ℕ
  pub tx_link_unavailable : ℕ
  pub tx_error : ℕ
  pub tx_partial : ℕ
  pub rx_ok : ℕ
  pub rx_error : ℕ
  pub rx_short_read : ℕ
  pub last_tx_link_unavailable_steady_ns : ℕ
  pub last_rx_steady_ns : ℕ

-- The socket is none where the descriptor is -1. `receiving` says that there is a receive thread to
-- join, `open_sockets` how many sockets are open, opened by the controller and not closed by it,
-- and `options` what the last socket was asked for: local loopback and its own messages.
pub record SocketCanController (H : Type 0) : Type 0 where
  pub initialized : Bool
  pub stop_requested : Bool
  pub receiving : Bool
  pub socket_fd : Option ℕ
  pub open_sockets : ℕ
  pub options : Bool × Bool
  pub device_name : String
  pub stats : Stats
  pub handlers : List (ℕ × H)
  pub next_handler_id : ℕ

abbrev pub no_stats : Stats
no_stats = record {
  tx_ok = 0;
  tx_backpressure = 0;
  tx_link_unavailable = 0;
  tx_error = 0;
  tx_partial = 0;
  rx_ok = 0;
  rx_error = 0;
  rx_short_read = 0;
  last_tx_link_unavailable_steady_ns = 0;
  last_rx_steady_ns = 0;
}

abbrev pub new_controller : {H : Type 0} → SocketCanController H
new_controller = record {
  initialized = false;
  stop_requested = false;
  receiving = false;
  socket_fd = none;
  open_sockets = 0;
  options = (false, false);
  device_name = "";
  stats = no_stats;
  handlers = [];
  next_handler_id = 1;
}

-- Adding 1 to a counter of 64 bits.
abbrev pub increment : ℕ → ℕ
increment n = (n + 1) % 18446744073709551616

-- What the kernel answers to the calls of initialize: the descriptor of the new socket, whether it
-- was made non-blocking, the index of the interface, 0 where there is none, and whether it was bound.
pub record Opening : Type 0 where
  pub socket : Option ℕ
  pub non_blocking : Bool
  pub ifindex : ℕ
  pub bound : Bool

-- What a call answers: bytes written, or an errno.
pub data Written : Type 0 where
  bytes : ℕ → Written
  failed : Errno → Written

-- What a turn of the receive loop finds: select failed or found nothing, or a frame was read, or
-- the read failed or was too short.
pub data Turn : Type 0 where
  select_failed nothing : Turn
  frame_read : CanFrame → Turn
  read_failed : Errno → Turn
  short_read : Turn

unfoldable pub should_enable_local_loopback : Bool
should_enable_local_loopback = true

unfoldable pub should_receive_own_messages : Bool → Bool
should_receive_own_messages loopback = loopback

-- The answer to a call of ::send, and the statistics; the size of a can_frame is 16 bytes.
unfoldable pub sent : ℕ → Written → Stats → SendResult × Stats
sent now (failed e) s =
    if is_backpressure_send_error e
    then (backpressure, record s { tx_backpressure = increment s.tx_backpressure })
    else if is_link_unavailable_send_error e
    then (
      link_down,
      record s {
        tx_link_unavailable = increment s.tx_link_unavailable;
        last_tx_link_unavailable_steady_ns = now;
      },
    )
    else (error, record s { tx_error = increment s.tx_error })
sent now (bytes n) s =
    if n == 16
    then (ok, record s { tx_ok = increment s.tx_ok })
    else (error, record s { tx_partial = increment s.tx_partial })

module _ {H : Type 0} where
  abbrev pub close : SocketCanController H → SocketCanController H
  close t = elim t.socket_fd [
    | none ↦ t
    | some _ ↦ record t { open_sockets = t.open_sockets - 1; socket_fd = none }
  ]

  -- The receive thread ends when it sees the stop request, and is joined.
  unfoldable pub shutdown : SocketCanController H → SocketCanController H
  shutdown t =
      let u = close (record t { stop_requested = true; initialized = false; receiving = false }) in
      record u { handlers = []; next_handler_id = 1; stats = no_stats; device_name = "" }

  -- After the socket was opened and made non-blocking: t holds it open, and the options are set.
  unfoldable pub bind_socket :
      String → ℕ → Opening → SocketCanController H → Bool × SocketCanController H
  bind_socket device fd k t =
      if k.ifindex == 0 || not k.bound
      then (false, record t { open_sockets = t.open_sockets - 1 })
      else (
        true,
        record t {
          socket_fd = some fd;
          stop_requested = false;
          receiving = true;
          device_name = device;
          initialized = true;
        },
      )

  unfoldable pub open_socket :
      String → Bool → ℕ → Opening → SocketCanController H → Bool × SocketCanController H
  unfolding bind_socket should_enable_local_loopback should_receive_own_messages
  open_socket device loopback fd k t =
      if not k.non_blocking
      then (false, record t { open_sockets = t.open_sockets - 1 })
      else bind_socket device fd k (record t {
        options = (should_enable_local_loopback, should_receive_own_messages loopback);
      })

  unfoldable pub initialize :
      String → Bool → Opening → SocketCanController H → Bool × SocketCanController H
  unfolding shutdown open_socket
  initialize device loopback k t = elim k.socket [
    | none ↦ (false, shutdown t)
    | some fd ↦
        let u = shutdown t in
        open_socket device loopback fd k (record u { open_sockets = u.open_sockets + 1 })
  ]

  abbrev pub closed : SocketCanController H → Bool
  closed t = not t.initialized || (elim t.socket_fd [ none ↦ true | some _ ↦ false ])

  -- The answer, the frame handed to the kernel, and the state.
  unfoldable pub send :
      ℕ
      → Frame
      → Written
      → SocketCanController H
      → SendResult × Option CanFrame × SocketCanController H
  unfolding sent
  send now f w t = if closed t then (error, none, t) else (
    (sent now w t.stats).0,
    some (to_linux_can_frame f),
    record t { stats = (sent now w t.stats).1 },
  )

  -- A handler that has the id stays.
  unfoldable pub emplace : ℕ → H → List (ℕ × H) → List (ℕ × H)
  emplace id h m = elim (find id m) [ none ↦ insert id h m | some _ ↦ m ]

  -- An empty handler is not added; its id is 0.
  unfoldable pub add_receive_handler : Option H → SocketCanController H → ℕ × SocketCanController H
  unfolding emplace
  add_receive_handler none t = (0, t)
  add_receive_handler (some h) t = (
    t.next_handler_id,
    record t {
      handlers = emplace t.next_handler_id h t.handlers;
      next_handler_id = increment t.next_handler_id;
    },
  )

  unfoldable pub remove_receive_handler : ℕ → SocketCanController H → SocketCanController H
  remove_receive_handler id t = if id == 0 then t else record t { handlers = erase id t.handlers }

  -- The calls of the handlers.
  unfoldable pub dispatch_receive : Frame → SocketCanController H → List (H × Frame)
  dispatch_receive f t = map (λ e. (e.1, f)) t.handlers

  unfoldable pub count_read_error : Errno → SocketCanController H → SocketCanController H
  count_read_error would_block t = t
  count_read_error interrupted t = t
  count_read_error _ t = record t {
    stats = record t.stats { rx_error = increment t.stats.rx_error };
  }

  -- A turn of the loop, with the calls of the handlers.
  unfoldable pub receive_turn :
      ℕ → Turn → SocketCanController H → List (H × Frame) × SocketCanController H
  unfolding dispatch_receive count_read_error
  receive_turn now select_failed t = ([], t)
  receive_turn now nothing t = ([], t)
  receive_turn now (frame_read c) t = (
    dispatch_receive (from_linux_can_frame c) t,
    record t {
      stats = record t.stats { rx_ok = increment t.stats.rx_ok; last_rx_steady_ns = now };
    },
  )
  receive_turn now (read_failed e) t = ([], count_read_error e t)
  receive_turn now short_read t =
      ([], record t { stats = record t.stats { rx_short_read = increment t.stats.rx_short_read } })

  -- The loop ends, with none, at a stop request or without a socket.
  unfoldable pub receive_loop_turn :
      ℕ → Turn → SocketCanController H → Option (List (H × Frame) × SocketCanController H)
  unfolding receive_turn
  receive_loop_turn now turn t =
      if t.stop_requested || (elim t.socket_fd [ none ↦ true | some _ ↦ false ])
      then none
      else some (receive_turn now turn t)
