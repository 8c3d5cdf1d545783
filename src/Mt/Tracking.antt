-- ===== src/Mt/Tracking.antt =====
-- Histories of the MT reads (src/MtCan.cpp): polls, completions from the dispatcher, frames, fault
-- resets and registrations, each with its time.
use old_car_can_driver.Prelude.{
  not, ◌||◌, inl, inr, ℕ, ◌+◌, ◌≤◌, min, Bool, false, ◌&&◌, List, [], ◌∷◌, ◌≡◌, arith, nat_eq,
  if_cases, Option-cases,
}
use old_car_can_driver.Prelude.Map.{find, AllValues, AllValues-insert, AllValues-find}
use old_car_can_driver.Can.{SendResult}
use old_car_can_driver.Mt.{
  PendingReadRequest, MtCan, new_read, note_shared_timeout, compute_timeout_backoff,
  compute_read_request_timeout,
}
use old_car_can_driver.Mt.Reads.{
  pending_read_key, Verdict, held, issued, delayed, try_entry, read_at, put_read, settle,
  try_issue_read_command, dispatch_noted, change_read, poll, on_read_dispatch_result, answered,
  mark_read_response_received,
}

-- What every entry keeps, as of time `t`.
pub record IsRead (t : ℕ) (r : PendingReadRequest) : Type 0 where
  pub exclusive : (r.queued && r.in_flight) ≡ false
  pub counted : r.consecutive_timeouts ≤ 8
  pub sent : r.last_sent ≤ t
  pub waits : r.next_eligible_send ≤ t + 500000000

abbrev pub Tracked : ℕ → MtCan → Type 0
Tracked t c = AllValues (IsRead t) c.pending_read_requests

pub new_read-IsRead : (t : ℕ) → IsRead t new_read
new_read-IsRead t = ground arith

pub backoff-le : (timeouts base : ℕ) → compute_timeout_backoff timeouts base ≤ 500
unfolding compute_timeout_backoff
backoff-le timeouts base = omega arith

try_entry-IsRead :
    (t now timeout : ℕ) (r : PendingReadRequest)
    → t ≤ now
    → IsRead t r
    → IsRead now (try_entry now timeout r).1
unfolding try_entry
try_entry-IsRead t now timeout r le h =
    ground (arith, backoff-le (min (r.consecutive_timeouts + 1) 8) timeout)

dispatch-IsRead :
    (t now : ℕ) (attempted : Bool) (result : SendResult) (r : PendingReadRequest)
    → t ≤ now
    → IsRead t r
    → IsRead now (dispatch_noted attempted result now r)
unfolding dispatch_noted
dispatch-IsRead t now attempted result r le h = ground arith

answered-IsRead :
    (t now : ℕ) (r : PendingReadRequest) → t ≤ now → IsRead t r → IsRead now (answered r)
answered-IsRead t now r le h = ground arith

pub later-IsRead : (t u : ℕ) (r : PendingReadRequest) → t ≤ u → IsRead t r → IsRead u r
later-IsRead t u r le h = ground arith

module _ (t u : ℕ) (le : t ≤ u) where
  pub later-AllValues :
      (m : List (ℕ × PendingReadRequest)) → AllValues (IsRead t) m → AllValues (IsRead u) m
  later-AllValues [] h = h
  later-AllValues ((k, r) ∷ m) h = (later-IsRead t u r le h.0, later-AllValues m h.1)

settle-Tracked :
    (node : ℕ) (v : Verdict) (c : MtCan) (t : ℕ) → Tracked t c → Tracked t (settle node v c).1
unfolding note_shared_timeout
settle-Tracked node held c t h = h
settle-Tracked node issued c t h = h
settle-Tracked node (delayed k) c t h = h

-- A change of one entry that keeps what an entry keeps.
change-Tracked :
    (f : PendingReadRequest → PendingReadRequest) (key t u : ℕ) (c : MtCan)
    → t ≤ u
    → ((r : PendingReadRequest) → IsRead t r → IsRead u (f r))
    → Tracked t c
    → Tracked u (change_read f key c)
change-Tracked f key t u c le keep h = elim (Option-cases (find key c.pending_read_requests)) [
  | inl e ↦ rw e (later-AllValues t u le c.pending_read_requests h)
  | inr (r, e) ↦
      let entry =
        AllValues-find (IsRead t) key c.pending_read_requests new_read h (new_read-IsRead t) in
      rw e (
        AllValues-insert (IsRead u) key (f r) c.pending_read_requests
          (later-AllValues t u le c.pending_read_requests h) (keep r (rw e at entry)))
]

module _ (t now : ℕ) (le : t ≤ now) (node command : ℕ) where
  pub try-Tracked :
      (c : MtCan) → Tracked t c → Tracked now (try_issue_read_command node command now c).1
  unfolding try_issue_read_command
  try-Tracked c h =
      let key = pending_read_key node command in
      let timeout = compute_read_request_timeout c in
      let entry =
        AllValues-find (IsRead t) key c.pending_read_requests new_read h (new_read-IsRead t) in
      let stored =
        AllValues-insert (IsRead now) key (try_entry now timeout (read_at key c)).1
          c.pending_read_requests (later-AllValues t now le c.pending_read_requests h)
          (try_entry-IsRead t now timeout (read_at key c) le entry) in
      if_cases (λ (p : Bool × MtCan). Tracked now p.1) (c.shutting_down || not c.has_controller)
        (false, c) (poll node command now c)
        (λ _. later-AllValues t now le c.pending_read_requests h)
        (λ _.
          settle-Tracked node (try_entry now timeout (read_at key c)).0
            (put_read key (try_entry now timeout (read_at key c)).1 c) now stored)

  pub dispatch-Tracked :
      (attempted : Bool) (result : SendResult) (c : MtCan)
      → Tracked t c
      → Tracked now (on_read_dispatch_result node command attempted result now c)
  unfolding on_read_dispatch_result dispatch_noted
  dispatch-Tracked attempted result c h =
      if_cases (Tracked now) c.shutting_down c
        (change_read (dispatch_noted attempted result now) (pending_read_key node command) c)
        (λ _. later-AllValues t now le c.pending_read_requests h)
        (λ _.
          change-Tracked (dispatch_noted attempted result now) (pending_read_key node command) t now
            c le (λ r k. dispatch-IsRead t now attempted result r le k) h)

  pub answered-Tracked :
      (c : MtCan) → Tracked t c → Tracked now (mark_read_response_received node command c)
  unfolding mark_read_response_received
  answered-Tracked c h =
      change-Tracked answered (pending_read_key node command) t now c le
        (λ r k. answered-IsRead t now r le k) h
