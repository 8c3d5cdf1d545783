-- ===== src/Mt/Retries.antt =====
-- When the MT driver asks a motor again: the queries of src/MtCan.cpp that wait for an answer.
use old_car_can_driver.Prelude.{
  ℕ, ◌+◌, ◌%◌, ◌≤◌, ◌==◌, min, Bool, true, false, not, ◌||◌, ◌⊎◌, inl, inr, List, [], ◌∷◌, ◌≡◌,
  refl, ap, ◌∙◌, arith, if◌then◌else◌, leb, nat_eq, ==_iff, some, is_empty,
}
use old_car_can_driver.Prelude.Map.{or_new, find-insert, AllValues-find}
use old_car_can_driver.SharedState.Data.{
  AxisFeedbackState, no_feedback, codes_eq_iff, axis_map_key, AxisKey,
}
use old_car_can_driver.SharedState.{
  SharedDriverState, get_axis_feedback, mutate_axis_feedback, recompute_axis_observed_locked,
}
use old_car_can_driver.SharedState.Axes.{get-mutate_axis_feedback}
use old_car_can_driver.Mt.{
  PendingReadRequest, MtCan, new_read, compute_read_request_timeout, axis_key, note_shared_timeout,
  timeout_noted,
}
use old_car_can_driver.Mt.Reads.{
  pending_read_key, ns_of_ms, Verdict, held, issued, delayed, try_entry, read_at, put_read, settle,
  poll, try_issue_read_command,
}
use old_car_can_driver.Mt.Tracking.{IsRead, backoff-le, new_read-IsRead}
use old_car_can_driver.Mt.Histories.{ReadEvent, run, InOrder, last_time, run-Tracked}

-- A read waits for its answer between a quarter of a second and one and a half seconds.
timeout_bounds :
    (c : MtCan) → (250 ≤ compute_read_request_timeout c) × (compute_read_request_timeout c ≤ 1500)
unfolding compute_read_request_timeout
timeout_bounds c = omega arith

abbrev pub can_read : MtCan → Bool
can_read c = not (c.shutting_down || not c.has_controller)

-- Two tries of an entry that no dispatcher holds.
entry_retried :
    (t t1 t2 timeout : ℕ) (r : PendingReadRequest)
    → timeout ≤ 1500
    → IsRead t r
    → r.queued ≡ false
    → t + 1500000000 ≤ t1
    → t1 + 500000000 ≤ t2
    → ((try_entry t1 timeout r).0 ≡ issued)
      ⊎ ((try_entry t2 timeout (try_entry t1 timeout r).1).0 ≡ issued)
unfolding try_entry
entry_retried t t1 t2 timeout r le h q p1 p2 =
    ground (arith, backoff-le (min (r.consecutive_timeouts + 1) 8) timeout)

abbrev pub is_issued : Verdict → Bool
is_issued held = false
is_issued issued = true
is_issued (delayed timeouts) = false

settle-is_issued : (node : ℕ) (v : Verdict) (c : MtCan) → (settle node v c).0 ≡ is_issued v
settle-is_issued node held c = refl
settle-is_issued node issued c = refl
settle-is_issued node (delayed timeouts) c = refl

-- What the note of a timeout leaves alone.
settle-frame :
    (node : ℕ) (v : Verdict) (c : MtCan)
    → let c' = (settle node v c).1 in
      (c'.pending_read_requests ≡ c.pending_read_requests)
      × (can_read c' ≡ can_read c)
      × (compute_read_request_timeout c' ≡ compute_read_request_timeout c)
unfolding note_shared_timeout compute_read_request_timeout
settle-frame node held c = (refl, refl, refl)
settle-frame node issued c = (refl, refl, refl)
settle-frame node (delayed timeouts) c = (refl, refl, refl)

module _ (node command now : ℕ) (c : MtCan) where
  abbrev pub verdict : Verdict
  verdict =
      (try_entry now (compute_read_request_timeout c) (read_at (pending_read_key node command) c)).0

  abbrev pub entry_after : PendingReadRequest
  entry_after =
      (try_entry now (compute_read_request_timeout c) (read_at (pending_read_key node command) c)).1

  pub try-poll :
      can_read c ≡ true → try_issue_read_command node command now c ≡ poll node command now c
  unfolding try_issue_read_command
  try-poll able = ground arith

  -- A try answers as its entry does, and changes no other entry.
  pub poll_lem :
      (key : ℕ)
      → let c' = (poll node command now c).1 in
        ((poll node command now c).0 ≡ is_issued verdict)
        × (read_at key c'
            ≡ (if pending_read_key node command == key then entry_after else read_at key c))
        × (can_read c' ≡ can_read c)
        × (compute_read_request_timeout c' ≡ compute_read_request_timeout c)
  unfolding compute_read_request_timeout
  poll_lem key =
      let stored = put_read (pending_read_key node command) entry_after c in
      let frame = settle-frame node verdict stored in
      (
        settle-is_issued node verdict stored,
        rw
            (
              frame.0,
              find-insert (pending_read_key node command) key entry_after c.pending_read_requests,
            )
            (ground arith),
        frame.1,
        frame.2,
      )

module _ (node command t1 t2 : ℕ) (c : MtCan) (able : can_read c ≡ true) where
  abbrev first_entry : PendingReadRequest
  first_entry = read_at (pending_read_key node command) c

  abbrev waited : ℕ
  waited = compute_read_request_timeout c

  abbrev after_first : MtCan
  after_first = (poll node command t1 c).1

  second_verdict :
      verdict node command t2 after_first
      ≡ (try_entry t2 waited (try_entry t1 waited first_entry).1).0
  second_verdict =
      let key = pending_read_key node command in
      let first = poll_lem node command t1 c key in
      let stored : read_at key after_first ≡ entry_after node command t1 c =
        ground (arith, first.1, ==_iff key key) in
      ap (λ (n : ℕ). (try_entry t2 n (read_at key after_first)).0) first.3
      ∙ ap (λ (r : PendingReadRequest). (try_entry t2 waited r).0) stored

  second_try :
      (try_issue_read_command node command t2 after_first).0
      ≡ is_issued (verdict node command t2 after_first)
  second_try =
      let key = pending_read_key node command in
      rw (try-poll node command t2 after_first ((poll_lem node command t1 c key).2 ∙ able))
        ((poll_lem node command t2 after_first key).0)

  either_issued :
      ((try_entry t1 waited first_entry).0 ≡ issued)
        ⊎ ((try_entry t2 waited (try_entry t1 waited first_entry).1).0 ≡ issued)
      → let (first, c1) = try_issue_read_command node command t1 c in
        (first ≡ true) ⊎ ((try_issue_read_command node command t2 c1).0 ≡ true)
  either_issued (inl e) =
      rw (try-poll node command t1 c able)
        (inl ((poll_lem node command t1 c (pending_read_key node command)).0 ∙ ap is_issued e))
  either_issued (inr e) =
      rw (try-poll node command t1 c able) (inr (second_try ∙ ap is_issued (second_verdict ∙ e)))

-- After any history of polls, completions, frames, fault resets and registrations on a driver
-- without reads, with times that do not go back, a read that the dispatcher does not hold, of a
-- driver with a controller that is not shutting down, is issued by one of two polls of which the
-- first comes at least 1.5 s after the last event and the second at least 0.5 s after the first.
pub query_retried :
    (node command : ℕ) (es : List (ℕ × ReadEvent)) (c0 : MtCan) (t1 t2 : ℕ)
    → c0.pending_read_requests ≡ []
    → InOrder 0 es
    → (run es c0).shutting_down ≡ false
    → (run es c0).has_controller ≡ true
    → (read_at (pending_read_key node command) (run es c0)).queued ≡ false
    → last_time 0 es + 1500000000 ≤ t1
    → t1 + 500000000 ≤ t2
    → let (first, c1) = try_issue_read_command node command t1 (run es c0) in
      (first ≡ true) ⊎ ((try_issue_read_command node command t2 c1).0 ≡ true)
query_retried node command es c0 t1 t2 none_yet order up there free p1 p2 =
    let c = run es c0 in
    let t = last_time 0 es in
    let key = pending_read_key node command in
    let tracked = run-Tracked 0 es c0 order (rw none_yet tt) in
    let entry =
      AllValues-find (IsRead t) key c.pending_read_requests new_read tracked (new_read-IsRead t) in
    either_issued node command t1 t2 c (ground arith) (
      entry_retried t t1 t2 (compute_read_request_timeout c) (read_at key c) (timeout_bounds c).1
        entry free p1 p2)

-- Polls of any reads at any times.
unfoldable pub polls_of : List (ℕ × ℕ × ℕ) → MtCan → MtCan
unfolding try_issue_read_command
polls_of [] c = c
polls_of ((n, k, now) ∷ ps) c = polls_of ps (try_issue_read_command n k now c).1

try-queued :
    (key node command now : ℕ) (c : MtCan)
    → (read_at key c).queued ≡ true
    → (read_at key (try_issue_read_command node command now c).1).queued ≡ true
unfolding try_issue_read_command try_entry
try-queued key node command now c h =
    ground (arith, poll_lem node command now c key, ==_iff (pending_read_key node command) key)

polls_of-queued :
    (key : ℕ) (ps : List (ℕ × ℕ × ℕ)) (c : MtCan)
    → (read_at key c).queued ≡ true
    → (read_at key (polls_of ps c)).queued ≡ true
unfolding polls_of
polls_of-queued key [] c h = h
polls_of-queued key ((n, k, now) ∷ ps) c h =
    polls_of-queued key ps (try_issue_read_command n k now c).1 (try-queued key n k now c h)

queued-held :
    (node command now : ℕ) (c : MtCan)
    → (read_at (pending_read_key node command) c).queued ≡ true
    → (try_issue_read_command node command now c).0 ≡ false
unfolding try_issue_read_command try_entry
queued-held node command now c h =
    ground (arith, poll_lem node command now c (pending_read_key node command))

issued-queued :
    (node command now : ℕ) (c : MtCan)
    → (try_issue_read_command node command now c).0 ≡ true
    → (read_at (pending_read_key node command) (try_issue_read_command node command now c).1).queued
      ≡ true
unfolding try_issue_read_command try_entry
issued-queued node command now c h =
    ground (arith, poll_lem node command now c (pending_read_key node command))

-- A read that was issued is not issued again by any later polls, of this read or others and at
-- any times, as long as nothing but polls happens.
pub issued_once :
    (node command now later : ℕ) (ps : List (ℕ × ℕ × ℕ)) (c : MtCan)
    → (try_issue_read_command node command now c).0 ≡ true
    → let c' = polls_of ps (try_issue_read_command node command now c).1 in
      (try_issue_read_command node command later c').0 ≡ false
issued_once node command now later ps c h =
    let c1 = (try_issue_read_command node command now c).1 in
    queued-held node command later (polls_of ps c1)
      (polls_of-queued (pending_read_key node command) ps c1 (issued-queued node command now c h))

-- An entry that is overdue.
overdue_lem :
    (now timeout : ℕ) (r : PendingReadRequest)
    → r.queued ≡ false
    → r.in_flight ≡ true
    → r.next_eligible_send ≤ now
    → r.last_sent + ns_of_ms timeout ≤ now
    → (try_entry now timeout r).0 ≡ delayed (min (r.consecutive_timeouts + 1) 8)
unfolding try_entry
overdue_lem now timeout r free flying eligible late = ground arith

noted_lem :
    (k : ℕ) (v : AxisFeedbackState)
    → k ≤ 8
    → let w = recompute_axis_observed_locked (timeout_noted k v) in
      (w.consecutive_timeout_count ≡ k) × (w.degraded ≡ leb 3 k)
unfolding recompute_axis_observed_locked timeout_noted
noted_lem k v h = let e : k % 4294967296 ≡ k = omega arith in rw e (refl, refl)

shared_noted :
    (node k key : ℕ) (r : PendingReadRequest) (c : MtCan) (s : SharedDriverState)
    → c.shared_state ≡ some s
    → is_empty c.device_name ≡ false
    → (note_shared_timeout node k (put_read key r c)).shared_state
      ≡ some (mutate_axis_feedback (axis_key node c) (timeout_noted k) s)
unfolding note_shared_timeout axis_key
shared_noted node k key r c s shared named = rw (named, shared) refl

pub get_self :
    (key : AxisKey) (fn : AxisFeedbackState → AxisFeedbackState) (s : SharedDriverState)
    → get_axis_feedback key (mutate_axis_feedback key fn s)
      ≡ some (
          recompute_axis_observed_locked
            (fn (record (or_new (get_axis_feedback key s) no_feedback) { key = key })))
get_self key fn s =
    get-mutate_axis_feedback key key fn s
    ∙ ground (arith, codes_eq_iff (axis_map_key key) (axis_map_key key))

-- When the driver has a controller, a shared state and a device name and is not shutting down, a
-- poll that finds its read in flight, not queued, past its waiting time and past its timeout,
-- writes to the shared feedback of the axis one timeout more than the read had counted in a row,
-- 8 at most, and marks the axis degraded exactly if these are three or more.
pub timeout_noted_in_shared :
    (node command now : ℕ) (c : MtCan) (s : SharedDriverState)
    → c.shared_state ≡ some s
    → is_empty c.device_name ≡ false
    → c.shutting_down ≡ false
    → c.has_controller ≡ true
    → let r = read_at (pending_read_key node command) c in
      (r.queued ≡ false)
      → r.in_flight ≡ true
      → r.next_eligible_send ≤ now
      → r.last_sent + ns_of_ms (compute_read_request_timeout c) ≤ now
      → let k = min (r.consecutive_timeouts + 1) 8 in
        (s' : SharedDriverState) × (v : AxisFeedbackState) × ((try_issue_read_command node command
            now c).1.shared_state
          ≡ some s')
        × (get_axis_feedback (axis_key node c) s' ≡ some v)
        × (v.consecutive_timeout_count ≡ k)
        × (v.degraded ≡ leb 3 k)
timeout_noted_in_shared node command now c s shared named up there free flying eligible late =
    let r = read_at (pending_read_key node command) c in
    let k = min (r.consecutive_timeouts + 1) 8 in
    let fn = timeout_noted k in
    let old = record (or_new (get_axis_feedback (axis_key node c) s) no_feedback) {
      key = axis_key node c;
    } in
    let noted = noted_lem k old (omega arith) in
    (
      mutate_axis_feedback (axis_key node c) fn s,
      recompute_axis_observed_locked (fn old),
      rw
          (
            try-poll node command now c (ground arith),
            overdue_lem now (compute_read_request_timeout c) r free flying eligible late,
          )
          (shared_noted node k (pending_read_key node command)
            (try_entry now (compute_read_request_timeout c) r).1 c s shared named),
      get_self (axis_key node c) fn s,
      noted.0,
      noted.1,
    )
