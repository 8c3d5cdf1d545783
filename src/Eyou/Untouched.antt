-- ===== src/Eyou/Untouched.antt =====
-- What the sending of src/EyouCan.cpp leaves as it is: all that does not depend on the reads that are
-- tracked, the requests handed over and the counts of writes.
use old_car_can_driver.Prelude.{
  arith, ℕ, Bool, true, false, not, [], ◌∷◌, ◌++◌, if◌then◌else◌, ◌||◌, ◌≡◌, refl, ◌∙◌, nat_eq,
  Option, none, some, List, ◌==◌, if_cases,
}
use old_car_can_driver.Can.{SendResult, error, recover, control}
use old_car_can_driver.DeviceRuntime.{Request}
use old_car_can_driver.Eyou.{PendingReadRequest, EyouCan}
use old_car_can_driver.Eyou.Sending.{
  pending_read_key, read_at, put_read, put_changed, read_dispatched, feedback_stale_warn_threshold,
  maybe_warn_stale_feedback, on_read_dispatch_result, send_read_command, try_issue_read_command,
  hand_over, submit_tx, write_frame, write_counted, count_if_sent, fast_write_command,
  write_command, send_write_command,
}
use old_car_can_driver.Eyou.Commands.{request}
use old_car_can_driver.Eyou.Response.{reread}

-- The request that a write hands over.
abbrev pub write_request : ℕ → ℕ → ℕ → ℕ → ℕ → Request
write_request node sub value n type = record {
  frame = write_frame node sub value n type;
  category = if sub == 0x15 then recover else control;
  completion = none;
}

module _ {ℓ} {A : Type ℓ} (view : EyouCan → A)
    (blind : (c : EyouCan) (reads : List (ℕ × PendingReadRequest)) (requests : List Request)
        (fast normal : ℕ)
      → view (record c {
        pending_read_requests = reads;
        submitted = requests;
        fast_write_sent_count = fast;
        normal_write_sent_count = normal;
      })
        ≡ view c) where
  pub put_changed-view :
      (g : PendingReadRequest → PendingReadRequest) (key : ℕ) (c : EyouCan)
      (o : Option PendingReadRequest)
      → view (put_changed g key c o) ≡ view c
  put_changed-view g key c none = blind c _ _ _ _
  put_changed-view g key c (some r) = blind c _ _ _ _

  on_read_dispatch_result-view :
      (node sub : ℕ) (sent : Bool) (result : SendResult) (now : ℕ) (c : EyouCan)
      → view (on_read_dispatch_result node sub sent result now c) ≡ view c
  unfolding on_read_dispatch_result
  on_read_dispatch_result-view node sub sent result now c =
      if_cases (λ (d : EyouCan). view d ≡ view c) c.shutting_down c _ (λ _. blind c _ _ _ _)
        (λ _. put_changed-view (read_dispatched sent result now) (pending_read_key node sub) c _)

  send_read_command-view :
      (node sub now : ℕ) (c : EyouCan) → view (send_read_command node sub now c) ≡ view c
  unfolding send_read_command
  send_read_command-view node sub now c =
      if_cases (λ (d : EyouCan). view d ≡ view c) (not c.has_controller) c _ (λ _. blind c _ _ _ _)
        (λ _.
          if_cases (λ (d : EyouCan). view d ≡ view c) (not c.has_dispatcher) _ _
            (λ _. on_read_dispatch_result-view node sub false error now c) (λ _. blind c _ _ _ _))

  maybe_warn_stale_feedback-view :
      (node sub now : ℕ) (c : EyouCan) → view (maybe_warn_stale_feedback node sub now c) ≡ view c
  unfolding maybe_warn_stale_feedback
  maybe_warn_stale_feedback-view node sub now c =
      if_cases (λ (d : EyouCan). view d ≡ view c) (feedback_stale_warn_threshold sub == 0) c _
        (λ _. blind c _ _ _ _) (λ _. blind c _ _ _ _)

  pub request-view : (node sub now : ℕ) (c : EyouCan) → view (request node sub now c) ≡ view c
  unfolding request try_issue_read_command
  request-view node sub now c =
      let key = pending_read_key node sub in
      let c1 = maybe_warn_stale_feedback node sub now c in
      let warned_at = maybe_warn_stale_feedback-view node sub now c in
      if_cases (λ (r : Bool × EyouCan). view r.1 ≡ view c) (c.shutting_down || not c.has_controller)
        _ _ (λ _. blind c _ _ _ _)
        (λ _.
          if_cases (λ (r : Bool × EyouCan). view r.1 ≡ view c) (read_at key c1).queued _ _
            (λ _. blind c1 _ _ _ _ ∙ warned_at)
            (λ _.
              send_read_command-view node sub now
                (put_read key (record (read_at key c1) { queued = true }) c1)
              ∙ blind c1 _ _ _ _
              ∙ warned_at))

  pub reread-view : (node sub now : ℕ) (c : EyouCan) → view (reread node sub now c) ≡ view c
  reread-view node sub now c =
      if_cases (λ (d : EyouCan). view d ≡ view c) (sub == 0x09) _ _
        (λ _. request-view node 0x06 now c)
        (λ _.
          if_cases (λ (d : EyouCan). view d ≡ view c) (sub == 0x0A) _ _
            (λ _. request-view node 0x07 now c)
            (λ _.
              if_cases (λ (d : EyouCan). view d ≡ view c)
                (sub == 0x0F || sub == 0x10 || sub == 0x15) _ _ (λ _. request-view node sub now c)
                (λ _. blind c _ _ _ _)))

  write_counted-view : (type : ℕ) (c : EyouCan) → view (write_counted type c) ≡ view c
  write_counted-view type c =
      if_cases (λ (d : EyouCan). view d ≡ view c) (type == fast_write_command) _ _
        (λ _. blind c _ _ _ _)
        (λ _.
          if_cases (λ (d : EyouCan). view d ≡ view c) (type == write_command) _ _
            (λ _. blind c _ _ _ _) (λ _. blind c _ _ _ _))

  pub send_write_command-view :
      (node sub value n type : ℕ) (c : EyouCan)
      → view (send_write_command node sub value n type c) ≡ view c
  unfolding send_write_command submit_tx
  send_write_command-view node sub value n type c =
      let d = hand_over (write_request node sub value n type) c in
      if_cases (λ (d : EyouCan). view d ≡ view c) (not c.has_controller) c _ (λ _. blind c _ _ _ _)
        (λ _.
          if_cases (λ (r : Bool × EyouCan). view (count_if_sent type r) ≡ view c) c.has_dispatcher
            (true, d) (false, c) (λ _. write_counted-view type d ∙ blind c _ _ _ _)
            (λ _. blind c _ _ _ _))

write_counted-submitted : (type : ℕ) (c : EyouCan) → (write_counted type c).submitted ≡ c.submitted
write_counted-submitted type c =
    if_cases (λ (d : EyouCan). d.submitted ≡ c.submitted) (type == fast_write_command) _ _
      (λ _. refl)
      (λ _.
        if_cases (λ (d : EyouCan). d.submitted ≡ c.submitted) (type == write_command) _ _
          (λ _. refl) (λ _. refl))

pub send_write_command-submitted :
    (node sub value n type : ℕ) (c : EyouCan)
    → c.has_controller ≡ true
    → c.has_dispatcher ≡ true
    → (send_write_command node sub value n type c).submitted
      ≡ c.submitted ++ write_request node sub value n type ∷ []
unfolding send_write_command submit_tx
send_write_command-submitted node sub value n type c up sends =
    let r = write_request node sub value n type in
    let d = hand_over r c in
    if_cases (λ (e : EyouCan). e.submitted ≡ c.submitted ++ r ∷ []) (not c.has_controller) c _
      (λ off. ground (arith, up, off))
      (λ _.
        if_cases (λ (e : Bool × EyouCan). (count_if_sent type e).submitted ≡ c.submitted ++ r ∷ [])
          c.has_dispatcher (true, d) (false, c) (λ _. write_counted-submitted type d)
          (λ off. ground (arith, sends, off)))
