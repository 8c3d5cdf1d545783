-- ===== src/Refresh/Fairness.antt =====
-- What the plans of include/can_driver/RefreshScheduler.h promise over several cycles.
use old_car_can_driver.Prelude.{
  ℕ, ◌+◌, ◌-◌, ◌%◌, ◌≤◌, ◌<◌, ◌≡◌, refl, sym, ◌∙◌, inl, inr, Bool, true, false, Option, none, some,
  List, [], ◌∷◌, ◌++◌, arith, ◌==◌, if◌then◌else◌, Bool-cases, length, any, get_or-set_self,
}
use old_car_can_driver.Refresh.{
  PpRefreshQuery, MtRefreshQuery, state, multi_turn_angle, error, PpAxisRefreshSnapshot,
  PpAxisRefreshScheduleState, pp_refresh_query_index, query_at, pp_refresh_period, is_due, scan,
  budget_for, start_for, index_for, advance_cursor, build_pp_refresh_plan,
  note_pp_refresh_query_issued, build_mt_refresh_plan,
}
use old_car_can_driver.Refresh.Scan.{plans, scan-serves, scan-misses, length-scan, scan-skips}

-- The offset at which the loop that starts at `start` looks at an index.
abbrev offset_of : ℕ → ℕ → ℕ
offset_of start i = (i + 6 - start) % 6

abbrev pub cursor_of : Option PpAxisRefreshScheduleState → ℕ
cursor_of none = 0
cursor_of (some s) = s.pressure_cursor

abbrev pub mt_index : MtRefreshQuery → ℕ
mt_index state = 0
mt_index multi_turn_angle = 1
mt_index error = 2

index_below : (q : PpRefreshQuery) → pp_refresh_query_index q < 6
index_below q = ground arith

-- The loop under pressure.
abbrev loop : ℕ → (ℕ → Bool) → List PpRefreshQuery × ℕ
loop start due = scan (λ o. (start + o) % 6) due 4 6 0 [] start

loop-serves :
    (start i : ℕ) (due : ℕ → Bool)
    → i < 6
    → due i ≡ true
    → offset_of start i < 4
    → start < 6
    → plans i (loop start due).0 ≡ true
loop-serves start i due h d o l =
    let j = offset_of start i in
    let here : (start + j) % 6 ≡ i = omega arith in
    let served =
      scan-serves (λ o. (start + o) % 6) due 4 (omega arith) j 6 0 [] start (omega arith)
        (rw here d) (omega arith) (omega arith) (omega arith) in
    rw here at served

-- The next loop starts at most one place before a query that this one missed.
loop-misses :
    (start i : ℕ) (due : ℕ → Bool)
    → i < 6
    → due i ≡ true
    → plans i (loop start due).0 ≡ false
    → start < 6
    → (offset_of (((loop start due).1 + 1) % 6) i < 4) × (0 < length (loop start due).0)
loop-misses start i due h d m l =
    let j = offset_of start i in
    let here : (start + j) % 6 ≡ i = omega arith in
    let st =
      scan-misses (λ o. (start + o) % 6) due 4 (omega arith) j 6 0 [] start (omega arith)
        (omega arith) (rw here d) (omega arith) (omega arith) (rw here m) in
    (omega (arith, st.last, st.before, st.spent), st.some_planned)

cursor-advance :
    (plan : List PpRefreshQuery) (last : ℕ) (s : PpAxisRefreshScheduleState)
    → 0 < length plan
    → cursor_of (advance_cursor true plan last (some s)) ≡ (last + 1) % 6
cursor-advance [] last s h = ground arith
cursor-advance (p ∷ plan) last s h = ground arith

-- Under query pressure, a query of an axis that is due and does not fit into a plan is in the
-- axis's next plan, if it is still due then and the cursor is where the first plan left it: the
-- budget starves no query.
pub missed_is_next :
    (now later : ℕ) (first second : PpAxisRefreshSnapshot) (s t : PpAxisRefreshScheduleState)
    (q : PpRefreshQuery)
    → is_due now first (some s) (pp_refresh_query_index q) ≡ true
    → plans (pp_refresh_query_index q) (build_pp_refresh_plan now true first (some s)).0 ≡ false
    → t.pressure_cursor ≡ cursor_of (build_pp_refresh_plan now true first (some s)).1
    → is_due later second (some t) (pp_refresh_query_index q) ≡ true
    → plans (pp_refresh_query_index q) (build_pp_refresh_plan later true second (some t)).0 ≡ true
unfolding build_pp_refresh_plan
missed_is_next now later first second s t q d m c e =
    let i = pp_refresh_query_index q in
    let start = s.pressure_cursor % 6 in
    let due = is_due now first (some s) in
    let l = loop-misses start i due (index_below q) d m (omega arith) in
    let k = c ∙ cursor-advance (loop start due).0 (loop start due).1 s l.1 in
    loop-serves (t.pressure_cursor % 6) i (is_due later second (some t)) (index_below q) e
      (omega (arith, k, l.0)) (omega arith)

-- A plan has at most six queries, and at most four under query pressure.
pub plan_within_budget :
    (now : ℕ) (pressure : Bool) (snapshot : PpAxisRefreshSnapshot)
    (schedule : Option PpAxisRefreshScheduleState)
    → length (build_pp_refresh_plan now pressure snapshot schedule).0 ≤ (if pressure then 4 else 6)
unfolding build_pp_refresh_plan
plan_within_budget now true snapshot schedule =
    let start = start_for true schedule in
    length-scan (index_for true start) (is_due now snapshot schedule) 4 (omega arith) 6 0 [] start
      (omega arith)
plan_within_budget now false snapshot schedule =
    let start = start_for false schedule in
    length-scan (index_for false start) (is_due now snapshot schedule) 6 (omega arith) 6 0 [] start
      (omega arith)

index_for-small : (pressure : Bool) (start o : ℕ) → o < 6 → index_for pressure start o < 6
index_for-small true start o h = omega arith
index_for-small false start o h = h

not_due_not_planned :
    (now : ℕ) (pressure : Bool) (snapshot : PpAxisRefreshSnapshot)
    (schedule : Option PpAxisRefreshScheduleState) (i : ℕ)
    → is_due now snapshot schedule i ≡ false
    → plans i (build_pp_refresh_plan now pressure snapshot schedule).0 ≡ false
unfolding build_pp_refresh_plan
not_due_not_planned now pressure snapshot schedule i d =
    let start = start_for pressure schedule in
    scan-skips (index_for pressure start) (is_due now snapshot schedule) (budget_for pressure)
      (index_for-small pressure start) i d 6 0 [] start (omega arith) refl

-- Without query pressure, a plan has a query exactly if the query is due.
pub free_plan_iff_due :
    (now : ℕ) (snapshot : PpAxisRefreshSnapshot) (schedule : Option PpAxisRefreshScheduleState)
    (q : PpRefreshQuery)
    → plans (pp_refresh_query_index q) (build_pp_refresh_plan now false snapshot schedule).0
      ≡ is_due now snapshot schedule (pp_refresh_query_index q)
unfolding build_pp_refresh_plan
free_plan_iff_due now snapshot schedule q =
    let i = pp_refresh_query_index q in
    let start = start_for false schedule in
    elim (Bool-cases (is_due now snapshot schedule i)) [
      | inl d ↦
          scan-serves (λ o. o) (is_due now snapshot schedule) 6 (omega arith) i 6 0 [] start
            (index_below q) d (omega arith) (omega (arith, index_below q))
            (omega (arith, index_below q))
          ∙ sym d
      | inr d ↦ not_due_not_planned now false snapshot schedule i d ∙ sym d
    ]

period_at_least :
    (q : PpRefreshQuery) (snapshot : PpAxisRefreshSnapshot)
    → 50000000 ≤ pp_refresh_period q snapshot
unfolding pp_refresh_period
period_at_least q snapshot = ground arith

-- A query that was noted as issued, at a time other than 0, is in no plan that is built from
-- then on for less than 50 milliseconds, with or without pressure, where the state has its six
-- times.
pub issued_waits :
    (issued now : ℕ) (pressure : Bool) (snapshot : PpAxisRefreshSnapshot)
    (s : PpAxisRefreshScheduleState) (q : PpRefreshQuery)
    → length s.last_issued ≡ 6
    → 0 < issued
    → issued ≤ now
    → now < issued + 50000000
    → plans
        (pp_refresh_query_index q)
        (build_pp_refresh_plan now pressure snapshot
          (note_pp_refresh_query_issued issued q (some s))).0
      ≡ false
unfolding note_pp_refresh_query_issued is_due
issued_waits issued now pressure snapshot s q l h a b =
    not_due_not_planned now pressure snapshot (note_pp_refresh_query_issued issued q (some s))
      (pp_refresh_query_index q)
      (ground (
        arith,
        get_or-set_self s.last_issued (pp_refresh_query_index q) issued 0
            (omega (arith, index_below q)),
        period_at_least (query_at (pp_refresh_query_index q)) snapshot,
      ))

-- In two cycles in a row, with or without pressure and across the wrap of the 64-bit cycle
-- counter, the plans of an MT motor have every query.
pub mt_plans_cover :
    (cycle motor_index : ℕ) (pressure : Bool) (q : MtRefreshQuery)
    → any
        (λ p. mt_index p == mt_index q)
        (build_mt_refresh_plan cycle motor_index pressure
          ++ build_mt_refresh_plan ((cycle + 1) % 18446744073709551616) motor_index pressure)
      ≡ true
unfolding build_mt_refresh_plan
mt_plans_cover cycle motor_index pressure q = ground arith
