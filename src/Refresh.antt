-- ===== src/Refresh.antt =====
-- Which queries the refresh worker sends next: include/can_driver/RefreshScheduler.h. Times are
-- nanoseconds; the time point 0 is the default one, which stands for never. A state pointer may be
-- null, so it is an `Option`. A plan is the list of its items, no longer than its capacity.
pub mod Scan
pub mod Fairness
mod Examples
use old_car_can_driver.Prelude.{
  ℕ, zero, suc, ◌+◌, ◌-◌, ◌*◌, ◌%◌, min, Bool, false, not, ◌&&◌, ◌||◌, Option, none, some, List, [],
  ◌∷◌, ◌++◌, ltb, leb, ◌==◌, if◌then◌else◌, length, get_or, set, null,
}
use old_car_can_driver.Can.{MotorMode, mode_eq}
use old_car_can_driver.SharedState.Data.{AxisIntent, idle, enable, run, recover, intent_eq}

pub data PpRefreshQuery : Type 0 where
  position velocity mode enabling fault current : PpRefreshQuery

pub data MtRefreshQuery : Type 0 where
  state multi_turn_angle error : MtRefreshQuery

pub data DmRefreshQuery : Type 0 where
  keepalive : DmRefreshQuery

abbrev pub push : {A : Type 0} → ℕ → A → List A → List A
push capacity q plan = if ltb (length plan) capacity then plan ++ q ∷ [] else plan

pub record PpAxisRefreshSnapshot : Type 0 where
  pub feedback_seen : Bool
  pub enabled : Bool
  pub has_fault : Bool
  pub degraded : Bool
  pub desired_mode_valid : Bool
  pub feedback_mode : MotorMode
  pub desired_mode : MotorMode
  pub intent : AxisIntent

pub record PpAxisRefreshScheduleState : Type 0 where
  pub last_due : List ℕ
  pub last_issued : List ℕ
  pub pressure_cursor : ℕ

pub record DmAxisRefreshSnapshot : Type 0 where
  pub feedback_seen : Bool
  pub enabled : Bool
  pub has_fault : Bool
  pub intent : AxisIntent

pub record DmAxisRefreshScheduleState : Type 0 where
  pub last_issued : ℕ

abbrev pub pp_refresh_query_count : ℕ
pp_refresh_query_count = 6

abbrev pub pp_pressure_budget_per_cycle : ℕ
pp_pressure_budget_per_cycle = 4

abbrev pub milliseconds : ℕ → ℕ
milliseconds n = n * 1000000

unfoldable pub needs_pp_priority_lifecycle_queries : PpAxisRefreshSnapshot → Bool
needs_pp_priority_lifecycle_queries s =
    not s.feedback_seen
    || s.degraded
    || s.has_fault
    || not s.enabled
    || (intent_eq s.intent enable || intent_eq s.intent recover)
    || (s.desired_mode_valid && not (mode_eq s.feedback_mode s.desired_mode))

abbrev pub pp_refresh_query_index : PpRefreshQuery → ℕ
pp_refresh_query_index position = 0
pp_refresh_query_index velocity = 1
pp_refresh_query_index mode = 2
pp_refresh_query_index enabling = 3
pp_refresh_query_index fault = 4
pp_refresh_query_index current = 5

-- `PpRefreshQueryOrder()[index]`.
abbrev pub pp_refresh_query_order : List PpRefreshQuery
pp_refresh_query_order = position ∷ velocity ∷ mode ∷ enabling ∷ fault ∷ current ∷ []

abbrev pub query_at : ℕ → PpRefreshQuery
query_at index = get_or pp_refresh_query_order index position

unfoldable pub pp_refresh_period : PpRefreshQuery → PpAxisRefreshSnapshot → ℕ
unfolding needs_pp_priority_lifecycle_queries
pp_refresh_period position s = milliseconds 50
pp_refresh_period velocity s =
    if needs_pp_priority_lifecycle_queries s then milliseconds 50 else milliseconds 100
pp_refresh_period mode s =
    if needs_pp_priority_lifecycle_queries s then milliseconds 50 else milliseconds 100
pp_refresh_period enabling s =
    if needs_pp_priority_lifecycle_queries s then milliseconds 50 else milliseconds 100
pp_refresh_period fault s =
    if needs_pp_priority_lifecycle_queries s then milliseconds 50 else milliseconds 100
pp_refresh_period current s = milliseconds 100

-- A query that was issued less than its period ago is not due.
abbrev pub recent : ℕ → ℕ → ℕ → Bool
recent now last_issued period =
    not (last_issued == 0) && leb last_issued now && ltb (now - last_issued) period

abbrev pub last_issued_of : Option PpAxisRefreshScheduleState → ℕ → ℕ
last_issued_of none index = 0
last_issued_of (some s) index = get_or s.last_issued index 0

-- `due[index]`, the array that the first loop fills.
unfoldable pub is_due : ℕ → PpAxisRefreshSnapshot → Option PpAxisRefreshScheduleState → ℕ → Bool
unfolding pp_refresh_period
is_due now snapshot schedule index =
    let period = pp_refresh_period (query_at index) snapshot in
    not (period == 0) && not (recent now (last_issued_of schedule index) period)

-- The second loop, with so many offsets remaining: the plan and `lastSelected`.
unfoldable pub scan :
    (ℕ → ℕ) → (ℕ → Bool) → ℕ → ℕ → ℕ → List PpRefreshQuery → ℕ → List PpRefreshQuery × ℕ
scan index due budget zero offset plan last = (plan, last)
scan index due budget (suc remaining) offset plan last =
    let i = index offset in
    let new = if due i then push pp_refresh_query_count (query_at i) plan else plan in
    let selected = if due i then i else last in
    let rest = scan index due budget remaining (offset + 1) new selected in
    if due i && leb budget (length new) then (new, selected) else rest

abbrev pub budget_for : Bool → ℕ
budget_for pressure =
    if pressure
    then min pp_pressure_budget_per_cycle pp_refresh_query_count
    else pp_refresh_query_count

abbrev pub start_for : Bool → Option PpAxisRefreshScheduleState → ℕ
start_for pressure none = 0
start_for pressure (some s) = if pressure then s.pressure_cursor % pp_refresh_query_count else 0

abbrev pub index_for : Bool → ℕ → ℕ → ℕ
index_for pressure start offset =
    if pressure then (start + offset) % pp_refresh_query_count else offset

abbrev pub advance_cursor :
    Bool
    → List PpRefreshQuery
    → ℕ
    → Option PpAxisRefreshScheduleState
    → Option PpAxisRefreshScheduleState
advance_cursor pressure plan last none = none
advance_cursor pressure plan last (some s) =
    if pressure && not (null plan)
    then some (record s { pressure_cursor = (last + 1) % pp_refresh_query_count })
    else some s

-- The plan, and the state behind the pointer afterwards.
unfoldable pub build_pp_refresh_plan :
    ℕ
    → Bool
    → PpAxisRefreshSnapshot
    → Option PpAxisRefreshScheduleState
    → List PpRefreshQuery × Option PpAxisRefreshScheduleState
build_pp_refresh_plan now pressure snapshot schedule =
    let start = start_for pressure schedule in
    let (plan, last) =
      scan (index_for pressure start) (is_due now snapshot schedule) (budget_for pressure)
        pp_refresh_query_count 0 [] start in
    (plan, advance_cursor pressure plan last schedule)

unfoldable pub note_pp_refresh_query_due :
    ℕ → PpRefreshQuery → Option PpAxisRefreshScheduleState → Option PpAxisRefreshScheduleState
note_pp_refresh_query_due now q none = none
note_pp_refresh_query_due now q (some s) =
    some (record s { last_due = set s.last_due (pp_refresh_query_index q) now })

unfoldable pub note_pp_refresh_query_issued :
    ℕ → PpRefreshQuery → Option PpAxisRefreshScheduleState → Option PpAxisRefreshScheduleState
note_pp_refresh_query_issued now q none = none
note_pp_refresh_query_issued now q (some s) =
    some (record s { last_issued = set s.last_issued (pp_refresh_query_index q) now })

-- The cycle is a std::uint64_t, and so is the sum.
unfoldable pub build_mt_refresh_plan : ℕ → ℕ → Bool → List MtRefreshQuery
build_mt_refresh_plan cycle motor_index pressure =
    if pressure
    then push 3 error (
        if (cycle + motor_index) % 18446744073709551616 % 2 == 0
        then push 3 state []
        else push 3 multi_turn_angle [])
    else push 3 error (push 3 multi_turn_angle (push 3 state []))

unfoldable pub needs_dm_keepalive : DmAxisRefreshSnapshot → Bool
needs_dm_keepalive s = if intent_eq s.intent idle then false else not (intent_eq s.intent run)

unfoldable pub dm_refresh_period : DmAxisRefreshSnapshot → ℕ
unfolding needs_dm_keepalive
dm_refresh_period s =
    if not (needs_dm_keepalive s)
    then 0
    else if not s.feedback_seen || intent_eq s.intent enable || intent_eq s.intent recover
    then milliseconds 50
    else milliseconds 100

abbrev pub dm_last_issued : Option DmAxisRefreshScheduleState → ℕ
dm_last_issued none = 0
dm_last_issued (some s) = s.last_issued

unfoldable pub build_dm_refresh_plan :
    ℕ → DmAxisRefreshSnapshot → Option DmAxisRefreshScheduleState → List DmRefreshQuery
unfolding dm_refresh_period
build_dm_refresh_plan now snapshot schedule =
    let period = dm_refresh_period snapshot in
    if period == 0
    then []
    else if recent now (dm_last_issued schedule) period
    then []
    else push 1 keepalive []

unfoldable pub note_dm_refresh_query_issued :
    ℕ → DmRefreshQuery → Option DmAxisRefreshScheduleState → Option DmAxisRefreshScheduleState
note_dm_refresh_query_issued now keepalive none = none
note_dm_refresh_query_issued now keepalive (some s) = some (record s { last_issued = now })
