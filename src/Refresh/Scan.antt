-- ===== src/Refresh/Scan.antt =====
-- The selection loop of BuildPpRefreshPlan (include/can_driver/RefreshScheduler.h).
use old_car_can_driver.Prelude.{
  ℕ, zero, suc, ◌+◌, ◌-◌, ◌≤◌, ◌<◌, ◌≡◌, refl, inl, inr, Bool, true, false, ◌&&◌, List, [], ◌∷◌,
  ◌++◌, arith, leb, ◌==◌, if◌then◌else◌, ==_iff, Bool-cases, if_cases, length, any, length-append,
}
use old_car_can_driver.Refresh.{PpRefreshQuery, push, pp_refresh_query_index, query_at, scan}

-- Whether a plan has the query with an index.
abbrev pub plans : ℕ → List PpRefreshQuery → Bool
plans i = any (λ q. pp_refresh_query_index q == i)

pub index-query_at : (i : ℕ) → i < 6 → pp_refresh_query_index (query_at i) ≡ i
index-query_at zero h = refl
index-query_at (suc zero) h = refl
index-query_at (suc (suc zero)) h = refl
index-query_at (suc (suc (suc zero))) h = refl
index-query_at (suc (suc (suc (suc zero)))) h = refl
index-query_at (suc (suc (suc (suc (suc zero))))) h = refl
index-query_at (suc (suc (suc (suc (suc (suc n)))))) h = omega arith

any-append_self :
    (i : ℕ) (plan : List PpRefreshQuery) → i < 6 → plans i (plan ++ query_at i ∷ []) ≡ true
any-append_self i [] h = ground (arith, index-query_at i h)
any-append_self i (q ∷ plan) h = ground (arith, any-append_self i plan h)

any-append_old :
    (i : ℕ) (plan : List PpRefreshQuery) (q : PpRefreshQuery)
    → plans i plan ≡ true
    → plans i (plan ++ q ∷ []) ≡ true
any-append_old i [] q h = ground arith
any-append_old i (p ∷ plan) q h = ground (arith, any-append_old i plan q)

any-append_other :
    (i : ℕ) (plan : List PpRefreshQuery) (q : PpRefreshQuery)
    → plans i plan ≡ false
    → pp_refresh_query_index q == i ≡ false
    → plans i (plan ++ q ∷ []) ≡ false
any-append_other i [] q h k = ground arith
any-append_other i (p ∷ plan) q h k = ground (arith, any-append_other i plan q)

-- The plan after the loop has looked at an offset.
abbrev grown : (ℕ → ℕ) → (ℕ → Bool) → ℕ → List PpRefreshQuery → List PpRefreshQuery
grown index due o plan = if due (index o) then push 6 (query_at (index o)) plan else plan

module _ (index : ℕ → ℕ) (due : ℕ → Bool) (budget : ℕ) (within : budget ≤ 6) where
  length-grown :
      (o : ℕ) (plan : List PpRefreshQuery)
      → (length plan ≤ length (grown index due o plan))
        × (length (grown index due o plan) ≤ length plan + 1)
  length-grown o plan = ground (arith, length-append plan (query_at (index o) ∷ []))

  plans-grown :
      (i o : ℕ) (plan : List PpRefreshQuery)
      → plans i plan ≡ true
      → plans i (grown index due o plan) ≡ true
  plans-grown i o plan h = ground (arith, any-append_old i plan (query_at (index o)))

  grown-plans :
      (j o : ℕ) (plan : List PpRefreshQuery)
      → o ≡ j
      → index j < 6
      → length plan < 6
      → due (index j) ≡ true
      → plans (index j) (grown index due o plan) ≡ true
  grown-plans j o plan e h k d = rw e (ground (arith, any-append_self (index j) plan h))

  -- The loop goes on only below the budget.
  below_budget :
      (o : ℕ) (plan : List PpRefreshQuery)
      → length plan < budget
      → due (index o) && leb budget (length (grown index due o plan)) ≡ false
      → length (grown index due o plan) < budget
  below_budget o plan h e = ground (arith, length-append plan (query_at (index o) ∷ []))

  scan-keeps :
      (i remaining o : ℕ) (plan : List PpRefreshQuery) (last : ℕ)
      → plans i plan ≡ true
      → plans i (scan index due budget remaining o plan last).0 ≡ true
  unfolding scan
  scan-keeps i zero o plan last h = h
  scan-keeps i (suc n) o plan last h =
      let new = grown index due o plan in
      let selected = if due (index o) then index o else last in
      if_cases (λ (x : List PpRefreshQuery × ℕ). plans i x.0 ≡ true)
        (due (index o) && leb budget (length new)) (new, selected)
        (scan index due budget n (o + 1) new selected) (λ _. plans-grown i o plan h)
        (λ _. scan-keeps i n (o + 1) new selected (plans-grown i o plan h))

  -- A due query that the budget reaches is in the plan.
  pub scan-serves :
      (j remaining o : ℕ) (plan : List PpRefreshQuery) (last : ℕ)
      → index j < 6
      → due (index j) ≡ true
      → o ≤ j
      → j < o + remaining
      → length plan + (j - o) < budget
      → plans (index j) (scan index due budget remaining o plan last).0 ≡ true
  unfolding scan
  scan-serves j zero o plan last s d a b c = absurd (ground arith)
  scan-serves j (suc n) o plan last s d a b c =
      let new = grown index due o plan in
      let selected = if due (index o) then index o else last in
      let l = length-grown o plan in
      if_cases (λ (x : List PpRefreshQuery × ℕ). plans (index j) x.0 ≡ true)
        (due (index o) && leb budget (length new)) (new, selected)
        (scan index due budget n (o + 1) new selected)
        (λ e. elim (Bool-cases (o == j)) [
          | inl q ↦ grown-plans j o plan ((==_iff o j).0 q) s (omega (arith, c)) d
          | inr q ↦ absurd (ground (arith, e, l, q))
        ])
        (λ e. elim (Bool-cases (o == j)) [
          | inl q ↦
              scan-keeps (index j) n (o + 1) new selected
                (grown-plans j o plan ((==_iff o j).0 q) s (omega (arith, c)) d)
          | inr q ↦
              scan-serves j n (o + 1) new selected s d (ground (arith, q)) (omega arith)
                (ground (arith, l, q))
        ])

  -- Where the loop stopped before it reached a due query.
  pub record Stopped (o j : ℕ) (plan : List PpRefreshQuery) (x : List PpRefreshQuery × ℕ)
      : Type 0 where
    pub at : ℕ
    pub last : x.1 ≡ index at
    pub from : o ≤ at
    pub before : at < j
    pub spent : budget ≤ length plan + (at - o) + 1
    pub some_planned : 0 < length x.0

  -- The loop ends without a due query only where the budget is spent.
  pub scan-misses :
      (j remaining o : ℕ) (plan : List PpRefreshQuery) (last : ℕ)
      → index j < 6
      → length plan < budget
      → due (index j) ≡ true
      → o ≤ j
      → j < o + remaining
      → plans (index j) (scan index due budget remaining o plan last).0 ≡ false
      → Stopped o j plan (scan index due budget remaining o plan last)
  unfolding scan
  scan-misses j zero o plan last s c d a b m = absurd (ground arith)
  scan-misses j (suc n) o plan last s c d a b m =
      let new = grown index due o plan in
      let selected = if due (index o) then index o else last in
      let l = length-grown o plan in
      if_cases (λ (x : List PpRefreshQuery × ℕ). plans (index j) x.0 ≡ false → Stopped o j plan x)
        (due (index o) && leb budget (length new)) (new, selected)
        (scan index due budget n (o + 1) new selected)
        (λ e m. elim (Bool-cases (o == j)) [
          | inl q ↦
              absurd
                (ground (arith, m, grown-plans j o plan ((==_iff o j).0 q) s (omega (arith, c)) d))
          | inr q ↦ record {
            at = o;
            last = ground (arith, e);
            from = omega arith;
            before = ground (arith, q);
            spent = ground (arith, e, l);
            some_planned = ground (arith, e);
          }
        ])
        (λ e m. elim (Bool-cases (o == j)) [
          | inl q ↦ absurd (
              ground (
                arith,
                m,
                scan-keeps (index j) n (o + 1) new selected
                    (grown-plans j o plan ((==_iff o j).0 q) s (omega (arith, c)) d),
              ))
          | inr q ↦
              let st : Stopped (o + 1) j new (scan index due budget n (o + 1) new selected) =
                scan-misses j n (o + 1) new selected s (below_budget o plan c e) d
                  (ground (arith, q)) (omega arith) m in
              record {
                at = st.at;
                last = st.last;
                from = omega (arith, st.from);
                before = st.before;
                spent = omega (arith, st.spent, st.from, l);
                some_planned = st.some_planned;
              }
        ])
        m

  -- A plan is never longer than its budget.
  pub length-scan :
      (remaining o : ℕ) (plan : List PpRefreshQuery) (last : ℕ)
      → length plan < budget
      → length (scan index due budget remaining o plan last).0 ≤ budget
  unfolding scan
  length-scan zero o plan last h = omega (arith, h)
  length-scan (suc n) o plan last h =
      let new = grown index due o plan in
      let selected = if due (index o) then index o else last in
      if_cases (λ (x : List PpRefreshQuery × ℕ). length x.0 ≤ budget)
        (due (index o) && leb budget (length new)) (new, selected)
        (scan index due budget n (o + 1) new selected) (λ _. omega (arith, h, length-grown o plan))
        (λ e. length-scan n (o + 1) new selected (below_budget o plan h e))

module _ (index : ℕ → ℕ) (due : ℕ → Bool) (budget : ℕ) (small : (o : ℕ) → o < 6 → index o < 6)
    (i : ℕ) (idle : due i ≡ false) where
  not_grown :
      (o : ℕ) (plan : List PpRefreshQuery)
      → o < 6
      → plans i plan ≡ false
      → plans i (grown index due o plan) ≡ false
  not_grown o plan h k = ground (
    arith,
    idle,
    index-query_at (index o) (small o h),
    ==_iff (index o) i,
    any-append_other i plan (query_at (index o)) k,
  )

  -- A query that is not due is not planned.
  pub scan-skips :
      (remaining o : ℕ) (plan : List PpRefreshQuery) (last : ℕ)
      → o + remaining ≤ 6
      → plans i plan ≡ false
      → plans i (scan index due budget remaining o plan last).0 ≡ false
  unfolding scan
  scan-skips zero o plan last h k = k
  scan-skips (suc n) o plan last h k =
      let new = grown index due o plan in
      let selected = if due (index o) then index o else last in
      let m = not_grown o plan (omega arith) k in
      if_cases (λ (x : List PpRefreshQuery × ℕ). plans i x.0 ≡ false)
        (due (index o) && leb budget (length new)) (new, selected)
        (scan index due budget n (o + 1) new selected) (λ _. m)
        (λ _. scan-skips n (o + 1) new selected (omega arith) m)
