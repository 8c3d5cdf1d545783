-- ===== src/CommandGate/Latch.antt =====
-- The fresh-command latch of src/command_gate.cpp over a series of polls.
use mathlib.Core.Path.{subst⁻¹}
use old_car_can_driver.Prelude.{
  ℕ, ◌≡◌, ◌≢◌, ◌↔◌, refl, sym, ap, ◌∙◌, ◌⊎◌, inl, inr, Bool, true, false, not, ◌||◌, some, List, [],
  ◌∷◌, map, arith, ◌==◌, ==_iff, if◌then◌else◌, if_cases, Bool-cases, length,
}
use old_car_can_driver.CommandGate.{
  AxisControlMode, position, velocity, csp, unknown, control_mode_value, bool_eq, Snapshot,
  CommandGate, arm_fresh_command_latch, snapshot_command_changed, satisfied,
  consume_fresh_command_latch_if_satisfied,
}

-- The answers of polls in a series of worlds: denied while the world does not have the property,
-- and granted from the first world on that has it.
pub data Answers {W : Type 0} (Fresh : W → Type 0) : List W → List Bool → Type 0 where
  none_left : Answers Fresh [] []
  denied :
      (w : W) (ws : List W) (bs : List Bool)
      → (Fresh w → ⊥)
      → Answers Fresh ws bs
      → Answers Fresh (w ∷ ws) (false ∷ bs)
  granted : (w : W) (ws : List W) → Fresh w → Answers Fresh (w ∷ ws) (true ∷ map (λ v. true) ws)

module _ {V : Type 0} (differs : V → V → Bool) where
  -- An axis asks for motion: its control mode, whether it has a direct command, or its command is
  -- another than at the arming, or it is at its target.
  abbrev pub Asks : Snapshot V → Snapshot V → Type 0
  Asks current baseline =
      (current.control_mode ≢ baseline.control_mode)
      ⊎ (current.has_direct_command ≢ baseline.has_direct_command)
      ⊎ (differs current.command_value baseline.command_value ≡ true)
      ⊎ (current.target_near_actual ≡ true)

  -- The axis of some place asks for motion.
  abbrev pub SomeAxis : List (Snapshot V) → List (Snapshot V) → Type 0
  SomeAxis (c ∷ cs) (b ∷ bs) = Asks c b ⊎ SomeAxis cs bs
  SomeAxis _ _ = ⊥

  -- Another number of axes than at the arming, or an axis that asks for motion.
  abbrev pub Fresh : List (Snapshot V) → List (Snapshot V) → Type 0
  Fresh baselines snapshots = (length baselines ≢ length snapshots) ⊎ SomeAxis snapshots baselines

  -- What the code tests.
  abbrev is_fresh : List (Snapshot V) → List (Snapshot V) → Bool
  is_fresh baselines snapshots =
      not (length baselines == length snapshots) || satisfied differs snapshots baselines

  abbrev mode_of : ℕ → AxisControlMode
  mode_of n =
      if n == 0 then position else if n == 1 then velocity else if n == 2 then csp else unknown

  mode_of-control_mode_value : (m : AxisControlMode) → mode_of (control_mode_value m) ≡ m
  mode_of-control_mode_value position = refl
  mode_of-control_mode_value velocity = refl
  mode_of-control_mode_value csp = refl
  mode_of-control_mode_value unknown = refl

  control_mode_value-injective :
      (a b : AxisControlMode) → control_mode_value a ≡ control_mode_value b → a ≡ b
  control_mode_value-injective a b e =
      sym (mode_of-control_mode_value a) ∙ ap mode_of e ∙ mode_of-control_mode_value b

  bool_eq_iff : (a b : Bool) → (bool_eq a b ≡ true) ↔ (a ≡ b)
  bool_eq_iff true b = ground arith
  bool_eq_iff false b = ground arith

  changed-Asks :
      (c b : Snapshot V)
      → ((snapshot_command_changed differs c b || c.target_near_actual) ≡ true) ↔ Asks c b
  changed-Asks c b =
      let mode = ==_iff (control_mode_value c.control_mode) (control_mode_value b.control_mode) in
      let direct = bool_eq_iff c.has_direct_command b.has_direct_command in
      (
        λ h.
            elim (Bool-cases
              (control_mode_value c.control_mode == control_mode_value b.control_mode)) [
                | inr e ↦
                    inl (λ same. absurd (ground (arith, e, mode.1 (ap control_mode_value same))))
                | inl e ↦ elim (Bool-cases (bool_eq c.has_direct_command b.has_direct_command)) [
                  | inr f ↦ inr (inl (λ same. absurd (ground (arith, f, direct.1 same))))
                  | inl f ↦ elim (Bool-cases (differs c.command_value b.command_value)) [
                    | inl g ↦ inr (inr (inl g))
                    | inr g ↦ inr (inr (inr (ground (arith, e, f, g, h))))
                  ]
                ]
              ],
        λ a. elim a [
          | inl other ↦
              elim (Bool-cases
                (control_mode_value c.control_mode == control_mode_value b.control_mode)) [
                  | inl e ↦ absurd (
                      other (control_mode_value-injective c.control_mode b.control_mode (mode.0 e)))
                  | inr e ↦ ground (arith, e)
                ]
          | inr (inl other) ↦
              elim (Bool-cases (bool_eq c.has_direct_command b.has_direct_command)) [
                | inl f ↦ absurd (other (direct.0 f))
                | inr f ↦ ground (arith, f)
              ]
          | inr (inr (inl g)) ↦ ground (arith, g)
          | inr (inr (inr near)) ↦ ground (arith, near)
        ],
      )

  satisfied-SomeAxis :
      (cs bs : List (Snapshot V)) → (satisfied differs cs bs ≡ true) ↔ SomeAxis cs bs
  unfolding satisfied
  satisfied-SomeAxis [] bs = (λ h. absurd (ground (arith, h)), λ h. absurd h)
  satisfied-SomeAxis (c ∷ cs) [] = (λ h. absurd (ground (arith, h)), λ h. absurd h)
  satisfied-SomeAxis (c ∷ cs) (b ∷ bs) =
      let here = changed-Asks c b in
      let there = satisfied-SomeAxis cs bs in
      let asks = snapshot_command_changed differs c b || c.target_near_actual in
      (
        λ h. elim (Bool-cases asks) [
          | inl e ↦ inl (here.0 e)
          | inr e ↦
              inr (there.0 (sym (ap (λ t. if t then true else satisfied differs cs bs) e) ∙ h))
        ],
        λ h. elim h [
          | inl a ↦ ap (λ t. if t then true else satisfied differs cs bs) (here.1 a)
          | inr a ↦
              if_cases (λ t. t ≡ true) asks true (satisfied differs cs bs) (λ _. refl)
                (λ _. there.1 a)
        ],
      )

  is_fresh-Fresh : (bs cs : List (Snapshot V)) → (is_fresh bs cs ≡ true) ↔ Fresh bs cs
  is_fresh-Fresh bs cs =
      let same = ==_iff (length bs) (length cs) in
      let axis = satisfied-SomeAxis cs bs in
      (
        λ h. elim (Bool-cases (length bs == length cs)) [
          | inr e ↦ inl (λ l. absurd (ground (arith, e, same.1 l)))
          | inl e ↦ inr (axis.0 (ground (arith, e, h)))
        ],
        λ h. elim h [
          | inl other ↦ elim (Bool-cases (length bs == length cs)) [
            | inl e ↦ absurd (other (same.0 e))
            | inr e ↦ ground (arith, e)
          ]
          | inr a ↦ ground (arith, axis.1 a)
        ],
      )

module _ {V W : Type 0} (differs : V → V → Bool) where
  -- What the polls in these worlds answer.
  unfoldable pub polls : List W → CommandGate V W → List Bool
  polls [] g = []
  polls (w ∷ ws) g =
      let (passed, next) = consume_fresh_command_latch_if_satisfied differs w g in
      passed ∷ polls ws next

  consume-open :
      (w : W) (g : CommandGate V W)
      → g.fresh_command_required ≡ false
      → consume_fresh_command_latch_if_satisfied differs w g ≡ (true, g)
  unfolding consume_fresh_command_latch_if_satisfied
  consume-open w g h =
      if_cases (λ x. x ≡ (true, g)) (not g.fresh_command_required) _ _ (λ _. refl)
        (λ e. absurd (ground (arith, e, h)))

  consume-armed :
      (w : W) (provider : W → List (Snapshot V)) (g : CommandGate V W)
      → g.fresh_command_required ≡ true
      → g.snapshot_provider ≡ some provider
      → let x = consume_fresh_command_latch_if_satisfied differs w g in
        (x.0 ≡ is_fresh differs g.baselines (provider w))
        × ((x ≡ (false, g)) ⊎ ((x.0 ≡ true) × (x.1.fresh_command_required ≡ false)))
  unfolding consume_fresh_command_latch_if_satisfied
  consume-armed w provider g h k = ground (arith, h, k)

  polls-open :
      (ws : List W) (g : CommandGate V W)
      → g.fresh_command_required ≡ false
      → polls ws g ≡ map (λ w. true) ws
  unfolding polls
  polls-open [] g h = refl
  polls-open (w ∷ ws) g h = rw (consume-open w g h) (ap (λ bs. true ∷ bs) (polls-open ws g h))

  polls-Answers :
      (ws : List W) (provider : W → List (Snapshot V)) (g : CommandGate V W)
      → g.fresh_command_required ≡ true
      → g.snapshot_provider ≡ some provider
      → Answers (λ w. Fresh differs g.baselines (provider w)) ws (polls ws g)
  unfolding polls
  polls-Answers [] provider g h k = none_left
  polls-Answers (w ∷ ws) provider g h k =
      let F = λ (v : W). Fresh differs g.baselines (provider v) in
      let x = consume_fresh_command_latch_if_satisfied differs w g in
      let c = consume-armed w provider g h k in
      let fresh = is_fresh-Fresh differs g.baselines (provider w) in
      elim c.1 as (λ _. Answers F (w ∷ ws) (x.0 ∷ polls ws x.1)) [
        | inl e ↦
            subst⁻¹ (λ (y : Bool × CommandGate V W). Answers F (w ∷ ws) (y.0 ∷ polls ws y.1)) e
              (denied w ws (polls ws g)
                (λ f. absurd (ground (arith, fresh.1 f, c.0, ap (λ y. y.0) e)))
                (polls-Answers ws provider g h k))
        | inr (e, f) ↦
            subst⁻¹ (λ bs. Answers F (w ∷ ws) bs)
              (ap (λ b. b ∷ polls ws x.1) e ∙ ap (λ bs. true ∷ bs) (polls-open ws x.1 f))
              (granted w ws (fresh.0 (sym c.0 ∙ e)))
      ]

  arm_fresh_command_latch_lem :
      (w : W) (provider : W → List (Snapshot V)) (g : CommandGate V W)
      → g.snapshot_provider ≡ some provider
      → arm_fresh_command_latch w g
        ≡ record g { baselines = provider w; fresh_command_required = true }
  unfolding arm_fresh_command_latch
  arm_fresh_command_latch_lem w provider g h = ground (arith, h)

  -- When the gate has a snapshot provider, the polls after an arming are denied in every world
  -- up to the first in which the snapshots are fresh against those of the arming, and granted in
  -- that one and in all after it. Fresh means another number of axes, or some axis with another
  -- control mode, with a direct command where it had none or none where it had one, with a
  -- command value that differs, or at its target.
  pub polls-arm_fresh_command_latch :
      (armed_in : W) (ws : List W) (provider : W → List (Snapshot V)) (g : CommandGate V W)
      → g.snapshot_provider ≡ some provider
      → Answers
          (λ w. Fresh differs (provider armed_in) (provider w))
          ws
          (polls ws (arm_fresh_command_latch armed_in g))
  polls-arm_fresh_command_latch armed_in ws provider g h =
      let armed = record g { baselines = provider armed_in; fresh_command_required = true } in
      subst⁻¹ (λ x. Answers (λ w. Fresh differs (provider armed_in) (provider w)) ws (polls ws x))
        (arm_fresh_command_latch_lem armed_in provider g h) (polls-Answers ws provider armed refl h)
