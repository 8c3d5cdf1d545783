-- ===== src/SharedState/Keys.antt =====
-- The map key of an axis, axisMapKey of include/can_driver/SharedDriverState.h: two axes share an
-- entry only if they agree on device, protocol and motor id.
use old_car_can_driver.Prelude.{
  string_eq, ℕ, zero, suc, ◌+◌, ◌-◌, ◌*◌, ◌/◌, ◌%◌, ◌<◌, ◌≡◌, refl, sym, ap, ◌∙◌, ◌≢◌, Option, none,
  some, List, [], ◌∷◌, ◌++◌, arith, ltb, ◌==◌, if◌then◌else◌, if_cases, All, All-append,
}
use mathlib.Core.List.{append_assoc}
use mathlib.Core.Option.{some-injective}
use old_car_can_driver.Can.{CanType, mt, pp, dm, ecb}
use old_car_can_driver.SharedState.Data.{
  codes_Eq, AxisKey, codes, protocol_name, decimal, axis_map_key,
}

-- A list cut at its last occurrence of a mark.
cut_last : ℕ → List ℕ → Option (List ℕ × List ℕ)
cut_last m [] = none
cut_last m (x ∷ xs) = elim (cut_last m xs) [
  | some (a, b) ↦ some (x ∷ a, b)
  | none ↦ if x == m then some ([], xs) else none
]

cut_last-none : (m : ℕ) (ys : List ℕ) → All (λ y. y ≢ m) ys → cut_last m ys ≡ none
unfolding cut_last
cut_last-none m [] h = refl
cut_last-none m (y ∷ ys) h = ground (arith, cut_last-none m ys h.1)

cut_last-append :
    (m : ℕ) (xs ys : List ℕ) → All (λ y. y ≢ m) ys → cut_last m (xs ++ m ∷ ys) ≡ some (xs, ys)
unfolding cut_last
cut_last-append m [] ys h = ground (arith, cut_last-none m ys h)
cut_last-append m (x ∷ xs) ys h = rw (cut_last-append m xs ys h)

some_pair :
    {A B : Type 0} (p q : A × B)
    → ◌≡◌ {A = Option (A × B)} (some p) (some q)
    → (p.0 ≡ q.0) × (p.1 ≡ q.1)
some_pair {A} {B} p q h = (
  ap {A = A × B} (λ r. r.0) (some-injective p q h),
  ap {A = A × B} (λ r. r.1) (some-injective p q h),
)

append_cancel_mark :
    (m : ℕ) (xs xs' ys ys' : List ℕ)
    → All (λ y. y ≢ m) ys
    → All (λ y. y ≢ m) ys'
    → xs ++ m ∷ ys ≡ xs' ++ m ∷ ys'
    → (xs ≡ xs') × (ys ≡ ys')
append_cancel_mark m xs xs' ys ys' h h' e =
    some_pair (xs, ys) (xs', ys')
      (sym (cut_last-append m xs ys h) ∙ ap (cut_last m) e ∙ cut_last-append m xs' ys' h')

-- The number that a text of digits stands for.
value : ℕ → List ℕ → ℕ
value acc [] = acc
value acc (x ∷ xs) = value (acc * 10 + (x - b'0')) xs

value-append : (acc : ℕ) (xs ys : List ℕ) → value acc (xs ++ ys) ≡ value (value acc xs) ys
unfolding value
value-append acc [] ys = refl
value-append acc (x ∷ xs) ys = value-append (acc * 10 + (x - b'0')) xs ys

-- The numbers of at most `f` digits.
abbrev ten_to : ℕ → ℕ
ten_to zero = 1
ten_to (suc f) = 10 * ten_to f

value-decimal : (f n : ℕ) → n < ten_to f → value 0 (decimal f n) ≡ n
unfolding value decimal
value-decimal zero n h = omega arith
value-decimal (suc f) n h =
    ground
      (arith, value-append 0 (decimal f (n / 10)) ((b'0' + n % 10) ∷ []), value-decimal f (n / 10))

decimal_digits : (f n : ℕ) → All (λ y. y ≢ b'|') (decimal f n)
unfolding decimal
decimal_digits zero n = tt
decimal_digits (suc f) n =
    if_cases (All (λ y. y ≢ b'|')) (ltb n 10) ((b'0' + n) ∷ [])
      (decimal f (n / 10) ++ (b'0' + n % 10) ∷ []) (λ h. (ground arith, tt))
      (λ _. All-append _ (decimal f (n / 10)) _ (decimal_digits f (n / 10)) (omega arith, tt))

protocol_name_letters : (p : CanType) → All (λ y. y ≢ b'|') (protocol_name p)
protocol_name_letters mt = omega arith
protocol_name_letters pp = omega arith
protocol_name_letters dm = omega arith
protocol_name_letters ecb = omega arith

protocol_name-injective : (p q : CanType) → protocol_name p ≡ protocol_name q → p ≡ q
protocol_name-injective p q h = ground arith

decimal-injective : (m n : ℕ) → m < 65536 → n < 65536 → decimal 5 m ≡ decimal 5 n → m ≡ n
decimal-injective m n h k e =
    sym (value-decimal 5 m (omega arith)) ∙ ap (value 0) e ∙ value-decimal 5 n (omega arith)

-- Two axis keys with 16-bit motor ids and the same map key have the same device name, character
-- by character, the same protocol and the same motor id.
pub axis_map_key-injective :
    (k k' : AxisKey)
    → k.motor_id < 65536
    → k'.motor_id < 65536
    → axis_map_key k ≡ axis_map_key k'
    → (codes k.device ≡ codes k'.device) × (k.protocol ≡ k'.protocol) × (k.motor_id ≡ k'.motor_id)
unfolding axis_map_key
axis_map_key-injective k k' h h' e =
    let front = λ (a : AxisKey). codes a.device ++ b'|' ∷ protocol_name a.protocol in
    let outer =
      append_cancel_mark b'|' (front k) (front k') (decimal 5 k.motor_id) (decimal 5 k'.motor_id)
        (decimal_digits 5 k.motor_id) (decimal_digits 5 k'.motor_id)
        (append_assoc (codes k.device) (b'|' ∷ protocol_name k.protocol)
            (b'|' ∷ decimal 5 k.motor_id)
          ∙ e
          ∙ sym (
              append_assoc (codes k'.device) (b'|' ∷ protocol_name k'.protocol)
                (b'|' ∷ decimal 5 k'.motor_id))) in
    let inner =
      append_cancel_mark b'|' (codes k.device) (codes k'.device) (protocol_name k.protocol)
        (protocol_name k'.protocol) (protocol_name_letters k.protocol)
        (protocol_name_letters k'.protocol) outer.0 in
    (
      inner.0,
      protocol_name-injective k.protocol k'.protocol inner.1,
      decimal-injective k.motor_id k'.motor_id h h' outer.1,
    )
