-- ===== src/DeviceRuntime/Queues.antt =====
-- The order of the queues and the control queue: popNextLocked and enqueueControlLocked of
-- src/DeviceRuntime.cpp.
use old_car_can_driver.Prelude.{
  ℕ, suc, ◌+◌, ◌≤◌, ◌<◌, ◌≡◌, refl, ◌∙◌, inl, inr, true, Option, none, some, List, [], ◌∷◌, ◌++◌,
  arith, leb, ◌==◌, if◌then◌else◌, if_cases, Option-cases, nat_eq, string_eq, length,
}
use old_car_can_driver.Can.{control}
use old_car_can_driver.DeviceRuntime.{
  Request, Runtime, pop_next_locked, push_back, replace, count_evicted, evict_oldest,
  enqueue_control_locked, pop_config_or_query, pop_control_or_recover,
}

-- The requests in the order in which the worker is to take them.
abbrev pub in_order : Runtime → List Request
in_order t = t.control_queue ++ t.recover_queue ++ t.config_queue ++ t.query_queue

-- A popped request in front of those that stay.
abbrev pub peel : Option (Request × Runtime) → List Request
peel none = []
peel (some (r, u)) = r ∷ in_order u

peel-pop_config_or_query :
    (cs qs : List Request) (t : Runtime)
    → t.control_queue ≡ []
    → t.recover_queue ≡ []
    → t.config_queue ≡ cs
    → t.query_queue ≡ qs
    → peel (pop_config_or_query cs qs t) ≡ in_order t
unfolding pop_config_or_query
peel-pop_config_or_query (c ∷ cs) qs t h k e f = ground arith
peel-pop_config_or_query [] (q ∷ qs) t h k e f = ground arith
peel-pop_config_or_query [] [] t h k e f = ground arith

peel-pop_control_or_recover :
    (cs rs : List Request) (t : Runtime)
    → t.control_queue ≡ cs
    → t.recover_queue ≡ rs
    → peel (pop_control_or_recover cs rs t) ≡ in_order t
unfolding pop_control_or_recover
peel-pop_control_or_recover (c ∷ cs) rs t h k = ground arith
peel-pop_control_or_recover [] (r ∷ rs) t h k = ground arith
peel-pop_control_or_recover [] [] t h k =
    peel-pop_config_or_query t.config_queue t.query_queue t h k refl refl

-- The popped request in front of what remains queued is the whole queue in its order: control,
-- recover, config, query, each first in first out; nothing is popped exactly if all is empty.
pub peel-pop_next_locked : (t : Runtime) → peel (pop_next_locked t) ≡ in_order t
unfolding pop_next_locked
peel-pop_next_locked t = peel-pop_control_or_recover t.control_queue t.recover_queue t refl refl

-- The first queued request with the frame id.
unfoldable pub find_frame : ℕ → List Request → Option Request
find_frame id [] = none
find_frame id (q ∷ qs) = let rest = find_frame id qs in if q.frame.id == id then some q else rest

find_frame-replace :
    (r : Request) (qs new : List Request)
    → replace r qs ≡ some new
    → find_frame r.frame.id new ≡ some r
unfolding find_frame replace
find_frame-replace r [] new h = ground arith
find_frame-replace r (q ∷ qs) new h = elim (Option-cases (replace r qs)) [
  | inl e ↦ ground (arith, e)
  | inr (rest, e) ↦ ground (arith, e, find_frame-replace r qs rest e)
]

find_frame-append :
    (id : ℕ) (xs ys : List Request)
    → find_frame id xs ≡ none
    → find_frame id (xs ++ ys) ≡ find_frame id ys
unfolding find_frame
find_frame-append id [] ys h = refl
find_frame-append id (x ∷ xs) ys h = ground (arith, find_frame-append id xs ys)

-- How many queued requests have the frame id.
unfoldable pub count_frame : ℕ → List Request → ℕ
count_frame id [] = 0
count_frame id (q ∷ qs) =
    let rest = count_frame id qs in if q.frame.id == id then suc rest else rest

pub count_frame-append :
    (id : ℕ) (xs ys : List Request)
    → count_frame id (xs ++ ys) ≡ count_frame id xs + count_frame id ys
unfolding count_frame
count_frame-append id [] ys = omega arith
count_frame-append id (x ∷ xs) ys = ground (arith, count_frame-append id xs ys)

pub count_frame-tail :
    (id : ℕ) (all : List Request) (q : Request) (qs : List Request)
    → all ≡ q ∷ qs
    → count_frame id qs ≤ count_frame id all
unfolding count_frame
count_frame-tail id all q qs h = rw h (ground arith)

pub count_frame-replace :
    (id : ℕ) (r : Request) (qs new : List Request)
    → replace r qs ≡ some new
    → (count_frame id new ≡ count_frame id qs) × (length new ≡ length qs)
unfolding count_frame replace
count_frame-replace id r [] new h = ground arith
count_frame-replace id r (q ∷ qs) new h = elim (Option-cases (replace r qs)) [
  | inl e ↦ ground (arith, e)
  | inr (rest, e) ↦ ground (arith, e, count_frame-replace id r qs rest e)
]

pub replace-none_count :
    (r : Request) (qs : List Request) → replace r qs ≡ none → count_frame r.frame.id qs ≡ 0
unfolding count_frame replace
replace-none_count r [] h = refl
replace-none_count r (q ∷ qs) h =
    ground (arith, Option-cases (replace r qs), replace-none_count r qs)

-- The four things that the insertion of a control request can come to.
pub enqueue-cases {ℓ} :
    (P : Runtime → Type ℓ) (r : Request) (t : Runtime)
    → ((qs : List Request)
        → replace r t.control_queue ≡ some qs
        → P (record (count_evicted t) { control_queue = qs }))
    → (replace r t.control_queue ≡ none
        → length t.control_queue < t.options.max_control_queue_depth
        → P (record t { control_queue = t.control_queue ++ r ∷ [] }))
    → ((q : Request) (qs : List Request)
        → replace r t.control_queue ≡ none
        → t.control_queue ≡ q ∷ qs
        → P (record (count_evicted t) { control_queue = qs ++ r ∷ [] }))
    → (t.options.max_control_queue_depth ≡ 0
        → replace r t.control_queue ≡ none
        → P (record (count_evicted t) {
          control_queue = t.control_queue ++ r ∷ [];
          undefined = true;
        }))
    → P (enqueue_control_locked r t)
unfolding enqueue_control_locked push_back evict_oldest
enqueue-cases P r t replaced fits evicts fails = go (replace r t.control_queue) refl
  where
    evict :
        (qs : List Request)
        → t.control_queue ≡ qs
        → replace r t.control_queue ≡ none
        → leb t.options.max_control_queue_depth (length t.control_queue) ≡ true
        → P (push_back control r (evict_oldest qs t))
    evict [] e h k = fails (ground arith) h
    evict (q ∷ qs) e h k = evicts q qs h e

    go :
        (o : Option (List Request))
        → replace r t.control_queue ≡ o
        → P (elim o [
          | some queue ↦ record (count_evicted t) { control_queue = queue }
          | none ↦ push_back control r (
              if leb t.options.max_control_queue_depth (length t.control_queue)
              then evict_oldest t.control_queue t
              else t)
        ])
    go (some qs) e = replaced qs e
    go none e =
        if_cases (λ u. P (push_back control r u))
          (leb t.options.max_control_queue_depth (length t.control_queue))
          (evict_oldest t.control_queue t) t (evict t.control_queue refl e)
          (λ h. fits e (ground arith))

find_frame-none : (id : ℕ) (qs : List Request) → count_frame id qs ≡ 0 → find_frame id qs ≡ none
unfolding find_frame count_frame
find_frame-none id [] h = refl
find_frame-none id (q ∷ qs) h = ground (arith, find_frame-none id qs)

behind :
    (r : Request) (qs : List Request)
    → count_frame r.frame.id qs ≡ 0
    → find_frame r.frame.id (qs ++ r ∷ []) ≡ some r
unfolding find_frame
behind r qs h =
    find_frame-append r.frame.id qs (r ∷ []) (find_frame-none r.frame.id qs h) ∙ ground arith

-- After a control request is enqueued, the first queued control request with its frame id is
-- that request, whether it took the place of an older one, was put behind the others, or the
-- oldest was evicted for it.
pub find_frame-enqueue_control_locked :
    (r : Request) (t : Runtime)
    → find_frame r.frame.id (enqueue_control_locked r t).control_queue ≡ some r
unfolding find_frame
find_frame-enqueue_control_locked r t =
    let absent_before =
      λ (e : replace r t.control_queue ≡ none). replace-none_count r t.control_queue e in
    enqueue-cases (λ u. find_frame r.frame.id u.control_queue ≡ some r) r t
      (find_frame-replace r t.control_queue) (λ e k. behind r t.control_queue (absent_before e))
      (λ q qs e k.
        behind r qs
          (omega (arith, absent_before e, count_frame-tail r.frame.id t.control_queue q qs k)))
      (λ k e. behind r t.control_queue (absent_before e))
