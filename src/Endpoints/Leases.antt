-- ===== src/Endpoints/Leases.antt =====
-- Every counter of the selector of src/endpoints.rs counts the leases that are held.
use bench_cli.Base.{
  ℕ, suc, ◌+◌, ◌-◌, ◌%◌, ◌≡◌, refl, sym, false, Bool-cases, inl, inr, Option-cases, Option, none,
  some, List, [], ◌∷◌, ◌++◌, get_elem?, map_some, if◌then◌else◌, arith,
}
use bench_cli.Text.{Text, text_eq, text_eq_iff}
use bench_cli.Text.Maps.{Map, get, insert, get-insert}
use bench_cli.Endpoints.{
  EndpointTuple, ResolvedEndpoints, LoadBalancer, round_robin, least_inflight, choices,
  endpoint_names_for_display,
}
use bench_cli.Endpoints.Selector.{
  EndpointSelector, usize, keyed, with_eject_backoff, note_connect_failure, pick, lease, select,
  drop,
}

-- How many of the leases are the endpoint's.
abbrev pub count : Text → List Text → ℕ
count name [] = 0
count name (l ∷ ls) = let n = count name ls in if text_eq l name then suc n else n

-- The selector and the leases that are held.
abbrev pub State : Type 0
State = EndpointSelector × List Text

-- What may happen: a selection, the drop of a lease that is held, a failure to connect.
pub data Step (E : ResolvedEndpoints) : State → State → Type 0 where
  selected :
      (strategy : LoadBalancer) (now : ℕ → ℕ) (s t : EndpointSelector) (ls : List Text)
      (choice : EndpointTuple)
      → select E strategy now s ≡ some (choice, t)
      → Step E (s, ls) (t, choice.2 ∷ ls)
  dropped :
      (s : EndpointSelector) (pre : List Text) (name : Text) (post : List Text)
      → Step E (s, pre ++ name ∷ post) (drop name s, pre ++ post)
  failed :
      (s : EndpointSelector) (now : ℕ) (name : Text) (ls : List Text)
      → Step E (s, ls) (note_connect_failure now name s, ls)

pub data Reach (E : ResolvedEndpoints) (backoff : ℕ) : State → Type 0 where
  begin : Reach E backoff (with_eject_backoff E backoff, [])
  and_then_step : (s t : State) → Reach E backoff s → Step E s t → Reach E backoff t

-- The counters, when each counts the leases that are held, as a `usize`.
abbrev pub IsBalanced : ResolvedEndpoints → ℕ → State → Type 0
IsBalanced E backoff (s, ls) =
    (name : Text)
    → get s.inflight name
      ≡ map_some (get (with_eject_backoff E backoff).inflight name) (λ _. count name ls % usize)

count-append : (name : Text) (a b : List Text) → count name (a ++ b) ≡ count name a + count name b
count-append name [] b = omega arith
count-append name (l ∷ a) b = ground (arith, count-append name a b)

count_up : (c : ℕ) → (c % usize + 1) % usize ≡ suc c % usize
count_up c = omega arith

count_down : (c : ℕ) → (suc c % usize + (usize - 1)) % usize ≡ c % usize
count_down c = omega arith

insert-zero :
    (k : Text) (m : Map ℕ) (name : Text)
    → get m name ≡ map_some (get m name) (λ _. 0)
    → get (insert k 0 m) name ≡ map_some (get (insert k 0 m) name) (λ _. 0)
insert-zero k m name h = rw (get-insert k 0 m name) (ground (arith, h))

get-keyed :
    (names : List (Text × ℕ)) (m : Map ℕ) (name : Text)
    → get m name ≡ map_some (get m name) (λ _. 0)
    → get (keyed 0 names m) name ≡ map_some (get (keyed 0 names m) name) (λ _. 0)
unfolding keyed
get-keyed [] m name h = h
get-keyed ((k, _) ∷ names) m name h = get-keyed names (insert k 0 m) name (insert-zero k m name h)

start-IsBalanced :
    (E : ResolvedEndpoints) (backoff : ℕ) → IsBalanced E backoff (with_eject_backoff E backoff, [])
unfolding with_eject_backoff get
start-IsBalanced E backoff name = get-keyed (endpoint_names_for_display E) [] name refl

-- A counter that is set, after one that counted right.
set-IsBalanced :
    (m : Map ℕ) (init : Text → Option ℕ) (k : Text) (n v : ℕ) (c d : Text → ℕ)
    → ((name : Text) → get m name ≡ map_some (init name) (λ _. c name % usize))
    → get m k ≡ some n
    → v ≡ d k % usize
    → ((name : Text) → text_eq k name ≡ false → d name ≡ c name)
    → (name : Text) → get (insert k v m) name ≡ map_some (init name) (λ _. d name % usize)
set-IsBalanced m init k n v c d h e ev other name =
    rw (get-insert k v m name) (elim (Bool-cases (text_eq k name)) [
      | inl same ↦ rw same (rw (sym ((text_eq_iff k name).0 same)) (ground (arith, h k, e, ev)))
      | inr differ ↦ rw differ (rw (other name differ) (h name))
    ])

lease-set :
    (s t : EndpointSelector) (choice picked : EndpointTuple)
    → lease s picked ≡ some (choice, t)
    → (n : ℕ) × (get s.inflight (choice.2) ≡ some n)
      × (t.inflight ≡ insert (choice.2) ((n + 1) % usize) s.inflight)
unfolding lease
lease-set s t choice picked e = elim (Option-cases (get s.inflight (picked.2))) [
  | inl h ↦ absurd (ground (arith, h, e))
  | inr (n, h) ↦ (n, ground (arith, h, e), ground (arith, h, e))
]

pub pick-inflight :
    (strategy : LoadBalancer) (now : ℕ → ℕ) (cs : List EndpointTuple) (s : EndpointSelector)
    → (pick strategy now cs s).1.inflight ≡ s.inflight
unfolding pick
pick-inflight round_robin now cs s = refl
pick-inflight least_inflight now cs s = refl

select-set :
    (E : ResolvedEndpoints) (strategy : LoadBalancer) (now : ℕ → ℕ) (s t : EndpointSelector)
    (choice : EndpointTuple)
    → select E strategy now s ≡ some (choice, t)
    → (n : ℕ) × (get s.inflight (choice.2) ≡ some n)
      × (t.inflight ≡ insert (choice.2) ((n + 1) % usize) s.inflight)
unfolding select
select-set E strategy now s t choice e =
    let p = pick strategy now (choices E) s in
    elim (Option-cases (get_elem? (choices E) p.0)) [
      | inl h ↦ absurd (ground (arith, h, e))
      | inr (picked, h) ↦
          rw (sym (pick-inflight strategy now (choices E) s))
            (lease-set p.1 t choice picked (ground (arith, h, e)))
    ]

count-cons :
    (k name : Text) (ls : List Text) → text_eq k name ≡ false → count name (k ∷ ls) ≡ count name ls
count-cons k name ls h = rw h refl

count-own : (k : Text) (ls : List Text) → count k (k ∷ ls) ≡ suc (count k ls)
count-own k ls = rw ((text_eq_iff k k).1 refl) refl

count-middle :
    (k name : Text) (pre post : List Text)
    → text_eq k name ≡ false
    → count name (pre ++ k ∷ post) ≡ count name (pre ++ post)
count-middle k name pre post h =
    rw (count-append name pre (k ∷ post), count-append name pre post, count-cons k name post h) refl

count-middle-own :
    (k : Text) (pre post : List Text) → count k (pre ++ k ∷ post) ≡ suc (count k (pre ++ post))
count-middle-own k pre post =
    omega (arith, count-append k pre (k ∷ post), count-append k pre post, count-own k post)

counted : (o i : Option ℕ) (n c : ℕ) → o ≡ some n → o ≡ map_some i (λ _. c) → n ≡ c
counted o i n c e h = ground (arith, e, h)

-- A lease of an endpoint that has no counter moves none.
absent_own :
    (E : ResolvedEndpoints) (backoff : ℕ) (s : EndpointSelector) (pre : List Text) (k : Text)
    (post : List Text)
    → IsBalanced E backoff (s, pre ++ k ∷ post)
    → get s.inflight k ≡ none
    → IsBalanced E backoff (s, pre ++ post)
absent_own E backoff s pre k post h e name = elim (Bool-cases (text_eq k name)) [
  | inl same ↦ rw (sym ((text_eq_iff k name).0 same)) (ground (arith, h k, e))
  | inr differ ↦ rw (sym (count-middle k name pre post differ)) (h name)
]

drop-IsBalanced :
    (E : ResolvedEndpoints) (backoff : ℕ) (s : EndpointSelector) (pre : List Text) (k : Text)
    (post : List Text)
    → IsBalanced E backoff (s, pre ++ k ∷ post)
    → IsBalanced E backoff (drop k s, pre ++ post)
unfolding drop
drop-IsBalanced E backoff s pre k post h name = elim (Option-cases (get s.inflight k)) [
  | inl e ↦ rw (e, drop) (absent_own E backoff s pre k post h e name)
  | inr (n, e) ↦
      rw (e, drop)
        (set-IsBalanced s.inflight (get (with_eject_backoff E backoff).inflight) k n _
          (λ a. count a (pre ++ k ∷ post)) (λ a. count a (pre ++ post)) h e
          (rw (counted _ _ n _ e (h k), count-middle-own k pre post)
            (count_down (count k (pre ++ post))))
          (λ a differ. sym (count-middle k a pre post differ)) name)
]

failed-IsBalanced :
    (E : ResolvedEndpoints) (backoff : ℕ) (s : EndpointSelector) (now : ℕ) (k : Text)
    (ls : List Text)
    → IsBalanced E backoff (s, ls)
    → IsBalanced E backoff (note_connect_failure now k s, ls)
unfolding note_connect_failure
failed-IsBalanced E backoff s now k ls h name = elim (Option-cases (get s.ejected_until k)) [
  | inl e ↦ rw (e, note_connect_failure) (h name)
  | inr (n, e) ↦ rw (e, note_connect_failure) (h name)
]

selected-IsBalanced :
    (E : ResolvedEndpoints) (backoff : ℕ) (strategy : LoadBalancer) (now : ℕ → ℕ)
    (s t : EndpointSelector) (ls : List Text) (choice : EndpointTuple)
    → select E strategy now s ≡ some (choice, t)
    → IsBalanced E backoff (s, ls)
    → IsBalanced E backoff (t, choice.2 ∷ ls)
selected-IsBalanced E backoff strategy now s t ls choice e h name =
    let put = select-set E strategy now s t choice e in
    let k = choice.2 in
    rw (put.2) (
      set-IsBalanced s.inflight (get (with_eject_backoff E backoff).inflight) k (put.0) _
        (λ a. count a ls) (λ a. count a (k ∷ ls)) h (put.1)
        (rw (counted _ _ (put.0) _ (put.1) (h k), count-own k ls) (count_up (count k ls)))
        (λ a. count-cons k a ls) name)

Step-IsBalanced :
    (E : ResolvedEndpoints) (backoff : ℕ) (s t : State)
    → Step E s t
    → IsBalanced E backoff s
    → IsBalanced E backoff t
Step-IsBalanced E backoff _ _ (selected strategy now s t ls choice e) h =
    selected-IsBalanced E backoff strategy now s t ls choice e h
Step-IsBalanced E backoff _ _ (dropped s pre name post) h =
    drop-IsBalanced E backoff s pre name post h
Step-IsBalanced E backoff _ _ (failed s now name ls) h = failed-IsBalanced E backoff s now name ls h

pub Reach-IsBalanced :
    (E : ResolvedEndpoints) (backoff : ℕ) (s : State) → Reach E backoff s → IsBalanced E backoff s
Reach-IsBalanced E backoff _ begin = start-IsBalanced E backoff
Reach-IsBalanced E backoff _ (and_then_step s t before step) =
    Step-IsBalanced E backoff s t step (Reach-IsBalanced E backoff s before)

-- Whatever was selected, dropped and noted as a failure to connect, in any order: a name has a
-- counter exactly if it had one at the start, and its counter is the number of its leases that are
-- held, modulo the size of a counter.
pub Reach-inflight :
    (E : ResolvedEndpoints) (backoff : ℕ) (s : EndpointSelector) (ls : List Text) (name : Text)
    → Reach E backoff (s, ls)
    → get s.inflight name
      ≡ map_some (get (with_eject_backoff E backoff).inflight name) (λ _. count name ls % usize)
Reach-inflight E backoff s ls name r = Reach-IsBalanced E backoff (s, ls) r name
