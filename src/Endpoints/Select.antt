-- ===== src/Endpoints/Select.antt =====
-- Which endpoint `select` of src/endpoints.rs picks.
use bench_cli.Base.{
  ℕ, suc, ◌+◌, ◌≡◌, refl, sym, ap, ◌∙◌, true, false, Bool-cases, ◌⊎◌, inl, inr, Option-cases, some,
  List, [], ◌∷◌, get_elem?, arith, subst,
}
use mathlib.Core.Option.{some-injective}
use bench_cli.Text.Maps.{get}
use bench_cli.Endpoints.{EndpointTuple, ResolvedEndpoints, LoadBalancer, least_inflight, choices}
use bench_cli.Endpoints.Selector.{
  EndpointSelector, Rank, rank, rank_lt, min_from, min_index, pick, lease, select,
}

not_less_below : (r l m : Rank) → rank_lt r l ≡ true → rank_lt r m ≡ false → rank_lt l m ≡ false
not_less_below (false, a) (false, b) (false, c) h k = ground arith
not_less_below (false, a) (false, b) (true, c) h k = ground arith
not_less_below (false, a) (true, b) (false, c) h k = ground arith
not_less_below (false, a) (true, b) (true, c) h k = ground arith
not_less_below (true, a) (false, b) m h k = ground arith
not_less_below (true, a) (true, b) (false, c) h k = ground arith
not_less_below (true, a) (true, b) (true, c) h k = ground arith

not_less_above : (r l m : Rank) → rank_lt r l ≡ false → rank_lt l m ≡ false → rank_lt r m ≡ false
not_less_above (false, a) (false, b) (false, c) h k = ground arith
not_less_above (false, a) (false, b) (true, c) h k = ground arith
not_less_above (false, a) (true, b) (false, c) h k = ground arith
not_less_above (false, a) (true, b) (true, c) h k = ground arith
not_less_above (true, a) (false, b) (false, c) h k = ground arith
not_less_above (true, a) (false, b) (true, c) h k = ground arith
not_less_above (true, a) (true, b) (false, c) h k = ground arith
not_less_above (true, a) (true, b) (true, c) h k = ground arith

not_less_self : (r : Rank) → rank_lt r r ≡ false
not_less_self (false, a) = ground arith
not_less_self (true, a) = ground arith

-- No choice from the index `i` on comes before the rank.
abbrev pub IsLeast : EndpointSelector → (ℕ → ℕ) → ℕ → List EndpointTuple → Rank → Type 0
IsLeast s now i [] least = Unit
IsLeast s now i (c ∷ cs) least =
    (rank_lt (rank s (now i) (c.2)) least ≡ false) × IsLeast s now (suc i) cs least

-- The choice of this index, with this rank, stands in the list that begins at the index `i`.
abbrev pub Found : EndpointSelector → (ℕ → ℕ) → ℕ → List EndpointTuple → ℕ → Rank → Type 0
Found s now i [] r least = ⊥
Found s now i (c ∷ cs) r least =
    ((r ≡ i) × (least ≡ rank s (now i) (c.2))) ⊎ Found s now (suc i) cs r least

min_from-IsLeast :
    (s : EndpointSelector) (now : ℕ → ℕ) (i best : ℕ) (least : Rank) (cs : List EndpointTuple)
    → (l : Rank) × (rank_lt least l ≡ false)
      × IsLeast s now i cs l
      × (((min_from s now i best least cs ≡ best) × (l ≡ least))
          ⊎ Found s now i cs (min_from s now i best least cs) l)
unfolding min_from
min_from-IsLeast s now i best least [] = (least, not_less_self least, tt, inl (refl, refl))
min_from-IsLeast s now i best least ((u, a, name) ∷ cs) =
    let r = rank s (now i) name in
    let on = min_from-IsLeast s now (suc i) i r cs in
    let off = min_from-IsLeast s now (suc i) best least cs in
    elim (Bool-cases (rank_lt r least)) [
      | inl better ↦
          (on.0, not_less_below r least (on.0) better (on.1), (on.1, on.2), rw better (inr (on.3)))
      | inr same ↦ (
        off.0,
        off.1,
        (not_less_above r least (off.0) same (off.1), off.2),
        rw same (elim (off.3) [ inl e ↦ inl e | inr f ↦ inr (inr f) ]),
      )
    ]

Found-get_elem? :
    (s : EndpointSelector) (now : ℕ → ℕ) (i : ℕ) (cs : List EndpointTuple) (r : ℕ) (l : Rank)
    → Found s now i cs r l
    → (m : ℕ) × (c : EndpointTuple) × (r ≡ i + m)
      × (get_elem? cs m ≡ some c)
      × (l ≡ rank s (now r) (c.2))
Found-get_elem? s now i [] r l f = elim f [ ]
Found-get_elem? s now i (c ∷ cs) r l (inl e) = (0, c, omega (arith, e.0), refl, rw (e.0) (e.1))
Found-get_elem? s now i (c ∷ cs) r l (inr f) =
    let on = Found-get_elem? s now (suc i) cs r l f in
    (suc (on.0), on.1, omega (arith, on.2), on.3, on.4)

at_sum :
    (cs : List EndpointTuple) (r m : ℕ) (c : EndpointTuple)
    → r ≡ 0 + m
    → get_elem? cs m ≡ some c
    → get_elem? cs r ≡ some c
at_sum cs r m c e h = subst (λ j. get_elem? cs j ≡ some c) (omega (arith, e)) h

-- The index found is in the list, and the choice there is least.
pub min_index-IsLeast :
    (s : EndpointSelector) (now : ℕ → ℕ) (c : EndpointTuple) (cs : List EndpointTuple)
    → (d : EndpointTuple) × (get_elem? (c ∷ cs) (min_index s now (c ∷ cs)) ≡ some d)
      × IsLeast s now 0 (c ∷ cs) (rank s (now (min_index s now (c ∷ cs))) (d.2))
unfolding min_index
min_index-IsLeast s now c cs =
    let f = min_from-IsLeast s now 1 0 (rank s (now 0) (c.2)) cs in
    let found =
      Found-get_elem? s now 0 (c ∷ cs) _ (f.0) (elim (f.3) [ inl e ↦ inl e | inr g ↦ inr g ]) in
    (
      found.1,
      at_sum (c ∷ cs) _ (found.0) (found.1) (found.2) (found.3),
      subst (IsLeast s now 0 (c ∷ cs)) (found.4) (f.1, f.2),
    )

lease-choice :
    (s t : EndpointSelector) (picked choice : EndpointTuple)
    → lease s picked ≡ some (choice, t)
    → picked ≡ choice
unfolding lease
lease-choice s t picked choice e = elim (Option-cases (get s.inflight (picked.2))) [
  | inl h ↦ absurd (ground (arith, h, e))
  | inr (n, h) ↦ ground (arith, h, e)
]

-- The choice of a selection stands at the index that is picked.
pub select-pick :
    (E : ResolvedEndpoints) (strategy : LoadBalancer) (now : ℕ → ℕ) (s t : EndpointSelector)
    (choice : EndpointTuple)
    → select E strategy now s ≡ some (choice, t)
    → get_elem? (choices E) (pick strategy now (choices E) s).0 ≡ some choice
unfolding select
select-pick E strategy now s t choice e =
    let p = pick strategy now (choices E) s in
    elim (Option-cases (get_elem? (choices E) p.0)) [
      | inl h ↦ absurd (ground (arith, h, e))
      | inr (picked, h) ↦ h ∙ ap some (lease-choice p.1 t picked choice (ground (arith, h, e)))
    ]

min_index-IsLeast_of :
    (s : EndpointSelector) (now : ℕ → ℕ) (cs : List EndpointTuple) (choice : EndpointTuple)
    → get_elem? cs (min_index s now cs) ≡ some choice
    → IsLeast s now 0 cs (rank s (now (min_index s now cs)) (choice.2))
min_index-IsLeast_of s now [] choice e = tt
min_index-IsLeast_of s now (c ∷ cs) choice e =
    let l = min_index-IsLeast s now c cs in
    subst
      (λ (d : EndpointTuple).
        IsLeast s now 0 (c ∷ cs) (rank s (now (min_index s now (c ∷ cs))) (d.2)))
      (some-injective _ _ (sym (l.1) ∙ e)) (l.2)

pick-index :
    (now : ℕ → ℕ) (cs : List EndpointTuple) (s : EndpointSelector)
    → (pick least_inflight now cs s).0 ≡ min_index s now cs
unfolding pick
pick-index now cs s = refl

-- When a selection under the least-inflight strategy returns a choice, it stands in the list of
-- choices, and no choice ranks below it, as the clock is read for each: one that is set aside ranks
-- above one that is not, and otherwise the one with more requests in flight ranks above the other.
pub select-IsLeast :
    (E : ResolvedEndpoints) (now : ℕ → ℕ) (s t : EndpointSelector) (choice : EndpointTuple)
    → select E least_inflight now s ≡ some (choice, t)
    → (i : ℕ) × (get_elem? (choices E) i ≡ some choice)
      × IsLeast s now 0 (choices E) (rank s (now i) (choice.2))
select-IsLeast E now s t choice e =
    let i = min_index s now (choices E) in
    let found : get_elem? (choices E) i ≡ some choice =
      subst (λ j. get_elem? (choices E) j ≡ some choice) (pick-index now (choices E) s)
        (select-pick E least_inflight now s t choice e) in
    (i, found, min_index-IsLeast_of s now (choices E) choice found)
