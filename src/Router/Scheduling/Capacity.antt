-- ===== src/Router/Scheduling/Capacity.antt =====
-- The loads of agents and their limits (unica/router/internal/scheduling).
use lurus_unica.Common.{
  String, Bool, true, false, Option, none, some, List, [], ◌∷◌, str_eq, eq_iff, if◌then◌else◌, ℤ,
  pos, negsuc, ltb_ℤ, leb_ℤ, ◌+ℤ◌, ◌-ℤ◌, arith, ◌≡◌, refl, sym, subst, ◌∙◌, ap, ◌⊎◌, inl, inr,
  Bool-cases,
}
use lurus_unica.Common.Maps.{put, put_self}
use lurus_unica.Router.Scheduling.{
  Agent, AgentWithLoad, Pool, Faults, get_load, increment_load, decrement_load, lightest,
  get_available_agents, assign_among, assign,
}
use lurus_unica.Router.Scheduling.Choice.{In, candidates, candidate_lem, lightest_lem, has_capacity}

-- A limit belongs to an id, since ids are the table's primary key.
abbrev pub HasKeys : Pool → Type 0
HasKeys p =
    (a b : Agent)
    → In a p.agents
    → In b p.agents
    → a.id ≡ b.id
    → a.max_concurrent ≡ b.max_concurrent

-- Every load is at least 0 and at most its agent's limit.
abbrev pub IsWithin : Pool → Type 0
IsWithin p =
    (a : Agent)
    → In a p.agents
    → (leb_ℤ (pos 0) (get_load a.id p) ≡ true) × (leb_ℤ (get_load a.id p) a.max_concurrent ≡ true)

-- The pool is as it was but for one load, which is `v`.
abbrev Sets : Pool → String → ℤ → Pool → Type 0
Sets p id v q = (q.agents ≡ p.agents) × (q.loads ≡ put p.loads id (some v))

loaded_self :
    (p q : Pool) (id : String) (v : ℤ) → q.loads ≡ put p.loads id (some v) → get_load id q ≡ v
unfolding get_load
loaded_self p q id v h =
    ap (λ (m : String → Option ℤ). elim (m id) [ none ↦ pos 0 | some n ↦ n ]) h
    ∙ ap (λ (o : Option ℤ). elim o [ none ↦ pos 0 | some n ↦ n ]) (put_self p.loads id (some v))

loaded_other :
    (p q : Pool) (id j : String) (v : ℤ)
    → q.loads ≡ put p.loads id (some v)
    → str_eq j id ≡ false
    → get_load j q ≡ get_load j p
unfolding get_load put
loaded_other p q id j v h n =
    ap (λ (m : String → Option ℤ). elim (m j) [ none ↦ pos 0 | some n ↦ n ]) h
    ∙ ap (λ (b : Bool). elim (if b then some v else p.loads j) [ none ↦ pos 0 | some n ↦ n ]) n

-- A load that is set to a value within the limits of the agents of this id.
Sets-IsWithin :
    (p q : Pool) (id : String) (v : ℤ)
    → Sets p id v q
    → IsWithin p
    → ((a : Agent)
        → In a p.agents
        → a.id ≡ id
        → (leb_ℤ (pos 0) v ≡ true) × (leb_ℤ v a.max_concurrent ≡ true))
    → IsWithin q
Sets-IsWithin p q id v (s, l) w fits a i =
    let j = subst (In a) s i in
    elim (Bool-cases (str_eq a.id id)) [
      | inl t ↦
          let e : a.id ≡ id = (eq_iff a.id id).0 t in
          subst (λ n. (leb_ℤ (pos 0) n ≡ true) × (leb_ℤ n a.max_concurrent ≡ true))
            (sym (ap (λ z. get_load z q) e ∙ loaded_self p q id v l)) (fits a j e)
      | inr f ↦
          subst (λ n. (leb_ℤ (pos 0) n ≡ true) × (leb_ℤ n a.max_concurrent ≡ true))
            (sym (loaded_other p q id a.id v l f)) (w a j)
    ]

unchanged-IsWithin :
    (p q : Pool) → q.agents ≡ p.agents → q.loads ≡ p.loads → IsWithin p → IsWithin q
unfolding get_load
unchanged-IsWithin p q s l w a i =
    subst
      (λ (m : String → Option ℤ).
        (leb_ℤ (pos 0) (elim (m a.id) [ none ↦ pos 0 | some n ↦ n ]) ≡ true)
        × (leb_ℤ (elim (m a.id) [ none ↦ pos 0 | some n ↦ n ]) a.max_concurrent ≡ true))
      (sym l) (w a (subst (In a) s i))

-- What an assignment does to the loads.
assign_among-loads :
    (f : Faults) (conversation : String) (l : List AgentWithLoad) (p : Pool)
    → ((assign_among f conversation l p).0.agents ≡ p.agents)
      × (((assign_among f conversation l p).0.loads ≡ p.loads)
          ⊎ ((x : AgentWithLoad) × (In x l
                × ((assign_among f conversation l p).0.loads
                    ≡ put p.loads x.agent.id (some (get_load x.agent.id p +ℤ pos 1))))))
unfolding assign_among increment_load
assign_among-loads f conversation [] p = (refl, inl refl)
assign_among-loads f conversation (a ∷ more) p = elim (Bool-cases f.increment) [
  | inl t ↦ (ground arith, inl (ground arith))
  | inr n ↦ (ground arith, inr (lightest a more, ((lightest_lem a more).0, ground arith)))
]

one_more :
    (n m : ℤ)
    → leb_ℤ (pos 0) n ≡ true
    → leb_ℤ m n ≡ false
    → (leb_ℤ (pos 0) (n +ℤ pos 1) ≡ true) × (leb_ℤ (n +ℤ pos 1) m ≡ true)
unfolding ◌+ℤ◌
one_more n m h k = ground arith

among-IsWithin :
    (f : Faults) (conversation line : String) (p : Pool)
    → HasKeys p
    → IsWithin p
    → IsWithin (assign_among f conversation (candidates f line p p.agents) p).0
among-IsWithin f conversation line p keys w =
    let l = candidates f line p p.agents in
    let (s, c) = assign_among-loads f conversation l p in
    let q = (assign_among f conversation l p).0 in
    elim c [
      | inl e ↦ unchanged-IsWithin p q s e w
      | inr (x, (i, e)) ↦
          let (j, (t, r)) = candidate_lem f line p p.agents x i in
          Sets-IsWithin p q x.agent.id (get_load x.agent.id p +ℤ pos 1) (s, e) w
            (λ a k d.
              subst
                (λ m.
                  (leb_ℤ (pos 0) (get_load x.agent.id p +ℤ pos 1) ≡ true)
                  × (leb_ℤ (get_load x.agent.id p +ℤ pos 1) m ≡ true))
                (keys x.agent a j k (sym d))
                (one_more (get_load x.agent.id p) x.agent.max_concurrent (w x.agent j).0
                  (has_capacity f line p x.agent t)))
    ]

-- An assignment keeps every load between zero and its agent's limit, whatever fails, if an id has one
-- limit in the table.
pub assign-IsWithin :
    (f : Faults) (conversation line : String) (p : Pool)
    → HasKeys p
    → IsWithin p
    → IsWithin (assign f conversation line p).0
unfolding assign get_available_agents candidates
assign-IsWithin f conversation line p keys w = elim (Bool-cases f.query) [
  | inl t ↦ subst IsWithin (failed t) w
  | inr n ↦ subst IsWithin (searched n) (among-IsWithin f conversation line p keys w)
]
  where
    failed : f.query ≡ true → p ≡ (assign f conversation line p).0
    failed t = ground arith

    searched :
        f.query ≡ false
        → (assign_among f conversation (candidates f line p p.agents) p).0
          ≡ (assign f conversation line p).0
    searched n = ground arith

one_less :
    (n m : ℤ)
    → leb_ℤ (pos 0) n ≡ true
    → leb_ℤ n m ≡ true
    → ltb_ℤ (n -ℤ pos 1) (pos 0) ≡ false
    → (leb_ℤ (pos 0) (n -ℤ pos 1) ≡ true) × (leb_ℤ (n -ℤ pos 1) m ≡ true)
unfolding ◌-ℤ◌
one_less n m h k b = ground arith

none_left :
    (n m : ℤ)
    → leb_ℤ (pos 0) n ≡ true
    → leb_ℤ n m ≡ true
    → (leb_ℤ (pos 0) (pos 0) ≡ true) × (leb_ℤ (pos 0) m ≡ true)
none_left n m h k = ground arith

decrement_value :
    (id : String) (p : Pool)
    → (decrement_load id p).1
      ≡ (if ltb_ℤ (get_load id p -ℤ pos 1) (pos 0) then pos 0 else get_load id p -ℤ pos 1)
unfolding decrement_load
decrement_value id p = ground arith

less_one_more :
    (m n : ℤ)
    → leb_ℤ (pos 0) n ≡ true
    → m ≡ n +ℤ pos 1
    → (if ltb_ℤ (m -ℤ pos 1) (pos 0) then pos 0 else m -ℤ pos 1) ≡ n
unfolding ◌+ℤ◌ ◌-ℤ◌
less_one_more m (pos k) h e = ground arith
less_one_more m (negsuc k) h e = ground arith

-- The end of a conversation keeps every load between zero and its agent's limit, and after the
-- assignment to an agent whose load is not negative it gives back that load.
pub decrement_load-IsWithin :
    (id : String) (p : Pool)
    → IsWithin p
    → leb_ℤ (pos 0) (get_load id p) ≡ true
    → IsWithin (decrement_load id p).0
      × ((decrement_load id (increment_load id p).0).1 ≡ get_load id p)
unfolding decrement_load increment_load
decrement_load-IsWithin id p w h = (
  elim (Bool-cases (ltb_ℤ (get_load id p -ℤ pos 1) (pos 0))) [
    | inl t ↦
        Sets-IsWithin p (decrement_load id p).0 id (pos 0) (ground arith, ground arith) w
          (λ a k e. none_left (get_load id p) a.max_concurrent (at a k e).0 (at a k e).1)
    | inr n ↦
        Sets-IsWithin p (decrement_load id p).0 id (get_load id p -ℤ pos 1)
          (ground arith, ground arith) w
          (λ a k e. one_less (get_load id p) a.max_concurrent (at a k e).0 (at a k e).1 n)
  ],
  back,
)
  where
    at :
        (a : Agent)
        → In a p.agents
        → a.id ≡ id
        → (leb_ℤ (pos 0) (get_load id p) ≡ true) × (leb_ℤ (get_load id p) a.max_concurrent ≡ true)
    at a k e =
        subst
          (λ j.
            (leb_ℤ (pos 0) (get_load j p) ≡ true) × (leb_ℤ (get_load j p) a.max_concurrent ≡ true))
          e (w a k)

    back : (decrement_load id (increment_load id p).0).1 ≡ get_load id p
    back =
        let q = (increment_load id p).0 in
        let s : get_load id q ≡ get_load id p +ℤ pos 1 =
          loaded_self p q id (get_load id p +ℤ pos 1) refl in
        decrement_value id q ∙ less_one_more (get_load id q) (get_load id p) h s
