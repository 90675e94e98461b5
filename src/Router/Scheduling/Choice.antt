-- ===== src/Router/Scheduling/Choice.antt =====
-- What `Assign` of unica/router/internal/scheduling/distributor.go chooses.
use lurus_unica.Common.{
  String, Bool, true, false, ◌&&◌, some, List, [], ◌∷◌, if◌then◌else◌, ℤ, ltb_ℤ, leb_ℤ, arith, ◌≡◌,
  refl, sym, subst, ap, ◌⊎◌, inl, inr, Bool-cases,
}
use lurus_unica.Common.Maps.{member}
use lurus_unica.Router.Scheduling.{
  Agent, AgentWithLoad, Pool, Faults, get_load, agents_of, is_available, available_of,
  get_available_agents, lightest, assign_among, given, assign,
}

module _ {A : Type 0} where
  abbrev pub In : A → List A → Type 0
  In x [] = ⊥
  In x (y ∷ ys) = (x ≡ y) ⊎ In x ys

-- No entry of the list is less loaded than `m`.
abbrev pub NoneBelow : ℤ → List AgentWithLoad → Type 0
NoneBelow m [] = Unit
NoneBelow m (a ∷ more) = (ltb_ℤ a.current_load m ≡ false) × NoneBelow m more

lighter : (x y m : ℤ) → ltb_ℤ x y ≡ true → ltb_ℤ x m ≡ false → ltb_ℤ y m ≡ false
lighter x y m h k = ground arith

not_lighter : (x y m : ℤ) → ltb_ℤ x y ≡ false → ltb_ℤ y m ≡ false → ltb_ℤ x m ≡ false
not_lighter x y m h k = ground arith

-- The choice is one of the list, and none of the list is less loaded.
pub lightest_lem :
    (b : AgentWithLoad) (l : List AgentWithLoad)
    → In (lightest b l) (b ∷ l) × NoneBelow (lightest b l).current_load (b ∷ l)
unfolding lightest
lightest_lem b [] = (inl refl, (ground arith, tt))
lightest_lem b (a ∷ l) = elim (Bool-cases (ltb_ℤ a.current_load b.current_load)) [
  | inl t ↦
      let (i, (m, n)) = lightest_lem a l in
      chosen (sym (ap (λ (z : Bool). lightest (if z then a else b) l) t))
        (inr i, (lighter a.current_load b.current_load (lightest a l).current_load t m, (m, n)))
  | inr f ↦
      let (i, (m, n)) = lightest_lem b l in
      chosen (sym (ap (λ (z : Bool). lightest (if z then a else b) l) f)) (
        skip i,
        (m, (not_lighter a.current_load b.current_load (lightest b l).current_load f m, n)),
      )
]
  where
    chosen :
        {c d : AgentWithLoad}
        → c ≡ d
        → In c (b ∷ a ∷ l) × NoneBelow c.current_load (b ∷ a ∷ l)
        → In d (b ∷ a ∷ l) × NoneBelow d.current_load (b ∷ a ∷ l)
    chosen p h = subst (λ x. In x (b ∷ a ∷ l) × NoneBelow x.current_load (b ∷ a ∷ l)) p h

    skip : {x : AgentWithLoad} → In x (b ∷ l) → In x (b ∷ a ∷ l)
    skip (inl p) = inl p
    skip (inr i) = inr (inr i)

module _ (f : Faults) (line : String) (p : Pool) where
  -- The agent serves the product line, is seen online, and has capacity.
  unfoldable pub serves : Agent → Bool
  serves a = member line a.product_line_ids && is_available f p a

  -- No agent that serves has a load below `m`.
  abbrev pub NoneLighter : ℤ → List Agent → Type 0
  NoneLighter m [] = Unit
  NoneLighter m (a ∷ more) = ((serves a && ltb_ℤ (get_load a.id p) m) ≡ false) × NoneLighter m more

  unfoldable pub candidates : List Agent → List AgentWithLoad
  candidates l = available_of f p (agents_of line l)

  abbrev pub entry : Agent → AgentWithLoad
  entry a = record { agent = a; current_load = get_load a.id p }

  candidates-cons :
      (a : Agent) (more : List Agent)
      → candidates (a ∷ more) ≡ (if serves a then entry a ∷ candidates more else candidates more)
  unfolding candidates agents_of available_of serves
  candidates-cons a more = by_line (member line a.product_line_ids)
    where
      by_line :
          (b : Bool)
          → available_of f p (if b then a ∷ agents_of line more else agents_of line more) ≡ (
              if b && is_available f p a
              then entry a ∷ available_of f p (agents_of line more)
              else available_of f p (agents_of line more))
      by_line true = refl
      by_line false = refl

  -- A candidate is an agent of the list that serves, with its load.
  abbrev pub IsCandidate : List Agent → AgentWithLoad → Type 0
  IsCandidate l x =
      In x.agent l × ((serves x.agent ≡ true) × (x.current_load ≡ get_load x.agent.id p))

  IsCandidate-step :
      (a : Agent) (more : List Agent) (x : AgentWithLoad) (b : Bool)
      → serves a ≡ b
      → (In x (candidates more) → IsCandidate more x)
      → In x (if b then entry a ∷ candidates more else candidates more)
      → IsCandidate (a ∷ more) x
  IsCandidate-step a more x false h rest j = let (k, r) = rest j in (inr k, r)
  IsCandidate-step a more x true h rest (inr j) = let (k, r) = rest j in (inr k, r)
  IsCandidate-step a more x true h rest (inl q) =
      subst (IsCandidate (a ∷ more)) (sym q) (inl refl, (h, refl))

  pub candidate_lem : (l : List Agent) (x : AgentWithLoad) → In x (candidates l) → IsCandidate l x
  unfolding candidates agents_of available_of
  candidate_lem [] x i = elim i [ ]
  candidate_lem (a ∷ more) x i =
      IsCandidate-step a more x (serves a) refl (candidate_lem more x)
        (subst (In x) (candidates-cons a more) i)

  NoneLighter-cons :
      (m : ℤ) (a : Agent) (more : List Agent) (b : Bool)
      → serves a ≡ b
      → (NoneBelow m (candidates more) → NoneLighter m more)
      → NoneBelow m (if b then entry a ∷ candidates more else candidates more)
      → NoneLighter m (a ∷ more)
  NoneLighter-cons m a more false s rest n = (ground arith, rest n)
  NoneLighter-cons m a more true s rest (q, n) = (ground arith, rest n)

  NoneBelow-NoneLighter : (m : ℤ) (l : List Agent) → NoneBelow m (candidates l) → NoneLighter m l
  unfolding candidates agents_of available_of
  NoneBelow-NoneLighter m [] h = tt
  NoneBelow-NoneLighter m (a ∷ more) h =
      NoneLighter-cons m a more (serves a) refl (NoneBelow-NoneLighter m more)
        (subst (NoneBelow m) (candidates-cons a more) h)

  -- The agent that the conversation goes to, for a list of candidates.
  given_among :
      (conversation id name : String) (chatwoot : ℤ) (l : List AgentWithLoad)
      → (assign_among f conversation l p).1 ≡ some (given id name chatwoot)
      → (x : AgentWithLoad) × ((x.agent.id ≡ id) × (In x l × NoneBelow x.current_load l))
  unfolding assign_among
  given_among conversation id name chatwoot [] h = ground arith
  given_among conversation id name chatwoot (a ∷ more) h =
      (lightest a more, (ground arith, lightest_lem a more))

  pub has_capacity :
      (a : Agent) → serves a ≡ true → leb_ℤ a.max_concurrent (get_load a.id p) ≡ false
  unfolding serves is_available
  has_capacity a h = ground arith

  -- If a conversation is given to an agent, then the agent is one of the table, serves the product
  -- line, is online with a load below its limit, and no agent of whom this holds has a smaller load.
  pub assign-Lightest :
      (conversation id name : String) (chatwoot : ℤ)
      → (assign f conversation line p).1 ≡ some (given id name chatwoot)
      → (a : Agent) × ((a.id ≡ id)
          × (In a p.agents
              × ((serves a ≡ true)
                  × ((leb_ℤ a.max_concurrent (get_load a.id p) ≡ false)
                      × NoneLighter (get_load a.id p) p.agents))))
  unfolding assign get_available_agents candidates
  assign-Lightest conversation id name chatwoot h =
      let found : (assign_among f conversation (candidates p.agents) p).1
          ≡ some (given id name chatwoot) =
        ground arith in
      let (x, (e, (i, n))) =
        given_among conversation id name chatwoot (candidates p.agents) found in
      let (j, (s, q)) = candidate_lem p.agents x i in
      (
        x.agent,
        (
          e,
          (
            j,
            (
              s,
              (
                has_capacity x.agent s,
                NoneBelow-NoneLighter (get_load x.agent.id p) p.agents
                    (subst (λ m. NoneBelow m (candidates p.agents)) q n),
              ),
            ),
          ),
        ),
      )
