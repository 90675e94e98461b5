-- ===== src/Router/Scheduling/Tests.antt =====
-- Two agents of a product line, and the theorems on their loads.
use lurus_unica.Common.{
  true, false, none, some, [], ◌∷◌, str_eq, eq_iff, if◌then◌else◌, pos, leb_ℤ, ◌≡◌, refl, inl, inr,
  arith, ap, ◌∙◌, sym,
}
use lurus_unica.Common.Maps.{put}
use lurus_unica.Router.Scheduling.{Agent, Pool, Faults, get_load, is_online, given, assign}
use lurus_unica.Router.Scheduling.Choice.{In, serves, NoneLighter, assign-Lightest}
use lurus_unica.Router.Scheduling.Capacity.{HasKeys, IsWithin, assign-IsWithin}

abbrev ann : Agent
ann = record {
  id = "ann";
  name = "Ann";
  email = "ann@example.com";
  chatwoot_agent_id = some (pos 7);
  max_concurrent = pos 3;
  product_line_ids = "fruit" ∷ [];
}

abbrev bob : Agent
bob = record ann { id = "bob"; name = "Bob"; chatwoot_agent_id = none; max_concurrent = pos 2 }

abbrev floor : Pool
floor = record {
  agents = ann ∷ bob ∷ [];
  online = λ _. some "online";
  loads = λ k. if str_eq k "ann" then some (pos 2) else none;
  assigned = λ _. none;
}

abbrev calm : Faults
calm = record {
  query = false;
  status = λ _. false;
  load = λ _. false;
  increment = false;
  update = false;
}

bob_has_less : (assign calm "c1" "fruit" floor).1 ≡ some (given "bob" "Bob" (pos 0))
unfolding assign get_load is_online put
bob_has_less = refl

assign-Lightest_example :
    (a : Agent) × ((a.id ≡ "bob")
      × (In a floor.agents
          × ((serves calm "fruit" floor a ≡ true)
              × ((leb_ℤ a.max_concurrent (get_load a.id floor) ≡ false)
                  × NoneLighter calm "fruit" floor (get_load a.id floor) floor.agents))))
assign-Lightest_example = assign-Lightest calm "fruit" floor "c1" "bob" "Bob" (pos 0) bob_has_less

floor_keys : HasKeys floor
floor_keys a b (inl p) (inl q) e = ap (λ (z : Agent). z.max_concurrent) (p ∙ sym q)
floor_keys a b (inr (inl p)) (inr (inl q)) e = ap (λ (z : Agent). z.max_concurrent) (p ∙ sym q)
floor_keys a b (inl p) (inr (inl q)) e = ground (
  arith,
  (eq_iff "ann" "bob").1 (sym (ap (λ (z : Agent). z.id) p) ∙ e ∙ ap (λ (z : Agent). z.id) q),
)
floor_keys a b (inr (inl p)) (inl q) e = ground (
  arith,
  (eq_iff "bob" "ann").1 (sym (ap (λ (z : Agent). z.id) p) ∙ e ∙ ap (λ (z : Agent). z.id) q),
)
floor_keys a b (inr (inr n)) i e = elim n [ ]
floor_keys a b (inl p) (inr (inr n)) e = elim n [ ]
floor_keys a b (inr (inl p)) (inr (inr n)) e = elim n [ ]

floor-IsWithin : IsWithin floor
unfolding get_load
floor-IsWithin a (inl p) =
    ground (arith, ap (λ (z : Agent). z.id) p, ap (λ (z : Agent). z.max_concurrent) p)
floor-IsWithin a (inr (inl p)) =
    ground (arith, ap (λ (z : Agent). z.id) p, ap (λ (z : Agent). z.max_concurrent) p)
floor-IsWithin a (inr (inr n)) = elim n [ ]

assign-IsWithin_example : IsWithin (assign calm "c1" "fruit" floor).0
assign-IsWithin_example = assign-IsWithin calm "c1" "fruit" floor floor_keys floor-IsWithin
