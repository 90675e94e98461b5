-- ===== src/Gateway/Stream/Delivery.antt =====
-- What becomes of an outbound entry (unica/gateway/internal/stream/consumer.go).
use lurus_unica.Common.{
  String, Bool, true, false, not, ◌&&◌, ◌||◌, Option, none, some, List, [], ◌∷◌, str_eq, eq_iff,
  arith, ◌≡◌, sym, subst, ◌∙◌, ap, ◌⊎◌, inl, inr, Bool-cases, Option-cases,
}
use lurus_unica.Common.Maps.{member}
use lurus_unica.Common.Search.{is_some}
use lurus_unica.Gateway.Stream.{
  Entry, Group, Env, remove, ack, dispatch_from, max_attempts, decoded, process_message,
  process_all,
}

-- An entry with this id is pending.
unfoldable pub is_pending : String → List Entry → Bool
is_pending id [] = false
is_pending id (e ∷ es) = str_eq e.id id || is_pending id es

is_pending-remove :
    (id j : String) (es : List Entry)
    → is_pending j (remove id es) ≡ (not (str_eq j id) && is_pending j es)
unfolding is_pending remove
is_pending-remove id j [] = ground arith
is_pending-remove id j (e ∷ es) =
    ground (arith, is_pending-remove id j es, eq_iff e.id id, eq_iff e.id j, eq_iff j id)

module _ {Message : Type 0} (decode : String → Option Message) where
  -- A decodable entry is pending or was sent.
  abbrev pub IsSafe : Entry → Group → Type 0
  IsSafe e g = (is_pending e.id g.pending ≡ true) ⊎ (member e.id g.sent ≡ true)

  -- No two different payloads have one id.
  abbrev pub AgreesOn : Entry → List Entry → Type 0
  AgreesOn e [] = Unit
  AgreesOn e (x ∷ xs) = (x.id ≡ e.id → x.payload ≡ e.payload) × AgreesOn e xs

  ack-pending :
      (v : Env) (id j : String) (g : Group)
      → str_eq j id ≡ false
      → is_pending j (ack v id g).pending ≡ is_pending j g.pending
  unfolding ack
  ack-pending v id j g n = ground (arith, is_pending-remove id j g.pending)

  ack-sent : (v : Env) (id : String) (g : Group) → (ack v id g).sent ≡ g.sent
  unfolding ack
  ack-sent v id g = ground arith

  decoded_same : (x e : Entry) → x.payload ≡ e.payload → decoded decode x ≡ decoded decode e
  unfolding decoded
  decoded_same x e p = ap (λ (o : Option String). elim o [ none ↦ none | some t ↦ decode t ]) p

  -- What becomes of the entry that is processed.
  process_cases :
      (v : Env) (x : Entry) (g : Group)
      → ((decoded decode x ≡ none) × (process_message decode v x g ≡ ack v x.id g))
        ⊎ ((process_message decode v x g ≡ ack v x.id (record g { sent = x.id ∷ g.sent }))
            ⊎ (process_message decode v x g ≡ g))
  unfolding process_message
  process_cases v x g = elim (Option-cases (decoded decode x)) [
    | inl n ↦ inl (n, ground arith)
    | inr (m, s) ↦ elim (Bool-cases (dispatch_from v max_attempts 0)) [
      | inl t ↦ inr (inl (ground arith))
      | inr f ↦ inr (inr (ground arith))
    ]
  ]

  IsSafe-other :
      (v : Env) (id : String) (e : Entry) (g : Group)
      → str_eq e.id id ≡ false
      → IsSafe e g
      → IsSafe e (ack v id g)
  IsSafe-other v id e g n s = ground (arith, ack-pending v id e.id g n, ack-sent v id g)

  process-IsSafe :
      (v : Env) (x e : Entry) (g : Group)
      → (x.id ≡ e.id → x.payload ≡ e.payload)
      → is_some (decoded decode e) ≡ true
      → IsSafe e g
      → IsSafe e (process_message decode v x g)
  unfolding member is_some
  process-IsSafe v x e g same d s = elim (Bool-cases (str_eq e.id x.id)) [
    | inl t ↦
        let q : e.id ≡ x.id = (eq_iff e.id x.id).0 t in
        elim (process_cases v x g) [
          | inl (n, p) ↦ ground (arith, decoded_same x e (same (sym q)))
          | inr (inl p) ↦ inr (
              ap (λ (z : Group). member e.id z.sent) p
              ∙ ap (member e.id) (ack-sent v x.id (record g { sent = x.id ∷ g.sent }))
              ∙ ap (λ b. b || member e.id g.sent) t)
          | inr (inr p) ↦ subst (IsSafe e) (sym p) s
        ]
    | inr n ↦ elim (process_cases v x g) [
      | inl (m, p) ↦ subst (IsSafe e) (sym p) (IsSafe-other v x.id e g n s)
      | inr (inl p) ↦
          subst (IsSafe e) (sym p)
            (IsSafe-other v x.id e (record g { sent = x.id ∷ g.sent }) n (sent_more x.id e g s))
      | inr (inr p) ↦ subst (IsSafe e) (sym p) s
    ]
  ]
    where
      sent_more :
          (id : String) (e : Entry) (g : Group)
          → IsSafe e g
          → IsSafe e (record g { sent = id ∷ g.sent })
      sent_more id e g (inl p) = inl p
      sent_more id e g (inr q) = inr (ground arith)

  -- No message is lost: an entry that can be decoded, and that is pending or was sent, is so after any
  -- entries were processed, whatever fails, if an entry with its id has its payload.
  pub process_all-IsSafe :
      (env : String → Env) (xs : List Entry) (e : Entry) (g : Group)
      → AgreesOn e xs
      → is_some (decoded decode e) ≡ true
      → IsSafe e g
      → IsSafe e (process_all decode env xs g)
  unfolding process_all
  process_all-IsSafe env [] e g a d s = s
  process_all-IsSafe env (x ∷ xs) e g (h, a) d s =
      process_all-IsSafe env xs e (process_message decode (env x.id) x g) a d
        (process-IsSafe (env x.id) x e g h d s)

  -- Whether an entry is finished with: it cannot be decoded, or one of three attempts succeeds before the
  -- consumer is stopped.
  unfoldable pub is_done : Env → Entry → Bool
  is_done v x = not (is_some (decoded decode x)) || dispatch_from v max_attempts 0

  ack_self :
      (v : Env) (id : String) (g : Group)
      → is_pending id (ack v id g).pending ≡ (is_pending id g.pending && v.ack_fails)
  unfolding ack
  ack_self v id g = ground (arith, is_pending-remove id id g.pending, eq_iff id id)

  -- A processed entry is pending afterwards exactly if it was and it is not done or its acknowledgement
  -- fails. Its id is among the sent ones exactly if it was, or if it can be decoded and is done.
  pub process_message_lem :
      (v : Env) (x : Entry) (g : Group)
      → (is_pending x.id (process_message decode v x g).pending
          ≡ (is_pending x.id g.pending && (not (is_done v x) || v.ack_fails)))
        × (member x.id (process_message decode v x g).sent
            ≡ ((is_some (decoded decode x) && is_done v x) || member x.id g.sent))
  unfolding process_message is_some member is_done
  process_message_lem v x g =
      let h = record g { sent = x.id ∷ g.sent } in
      ground (
        arith,
        eq_iff x.id x.id,
        ack_self v x.id g,
        ack_self v x.id h,
        ack-sent v x.id g,
        ack-sent v x.id h,
      )
