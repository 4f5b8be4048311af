-- ===== src/Observables/Head/Stands.antt =====
-- The node of a head of runstate/observables.py, and what its read raises: the steps of the fold.
use runstate.Prelude.{
  ℕ, ◌≤◌, String, ◌≡◌, refl, subst, inl, inr, true, false, Option, none, some, arith, str_eq,
  str_eq_iff, leb, ◌==◌, leb-false, Bool-cases, Option-cases, Result, ◌>>=◌, Result-cases, ok, err,
}
use runstate.Json.{Number, Fields}
use runstate.Channel.{Envelope}
use runstate.Channel.Topics.{topic_match}
use runstate.Vocabulary.Topic
use runstate.Vocabulary.Checks.{BodyError}
use runstate.Vocabulary.Payloads.Lifecycle.{
  commit, stopped, Stopped, Commit, parse_started, parse_commit, parse_rewind, parse_stopped,
}
use runstate.Walk.Node.{
  WalkError, malformed, exited_at, NodeKind, extendable_node, closed_node, torn_node, At, node_at,
  kind, kind_at, verdict_parse, readable,
}
use runstate.Walk.Node.Reference.{check_reference, judge}
use runstate.Claims.{named_claim, names_claim}
use runstate.Observables.Head.{
  Position, by_commit, by_rewind, by_exit, ClaimHead, same_seq?, kind_reader, resume_point, claims,
  move, move_once, hold, claim_at, apply, at_position,
}
use runstate.Observables.Head.Fold.{head_topics, step}

-- A `MalformedRecordError`.
abbrev pub IsMalformed : WalkError → Type 0
IsMalformed (malformed s t d) = Unit
IsMalformed _ = ⊥

module _ {A : Type 0} where
  -- What a call returns has the property, and what it raises is a `MalformedRecordError`.
  abbrev pub Settles : (A → Type 0) → Result WalkError A → Type 0
  Settles P (ok a) = P a
  Settles P (err x) = IsMalformed x

bind-Settles :
    {A B : Type 0} {P : A → Type 0} (Q : B → Type 0) (m : Result WalkError A)
    (f : A → Result WalkError B)
    → Settles P m
    → ((a : A) → P a → Settles Q (f a))
    → Settles Q (m >>= f)
bind-Settles Q (ok a) f p g = g a p
bind-Settles Q (err x) f p g = p

raised :
    {A : Type 0} (P : A → Type 0) (m : Result WalkError A) (x : WalkError)
    → Settles P m
    → m ≡ err x
    → IsMalformed x
raised P m x s h = subst (Settles P) h s

pub other_topic : (t a b : String) → str_eq t a ≡ true → str_eq a b ≡ false → str_eq t b ≡ false
other_topic t a b h n = rw ((str_eq_iff t a).0 h) n

topic-commit :
    (t : String)
    → topic_match t head_topics ≡ true
    → str_eq t Topic.lifecycle_started ≡ false
    → str_eq t Topic.lifecycle_stopped ≡ false
    → str_eq t Topic.lifecycle_rewind ≡ false
    → str_eq t Topic.lifecycle_commit ≡ true
unfolding topic_match
topic-commit t m a b c = ground (arith, m, a, b, c)

module _ {F : Type 0} ⦃num : Number F⦄ where
  verdict-Settles :
      {A : Type 0} (parse : Fields F → Result BodyError A) (e : Envelope F)
      → Settles (λ a. verdict_parse parse e ≡ ok a) (verdict_parse parse e)
  unfolding verdict_parse
  verdict-Settles parse e = elim (Result-cases (parse e.body)) [
    | inl (b, p) ↦ rw p refl
    | inr (x, p) ↦ rw p tt
  ]

  -- The record is a node's.
  abbrev pub IsNode : Option (Envelope F) → Type 0
  IsNode o = (k : NodeKind) × (kind_at o ≡ ok (some k))

  kind_at-Settles : (o : Option (Envelope F)) → Settles (λ k. kind_at o ≡ ok k) (kind_at o)
  unfolding kind_at node_at verdict_parse
  kind_at-Settles none = refl
  kind_at-Settles (some e) = elim (Bool-cases (str_eq e.topic Topic.lifecycle_commit)) [
    | inl t ↦ elim (Result-cases (parse_commit e.body)) [
      | inl (b, p) ↦ rw (t, p) refl
      | inr (x, p) ↦ rw (t, p) tt
    ]
    | inr f ↦ elim (Bool-cases (str_eq e.topic Topic.lifecycle_stopped)) [
      | inl t ↦ elim (Result-cases (parse_stopped e.body)) [
        | inl (b, p) ↦ rw (f, t, p) refl
        | inr (x, p) ↦ rw (f, t, p) tt
      ]
      | inr g ↦ rw (f, g) refl
    ]
  ]

  commit-IsNode :
      (e : Envelope F) (b : Commit F)
      → str_eq e.topic Topic.lifecycle_commit ≡ true
      → verdict_parse parse_commit e ≡ ok b
      → IsNode (some e)
  unfolding kind_at node_at
  commit-IsNode e b t h = (kind (commit b), rw (t, h) refl)

  exit-IsNode :
      (e : Envelope F) (s : Stopped F)
      → str_eq e.topic Topic.lifecycle_stopped ≡ true
      → readable parse_stopped e ≡ some s
      → IsNode (some e)
  unfolding kind_at node_at readable
  exit-IsNode e s t h =
      let other = other_topic e.topic Topic.lifecycle_stopped Topic.lifecycle_commit t refl in
      elim (Result-cases (verdict_parse parse_stopped e)) [
        | inl (b, p) ↦ (kind (stopped b), rw (other, t, p) refl)
        | inr (x, p) ↦ absurd (ground (arith, h, p))
      ]

  module _ (read : ℕ → Option (Envelope F)) (w : ℕ) where
    abbrev pub OnNode : Option ℕ → Type 0
    OnNode none = Unit
    OnNode (some n) = (n ≤ w) × IsNode (read n)

    abbrev pub ExitOn : Option (At F) → Type 0
    ExitOn none = Unit
    ExitOn (some at) = OnNode (some at.env.seq)

    abbrev pub Raised : Option WalkError → Type 0
    Raised none = Unit
    Raised (some x) = IsMalformed x

    pub record Stands (h : ClaimHead F) : Type 0 where
      pub position : OnNode h.position
      pub exit : ExitOn h.exit
      pub error : Raised h.error

    resume_point-Settles :
        (e : Envelope F) (r : Option ℕ)
        → e.seq ≤ w
        → Settles OnNode (resume_point e r (kind_reader kind_at read))
    unfolding resume_point check_reference judge
    resume_point-Settles e none le = tt
    resume_point-Settles e (some r) le = elim (Bool-cases (leb e.seq r)) [
      | inl late ↦ rw late tt
      | inr early ↦ elim (Result-cases (kind_at (read r))) [
        | inr (x, k) ↦ rw (early, k) (raised _ (kind_at (read r)) x (kind_at-Settles (read r)) k)
        | inl (none, k) ↦ rw (early, k) tt
        | inl (some extendable_node, k) ↦
            rw (early, k) (omega (arith, leb-false e.seq r early), (extendable_node, k))
        | inl (some closed_node, k) ↦ rw (early, k) tt
        | inl (some torn_node, k) ↦ rw (early, k) tt
      ]
    ]

    -- A position that a record of the claim's gives the head.
    abbrev Moves : Envelope F → Option (Position F) → Type 0
    Moves e none = Unit
    Moves e (some (by_rewind r)) = Unit
    Moves e (some p) = IsNode (some e)

    claims-Settles :
        (e : Envelope F) (c : ℕ)
        → topic_match e.topic head_topics ≡ true
        → str_eq e.topic Topic.lifecycle_started ≡ false
        → Settles (Moves e) (claims e c)
    unfolding claims
    claims-Settles e c t s = elim (Bool-cases (str_eq e.topic Topic.lifecycle_stopped)) [
      | inl stop ↦ elim (Option-cases (readable parse_stopped e)) [
        | inl bad ↦ rw (stop, bad) tt
        | inr (x, r) ↦ elim (Bool-cases (x.claim_seq == c)) [
          | inl own ↦ rw (stop, r, own) (exit-IsNode e x stop r)
          | inr other ↦ rw (stop, r, other) tt
        ]
      ]
      | inr go ↦ elim (Bool-cases (names_claim (named_claim e) c)) [
        | inr other ↦ rw (go, other) tt
        | inl own ↦ elim (Bool-cases (str_eq e.topic Topic.lifecycle_rewind)) [
          | inl back ↦
              rw (go, own, back)
                (bind-Settles (Moves e) (verdict_parse parse_rewind e)
                  (λ r. ok (some (by_rewind r))) (verdict-Settles parse_rewind e) (λ r h. tt))
          | inr forth ↦
              let is_commit : str_eq e.topic Topic.lifecycle_commit ≡ true =
                topic-commit e.topic t s go forth in
              rw (go, own, forth)
                (bind-Settles (Moves e) (verdict_parse parse_commit e)
                  (λ b. ok (some (by_commit b))) (verdict-Settles parse_commit e)
                  (λ b h. commit-IsNode e b is_commit h))
        ]
      ]
    ]

    unless-Stands :
        (o : Option (At F)) (e : Envelope F) (m : Result WalkError (ClaimHead F))
        → Settles Stands m
        → Settles Stands
            (elim o [ some at ↦ err (malformed e.seq e.topic (exited_at at.env.seq)) | none ↦ m ])
    unless-Stands none e m s = s
    unless-Stands (some at) e m s = tt

    position-Stands :
        (h : ClaimHead F) (e : Envelope F) (parent : Option ℕ) (next : ClaimHead F)
        → Stands next
        → Settles Stands (at_position h e parent next)
    position-Stands h e parent next s = elim (Bool-cases (same_seq? parent h.position)) [
      | inl t ↦ rw t s
      | inr f ↦ rw f tt
    ]

    claim-Stands :
        (e : Envelope F) (m : Result WalkError (Option ℕ))
        → Settles OnNode m
        → Stands (claim_at e m)
    claim-Stands e (ok p) s = record { position = s; exit = tt; error = tt }
    claim-Stands e (err x) s = record { position = tt; exit = tt; error = s }

    hold-Stands :
        (h : ClaimHead F) (m : Result WalkError (ClaimHead F))
        → Stands h
        → Settles Stands m
        → Stands (hold h m)
    hold-Stands h (ok h') s s' = s'
    hold-Stands h (err x) s s' = record { position = s.position; exit = s.exit; error = s' }

    held-Stands :
        (h : ClaimHead F) (c : Option ℕ) (x : Option WalkError)
        (m : ℕ → Result WalkError (ClaimHead F))
        → Stands h
        → ((c : ℕ) → Settles Stands (m c))
        → Stands (elim c [ none ↦ h | some k ↦ elim x [ some y ↦ h | none ↦ hold h (m k) ] ])
    held-Stands h none x m s f = s
    held-Stands h (some k) (some y) m s f = s
    held-Stands h (some k) none m s f = hold-Stands h (m k) s (f k)

    move_once-Settles :
        (h : ClaimHead F) (e : Envelope F) (p : Option (Position F))
        → Stands h
        → e.seq ≤ w
        → read e.seq ≡ some e
        → Moves e p
        → Settles Stands (move_once h e read p)
    unfolding move
    move_once-Settles h e none s le at m = s
    move_once-Settles h e (some (by_commit b)) s le at m = unless-Stands h.exit e _ (
        position-Stands h e b.parent (record h { position = some e.seq })
          (record { position = rw at (le, m); exit = s.exit; error = s.error }))
    move_once-Settles h e (some (by_exit x)) s le at m = unless-Stands h.exit e _ (
        position-Stands h e x.parent
          (record h { exit = some (record { env = e; node = stopped x }) })
          (record { position = s.position; exit = rw at (le, m); error = s.error }))
    move_once-Settles h e (some (by_rewind r)) s le at m = unless-Stands h.exit e _ (
        bind-Settles Stands (resume_point e r.resume_from (kind_reader kind_at read))
          (λ p. ok (record h { position = p })) (resume_point-Settles e r.resume_from le)
          (λ p on. record { position = on; exit = s.exit; error = s.error }))

    pub step-Stands :
        (h : ClaimHead F) (e : Envelope F)
        → Stands h
        → e.seq ≤ w
        → read e.seq ≡ some e
        → topic_match e.topic head_topics ≡ true
        → Stands (step read h e)
    unfolding apply
    step-Stands h e s le at t = elim (Bool-cases (str_eq e.topic Topic.lifecycle_started)) [
      | inl new ↦ rw new (
          claim-Stands e _ (
            bind-Settles OnNode (verdict_parse parse_started e)
              (λ x. resume_point e x.resume_from (kind_reader kind_at read))
              (verdict-Settles parse_started e) (λ x p. resume_point-Settles e x.resume_from le)))
      | inr old ↦ rw old (
          held-Stands h h.claim h.error (λ c. claims e c >>= λ p. move_once h e read p) s
            (λ c.
              bind-Settles Stands (claims e c) (λ p. move_once h e read p)
                (claims-Settles e c t old) (λ p m. move_once-Settles h e p s le at m)))
    ]
