-- ===== src/Observables/Verdict/Loop.antt =====
-- The loop of `claim_verdict` of runstate/observables.py.
use runstate.Prelude.{
  ℕ, ◌≡◌, refl, ap, inl, inr, Bool, true, false, not, ◌&&◌, ◌||◌, Option, none, some, List, [], ◌∷◌,
  ◌++◌, append-nil, arith, str_eq, ◌==◌, if◌then◌else◌, Bool-cases, Option-cases, any, cons_some,
  append-cons_some, collect, Result, ◌>>=◌, Result-cases, ok, err,
}
use mathlib.Core.Path.{fun_ext}
use runstate.Json.{Number}
use runstate.Channel.{Envelope}
use runstate.Vocabulary.Topic
use runstate.Vocabulary.Payloads.Lifecycle.{Stopped, parse_stopped, is_some}
use runstate.Vocabulary.Payloads.Supervisor.{Died, parse_died}
use runstate.Walk.Node.{WalkError, malformed, exited_at, readable}
use runstate.Claims.{named_claim, names_claim}
use runstate.Claims.Named.{stopped-names, died-names}
use runstate.Observables.Verdict.Tiers.{DeathReport}
use runstate.Observables.Verdict.{
  Exit, Read, names_another, unread, take_exit, take_report, read_one, read_all,
}

module _ {F : Type 0} where
  abbrev pub exit_by : ℕ → Envelope F → Option (Stopped F) → Option (Exit F)
  exit_by c e none = none
  exit_by c e (some s) = if s.claim_seq == c then some (record { env = e; stop = s }) else none

  abbrev pub report_by : ℕ → Envelope F → Option (Died F) → Option (DeathReport F)
  report_by c e none = none
  report_by c e (some d) =
      if d.claim_seq == c
      then some (record { seq = e.seq; outcome = d.outcome; evidence = d.evidence; t = d.t })
      else none

  abbrev pub seq_if : Bool → Envelope F → Option ℕ
  seq_if b e = if b then some e.seq else none

  abbrev pub add_all : Read F → List (DeathReport F) → Bool → List ℕ → Read F
  add_all st rs b js = record st {
    reports = st.reports ++ rs;
    ended_unread = st.ended_unread || b;
    malformed = st.malformed ++ js;
  }

  abbrev pub second_exit : Exit F → Exit F → WalkError
  second_exit x y = malformed y.env.seq y.env.topic (exited_at x.env.seq)

  -- The exit of a claim, of which it has at most one.
  abbrev pub settle : Option (Exit F) → List (Exit F) → Result WalkError (Option (Exit F))
  settle o [] = ok o
  settle none (x ∷ []) = ok (some x)
  settle none (x ∷ y ∷ xs) = err (second_exit x y)
  settle (some x) (y ∷ xs) = err (second_exit x y)

  settle-cons : (x : Exit F) (xs : List (Exit F)) → settle none (x ∷ xs) ≡ settle (some x) xs
  settle-cons x [] = refl
  settle-cons x (y ∷ xs) = refl

  abbrev pub with_exit : Read F → Option (Exit F) → Result WalkError (Read F)
  with_exit st o = ok (record st { exit = o })

  junk_lem :
      (c : ℕ) (named : Option ℕ) (st : Read F) (e : Envelope F)
      → (if names_another named c then ok st else ok (unread st e named)) ≡ (
          settle st.exit []
          >>= with_exit (
              add_all st []
                (names_claim named c && true)
                (cons_some (seq_if (not (names_another named c) && true) e) [])))
  junk_lem c named st e = ground (arith, append-nil st.reports, append-nil st.malformed)

  exit_lem :
      (c : ℕ) (st : Read F) (e : Envelope F) (s : Stopped F)
      → (if names_another (some s.claim_seq) c then ok st else take_exit st e s) ≡ (
          settle st.exit (cons_some (exit_by c e (some s)) [])
          >>= with_exit (
              add_all st []
                (names_claim (some s.claim_seq) c && false)
                (cons_some (seq_if (not (names_another (some s.claim_seq) c) && false) e) [])))
  exit_lem c st e s = ground (arith, append-nil st.reports, append-nil st.malformed)

  report_lem :
      (c : ℕ) (st : Read F) (e : Envelope F) (d : Died F)
      → (if names_another (some d.claim_seq) c then ok st else ok (take_report st e d)) ≡ (
          settle st.exit []
          >>= with_exit (
              add_all st
                (cons_some (report_by c e (some d)) [])
                (names_claim (some d.claim_seq) c && false)
                (cons_some (seq_if (not (names_another (some d.claim_seq) c) && false) e) [])))
  report_lem c st e d = ground (arith, append-nil st.reports, append-nil st.malformed)

  settle-then :
      (o x : Option (Exit F)) (xs : List (Exit F))
      → settle o (cons_some x xs) ≡ (settle o (cons_some x []) >>= λ o'. settle o' xs)
  settle-then none none xs = refl
  settle-then none (some x) xs = settle-cons x xs
  settle-then (some y) none xs = refl
  settle-then (some y) (some x) xs = refl

  add_twice :
      (st : Read F) (r : Option (DeathReport F)) (b : Bool) (j : Option ℕ)
      (rs : List (DeathReport F)) (b' : Bool) (js : List ℕ) (o : Option (Exit F))
      → with_exit (add_all (add_all st (cons_some r []) b (cons_some j [])) rs b' js) o
        ≡ with_exit (add_all st (cons_some r rs) (b || b') (cons_some j js)) o
  add_twice st r b j rs b' js o =
      ground (arith, append-cons_some st.reports r rs, append-cons_some st.malformed j js)

module _ {F : Type 0} ⦃num : Number F⦄ where
  -- The exit of the claim `c` that a record is.
  abbrev pub exit_at : ℕ → Envelope F → Option (Exit F)
  exit_at c e =
      if str_eq e.topic Topic.lifecycle_stopped
      then exit_by c e (readable parse_stopped e)
      else none

  -- The death report on the claim `c` that a record is.
  abbrev pub report_at : ℕ → Envelope F → Option (DeathReport F)
  report_at c e =
      if str_eq e.topic Topic.lifecycle_stopped then none else report_by c e (readable parse_died e)

  abbrev pub is_readable : Envelope F → Bool
  is_readable e =
      if str_eq e.topic Topic.lifecycle_stopped
      then is_some (readable parse_stopped e)
      else is_some (readable parse_died e)

  -- An unreadable record that names no other claim, and one that names the claim.
  abbrev pub is_junk : ℕ → Envelope F → Bool
  is_junk c e = not (names_another (named_claim e) c) && not (is_readable e)

  abbrev pub ends_unread : ℕ → Envelope F → Bool
  ends_unread c e = names_claim (named_claim e) c && not (is_readable e)

  abbrev pub exits : ℕ → List (Envelope F) → List (Exit F)
  exits c es = collect (exit_at c) es

  abbrev pub reports_in : ℕ → List (Envelope F) → List (DeathReport F)
  reports_in c es = collect (report_at c) es

  abbrev pub junk : ℕ → List (Envelope F) → List ℕ
  junk c es = collect (λ e. seq_if (is_junk c e) e) es

  -- A round reads what its record is.
  pub read_one_lem :
      (c : ℕ) (st : Read F) (e : Envelope F)
      → read_one c st e ≡ (
          settle st.exit (cons_some (exit_at c e) [])
          >>= with_exit (
              add_all st
                (cons_some (report_at c e) [])
                (ends_unread c e)
                (cons_some (seq_if (is_junk c e) e) [])))
  unfolding read_one
  read_one_lem c st e = elim (Bool-cases (str_eq e.topic Topic.lifecycle_stopped)) [
    | inl stop ↦ elim (Option-cases (readable parse_stopped e)) [
      | inl bad ↦ rw (stop, bad, read_one) (junk_lem c (named_claim e) st e)
      | inr (s, h) ↦ rw (stop, h, stopped-names e s h, read_one) (exit_lem c st e s)
    ]
    | inr other ↦ elim (Option-cases (readable parse_died e)) [
      | inl bad ↦ rw (other, bad, read_one) (junk_lem c (named_claim e) st e)
      | inr (d, h) ↦ rw (other, h, died-names e d h, read_one) (report_lem c st e d)
    ]
  ]

  -- The loop from any state.
  pub read_all_lem :
      (c : ℕ) (st : Read F) (es : List (Envelope F))
      → read_all c st es ≡ (
          settle st.exit (exits c es)
          >>= with_exit (add_all st (reports_in c es) (any (ends_unread c) es) (junk c es)))
  unfolding read_all
  read_all_lem c st [] = ground (arith, append-nil st.reports, append-nil st.malformed)
  read_all_lem c st (e ∷ es) =
      let x = exit_at c e in
      let one =
        add_all st (cons_some (report_at c e) []) (ends_unread c e)
          (cons_some (seq_if (is_junk c e) e) []) in
      rw (read_one_lem c st e, settle-then st.exit x (exits c es))
        (elim (Result-cases (settle st.exit (cons_some x []))) [
          | inr (z, h) ↦ rw h refl
          | inl (o, h) ↦
              rw (h, read_all_lem c (record one { exit = o }) es)
                (ap (λ k. settle o (exits c es) >>= k)
                  (fun_ext (λ o'.
                    add_twice st (report_at c e) (ends_unread c e) (seq_if (is_junk c e) e)
                      (reports_in c es) (any (ends_unread c) es) (junk c es) o')))
        ])
