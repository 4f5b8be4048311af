-- ===== src/Vocabulary/Payloads/Exits.antt =====
-- `Stopped(**body)` of runstate/vocabulary/payloads.py: its fields, its keys, and the checks that
-- relate fields.
use runstate.Prelude.{
  ◌≤◌, String, ◌≡◌, refl, subst, ◌⊎◌, true, false, Option, none, some, [], ◌∷◌, arith, Ensures,
  bind-Ensures, Ensures-of, ok,
}
use runstate.Json.{Number, Json, Fields, bool, list, get}
use runstate.Vocabulary.Checks.{
  takes, check, seq_of, parent_of, bool_of, values_of, names_of, error_of, time_of, zero_le,
}
use runstate.Vocabulary.Payloads.Lifecycle.{
  Stopped, is_some, stopped_keys, exit_checks, parse_stopped,
}
use runstate.Vocabulary.Payloads.Wire.{seq_json, parent_json, values_json, name_array, error_json}
use runstate.Vocabulary.Payloads.Valid.{
  IsParent, IsValues, IsNames, seq_of_sound, parent_of-sound, values_of_sound, names_of-sound,
  seq_of-seq_json, parent_of-parent_json, values_of-values_json, names_of-name_array,
  error_of-error_json, bool_of-bool,
}
use runstate.Vocabulary.Payloads.Bodies.{
  HasOnly, IsTime, takes-Ensures, sent-Ensures, IsTime-Ensures, IsTime-reads, check-get,
  has_key-get, HasOnly-only_keys, seq_of_inverse, bool_of_inverse, error_of_inverse,
  parent_of_inverse, values_of_inverse, names_of-inverse,
}

module _ {F : Type 0} ⦃num : Number F⦄ where
  pub record IsStopped (s : Stopped F) : Type 0 where
    pub claim : 1 ≤ s.claim_seq
    pub honored : IsNames s.honored
    pub parent : IsParent s.parent
    pub values : IsValues s.values
    pub fired : IsNames s.fired
    pub expired : IsNames s.expired
    pub time : zero_le s.t ≡ true
    pub clean : (s.completed ≡ false) ⊎ (s.error ≡ none)
    pub discards : (s.error ≡ none) ⊎ (s.values ≡ none)
    pub silent : (is_some s.values ≡ true) ⊎ ((s.fired ≡ []) × (s.expired ≡ []))

  -- The body holds the nine fields of the exit and no other.
  pub record IsStoppedBody (body : Fields F) (s : Stopped F) : Type 0 where
    pub keys :
        HasOnly
          ("completed" ∷ "error" ∷ "claim_seq" ∷ "honored" ∷ "parent" ∷ "values" ∷ "fired"
            ∷ "expired" ∷ "t" ∷ [])
          body
    pub completed : get "completed" body ≡ some (bool s.completed)
    pub error : get "error" body ≡ some (error_json s.error)
    pub claim_seq : get "claim_seq" body ≡ some (seq_json s.claim_seq)
    pub honored : get "honored" body ≡ some (list (name_array s.honored))
    pub parent : get "parent" body ≡ some (parent_json s.parent)
    pub values : get "values" body ≡ some (values_json s.values)
    pub fired : get "fired" body ≡ some (list (name_array s.fired))
    pub expired : get "expired" body ≡ some (list (name_array s.expired))
    pub time : IsTime (get "t" body) s.t

  pub exit_checks-eq : (r s : Stopped F) → exit_checks r ≡ ok s → r ≡ s
  unfolding exit_checks
  exit_checks-eq r s h = ground arith

  exit_checks-clean :
      (r s : Stopped F) → exit_checks r ≡ ok s → (r.completed ≡ false) ⊎ (r.error ≡ none)
  unfolding exit_checks
  exit_checks-clean r s h = ground arith

  exit_checks-discards :
      (r s : Stopped F) → exit_checks r ≡ ok s → (r.error ≡ none) ⊎ (r.values ≡ none)
  unfolding exit_checks
  exit_checks-discards r s h = ground arith

  exit_checks-silent :
      (r s : Stopped F)
      → exit_checks r ≡ ok s
      → (is_some r.values ≡ true) ⊎ ((r.fired ≡ []) × (r.expired ≡ []))
  unfolding exit_checks
  exit_checks-silent r s h = ground arith

  pub exit_checks-coherent : (s : Stopped F) → IsStopped s → exit_checks s ≡ ok s
  unfolding exit_checks
  exit_checks-coherent s v = ground (arith, v.clean, v.discards, v.silent)

  names-Ensures :
      (k : String) (body : Fields F)
      → Ensures
          (λ ss. IsNames ss × (get k body ≡ some (list (name_array ss))))
          (check k names_of body)
  names-Ensures k body =
      sent-Ensures IsNames (λ ss. list (name_array ss)) k names_of body names_of-sound
        names_of-inverse

  -- What the checks of the single fields establish.
  record IsFields (s : Stopped F) : Type 0 where
    claim : 1 ≤ s.claim_seq
    honored : IsNames s.honored
    parent : IsParent s.parent
    values : IsValues s.values
    fired : IsNames s.fired
    expired : IsNames s.expired
    time : zero_le s.t ≡ true

  exit_checks-Ensures :
      (body : Fields F) (r : Stopped F)
      → IsFields r
      → IsStoppedBody body r
      → Ensures (λ s. IsStopped s × IsStoppedBody body s) (exit_checks r)
  exit_checks-Ensures body r v b = Ensures-of (exit_checks r) λ s kept.
      let related : IsStopped r = record {
        claim = v.claim;
        honored = v.honored;
        parent = v.parent;
        values = v.values;
        fired = v.fired;
        expired = v.expired;
        time = v.time;
        clean = exit_checks-clean r s kept;
        discards = exit_checks-discards r s kept;
        silent = exit_checks-silent r s kept;
      } in
      subst (λ x. IsStopped x × IsStoppedBody body x) (exit_checks-eq r s kept) (related, b)

  any_sent-Ensures :
      {A : Type 0} (json : A → Json F) (k : String) (read : Json F → Option A) (body : Fields F)
      → ((j : Json F) (a : A) → read j ≡ some a → j ≡ json a)
      → Ensures (λ a. Unit {0} × (get k body ≡ some (json a))) (check k read body)
  any_sent-Ensures json k read body back =
      sent-Ensures (λ _. Unit {0}) json k read body (λ _ _ _. tt) back

  pub IsStoppedBody-Ensures :
      (body : Fields F) → Ensures (λ s. IsStopped s × IsStoppedBody body s) (parse_stopped body)
  unfolding parse_stopped
  IsStoppedBody-Ensures body = bind-Ensures (takes-Ensures stopped_keys body) λ _ keys.
      bind-Ensures (any_sent-Ensures bool "completed" bool_of body bool_of_inverse) λ d hd.
        bind-Ensures (any_sent-Ensures error_json "error" error_of body error_of_inverse) λ e he.
          bind-Ensures (sent-Ensures _ seq_json "claim_seq" seq_of body seq_of_sound seq_of_inverse)
            λ c hc. bind-Ensures (names-Ensures "honored" body) λ h hh.
              bind-Ensures
                (sent-Ensures _ parent_json "parent" parent_of body parent_of-sound
                  parent_of_inverse)
                λ p hp.
                  bind-Ensures
                    (sent-Ensures _ values_json "values" values_of body values_of_sound
                      values_of_inverse)
                    λ vs hv. bind-Ensures (names-Ensures "fired" body) λ f hf.
                      bind-Ensures (names-Ensures "expired" body) λ x hx.
                        bind-Ensures (IsTime-Ensures "t" body) λ t ht.
                          exit_checks-Ensures body _
                            (record {
                              claim = hc.0;
                              honored = hh.0;
                              parent = hp.0;
                              values = hv.0;
                              fired = hf.0;
                              expired = hx.0;
                              time = ht.0;
                            })
                            (record {
                              keys = keys;
                              completed = hd.1;
                              error = he.1;
                              claim_seq = hc.1;
                              honored = hh.1;
                              parent = hp.1;
                              values = hv.1;
                              fired = hf.1;
                              expired = hx.1;
                              time = ht.1;
                            })

  takes-body :
      (body : Fields F) (s : Stopped F)
      → IsStopped s
      → IsStoppedBody body s
      → takes stopped_keys body ≡ ok tt
  unfolding takes
  takes-body body s v b =
      let clock = IsTime-reads (get "t" body) s.t b.time v.time in
      rw
        (
          has_key-get "completed" body _ b.completed,
          has_key-get "error" body _ b.error,
          has_key-get "claim_seq" body _ b.claim_seq,
          has_key-get "honored" body _ b.honored,
          has_key-get "parent" body _ b.parent,
          has_key-get "values" body _ b.values,
          has_key-get "fired" body _ b.fired,
          has_key-get "expired" body _ b.expired,
          has_key-get "t" body _ clock.1,
          HasOnly-only_keys stopped_keys body b.keys,
          takes,
        )
        refl

  pub parse_stopped-body :
      (body : Fields F) (s : Stopped F)
      → IsStopped s
      → IsStoppedBody body s
      → parse_stopped body ≡ ok s
  unfolding parse_stopped
  parse_stopped-body body s v b =
      let clock = IsTime-reads (get "t" body) s.t b.time v.time in
      rw
        (
          takes-body body s v b,
          check-get "completed" bool_of body _ s.completed b.completed (bool_of-bool F s.completed),
          check-get "error" error_of body _ s.error b.error (error_of-error_json F s.error),
          check-get "claim_seq" seq_of body _ s.claim_seq b.claim_seq
              (seq_of-seq_json F s.claim_seq v.claim),
          check-get "honored" names_of body _ s.honored b.honored
              (names_of-name_array F s.honored v.honored),
          check-get "parent" parent_of body _ s.parent b.parent
              (parent_of-parent_json F s.parent v.parent),
          check-get "values" values_of body _ s.values b.values
              (values_of-values_json F s.values v.values),
          check-get "fired" names_of body _ s.fired b.fired (names_of-name_array F s.fired v.fired),
          check-get "expired" names_of body _ s.expired b.expired
              (names_of-name_array F s.expired v.expired),
          check-get "t" time_of body _ s.t clock.1 clock.2,
        )
        (exit_checks-coherent s v)
